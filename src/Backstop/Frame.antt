-- ===== src/Backstop/Frame.antt =====
-- What the calls of the backstop leave alone: accrued emissions (backstop/src/emissions/distributor.rs)
-- and calls of other contracts do not touch a balance.
use blend_contracts_v.Prelude.{
  Bool-cases, Option-cases, ok-injective, ok, ◌≡◌, refl, ◌∙◌, subst, inl, inr, Option, leb, ◌==◌,
  >>=-elim, eqb_ℤ, pos, ◌||◌, ℤ, Bool, true, false, not,
}
use blend_contracts_v.Env.{Address}
use blend_contracts_v.Backstop.{PoolBalance, UserBalance}
use blend_contracts_v.Backstop.Ledger.{
  BackstopEnv, BackstopLedger, call_contract, BackstopCall, BackstopEmissionData,
  get_backstop_emis_data, get_user_emis_data,
}
use blend_contracts_v.Backstop.Rewards.{
  update_backstop_data, advance_index, settle_depositor, update_depositor, update_rewards,
  scalar_14, accrue_depositor,
}

-- What a call that reads, or that moves tokens and emissions, leaves alone.
pub record IsSameBalances (l l' : BackstopLedger) : Type 0 where
  pub users : l'.user_balances ≡ l.user_balances
  pub pools : l'.pool_balances ≡ l.pool_balances

pub same_trans :
    {l₁ l₂ l₃ : BackstopLedger} → IsSameBalances l₁ l₂ → IsSameBalances l₂ l₃ → IsSameBalances l₁ l₃
same_trans a b = record { users = b.users ∙ a.users; pools = b.pools ∙ a.pools }

pub same_refl : (l : BackstopLedger) → IsSameBalances l l
same_refl l = record { users = refl; pools = refl }

pub call_contract-IsSameBalances :
    (e : BackstopEnv) (l : BackstopLedger) (c : BackstopCall) {l' : BackstopLedger}
    → call_contract e l c ≡ ok l'
    → IsSameBalances l l'
unfolding call_contract
call_contract-IsSameBalances e l c h = elim (Bool-cases (e.accepts l.calls c)) [
  | inl goes ↦
      subst (IsSameBalances l) (ok-injective (rw goes at h)) (record { users = refl; pools = refl })
  | inr stops ↦ let impossible = rw stops at h in absurd (cc)
]

update_backstop_data-same :
    (e : BackstopEnv) (l : BackstopLedger) (pool : Address) (b : PoolBalance) {l' : BackstopLedger}
    {d : Option BackstopEmissionData}
    → update_backstop_data e l pool b ≡ ok (l', d)
    → IsSameBalances l l'
unfolding update_backstop_data
update_backstop_data-same e l pool b {l'} h = elim (Option-cases (get_backstop_emis_data l pool)) [
  | inl q ↦
      subst (λ (a, c). IsSameBalances l a) (ok-injective (rw (q, update_backstop_data) at h))
        (same_refl l)
  | inr (d, q) ↦
      let settled =
        leb d.expiration d.last_time
        || e.timestamp == d.last_time
        || d.eps == 0
        || eqb_ℤ b.shares (pos 0) in
      let h1 = rw (q, update_backstop_data) at h in
      elim (Bool-cases settled) [
        | inl done ↦
            subst (λ (a, c). IsSameBalances l a) (ok-injective (rw done at h1)) (same_refl l)
        | inr due ↦ >>=-elim (advance_index e d b) _ (rw due at h1) λ d' e1 h2.
            subst (λ (a, c). IsSameBalances l a) (ok-injective h2)
              (record { users = refl; pools = refl })
      ]
]

settle_depositor-same :
    (l : BackstopLedger) (pool user : Address) (index accrued : ℤ) (to_claim : Bool)
    → IsSameBalances l (settle_depositor l pool user index accrued to_claim).0
unfolding settle_depositor
settle_depositor-same l pool user index accrued true = record { users = refl; pools = refl }
settle_depositor-same l pool user index accrued false = record { users = refl; pools = refl }

update_depositor-same :
    (e : BackstopEnv) (l : BackstopLedger) (pool user : Address) (d : BackstopEmissionData)
    (b : UserBalance) (to_claim : Bool) {l' : BackstopLedger} {paid : ℤ}
    → update_depositor e l pool user d b to_claim ≡ ok (l', paid)
    → IsSameBalances l l'
unfolding update_depositor
update_depositor-same e l pool user d b to_claim {l'} h =
    elim (Option-cases (get_user_emis_data l pool user)) [
      | inl q ↦
          let h1 = rw (q, update_depositor) at h in
          elim (Bool-cases (eqb_ℤ b.shares (pos 0))) [
            | inl nothing ↦
                subst (λ (a, c). IsSameBalances l a) (ok-injective (rw nothing at h1))
                  (settle_depositor-same l pool user d.index (pos 0) to_claim)
            | inr some_shares ↦
                >>=-elim (e.fixed_point.fixed_mul_floor b.shares d.index scalar_14) _
                  (rw some_shares at h1)
                  λ n e1 h2.
                    subst (λ (a, c). IsSameBalances l a) (ok-injective h2)
                      (settle_depositor-same l pool user d.index n to_claim)
          ]
      | inr (u, q) ↦
          let h1 = rw (q, update_depositor) at h in
          elim (Bool-cases (not (eqb_ℤ u.index d.index) || to_claim)) [
            | inl moves ↦ >>=-elim (accrue_depositor e d b u) _ (rw moves at h1) λ n e1 h2.
                subst (λ (a, c). IsSameBalances l a) (ok-injective h2)
                  (settle_depositor-same l pool user d.index n to_claim)
            | inr rests ↦
                subst (λ (a, c). IsSameBalances l a) (ok-injective (rw rests at h1)) (same_refl l)
          ]
    ]

pub update_rewards-IsSameBalances :
    (e : BackstopEnv) (l : BackstopLedger) (pool : Address) (b : PoolBalance) (user : Address)
    (u : UserBalance) {l' : BackstopLedger}
    → update_rewards e l pool b user u ≡ ok l'
    → IsSameBalances l l'
unfolding update_rewards
update_rewards-IsSameBalances e l pool b user u h =
    >>=-elim (update_backstop_data e l pool b) _ h λ (l₁, data') e1 h1.
      let first = update_backstop_data-same e l pool b e1 in
      elim (Option-cases data') [
        | inl q ↦ subst (IsSameBalances l) (ok-injective (rw q at h1)) first
        | inr (d, q) ↦
            >>=-elim (update_depositor e l₁ pool user d u false) _ (rw q at h1) λ (l₂, paid) e2 h2.
              subst (IsSameBalances l) (ok-injective h2)
                (same_trans first (update_depositor-same e l₁ pool user d u false e2))
      ]
