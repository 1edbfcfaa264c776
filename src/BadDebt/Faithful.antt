-- ===== src/BadDebt/Faithful.antt =====
-- The settlement of bad debt is faithful to the pool's configuration and its oracle:
-- `check_and_handle_user_bad_debt` of pool/src/pool/bad_debt.rs.
use blend_contracts_v.Pool.Faithful.{
  IsFaithful, ◌after◌, same, load_reserve-IsFaithful, cache_reserve-IsFaithful,
}
use blend_contracts_v.Prelude.{
  ℕ, ◌==◌, Bool-cases, >>=-elim, ok-injective, ok, ℤ, ◌≡◌, sym, ap, inl, inr, Bool, true, false,
  not, List, [], ◌∷◌,
}
use blend_contracts_v.Prelude.Map.{Map}
use blend_contracts_v.Env.{Env, Address, env_math}
use blend_contracts_v.Storage.{Ledger, get_unchecked, get_res_list, length}
use blend_contracts_v.Pool.{Pool, load_reserve, cache_reserve}
use blend_contracts_v.User.{User, has_liabilities, remove_collateral, add_supply, get_supply}
use blend_contracts_v.BadDebt.{
  settle_debts, orphan_collateral, positive_collateral, settle_all, has_collateral_value,
  pay_with_supply, forgive_rest, any_positive, require_no_b_token_emissions,
  check_and_handle_user_bad_debt, should_orphan_collateral, supply_setoff,
}
use blend_contracts_v.Health.{calculate_from_positions}
use blend_contracts_v.Health.Faithful.{calculate_from_positions-IsFaithful}
use blend_contracts_v.User

abbrev Settled : Type 0
Settled = Ledger × Pool × User × Bool

module _ (e : Env) where
  settle_debts-IsFaithful :
      (reserve_list : List Address) (m : Map ℤ) (l : Ledger) (pool : Pool) (u : User) (had : Bool)
      {r : Settled}
      → settle_debts e reserve_list m l pool u had ≡ ok r
      → IsFaithful e pool r.1
  unfolding settle_debts
  settle_debts-IsFaithful reserve_list [] l pool u had h =
      same e (ap (λ (x : Settled). x.1) (sym (ok-injective h)))
  settle_debts-IsFaithful reserve_list ((index, amount) ∷ m) l pool u had h =
      >>=-elim (get_unchecked reserve_list index) _ h λ asset e1 h1.
        >>=-elim (load_reserve e l pool asset true) _ h1 λ (noted, reserve) e2 h2.
          >>=-elim (supply_setoff (env_math e) reserve.state amount (get_supply u index)) _ h2
            λ setoff e3 h3.
              >>=-elim (pay_with_supply e setoff l u reserve) _ h3 λ (l₁, u₁, r₁) e4 h4.
                >>=-elim (forgive_rest e setoff l₁ u₁ r₁) _ h4 λ (l₂, u₂, r₂) e5 h5.
                  settle_debts-IsFaithful reserve_list m l₂ (cache_reserve noted r₂) u₂ _ h5
                  after cache_reserve-IsFaithful e noted r₂
                  after load_reserve-IsFaithful e l pool asset true e2

  orphan_collateral-IsFaithful :
      (entries : List (Address × ℕ × ℤ)) (l : Ledger) (pool : Pool) (u pool_user : User)
      {r : Ledger × Pool × User × User}
      → orphan_collateral e entries l pool u pool_user ≡ ok r
      → IsFaithful e pool r.1
  unfolding orphan_collateral
  orphan_collateral-IsFaithful [] l pool u pool_user h =
      same e (ap (λ (x : Ledger × Pool × User × User). x.1) (sym (ok-injective h)))
  orphan_collateral-IsFaithful ((asset, index, amount) ∷ m) l pool u pool_user h =
      >>=-elim (require_no_b_token_emissions e l index) _ h λ done e1 h1.
        >>=-elim (load_reserve e l pool asset true) _ h1 λ (noted, reserve) e2 h2.
          >>=-elim (remove_collateral e l u reserve amount) _ h2 λ (l₁, u₁, r₁) e3 h3.
            >>=-elim (add_supply e l₁ pool_user r₁ amount) _ h3 λ (l₂, pool_user₂, r₂) e4 h4.
              orphan_collateral-IsFaithful m l₂ (cache_reserve noted r₂) u₁ pool_user₂ h4
              after cache_reserve-IsFaithful e noted r₂
              after load_reserve-IsFaithful e l pool asset true e2

  settle_all-IsFaithful :
      (l : Ledger) (pool : Pool) (u : User) {r : Settled}
      → settle_all e l pool u ≡ ok r
      → IsFaithful e pool r.1
  unfolding settle_all
  settle_all-IsFaithful l pool u h =
      let reserve_list = get_res_list l in
      >>=-elim (positive_collateral reserve_list u.positions.collateral) _ h λ collateral e1 h1.
        >>=-elim (settle_debts e reserve_list u.positions.liabilities l pool u false) _ h1
          λ (l₁, pool₁, u₁, had) e2 h2.
            let first =
              settle_debts-IsFaithful reserve_list u.positions.liabilities l pool u false e2 in
            elim (Bool-cases (should_orphan_collateral had (not (length collateral == 0)))) [
              | inr keeps ↦
                  same e (ap (λ (x : Settled). x.1) (sym (ok-injective (rw keeps at h2))))
                  after first
              | inl orphans ↦
                  >>=-elim
                    (orphan_collateral e collateral l₁ pool₁ u₁
                      (User.load l₁ e.current_contract_address))
                    _ (rw orphans at h2)
                    λ (l₂, pool₂, u₂, pool_user) e3 h3.
                      same e (ap (λ (x : Settled). x.1) (sym (ok-injective h3)))
                      after orphan_collateral-IsFaithful collateral l₁ pool₁ u₁ _ e3
                      after first
            ]

  has_collateral_value-IsFaithful :
      (l : Ledger) (pool : Pool) (u : User) {r : Pool × Bool}
      → has_collateral_value e l pool u ≡ ok r
      → IsFaithful e pool r.0
  unfolding has_collateral_value
  has_collateral_value-IsFaithful l pool u h =
      elim (Bool-cases (any_positive u.positions.collateral)) [
        | inr nothing ↦
            same e (ap (λ (x : Pool × Bool). x.0) (sym (ok-injective (rw nothing at h))))
        | inl some_held ↦
            >>=-elim (calculate_from_positions e l pool u.positions) _ (rw some_held at h)
              λ (pool', data') e1 h1.
                same e (ap (λ (x : Pool × Bool). x.0) (sym (ok-injective h1)))
                after calculate_from_positions-IsFaithful e l u.positions pool e1
      ]

  pub check_and_handle_user_bad_debt-IsFaithful :
      (l : Ledger) (pool : Pool) (u : User) {r : Settled}
      → check_and_handle_user_bad_debt e l pool u ≡ ok r
      → IsFaithful e pool r.1
  unfolding check_and_handle_user_bad_debt
  check_and_handle_user_bad_debt-IsFaithful l pool u h =
      elim (Bool-cases (not (has_liabilities u))) [
        | inl nothing ↦ same e (ap (λ (x : Settled). x.1) (sym (ok-injective (rw nothing at h))))
        | inr owes ↦
            >>=-elim (has_collateral_value e l pool u) _ (rw owes at h) λ (pool', valued) e1 h1.
              let first = has_collateral_value-IsFaithful l pool u e1 in
              elim (Bool-cases valued) [
                | inl has_value ↦
                    same e (ap (λ (x : Settled). x.1) (sym (ok-injective (rw has_value at h1))))
                    after first
                | inr worthless ↦ settle_all-IsFaithful l pool' u (rw worthless at h1) after first
              ]
      ]
