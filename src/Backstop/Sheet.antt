-- ===== src/Backstop/Sheet.antt =====
-- The balance sheet of a pool's backstop: through any sequence of messages to the contract
-- (backstop/src/contract.rs) the pool's shares are those of its depositors.
use blend_contracts_v.Prelude.{
  ◌==◌, ℤ, ◌+ℤ◌, pos, ◌≡◌, refl, Bool, true, false, not, ◌&&◌, List, [], ◌∷◌, if◌then◌else◌,
  Bool-cases, pos_part, neg_part, NonNeg, eq_of_parts, int_laws, ap, ◌∙◌, subst, inl, inr, some,
  arith, sym,
}
use blend_contracts_v.Env.{Address}
use blend_contracts_v.Backstop.{PoolBalance, UserBalance}
use blend_contracts_v.Backstop.Ledger.{BackstopLedger, get_pool_balance, get_user_balance}
use blend_contracts_v.Pool.{contains}
use blend_contracts_v.Storage.{update₂, update, unwrap_or}
use blend_contracts_v.Backstop.Entry.{IsEntry}
use blend_contracts_v.Backstop.Account.{holding, IsWell}
use blend_contracts_v.Backstop.TokenMoves.{IsTokenMove}
use blend_contracts_v.Backstop.Queue.{queued}

unfoldable pub distinct : List Address → Bool
distinct [] = true
distinct (a ∷ as') = not (contains as' a) && distinct as'

-- A sum over some users.
unfoldable pub sum_over : (Address → ℤ) → List Address → ℤ
sum_over f [] = pos 0
sum_over f (a ∷ as') = f a +ℤ sum_over f as'

sum_over-same :
    (f g : Address → ℤ) (user : Address) (users : List Address)
    → contains users user ≡ false
    → ((u : Address) → (u == user) ≡ false → g u ≡ f u)
    → sum_over g users ≡ sum_over f users
unfolding sum_over
sum_over-same f g user [] out other = refl
sum_over-same f g user (a ∷ as') out other = elim (Bool-cases (user == a)) [
  | inl same ↦ let impossible = rw same at out in absurd (cc)
  | inr q ↦ rw (other a (ground (arith, q)), sum_over-same f g user as' (rw q at out) other) refl
]

-- One summand of a sum over distinct users changes.
sum_over-change :
    (f g : Address → ℤ) (user : Address) (users : List Address)
    → distinct users ≡ true
    → contains users user ≡ true
    → ((u : Address) → (u == user) ≡ false → g u ≡ f u)
    → sum_over g users +ℤ f user ≡ sum_over f users +ℤ g user
unfolding sum_over distinct
sum_over-change f g user [] d inside other = absurd (cc)
sum_over-change f g user (a ∷ as') d inside other = elim (Bool-cases (contains as' a)) [
  | inl twice ↦ let impossible = rw twice at d in absurd (cc)
  | inr once ↦ elim (Bool-cases (user == a)) [
    | inl q ↦
        let here : a ≡ user = ground (arith, q) in
        let rest =
          sum_over-same f g user as' (subst (λ x. contains as' x ≡ false) here once) other in
        eq_of_parts _ _ (
          omega (
            int_laws,
            ap pos_part rest,
            ap neg_part rest,
            ap (λ x. pos_part (f x)) here,
            ap (λ x. neg_part (f x)) here,
            ap (λ x. pos_part (g x)) here,
            ap (λ x. neg_part (g x)) here,
          ))
    | inr q ↦
        let rest = sum_over-change f g user as' (rw once at d) (rw q at inside) other in
        let this = other a (ground (arith, q)) in
        eq_of_parts _ _
          (omega (int_laws, ap pos_part rest, ap neg_part rest, ap pos_part this, ap neg_part this))
  ]
]

-- Two numbers that agree and change by the same amount still agree.
follow : (b b' s s' h h' : ℤ) → b' +ℤ h ≡ b +ℤ h' → s' +ℤ h ≡ s +ℤ h' → b ≡ s → b' ≡ s'
follow b b' s s' h h' p q r = eq_of_parts _ _ (
    omega (
      int_laws,
      ap pos_part p,
      ap neg_part p,
      ap pos_part q,
      ap neg_part q,
      ap pos_part r,
      ap neg_part r,
    ))

-- The pool's shares and queued shares are those of the users, and nothing is negative.
pub record IsSheet (users : List Address) (pool : Address) (l : BackstopLedger) : Type 0 where
  pub shares :
      (get_pool_balance l pool).shares ≡ sum_over (λ u. holding (get_user_balance l pool u)) users
  pub q4w :
      (get_pool_balance l pool).q4w ≡ sum_over (λ u. queued (get_user_balance l pool u).q4w) users
  pub tokens : NonNeg (get_pool_balance l pool).tokens
  pub well : (u : Address) → IsWell (get_user_balance l pool u)

-- The balances of a pool and its users are read from the two maps.
pub get_user_balance-set :
    (l l' : BackstopLedger) (pool user : Address) (b : UserBalance) (p u : Address)
    → l'.user_balances ≡ update₂ l.user_balances pool user (some b)
    → get_user_balance l' p u ≡ (if p == pool && u == user then b else get_user_balance l p u)
get_user_balance-set l l' pool user b p u same =
    ap (λ m. unwrap_or (m p u) (record { shares = pos 0; q4w = [] })) same ∙ ground arith

pub get_pool_balance-set :
    (l l' : BackstopLedger) (pool : Address) (b : PoolBalance) (p : Address)
    → l'.pool_balances ≡ update l.pool_balances pool (some b)
    → get_pool_balance l' p ≡ (if p == pool then b else get_pool_balance l p)
get_pool_balance-set l l' pool b p same =
    ap (λ m. unwrap_or (m p) (record { shares = pos 0; tokens = pos 0; q4w = pos 0 })) same
    ∙ ground arith

module _ (users : List Address) (l l' : BackstopLedger) (pool at user : Address)
    (s : IsSheet users pool l) where
  -- What happens at another pool does not show.
  elsewhere-IsSheet :
      (get_pool_balance l' pool ≡ get_pool_balance l pool)
      → ((u : Address) → get_user_balance l' pool u ≡ get_user_balance l pool u)
      → IsSheet users pool l'
  elsewhere-IsSheet b u = record {
    shares = ap (λ x. x.shares) b ∙ s.shares ∙ (λ i. sum_over (λ a. holding (sym (u a) i)) users);
    q4w = ap (λ x. x.q4w) b ∙ s.q4w ∙ (λ i. sum_over (λ a. queued (sym (u a) i).q4w) users);
    tokens = subst (λ x. NonNeg x.tokens) (sym b) s.tokens;
    well = λ a. subst IsWell (sym (u a)) (s.well a);
  }

module _ (users : List Address) (unique : distinct users ≡ true) (l l' : BackstopLedger)
    (pool user : Address) (s : IsSheet users pool l) where
  entry-IsSheet : contains users user ≡ true → IsEntry l pool user l' → IsSheet users pool l'
  entry-IsSheet member e =
      let b : get_pool_balance l' pool ≡ e.pool_balance =
        ground (arith, get_pool_balance-set l l' pool e.pool_balance pool e.pools) in
      let at_user : get_user_balance l' pool user ≡ e.user_balance =
        ground (arith, get_user_balance-set l l' pool user e.user_balance pool user e.users) in
      let others : (u : Address)
          → (u == user) ≡ false
          → get_user_balance l' pool u ≡ get_user_balance l pool u =
        λ u h.
          ground (arith, h, get_user_balance-set l l' pool user e.user_balance pool u e.users) in
      let held =
        sum_over-change (λ u. holding (get_user_balance l pool u))
          (λ u. holding (get_user_balance l' pool u)) user users unique member
          (λ u h. ap holding (others u h)) in
      let waits =
        sum_over-change (λ u. queued (get_user_balance l pool u).q4w)
          (λ u. queued (get_user_balance l' pool u).q4w) user users unique member
          (λ u h. ap (λ x. queued x.q4w) (others u h)) in
      let m = e.matched in
      record {
        shares =
            ap (λ x. x.shares) b
            ∙ follow _ _ _ _ _ _
                (m.shares ∙ ap (λ x. (get_pool_balance l pool).shares +ℤ holding x) (sym at_user))
                held s.shares;
        q4w =
            ap (λ x. x.q4w) b
            ∙ follow _ _ _ _ _ _
                (m.q4w ∙ ap (λ x. (get_pool_balance l pool).q4w +ℤ queued x.q4w) (sym at_user))
                waits s.q4w;
        tokens = subst (λ x. NonNeg x.tokens) (sym b) m.tokens;
        well = λ u. elim (Bool-cases (u == user)) [
          | inl q ↦
              let this : user ≡ u = ground (arith, q) in
              subst (λ x. IsWell (get_user_balance l' pool x)) this
                (subst IsWell (sym at_user) m.well)
          | inr q ↦ subst IsWell (sym (others u q)) (s.well u)
        ];
      }

module _ (users : List Address) (unique : distinct users ≡ true) (l l' : BackstopLedger)
    (pool at : Address) (s : IsSheet users pool l) where
  -- A depositor's call at any pool keeps the sheet of every pool.
  pub IsEntry-IsSheet :
      (user : Address) → contains users user ≡ true → IsEntry l at user l' → IsSheet users pool l'
  IsEntry-IsSheet user member e = elim (Bool-cases (pool == at)) [
    | inl q ↦
        let here : at ≡ pool = ground (arith, q) in
        entry-IsSheet users unique l l' pool user s member (subst (λ x. IsEntry l x user l') here e)
    | inr q ↦
        elsewhere-IsSheet users l l' pool at user s
          (ground (arith, q, get_pool_balance-set l l' at e.pool_balance pool e.pools))
          (λ u. ground (arith, q, get_user_balance-set l l' at user e.user_balance pool u e.users))
  ]

  pub IsTokenMove-IsSheet : IsTokenMove l at l' → IsSheet users pool l'
  IsTokenMove-IsSheet m =
      let each : (u : Address) → get_user_balance l' pool u ≡ get_user_balance l pool u =
        λ u. ap (λ f. unwrap_or (f pool u) (record { shares = pos 0; q4w = [] })) m.users in
      elim (Bool-cases (pool == at)) [
        | inl q ↦
            let here : at ≡ pool = ground (arith, q) in
            let now : get_pool_balance l' pool ≡ m.pool_balance =
              ground (arith, q, get_pool_balance-set l l' at m.pool_balance pool m.pools) in
            record {
              shares =
                  ap (λ x. x.shares) now
                  ∙ m.shares
                  ∙ ap (λ x. (get_pool_balance l x).shares) here
                  ∙ s.shares
                  ∙ (λ i. sum_over (λ a. holding (sym (each a) i)) users);
              q4w =
                  ap (λ x. x.q4w) now
                  ∙ m.q4w
                  ∙ ap (λ x. (get_pool_balance l x).q4w) here
                  ∙ s.q4w
                  ∙ (λ i. sum_over (λ a. queued (sym (each a) i).q4w) users);
              tokens = subst (λ x. NonNeg x.tokens) (sym now) m.tokens;
              well = λ a. subst IsWell (sym (each a)) (s.well a);
            }
        | inr q ↦
            elsewhere-IsSheet users l l' pool at at s
              (ground (arith, q, get_pool_balance-set l l' at m.pool_balance pool m.pools)) each
      ]
