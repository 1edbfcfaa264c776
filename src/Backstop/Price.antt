-- ===== src/Backstop/Price.antt =====
-- The price of a backstop share: what `convert_to_shares` and `convert_to_tokens` of
-- backstop/src/backstop/pool.rs give for a deposit and for a withdrawal.
use blend_contracts_v.Prelude.{
  ℕ, Bool-cases, Result, ◌>>=◌, >>=-elim, ok-injective, check, ok, ℤ, pos_part, NonNeg, ◌<ℤ◌, eqb_ℤ,
  pos, negsuc, ◌*◌, ◌≤◌, ◌≡◌, refl, sym, ◌∙◌, subst, inl, inr, arith, ◌+◌, ◌<◌, panic_if-elim, ◌+!◌,
  ◌-!◌, +!-parts, -!-parts, ◌≤ℤ◌, ltb_ℤ, ◌||◌,
}
use blend_contracts_v.Env.{FixedMath}
use blend_contracts_v.Backstop.{
  PoolBalance, convert_to_shares, convert_to_tokens, deposit, withdraw_balance,
}
use blend_contracts_v.Env.Math.{quotient_floor, IsFloor, quotient_floor-IsFloor}
use blend_contracts_v.Reserve.Rounding.{mul_mono}

-- The crate's `fixed_mul_floor` on plain `i128`: the product itself has to fit.
abbrev pub plain_quotient_floor : ℕ → ℕ → ℕ → Result ℤ
plain_quotient_floor x y d = check (pos (x * y)) >>= λ product. quotient_floor x y d

pub record IsPlainMath (math : FixedMath) : Type 0 where
  pub floor_nonneg : (x y d : ℕ) → math.floor (pos x) (pos y) (pos d) ≡ plain_quotient_floor x y d

-- A share is worth no less in the second balance, as cross products of tokens and shares.
abbrev pub IsNoCheaper : PoolBalance → PoolBalance → Type 0
IsNoCheaper b b' = pos_part b.tokens * pos_part b'.shares ≤ pos_part b'.tokens * pos_part b.shares

price_of_deposit : (S T x s : ℕ) → s * T ≤ x * S → T * (S + s) ≤ (T + x) * S
price_of_deposit S T x s h = grind arith

le_of_mul_le : (a b c : ℕ) → 0 < c → a * c ≤ b * c → a ≤ b
le_of_mul_le a b c p h = grind (arith, mul_mono (b + 1) a c)

value_of_deposit : (S T x s t : ℕ) → 0 < S → s * T ≤ x * S → t * (S + s) ≤ s * (T + x) → t ≤ x
value_of_deposit S T x s t p h k =
    let bound : t * (S + s) ≤ x * (S + s) = grind arith in
    le_of_mul_le t x (S + s) (omega (arith, p)) bound

price_of_withdrawal : (S T a t : ℕ) → t * (S + a) ≤ a * (T + t) → (T + t) * S ≤ T * (S + a)
price_of_withdrawal S T a t h = grind arith

module _ (math : FixedMath) (laws : IsPlainMath math) where
  plain_floor-IsFloor :
      (x y d : ℤ) {r : ℤ}
      → NonNeg x
      → NonNeg y
      → NonNeg d
      → math.floor x y d ≡ ok r
      → IsFloor x y d r
  plain_floor-IsFloor (pos x) (pos y) (pos d) _ _ _ h =
      >>=-elim (check (pos (x * y))) _ (sym (laws.floor_nonneg x y d) ∙ h)
        λ product e1 h1. quotient_floor-IsFloor x y d h1
  plain_floor-IsFloor (negsuc x) y d hx _ _ h = absurd (omega arith)
  plain_floor-IsFloor (pos x) (negsuc y) d _ hy _ h = absurd (omega arith)
  plain_floor-IsFloor (pos x) (pos y) (negsuc d) _ _ hd h = absurd (omega arith)

  -- For a pool with shares, the shares for a deposit cost no more than their price.
  convert_to_shares-rounds :
      (b : PoolBalance) (amount : ℤ) {s : ℤ}
      → pos 0 <ℤ b.shares
      → NonNeg b.shares
      → NonNeg b.tokens
      → NonNeg amount
      → convert_to_shares math b amount ≡ ok s
      → NonNeg s × (pos_part s * pos_part b.tokens ≤ pos_part amount * pos_part b.shares)
  unfolding convert_to_shares
  convert_to_shares-rounds b amount some_shares ns nt na h =
      elim (Bool-cases (eqb_ℤ b.shares (pos 0))) [
        | inl q ↦ absurd (ground (arith, some_shares, q))
        | inr q ↦ elim (Bool-cases (eqb_ℤ b.tokens (pos 0))) [
          | inl t ↦
              subst
                (λ x.
                  NonNeg x × (pos_part x * pos_part b.tokens ≤ pos_part amount * pos_part b.shares))
                (ok-injective (rw (q, t, convert_to_shares) at h)) (refl, omega arith)
          | inr t ↦
              let f =
                plain_floor-IsFloor amount b.shares b.tokens na ns nt
                  (rw (q, t, convert_to_shares) at h) in
              (f.nonneg, f.below)
        ]
      ]

  convert_to_tokens-rounds :
      (b : PoolBalance) (s : ℤ) {t : ℤ}
      → NonNeg b.shares
      → NonNeg b.tokens
      → NonNeg s
      → convert_to_tokens math b s ≡ ok t
      → NonNeg t × (pos_part t * pos_part b.shares ≤ pos_part s * pos_part b.tokens)
  unfolding convert_to_tokens
  convert_to_tokens-rounds b s ns nt na h = elim (Bool-cases (eqb_ℤ b.shares (pos 0))) [
    | inl q ↦
        subst (λ x. NonNeg x × (pos_part x * pos_part b.shares ≤ pos_part s * pos_part b.tokens))
          (ok-injective (rw (q, convert_to_tokens) at h)) (refl, omega arith)
    | inr q ↦ elim (Bool-cases (eqb_ℤ b.shares s)) [
      | inl t ↦
          subst (λ x. NonNeg x × (pos_part x * pos_part b.shares ≤ pos_part s * pos_part b.tokens))
            (ok-injective (rw (q, t, convert_to_tokens) at h))
            (
              nt,
              (let same : pos_part s ≡ pos_part b.shares = ground (arith, t, ns, na) in
                  grind (arith, same)),
            )
      | inr t ↦
          let f =
            plain_floor-IsFloor s b.tokens b.shares na nt ns (rw (q, t, convert_to_tokens) at h) in
          (f.nonneg, f.below)
    ]
  ]

  -- For a pool with shares and balances that are not negative, a deposit that is not negative
  -- makes no share cheaper, and the shares minted for it convert back, right after it, to at most
  -- the deposit.
  pub deposit-IsFair :
      (b : PoolBalance) (amount : ℤ) {s t : ℤ} {b' : PoolBalance}
      → pos 0 <ℤ b.shares
      → NonNeg b.shares
      → NonNeg b.tokens
      → NonNeg amount
      → convert_to_shares math b amount ≡ ok s
      → deposit b amount s ≡ ok b'
      → convert_to_tokens math b' s ≡ ok t
      → IsNoCheaper b b' × (t ≤ℤ amount)
  unfolding deposit
  deposit-IsFair b amount {s} {t} {b'} some_shares ns nt na h k g =
      let minted = convert_to_shares-rounds b amount some_shares ns nt na h in
      >>=-elim (b.tokens +! amount) _ k λ tokens' e1 k1.
        >>=-elim (b.shares +! s) _ k1 λ shares' e2 k2.
          let p1 = +!-parts b.tokens amount e1 in
          let p2 = +!-parts b.shares s e2 in
          let more_tokens : pos_part b'.tokens ≡ pos_part b.tokens + pos_part amount =
            subst (λ x. pos_part x.tokens ≡ pos_part b.tokens + pos_part amount) (ok-injective k2)
              (omega (arith, p1, nt, na)) in
          let more_shares : pos_part b'.shares ≡ pos_part b.shares + pos_part s =
            subst (λ x. pos_part x.shares ≡ pos_part b.shares + pos_part s) (ok-injective k2)
              (omega (arith, p2, ns, minted.0)) in
          let n1 : NonNeg b'.shares =
            subst (λ x. NonNeg x.shares) (ok-injective k2) (omega (arith, p2, ns, minted.0)) in
          let n2 : NonNeg b'.tokens =
            subst (λ x. NonNeg x.tokens) (ok-injective k2) (omega (arith, p1, nt, na)) in
          let paid = convert_to_tokens-rounds b' s n1 n2 minted.0 g in
          let price =
            price_of_deposit (pos_part b.shares) (pos_part b.tokens) (pos_part amount) (pos_part s)
              minted.1 in
          let value =
            value_of_deposit (pos_part b.shares) (pos_part b.tokens) (pos_part amount) (pos_part s)
              (pos_part t) (omega (arith, some_shares, ns)) minted.1
              (subst (λ (x, y). pos_part t * x ≤ pos_part s * y)
                (λ i. (more_shares i, more_tokens i)) paid.1) in
          (
            subst (λ (x, y). pos_part b.tokens * x ≤ y * pos_part b.shares)
                (λ i. (sym more_shares i, sym more_tokens i)) price,
            omega (arith, value, paid.0, na),
          )

  -- For balances that are not negative, the tokens paid for withdrawn shares that are not negative
  -- are at most the shares' part of the pool's tokens, and the withdrawal makes no other share
  -- cheaper.
  pub withdraw-IsFair :
      (b : PoolBalance) (s : ℤ) {t : ℤ} {b' : PoolBalance}
      → NonNeg b.shares
      → NonNeg b.tokens
      → NonNeg s
      → convert_to_tokens math b s ≡ ok t
      → withdraw_balance b t s ≡ ok b'
      → IsNoCheaper b b' × (pos_part t * pos_part b.shares ≤ pos_part s * pos_part b.tokens)
  unfolding withdraw_balance
  withdraw-IsFair b s {t} {b'} ns nt na h k =
      let paid = convert_to_tokens-rounds b s ns nt na h in
      panic_if-elim (ltb_ℤ b.tokens t || ltb_ℤ b.shares s || ltb_ℤ b.q4w s) _ _ k λ enough k1.
        >>=-elim (b.tokens -! t) _ k1 λ tokens' t1 k2.
          >>=-elim (b.shares -! s) _ k2 λ shares' t2 k3. >>=-elim (b.q4w -! s) _ k3 λ q4w' t3 k4.
            let p1 = -!-parts b.tokens t t1 in
            let p2 = -!-parts b.shares s t2 in
            let tokens : pos_part b.tokens ≡ pos_part tokens' + pos_part t =
              ground (arith, p1, nt, paid.0, enough) in
            let shares : pos_part b.shares ≡ pos_part shares' + pos_part s =
              ground (arith, p2, ns, na, enough) in
            let price =
              price_of_withdrawal (pos_part shares') (pos_part tokens') (pos_part s) (pos_part t) (
                subst (λ (x, y). pos_part t * x ≤ pos_part s * y) (λ i. (shares i, tokens i))
                  paid.1) in
            (
              subst (λ x. IsNoCheaper b x) (ok-injective k4)
                  (subst (λ (x, y). y * pos_part shares' ≤ pos_part tokens' * x)
                    (λ i. (sym shares i, sym tokens i)) price),
              paid.1,
            )
