-- ===== src/Backstop/Access.antt =====
-- When shares can be withdrawn: `withdraw_shares` of backstop/src/backstop/user.rs goes through exactly
-- up to the shares in the expired entries at the front of the queue.
use blend_contracts_v.Prelude.{
  ℕ, leb, Bool-cases, check, ok, ℤ, pos_part, ◌-ℤ◌, ◌≤ℤ◌, NonNeg, ◌<ℤ◌, ltb_ℤ, eqb_ℤ, -ℤ_parts, pos,
  ◌^◌, ◌<◌, ◌≡◌, refl, inl, inr, List, [], ◌∷◌, arith, +ℤ_parts, ◌↔◌,
}
use blend_contracts_v.Backstop.{Q4W, take_front, withdraw_shares, UserBalance}
use blend_contracts_v.Backstop.Queue.{queued, IsAtLeast, expired, withdraw_shares-IsWithdrawn}

-- An `i128` holds what is between zero and a number that it holds.
check-below : (z : ℤ) → NonNeg z → pos_part z < 2 ^ 127 → check z ≡ ok z
unfolding check
check-below z n h = ground arith

-- The shares of a queue that a word holds in total.
abbrev pub IsHeld : List Q4W → Type 0
IsHeld q = pos_part (queued q) < 2 ^ 127

queued-nonneg : (q : List Q4W) → IsAtLeast 0 q → NonNeg (queued q)
unfolding queued IsAtLeast
queued-nonneg [] p = refl
queued-nonneg (x ∷ q) p = ground (arith, queued-nonneg q p.1, +ℤ_parts x.amount (queued q), p.0)

take_front-takes :
    (now : ℕ) (q : List Q4W) (amount : ℤ)
    → IsAtLeast 0 q
    → IsHeld q
    → pos_part amount < 2 ^ 127
    → pos 0 <ℤ amount
    → amount ≤ℤ expired now q
    → (q' : List Q4W) × (take_front now q amount ≡ ok (q', pos 0))
unfolding take_front queued IsAtLeast expired
take_front-takes now [] amount p f g n h = absurd (omega arith)
take_front-takes now (cur ∷ rest) amount p f g n h =
    let later = queued-nonneg rest p.1 in
    let sum = +ℤ_parts cur.amount (queued rest) in
    elim (Bool-cases (leb cur.exp now)) [
      | inr locked ↦ let none_due = rw locked at h in absurd (omega arith)
      | inl due ↦
          let h1 = rw due at h in
          elim (Bool-cases (ltb_ℤ amount cur.amount)) [
            | inl part ↦
                let parts = -ℤ_parts cur.amount amount in
                let kept : check (cur.amount -ℤ amount) ≡ ok (cur.amount -ℤ amount) =
                  check-below _ (ground (arith, part, parts))
                    (ground (arith, part, parts, n, g, f, sum, later)) in
                (record cur { amount = cur.amount -ℤ amount } ∷ rest, rw (due, part, kept) refl)
            | inr whole ↦ elim (Bool-cases (eqb_ℤ cur.amount amount)) [
              | inl exact ↦ (rest, rw (due, whole, exact) refl)
              | inr more ↦
                  let parts = -ℤ_parts amount cur.amount in
                  let due_now = +ℤ_parts cur.amount (expired now rest) in
                  let smaller : pos_part (amount -ℤ cur.amount) < 2 ^ 127 =
                    ground (arith, whole, parts, g, p.0) in
                  let kept : check (amount -ℤ cur.amount) ≡ ok (amount -ℤ cur.amount) =
                    check-below _ (ground (arith, whole, parts)) smaller in
                  let (q', e) =
                    take_front-takes now rest (amount -ℤ cur.amount) p.1
                      (ground (arith, f, sum, later, p.0)) smaller
                      (ground (arith, whole, more, parts)) (ground (arith, parts, due_now, h1)) in
                  (q', rw (due, whole, more, kept) e)
            ]
          ]
    ]

-- From a queue without negative entries, whose shares a word holds in total, an amount above zero
-- that a word holds can be withdrawn just where the expired entries at the front have that many
-- shares.
pub withdraw_shares-succeeds :
    (now : ℕ) (u : UserBalance) (amount : ℤ)
    → IsAtLeast 0 u.q4w
    → IsHeld u.q4w
    → pos_part amount < 2 ^ 127
    → pos 0 <ℤ amount
    → ((u' : UserBalance) × (withdraw_shares now u amount ≡ ok u')) ↔ (amount ≤ℤ expired now u.q4w)
unfolding withdraw_shares
withdraw_shares-succeeds now u amount p f g n = (
  (λ (u', h).
      (withdraw_shares-IsWithdrawn 0 now u amount (omega arith) p (ground (arith, n))
        h).from_expired),
  λ h.
      let (q', e) = take_front-takes now u.q4w amount p f g n h in
      (record u { q4w = q' }, rw e refl),
)
