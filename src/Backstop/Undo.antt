-- ===== src/Backstop/Undo.antt =====
-- Shares that enter the withdrawal queue can leave it again: `dequeue_shares` and `dequeue_q4w` undo
-- `queue_shares_for_withdrawal` and `queue_for_withdraw` (backstop/src/backstop/user.rs and pool.rs).
use mathlib.Core.List.{reverse-append, reverse-reverse}
use blend_contracts_v.Prelude.{
  ℕ, fits, check, ◌+!◌, ◌-!◌, +!-parts, -!-parts, ok, ℤ, ◌+ℤ◌, ◌-ℤ◌, eq_of_parts, int_laws, pos,
  ◌≡◌, refl, ap, ◌∙◌, true, List, [], ◌∷◌, arith, ◌>>=◌, >>=-elim, ok-injective, NonNeg, ltb_ℤ, ◌+◌,
  subst, false, reverse,
}
use blend_contracts_v.Backstop.{
  PoolBalance, UserBalance, Q4W, take_newest, dequeue_shares, queue_for_withdraw,
  queue_shares_for_withdrawal, dequeue_balance, add_shares,
}
use blend_contracts_v.Backstop.Dequeue.{queue_shares_for_withdrawal-IsAppended}

-- A value that fits is what its check returns.
check-fits : (z : ℤ) → fits z ≡ true → check z ≡ ok z
unfolding check
check-fits z h = rw h refl

restored : (a b : ℤ) {r : ℤ} → fits a ≡ true → a -! b ≡ ok r → r +! b ≡ ok a
restored a b {r} f h =
    let m = -!-parts a b h in
    let back : r +ℤ b ≡ a = eq_of_parts _ _ (omega (int_laws, m)) in ap check back ∙ check-fits a f

released : (a b : ℤ) {r : ℤ} → fits a ≡ true → a +! b ≡ ok r → r -! b ≡ ok a
released a b {r} f h =
    let m = +!-parts a b h in
    let back : r -ℤ b ≡ a = eq_of_parts _ _ (omega (int_laws, m)) in ap check back ∙ check-fits a f

-- The newest entry is taken whole.
take_newest-whole : (q : List Q4W) (x : Q4W) → take_newest (x ∷ q) x.amount ≡ ok (q, pos 0)
unfolding take_newest
take_newest-whole q x = ground arith

module _ (now : ℕ) (u : UserBalance) (amount : ℤ) {u' : UserBalance} where
  dequeue_shares-queued :
      queue_shares_for_withdrawal now u amount ≡ ok u'
      → dequeue_shares u' amount ≡ ok (record u' { q4w = u.q4w })
  unfolding dequeue_shares
  dequeue_shares-queued h =
      let a = queue_shares_for_withdrawal-IsAppended now u amount h in
      let entry : Q4W = record { amount = amount; exp = now + 1_468_800 } in
      let newest : reverse u'.q4w ≡ entry ∷ reverse u.q4w =
        ap reverse a.q4w ∙ reverse-append u.q4w (entry ∷ []) in
      rw (newest, take_newest-whole (reverse u.q4w) entry, reverse-reverse u.q4w) refl

  -- Where shares of a balance enter the withdrawal queue, and the depositor's shares and the
  -- pool's queued shares fit a word, the latter not negative, dequeueing the same amount gives the
  -- depositor's balance from before, and the pool's.
  pub queue-dequeue :
      (b : PoolBalance) {b' : PoolBalance}
      → fits u.shares ≡ true
      → fits b.q4w ≡ true
      → NonNeg b.q4w
      → queue_shares_for_withdrawal now u amount ≡ ok u'
      → queue_for_withdraw b amount ≡ ok b'
      → ((dequeue_shares u' amount >>= λ taken. add_shares taken amount) ≡ ok u)
        × (dequeue_balance b' amount ≡ ok b)
  unfolding queue_for_withdraw dequeue_balance add_shares
  queue-dequeue b {b'} f g n h k =
      let a = queue_shares_for_withdrawal-IsAppended now u amount h in
      >>=-elim (b.q4w +! amount) _ k λ q4w e1 k1.
        let p = +!-parts b.q4w amount e1 in
        let enough : ltb_ℤ q4w amount ≡ false = ground (arith, p, n) in
        (
          rw (dequeue_shares-queued h, restored u.shares amount f a.shares) refl,
          subst (λ x. dequeue_balance x amount ≡ ok b) (ok-injective k1)
              (rw (enough, released b.q4w amount g e1) refl),
        )
