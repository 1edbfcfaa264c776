-- ===== src/Backstop/Dequeue.antt =====
-- Shares that enter the withdrawal queue and leave it again before they are withdrawn:
-- `queue_shares_for_withdrawal` and `dequeue_shares` of backstop/src/backstop/user.rs.
use mathlib.Core.List.{reverse_aux}
use blend_contracts_v.Backstop.Queue.{queued, IsAtLeast, expired}
use blend_contracts_v.Prelude.{
  Bool-cases, >>=-elim, panic_if-elim, ok-injective, ◌-!◌, -!-parts, ok, ℤ, pos_part, neg_part,
  ◌+ℤ◌, NonNeg, ltb_ℤ, eqb_ℤ, +ℤ_parts, eq_of_parts, int_laws, pos, ◌≡◌, refl, ap, subst, inl, inr,
  List, [], ◌∷◌, reverse, arith, leb, add_u, ◌≤ℤ◌, ℕ, ◌+◌, ◌≤◌, ◌<◌, ◌++◌, ◌∙◌,
}
use blend_contracts_v.Backstop.{
  Q4W, take_newest, UserBalance, dequeue_shares, queue_shares_for_withdrawal,
}
use blend_contracts_v.Storage.{length}

queued-reverse_aux : (q r : List Q4W) → queued (reverse_aux q r) ≡ queued q +ℤ queued r
unfolding queued
queued-reverse_aux [] r = eq_of_parts _ _ (omega int_laws)
queued-reverse_aux (x ∷ q) r =
    let ih = queued-reverse_aux q (x ∷ r) in
    eq_of_parts _ _ (omega (int_laws, ap pos_part ih, ap neg_part ih))

queued-reverse : (q : List Q4W) → queued (reverse q) ≡ queued q
unfolding queued
queued-reverse q =
    let all = queued-reverse_aux q [] in
    eq_of_parts _ _ (omega (int_laws, ap pos_part all, ap neg_part all))

reverse_aux-IsAtLeast :
    (least : ℕ) (q r : List Q4W)
    → IsAtLeast least q
    → IsAtLeast least r
    → IsAtLeast least (reverse_aux q r)
unfolding IsAtLeast
reverse_aux-IsAtLeast least [] r p n = n
reverse_aux-IsAtLeast least (x ∷ q) r p n = reverse_aux-IsAtLeast least q (x ∷ r) p.1 (p.0, n)

reverse-IsAtLeast : (least : ℕ) → (q : List Q4W) → IsAtLeast least q → IsAtLeast least (reverse q)
unfolding IsAtLeast
reverse-IsAtLeast least q p = reverse_aux-IsAtLeast least q [] p tt

record IsTakenBack (least : ℕ) (q : List Q4W) (amount : ℤ) (q' : List Q4W) (left : ℤ) : Type 0 where
  pub left_nonneg : NonNeg left
  pub conserves : queued q' +ℤ amount ≡ queued q +ℤ left
  pub at_least : IsAtLeast least q'

take_newest-IsTakenBack :
    (least : ℕ) (q : List Q4W) (amount : ℤ) {q' : List Q4W} {left : ℤ}
    → least ≤ 1
    → IsAtLeast least q
    → NonNeg amount
    → take_newest q amount ≡ ok (q', left)
    → IsTakenBack least q amount q' left
unfolding queued IsAtLeast take_newest
take_newest-IsTakenBack least [] amount sm p n h =
    subst (λ (a, b). IsTakenBack least [] amount a b) (ok-injective h)
      (record { left_nonneg = n; conserves = refl; at_least = tt })
take_newest-IsTakenBack least (cur ∷ rest) amount sm p n h =
    elim (Bool-cases (ltb_ℤ amount cur.amount)) [
      | inl part ↦ >>=-elim (cur.amount -! amount) _ (rw part at h) λ rest_of e1 h2.
          let m = -!-parts cur.amount amount e1 in
          subst (λ (a, b). IsTakenBack least (cur ∷ rest) amount a b) (ok-injective h2)
            (record {
              left_nonneg = refl;
              conserves = eq_of_parts _ _ (omega (int_laws, m));
              at_least = (ground (arith, m, part, sm), p.1);
            })
      | inr whole ↦
          let h2 = rw whole at h in
          elim (Bool-cases (eqb_ℤ cur.amount amount)) [
            | inl exact ↦
                subst (λ (a, b). IsTakenBack least (cur ∷ rest) amount a b)
                  (ok-injective (rw exact at h2))
                  (record {
                    left_nonneg = refl;
                    conserves = eq_of_parts _ _ (
                        ground (
                          arith,
                          exact,
                          +ℤ_parts (queued rest) amount,
                          +ℤ_parts cur.amount (queued rest),
                          +ℤ_parts (cur.amount +ℤ queued rest) (pos 0),
                        ));
                    at_least = p.1;
                  })
            | inr more ↦ >>=-elim (amount -! cur.amount) _ (rw more at h2) λ left' e1 h3.
                let m = -!-parts amount cur.amount e1 in
                let t =
                  take_newest-IsTakenBack least rest left' sm p.1 (ground (arith, whole, m, p.0))
                    h3 in
                record {
                  left_nonneg = t.left_nonneg;
                  conserves =
                      eq_of_parts _ _
                        (omega (int_laws, m, ap pos_part t.conserves, ap neg_part t.conserves));
                  at_least = t.at_least;
                }
          ]
    ]

pub record IsDequeued (least : ℕ) (u : UserBalance) (amount : ℤ) (u' : UserBalance) : Type 0 where
  pub shares : u'.shares ≡ u.shares
  pub conserves : queued u'.q4w +ℤ amount ≡ queued u.q4w
  pub at_least : IsAtLeast least u'.q4w

-- From a queue whose entries have at least `least` shares each, where `least` is zero or one,
-- dequeueing an amount that is not negative takes exactly that amount out of the queue, leaves the
-- shares outside of it to the caller, and leaves entries of at least `least`.
pub dequeue_shares-IsDequeued :
    (least : ℕ) (u : UserBalance) (amount : ℤ) {u' : UserBalance}
    → least ≤ 1
    → IsAtLeast least u.q4w
    → NonNeg amount
    → dequeue_shares u amount ≡ ok u'
    → IsDequeued least u amount u'
unfolding dequeue_shares
dequeue_shares-IsDequeued least u amount sm p n h =
    >>=-elim (take_newest (reverse u.q4w) amount) _ h λ (q, left) e1 h1.
      panic_if-elim (ltb_ℤ (pos 0) left) _ _ h1 λ empty h2.
        let t =
          take_newest-IsTakenBack least (reverse u.q4w) amount sm (reverse-IsAtLeast least u.q4w p)
            n e1 in
        let before = queued-reverse u.q4w in
        let after = queued-reverse q in
        let none_left : left ≡ pos 0 = eq_of_parts _ _ (ground (arith, empty, t.left_nonneg)) in
        subst (IsDequeued least u amount) (ok-injective h2) (record {
          shares = refl;
          conserves = eq_of_parts _ _ (
              omega (
                int_laws,
                t.left_nonneg,
                ap pos_part none_left,
                ap pos_part t.conserves,
                ap neg_part t.conserves,
                ap pos_part before,
                ap neg_part before,
                ap pos_part after,
                ap neg_part after,
              ));
          at_least = reverse-IsAtLeast least q t.at_least;
        })

queued-append : (q r : List Q4W) → queued (q ++ r) ≡ queued q +ℤ queued r
unfolding queued
queued-append [] r = eq_of_parts _ _ (omega int_laws)
queued-append (x ∷ q) r =
    let ih = queued-append q r in eq_of_parts _ _ (omega (int_laws, ap pos_part ih, ap neg_part ih))

expired-append :
    (later : ℕ) (q : List Q4W) (new : Q4W)
    → later < new.exp
    → expired later (q ++ (new ∷ [])) ≡ expired later q
unfolding expired
expired-append later [] new h = ground (arith, h)
expired-append later (x ∷ q) new h = rw (expired-append later q new h) refl

pub record IsEntered (now : ℕ) (u : UserBalance) (amount : ℤ) (u' : UserBalance) : Type 0 where
  pub held : amount ≤ℤ u.shares
  pub total : u'.shares +ℤ queued u'.q4w ≡ u.shares +ℤ queued u.q4w
  pub locked : (later : ℕ) → later < now + 1_468_800 → expired later u'.q4w ≡ expired later u.q4w
  pub room : length u'.q4w ≤ 20

length-append : (q : List Q4W) (new : Q4W) → length (q ++ (new ∷ [])) ≡ length q + 1
length-append [] new = refl
length-append (x ∷ q) new = ap (λ n. n + 1) (length-append q new)

-- The queue gets one more entry, at its end, and the shares in it leave the free ones.
pub record IsAppended (now : ℕ) (u : UserBalance) (amount : ℤ) (u' : UserBalance) : Type 0 where
  pub held : amount ≤ℤ u.shares
  pub room : length u.q4w < 20
  pub shares : u.shares -! amount ≡ ok u'.shares
  pub q4w : u'.q4w ≡ u.q4w ++ (record { amount = amount; exp = now + 1_468_800 } ∷ [])

pub queue_shares_for_withdrawal-IsAppended :
    (now : ℕ) (u : UserBalance) (amount : ℤ) {u' : UserBalance}
    → queue_shares_for_withdrawal now u amount ≡ ok u'
    → IsAppended now u amount u'
unfolding queue_shares_for_withdrawal
queue_shares_for_withdrawal-IsAppended now u amount h =
    panic_if-elim (ltb_ℤ u.shares amount) _ _ h λ enough h1.
      panic_if-elim (leb 20 (length u.q4w)) _ _ h1 λ free h2.
        >>=-elim (u.shares -! amount) _ h2 λ shares e1 h3.
          >>=-elim (add_u 64 now 1_468_800) _ h3 λ exp e2 h4.
            let time : exp ≡ now + 1_468_800 = ground (arith, e2) in
            subst (IsAppended now u amount) (ok-injective h4) (record {
              held = ground (arith, enough);
              room = ground (arith, free);
              shares = e1;
              q4w = ap (λ t. u.q4w ++ (record { amount = amount; exp = t } ∷ [])) time;
            })

pub queued-IsAppended :
    (now : ℕ) (u : UserBalance) (amount : ℤ) {u' : UserBalance}
    → IsAppended now u amount u'
    → queued u'.q4w ≡ queued u.q4w +ℤ amount
unfolding queued
queued-IsAppended now u amount a =
    let sum = queued-append u.q4w (record { amount = amount; exp = now + 1_468_800 } ∷ []) in
    ap queued a.q4w ∙ sum ∙ ap (λ n. queued u.q4w +ℤ n) (eq_of_parts _ _ (omega int_laws))

-- Shares that enter the queue were held; the shares inside and outside of the queue add up as
-- before; at any time before 17 days have passed the expired entries at the front hold no more
-- than they did; and the queue has at most twenty entries.
pub queue_shares_for_withdrawal-IsEntered :
    (now : ℕ) (u : UserBalance) (amount : ℤ) {u' : UserBalance}
    → queue_shares_for_withdrawal now u amount ≡ ok u'
    → IsEntered now u amount u'
queue_shares_for_withdrawal-IsEntered now u amount h =
    let a = queue_shares_for_withdrawal-IsAppended now u amount h in
    let m = -!-parts u.shares amount a.shares in
    let sum = queued-IsAppended now u amount a in
    let entry : Q4W = record { amount = amount; exp = now + 1_468_800 } in
    record {
      held = a.held;
      total = eq_of_parts _ _ (omega (int_laws, m, ap pos_part sum, ap neg_part sum));
      locked = λ later early. ap (expired later) a.q4w ∙ expired-append later u.q4w entry early;
      room = ground (arith, a.room, ap length a.q4w, length-append u.q4w entry);
    }

pub append-IsAtLeast :
    (least : ℕ) (q : List Q4W) (new : Q4W)
    → IsAtLeast least q
    → pos least ≤ℤ new.amount
    → IsAtLeast least (q ++ (new ∷ []))
unfolding IsAtLeast
append-IsAtLeast least [] new p n = (n, tt)
append-IsAtLeast least (x ∷ q) new p n = (p.0, append-IsAtLeast least q new p.1 n)
