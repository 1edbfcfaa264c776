-- ===== src/Backstop/Queue.antt =====
-- The withdrawal queue of a depositor: `queue_shares_for_withdrawal`, `withdraw_shares` and
-- `dequeue_shares` of backstop/src/backstop/user.rs.
use blend_contracts_v.Prelude.{
  ℕ, ok, ℤ, pos_part, neg_part, ◌+ℤ◌, NonNeg, eq_of_parts, int_laws, pos, ◌≡◌, ap, List, [], ◌∷◌,
  leb, if◌then◌else◌, Bool-cases, >>=-elim, panic_if-elim, ok-injective, ◌-!◌, -!-parts, ◌≤ℤ◌, ◌<ℤ◌,
  ltb_ℤ, refl, subst, inl, inr, arith, eqb_ℤ, +ℤ_parts, sym, true, ◌≤◌,
}
use blend_contracts_v.Backstop.{Q4W, take_front, UserBalance, withdraw_shares}

-- The shares in a queue.
unfoldable pub queued : List Q4W → ℤ
queued [] = pos 0
queued (q ∷ rest) = q.amount +ℤ queued rest

-- Every entry of a queue has at least so many shares: none is negative for 0, none is empty for 1.
unfoldable pub IsAtLeast : ℕ → List Q4W → Type 0
IsAtLeast least [] = Unit {0}
IsAtLeast least (q ∷ rest) = (pos least ≤ℤ q.amount) × IsAtLeast least rest

-- The shares in the expired entries at the front of a queue.
unfoldable pub expired : ℕ → List Q4W → ℤ
expired now [] = pos 0
expired now (q ∷ rest) =
    let later = expired now rest in if leb q.exp now then q.amount +ℤ later else pos 0

-- What is taken comes out of the expired entries at the front, and nothing else is lost.
record IsTaken (least : ℕ) (now : ℕ) (q : List Q4W) (amount : ℤ) (q' : List Q4W) (left : ℤ)
    : Type 0 where
  pub left_nonneg : NonNeg left
  pub conserves : queued q' +ℤ amount ≡ queued q +ℤ left
  pub at_least : IsAtLeast least q'
  pub from_expired : amount ≤ℤ expired now q +ℤ left

pub expired-nonneg :
    (least : ℕ) → (now : ℕ) (q : List Q4W) → IsAtLeast least q → NonNeg (expired now q)
unfolding expired IsAtLeast
expired-nonneg least now [] p = refl
expired-nonneg least now (q ∷ rest) p =
    ground (arith, expired-nonneg least now rest p.1, +ℤ_parts q.amount (expired now rest), p.0)

expired-due :
    (now : ℕ) (q : Q4W) (rest : List Q4W)
    → leb q.exp now ≡ true
    → expired now (q ∷ rest) ≡ q.amount +ℤ expired now rest
unfolding expired
expired-due now q rest due = rw due refl

take_front-IsTaken :
    (least : ℕ) (now : ℕ) (q : List Q4W) (amount : ℤ) {q' : List Q4W} {left : ℤ}
    → least ≤ 1
    → IsAtLeast least q
    → NonNeg amount
    → take_front now q amount ≡ ok (q', left)
    → IsTaken least now q amount q' left
unfolding queued IsAtLeast take_front expired
take_front-IsTaken least now [] amount sm p n h =
    subst (λ (a, b). IsTaken least now [] amount a b) (ok-injective h)
      (record { left_nonneg = n; conserves = refl; at_least = tt; from_expired = omega int_laws })
take_front-IsTaken least now (cur ∷ rest) amount {left = left} sm p n h =
    elim (Bool-cases (leb cur.exp now)) [
      | inr locked ↦ let impossible = rw locked at h in absurd (cc)
      | inl due ↦
          let h1 = rw due at h in
          let later = expired-nonneg least now rest p.1 in
          let front = expired-due now cur rest due in
          elim (Bool-cases (ltb_ℤ amount cur.amount)) [
            | inl part ↦ >>=-elim (cur.amount -! amount) _ (rw part at h1) λ rest_of e1 h2.
                let m = -!-parts cur.amount amount e1 in
                subst (λ (a, b). IsTaken least now (cur ∷ rest) amount a b) (ok-injective h2)
                  (record {
                    left_nonneg = refl;
                    conserves = eq_of_parts _ _ (omega (int_laws, m));
                    at_least = (ground (arith, m, part, sm), p.1);
                    from_expired =
                        subst (λ x. amount ≤ℤ x +ℤ pos 0) (sym front)
                          (ground (
                            arith,
                            part,
                            later,
                            p.0,
                            +ℤ_parts cur.amount (expired now rest),
                            +ℤ_parts (cur.amount +ℤ expired now rest) (pos 0),
                          ));
                  })
            | inr whole ↦
                let h2 = rw whole at h1 in
                elim (Bool-cases (eqb_ℤ cur.amount amount)) [
                  | inl exact ↦
                      subst (λ (a, b). IsTaken least now (cur ∷ rest) amount a b)
                        (ok-injective (rw exact at h2))
                        (record {
                          left_nonneg = refl;
                          conserves = eq_of_parts _ _ (
                              ground (
                                arith,
                                exact,
                                +ℤ_parts (queued rest) amount,
                                +ℤ_parts cur.amount (queued rest),
                                +ℤ_parts (cur.amount +ℤ queued rest) (pos 0),
                              ));
                          at_least = p.1;
                          from_expired =
                              subst (λ x. amount ≤ℤ x +ℤ pos 0) (sym front)
                                (ground (
                                  arith,
                                  exact,
                                  later,
                                  +ℤ_parts cur.amount (expired now rest),
                                  +ℤ_parts (cur.amount +ℤ expired now rest) (pos 0),
                                ));
                        })
                  | inr more ↦ >>=-elim (amount -! cur.amount) _ (rw more at h2) λ left' e1 h3.
                      let m = -!-parts amount cur.amount e1 in
                      let t =
                        take_front-IsTaken least now rest left' sm p.1
                          (ground (arith, whole, m, p.0)) h3 in
                      record {
                        left_nonneg = t.left_nonneg;
                        conserves =
                            eq_of_parts _ _ (
                              omega
                                (int_laws, m, ap pos_part t.conserves, ap neg_part t.conserves));
                        at_least = t.at_least;
                        from_expired =
                            subst (λ x. amount ≤ℤ x +ℤ left) (sym front)
                              (omega (int_laws, m, t.from_expired));
                      }
                ]
          ]
    ]

-- A queue from which an amount has been taken in order: whole entries from its front, and part of
-- the entry after them, all of which have expired; what stands behind is as it was.
pub data TakenFront (now : ℕ) : List Q4W → ℤ → List Q4W → Type 0 where
  none_taken : {q : List Q4W} → TakenFront now q (pos 0) q
  whole_taken :
      {cur : Q4W} {rest q' : List Q4W} {amount later : ℤ}
      → cur.exp ≤ now
      → amount ≡ cur.amount +ℤ later
      → TakenFront now rest later q'
      → TakenFront now (cur ∷ rest) amount q'
  part_taken :
      {cur : Q4W} {rest : List Q4W} {amount kept : ℤ}
      → cur.exp ≤ now
      → NonNeg amount
      → pos 0 <ℤ kept
      → cur.amount ≡ amount +ℤ kept
      → TakenFront now (cur ∷ rest) amount (record cur { amount = kept } ∷ rest)

take_front-TakenFront :
    (now : ℕ) (q : List Q4W) (amount : ℤ) {q' : List Q4W}
    → NonNeg amount
    → take_front now q amount ≡ ok (q', pos 0)
    → TakenFront now q amount q'
unfolding take_front
take_front-TakenFront now [] amount {q'} n h =
    let whole : ([], amount) ≡ (q', pos 0) = ok-injective h in
    subst {A = List Q4W × ℤ} (λ (a, b). TakenFront now a b q') (λ i. sym whole i) none_taken
take_front-TakenFront now (cur ∷ rest) amount {q'} n h = elim (Bool-cases (leb cur.exp now)) [
  | inr locked ↦ let impossible = rw locked at h in absurd (cc)
  | inl due ↦
      let h1 = rw due at h in
      let expired_entry : cur.exp ≤ now = ground (arith, due) in
      elim (Bool-cases (ltb_ℤ amount cur.amount)) [
        | inl part ↦ >>=-elim (cur.amount -! amount) _ (rw part at h1) λ kept e1 h2.
            subst (TakenFront now (cur ∷ rest) amount) (ap (λ x. x.0) (ok-injective h2)) (
              part_taken expired_entry n (ground (arith, part, -!-parts cur.amount amount e1))
                (eq_of_parts _ _ (omega (int_laws, -!-parts cur.amount amount e1))))
        | inr whole ↦
            let h2 = rw whole at h1 in
            elim (Bool-cases (eqb_ℤ cur.amount amount)) [
              | inl exact ↦
                  subst (TakenFront now (cur ∷ rest) amount)
                    (ap (λ x. x.0) (ok-injective (rw exact at h2)))
                    (whole_taken expired_entry
                      (eq_of_parts _ _ (ground (arith, exact, +ℤ_parts cur.amount (pos 0))))
                      none_taken)
              | inr more ↦ >>=-elim (amount -! cur.amount) _ (rw more at h2) λ later e1 h3.
                  whole_taken expired_entry
                    (eq_of_parts _ _ (omega (int_laws, -!-parts amount cur.amount e1)))
                    (take_front-TakenFront now rest later
                      (ground (arith, whole, -!-parts amount cur.amount e1)) h3)
            ]
      ]
]

-- A withdrawal of shares from a queue without empty entries takes exactly those shares out of its
-- expired front, and leaves the shares outside of the queue alone.
pub record IsWithdrawn (least : ℕ) (now : ℕ) (u : UserBalance) (amount : ℤ) (u' : UserBalance)
    : Type 0 where
  pub shares : u'.shares ≡ u.shares
  pub in_order : TakenFront now u.q4w amount u'.q4w
  pub conserves : queued u'.q4w +ℤ amount ≡ queued u.q4w
  pub from_expired : amount ≤ℤ expired now u.q4w
  pub at_least : IsAtLeast least u'.q4w

-- From a queue whose entries have at least `least` shares each, where `least` is zero or one, a
-- withdrawal of an amount that is not negative takes exactly that amount from the front in order:
-- whole entries, and then part of the entry after them or nothing, all of them expired, with the
-- entries behind as they were; it leaves the shares outside of the queue alone, and entries of at
-- least `least`.
pub withdraw_shares-IsWithdrawn :
    (least : ℕ) (now : ℕ) (u : UserBalance) (amount : ℤ) {u' : UserBalance}
    → least ≤ 1
    → IsAtLeast least u.q4w
    → NonNeg amount
    → withdraw_shares now u amount ≡ ok u'
    → IsWithdrawn least now u amount u'
unfolding withdraw_shares
withdraw_shares-IsWithdrawn least now u amount {u'} sm p n h =
    >>=-elim (take_front now u.q4w amount) _ h λ (q, left) e1 h1.
      panic_if-elim (ltb_ℤ (pos 0) left) _ _ h1 λ empty h2.
        let t = take_front-IsTaken least now u.q4w amount sm p n e1 in
        subst (IsWithdrawn least now u amount) (ok-injective h2) (record {
          shares = refl;
          in_order = take_front-TakenFront now u.q4w amount n (
              subst (λ x. take_front now u.q4w amount ≡ ok (q, x))
                (eq_of_parts _ _ (ground (arith, empty, t.left_nonneg))) e1);
          conserves = eq_of_parts _ _ (
              ground (
                arith,
                empty,
                t.left_nonneg,
                ap pos_part t.conserves,
                ap neg_part t.conserves,
                +ℤ_parts (queued q) amount,
                +ℤ_parts (queued u.q4w) left,
              ));
          from_expired =
              ground
                (arith, empty, t.left_nonneg, t.from_expired, +ℤ_parts (expired now u.q4w) left);
          at_least = t.at_least;
        })
