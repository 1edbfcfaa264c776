-- ===== src/Backstop/Account.antt =====
-- The account of a depositor, and how it and the pool's balance change together: the pure functions
-- of backstop/src/backstop/user.rs and pool.rs side by side.
use blend_contracts_v.Prelude.{
  ℕ, >>=-elim, panic_if-elim, ok-injective, ◌+!◌, ◌-!◌, check-ok, +!-parts, -!-parts, ok, ℤ,
  pos_part, neg_part, ◌+ℤ◌, NonNeg, ltb_ℤ, eq_of_parts, int_laws, ◌+◌, ◌≡◌, refl, sym, ap, ◌∙◌,
  subst, ◌||◌, arith,
}
use blend_contracts_v.Backstop.{
  PoolBalance, UserBalance, deposit, queue_for_withdraw, dequeue_balance, withdraw_balance,
  add_shares, queue_shares_for_withdrawal, withdraw_shares, dequeue_shares, Q4W,
}
use blend_contracts_v.Backstop.Queue.{queued, IsAtLeast, withdraw_shares-IsWithdrawn}
use blend_contracts_v.Backstop.Dequeue.{
  queue_shares_for_withdrawal-IsAppended, queued-IsAppended, dequeue_shares-IsDequeued,
  append-IsAtLeast,
}

-- The shares of a depositor, in the queue or not.
abbrev pub holding : UserBalance → ℤ
holding u = u.shares +ℤ queued u.q4w

-- No part of a depositor's balance is negative.
pub record IsWell (u : UserBalance) : Type 0 where
  pub shares : NonNeg u.shares
  pub q4w : IsAtLeast 0 u.q4w

-- What a depositor has in all: shares that are free, and shares that wait in the queue.
pub record Account : Type 0 where
  pub free : ℤ
  pub waiting : ℤ

unfoldable pub account_of : UserBalance → Account
account_of u = record { free = u.shares; waiting = queued u.q4w }

-- How an account and the pool's tokens may change together.
pub data Move (k : Account) (tokens : ℤ) (k' : Account) (tokens' : ℤ) : Type 0 where
  enters :
      (x s : ℤ)
      → NonNeg x
      → NonNeg s
      → k'.free ≡ k.free +ℤ s
      → k'.waiting ≡ k.waiting
      → tokens' ≡ tokens +ℤ x
      → Move k tokens k' tokens'
  queues :
      (a : ℤ)
      → NonNeg a
      → k'.free +ℤ a ≡ k.free
      → k'.waiting ≡ k.waiting +ℤ a
      → tokens' ≡ tokens
      → Move k tokens k' tokens'
  unqueues :
      (a : ℤ)
      → NonNeg a
      → k'.free ≡ k.free +ℤ a
      → k'.waiting +ℤ a ≡ k.waiting
      → tokens' ≡ tokens
      → Move k tokens k' tokens'
  leaves :
      (a x : ℤ)
      → NonNeg a
      → k'.free ≡ k.free
      → k'.waiting +ℤ a ≡ k.waiting
      → tokens' +ℤ x ≡ tokens
      → Move k tokens k' tokens'

-- A depositor's and the pool's balance change by the same shares and queued shares.
pub record IsMatched (b b' : PoolBalance) (u u' : UserBalance) : Type 0 where
  pub shares : b'.shares +ℤ holding u ≡ b.shares +ℤ holding u'
  pub q4w : b'.q4w +ℤ queued u.q4w ≡ b.q4w +ℤ queued u'.q4w
  pub well : IsWell u'
  pub tokens : NonNeg b'.tokens
  pub move : Move (account_of u) b.tokens (account_of u') b'.tokens

module _ (b : PoolBalance) (u : UserBalance) (amount : ℤ) (well : IsWell u)
    (has : NonNeg b.tokens) where
  pub deposit-IsMatched :
      {b' : PoolBalance} {u' : UserBalance} (tokens : ℤ)
      → NonNeg tokens
      → NonNeg amount
      → deposit b tokens amount ≡ ok b'
      → add_shares u amount ≡ ok u'
      → IsMatched b b' u u'
  unfolding deposit add_shares account_of
  deposit-IsMatched {b'} {u'} tokens n m h k = >>=-elim (b.tokens +! tokens) _ h λ tokens' t1 h1.
      >>=-elim (b.shares +! amount) _ h1 λ shares' t2 h2.
        >>=-elim (u.shares +! amount) _ k λ held t3 k1.
          let p1 = +!-parts b.tokens tokens t1 in
          let p2 = +!-parts b.shares amount t2 in
          let p3 = +!-parts u.shares amount t3 in
          subst (λ x. IsMatched b x u u') (ok-injective h2)
            (subst
              (λ x. IsMatched b (record { shares = shares'; tokens = tokens'; q4w = b.q4w }) u x)
              (ok-injective k1)
              (record {
                shares = eq_of_parts _ _ (omega (int_laws, p2, p3));
                q4w = eq_of_parts _ _ (omega (int_laws));
                well = record { shares = omega (arith, p3, well.shares, m); q4w = well.q4w };
                tokens = omega (arith, p1, n, has);
                move = enters tokens amount n m (check-ok _ t3) refl (check-ok _ t1);
              }))

  pub queue-IsMatched :
      {b' : PoolBalance} {u' : UserBalance} (now : ℕ)
      → NonNeg amount
      → queue_shares_for_withdrawal now u amount ≡ ok u'
      → queue_for_withdraw b amount ≡ ok b'
      → IsMatched b b' u u'
  unfolding queue_for_withdraw account_of
  queue-IsMatched {b'} {u'} now m h k =
      let a = queue_shares_for_withdrawal-IsAppended now u amount h in
      let more = queued-IsAppended now u amount a in
      let p2 = -!-parts u.shares amount a.shares in
      let entry : Q4W = record { amount = amount; exp = now + 1_468_800 } in
      >>=-elim (b.q4w +! amount) _ k λ q4w t1 k1.
        let p1 = +!-parts b.q4w amount t1 in
        subst (λ x. IsMatched b x u u') (ok-injective k1)
          (record {
            shares = eq_of_parts _ _ (omega (int_laws, p2, ap pos_part more, ap neg_part more));
            q4w = eq_of_parts _ _ (omega (int_laws, p1, ap pos_part more, ap neg_part more));
            well = record {
              shares = omega (arith, p2, well.shares, a.held);
              q4w =
                  subst (IsAtLeast 0) (sym a.q4w)
                    (append-IsAtLeast 0 u.q4w entry well.q4w (omega (arith, m)));
            };
            tokens = has;
            move = queues amount m (eq_of_parts _ _ (omega (int_laws, p2))) more refl;
          })

  pub dequeue-IsMatched :
      {b' : PoolBalance} {u₁ u' : UserBalance}
      → NonNeg amount
      → dequeue_shares u amount ≡ ok u₁
      → add_shares u₁ amount ≡ ok u'
      → dequeue_balance b amount ≡ ok b'
      → IsMatched b b' u u'
  unfolding dequeue_balance add_shares account_of
  dequeue-IsMatched {b'} {u₁} {u'} m h k g =
      let d = dequeue_shares-IsDequeued 0 u amount (omega arith) well.q4w m h in
      >>=-elim (u₁.shares +! amount) _ k λ held t3 k1.
        panic_if-elim (ltb_ℤ b.q4w amount) _ _ g λ enough g1.
          >>=-elim (b.q4w -! amount) _ g1 λ q4w t1 g2.
            let p1 = -!-parts b.q4w amount t1 in
            let p3 = +!-parts u₁.shares amount t3 in
            subst (λ x. IsMatched b x u u') (ok-injective g2)
              (subst
                (λ x. IsMatched b (record { shares = b.shares; tokens = b.tokens; q4w = q4w }) u x)
                (ok-injective k1)
                (record {
                  shares = eq_of_parts _ _ (
                      omega (
                        int_laws,
                        p3,
                        ap pos_part d.shares,
                        ap neg_part d.shares,
                        ap pos_part d.conserves,
                        ap neg_part d.conserves,
                      ));
                  q4w =
                      eq_of_parts _ _
                        (omega (int_laws, p1, ap pos_part d.conserves, ap neg_part d.conserves));
                  well = record {
                    shares = omega (arith, p3, well.shares, m, ap neg_part d.shares);
                    q4w = d.at_least;
                  };
                  tokens = has;
                  move =
                      unqueues amount m (check-ok _ t3 ∙ ap (λ x. x +ℤ amount) d.shares) d.conserves
                        refl;
                }))

  pub withdraw-IsMatched :
      {b' : PoolBalance} {u' : UserBalance} (now : ℕ) (tokens : ℤ)
      → NonNeg amount
      → withdraw_shares now u amount ≡ ok u'
      → withdraw_balance b tokens amount ≡ ok b'
      → IsMatched b b' u u'
  unfolding withdraw_balance account_of
  withdraw-IsMatched {u' = u'} now tokens m h k =
      let d = withdraw_shares-IsWithdrawn 0 now u amount (omega arith) well.q4w m h in
      panic_if-elim (ltb_ℤ b.tokens tokens || ltb_ℤ b.shares amount || ltb_ℤ b.q4w amount) _ _ k
        λ enough k1. >>=-elim (b.tokens -! tokens) _ k1 λ tokens' t1 k2.
          >>=-elim (b.shares -! amount) _ k2 λ shares' t2 k3.
            >>=-elim (b.q4w -! amount) _ k3 λ q4w' t3 k4.
              let p1 = -!-parts b.tokens tokens t1 in
              let p2 = -!-parts b.shares amount t2 in
              let p3 = -!-parts b.q4w amount t3 in
              subst (λ x. IsMatched b x u u') (ok-injective k4)
                (record {
                  shares = eq_of_parts _ _ (
                      omega (
                        int_laws,
                        p2,
                        ap pos_part d.shares,
                        ap neg_part d.shares,
                        ap pos_part d.conserves,
                        ap neg_part d.conserves,
                      ));
                  q4w =
                      eq_of_parts _ _
                        (omega (int_laws, p3, ap pos_part d.conserves, ap neg_part d.conserves));
                  well = record {
                    shares = omega (arith, well.shares, ap neg_part d.shares);
                    q4w = d.at_least;
                  };
                  tokens = ground (arith, p1, enough);
                  move =
                      leaves amount tokens m d.shares d.conserves
                        (eq_of_parts _ _ (omega (int_laws, p1)));
                })
