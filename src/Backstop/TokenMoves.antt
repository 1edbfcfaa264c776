-- ===== src/Backstop/TokenMoves.antt =====
-- The calls that move tokens and no shares: backstop/src/backstop/fund_management.rs.
use blend_contracts_v.Prelude.{
  >>=-elim, panic_if-elim, ◌+!◌, +!-parts, ok, ℤ, NonNeg, ltb_ℤ, ◌≡◌, ◌||◌, some, ok-injective,
  ◌-!◌, -!-parts, eq_of_parts, int_laws, ap, subst, arith, ◌==◌, pos, refl,
}
use blend_contracts_v.Env.{Address}
use blend_contracts_v.Backstop.{PoolBalance, deposit, withdraw_balance}
use blend_contracts_v.Backstop.Rewards.{require_nonnegative}
use blend_contracts_v.Backstop.Ledger.{
  transfer_from, BackstopLedger, get_pool_balance, BackstopEnv, set_pool_balance,
  get_backstop_token, call_contract,
}
use blend_contracts_v.Storage.{update}
use blend_contracts_v.Backstop.Frame.{call_contract-IsSameBalances}
use blend_contracts_v.Backstop.Calls.{execute_draw, execute_donate, from_factory}

-- A call that moves tokens stores a balance of the pool with the same shares.
pub record IsTokenMove (l : BackstopLedger) (pool : Address) (l' : BackstopLedger) : Type 0 where
  pub pool_balance : PoolBalance
  pub users : l'.user_balances ≡ l.user_balances
  pub pools : l'.pool_balances ≡ update l.pool_balances pool (some pool_balance)
  pub shares : pool_balance.shares ≡ (get_pool_balance l pool).shares
  pub q4w : pool_balance.q4w ≡ (get_pool_balance l pool).q4w
  pub tokens : NonNeg pool_balance.tokens

module _ (e : BackstopEnv) (l : BackstopLedger) (pool : Address) (amount : ℤ)
    (has : NonNeg (get_pool_balance l pool).tokens) {l' : BackstopLedger} where
  pub execute_draw-IsTokenMove :
      (to : Address) → execute_draw e l pool amount to ≡ ok l' → IsTokenMove l pool l'
  unfolding execute_draw require_nonnegative withdraw_balance
  execute_draw-IsTokenMove to h =
      let b = get_pool_balance l pool in
      panic_if-elim (ltb_ℤ amount (pos 0)) _ _ h λ nonneg h1.
        >>=-elim (withdraw_balance b amount (pos 0)) _ h1 λ b' e1 h2.
          panic_if-elim (ltb_ℤ b.tokens amount || ltb_ℤ b.shares (pos 0) || ltb_ℤ b.q4w (pos 0)) _ _
            e1
            λ enough k1. >>=-elim (b.tokens -! amount) _ k1 λ tokens' t1 k2.
              >>=-elim (b.shares -! pos 0) _ k2 λ shares' t2 k3.
                >>=-elim (b.q4w -! pos 0) _ k3 λ q4w' t3 k4.
                  let p1 = -!-parts b.tokens amount t1 in
                  let p2 = -!-parts b.shares (pos 0) t2 in
                  let p3 = -!-parts b.q4w (pos 0) t3 in
                  let stored = set_pool_balance l pool b' in
                  >>=-elim (get_backstop_token stored) _ h2 λ token e3 h3.
                    let same = call_contract-IsSameBalances e stored _ h3 in
                    let new : PoolBalance = record {
                      shares = shares';
                      tokens = tokens';
                      q4w = q4w';
                    } in
                    let balance : new ≡ b' = ok-injective k4 in
                    record {
                      pool_balance = b';
                      users = same.users;
                      pools = same.pools;
                      shares =
                          subst (λ x. x.shares ≡ b.shares) balance
                            (eq_of_parts _ _ (omega (int_laws, p2)));
                      q4w =
                          subst (λ x. x.q4w ≡ b.q4w) balance
                            (eq_of_parts _ _ (omega (int_laws, p3)));
                      tokens = subst (λ x. NonNeg x.tokens) balance (ground (arith, p1, enough));
                    }

  pub execute_donate-IsTokenMove :
      (from : Address) → execute_donate e l from pool amount ≡ ok l' → IsTokenMove l pool l'
  unfolding execute_donate require_nonnegative deposit
  execute_donate-IsTokenMove from h =
      let b = get_pool_balance l pool in
      let here = e.current_contract_address in
      panic_if-elim (ltb_ℤ amount (pos 0)) _ _ h λ nonneg h1.
        panic_if-elim (from == pool || from == e.current_contract_address) _ _ h1 λ other h2.
          >>=-elim (from_factory e l pool b.shares) _ h2 λ made e2 h3.
            >>=-elim (get_backstop_token l) _ h3 λ token e3 h4.
              >>=-elim (call_contract e l (transfer_from token here from here amount)) _ h4
                λ l₁ e4 h5. >>=-elim (deposit b amount (pos 0)) _ h5 λ b' e5 h6.
                  >>=-elim (b.tokens +! amount) _ e5 λ tokens' t1 k1.
                    >>=-elim (b.shares +! pos 0) _ k1 λ shares' t2 k2.
                      let given : NonNeg amount = ground (arith, nonneg) in
                      let p1 = +!-parts b.tokens amount t1 in
                      let p2 = +!-parts b.shares (pos 0) t2 in
                      let same = call_contract-IsSameBalances e l _ e4 in
                      let new : PoolBalance = record {
                        shares = shares';
                        tokens = tokens';
                        q4w = b.q4w;
                      } in
                      let balance : new ≡ b' = ok-injective k2 in
                      subst (IsTokenMove l pool) (ok-injective h6) (record {
                        pool_balance = b';
                        users = same.users;
                        pools = ap (λ m. update m pool (some b')) same.pools;
                        shares =
                            subst (λ x. x.shares ≡ b.shares) balance
                              (eq_of_parts _ _ (omega (int_laws, p2)));
                        q4w = subst (λ x. x.q4w ≡ b.q4w) balance refl;
                        tokens =
                            subst (λ x. NonNeg x.tokens) balance (omega (arith, p1, has, given));
                      })
