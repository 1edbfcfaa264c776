-- ===== src/Backstop/Entry.antt =====
-- A depositor's call stores the changed balances and no other: deposit.rs and withdrawal.rs of
-- backstop/src/backstop/.
use blend_contracts_v.Prelude.Map
use blend_contracts_v.Prelude.{
  >>=-elim, panic_if-elim, ok, ℤ, NonNeg, ltb_ℤ, ◌≡◌, ◌||◌, some, ok-injective, ap, subst, arith,
  ◌==◌, leb_ℤ, eqb_ℤ, pos, not, reverse,
}
use blend_contracts_v.Env.{Address}
use blend_contracts_v.Backstop.{
  PoolBalance, UserBalance, deposit, queue_for_withdraw, dequeue_balance, withdraw_balance,
  add_shares, queue_shares_for_withdrawal, withdraw_shares, dequeue_shares, Q4W, convert_to_tokens,
  convert_to_shares,
}
use blend_contracts_v.Backstop.Rewards.{require_nonnegative, update_rewards, plain_math}
use blend_contracts_v.Backstop.Ledger.{
  transfer, BackstopLedger, get_pool_balance, get_user_balance, BackstopEnv, set_user_balance,
  set_pool_balance, get_backstop_token, call_contract,
}
use blend_contracts_v.Storage.{update₂, update, get_unchecked}
use blend_contracts_v.Backstop.Frame.{
  IsSameBalances, update_rewards-IsSameBalances, call_contract-IsSameBalances, same_trans,
}
use blend_contracts_v.Backstop.Calls.{
  execute_deposit, execute_queue_withdrawal, execute_dequeue_withdrawal, execute_withdraw,
  from_factory,
}
use blend_contracts_v.Backstop.Account.{
  IsMatched, IsWell, deposit-IsMatched, queue-IsMatched, dequeue-IsMatched, withdraw-IsMatched,
}

-- A call stores the two balances and changes no other.
pub record IsEntry (l : BackstopLedger) (pool user : Address) (l' : BackstopLedger) : Type 0 where
  pub pool_balance : PoolBalance
  pub user_balance : UserBalance
  pub users : l'.user_balances ≡ update₂ l.user_balances pool user (some user_balance)
  pub pools : l'.pool_balances ≡ update l.pool_balances pool (some pool_balance)
  pub matched :
      IsMatched (get_pool_balance l pool) pool_balance (get_user_balance l pool user) user_balance

-- The two balances are stored after calls that leave the balances alone.
module _ {l l₁ : BackstopLedger} (same : IsSameBalances l l₁) (pool user : Address)
    (b' : PoolBalance) (u' : UserBalance)
    (matched : IsMatched (get_pool_balance l pool) b' (get_user_balance l pool user) u') where
  pool-user-IsEntry :
      IsEntry l pool user (set_user_balance (set_pool_balance l₁ pool b') pool user u')
  pool-user-IsEntry = record {
    pool_balance = b';
    user_balance = u';
    users = ap (λ m. update₂ m pool user (some u')) same.users;
    pools = ap (λ m. update m pool (some b')) same.pools;
    matched = matched;
  }

  user-pool-IsEntry :
      IsEntry l pool user (set_pool_balance (set_user_balance l₁ pool user u') pool b')
  user-pool-IsEntry = record {
    pool_balance = b';
    user_balance = u';
    users = ap (λ m. update₂ m pool user (some u')) same.users;
    pools = ap (λ m. update m pool (some b')) same.pools;
    matched = matched;
  }

module _ (e : BackstopEnv) (l : BackstopLedger) (from pool : Address) (amount : ℤ)
    (well : IsWell (get_user_balance l pool from)) (has : NonNeg (get_pool_balance l pool).tokens)
    {l' : BackstopLedger} where
  pub execute_deposit-IsEntry :
      {minted : ℤ} → execute_deposit e l from pool amount ≡ ok (l', minted) → IsEntry l pool from l'
  unfolding execute_deposit require_nonnegative
  execute_deposit-IsEntry h =
      let b = get_pool_balance l pool in
      let u = get_user_balance l pool from in
      panic_if-elim (ltb_ℤ amount (pos 0)) _ _ h λ nonneg h1.
        panic_if-elim (from == pool || from == e.current_contract_address) _ _ h1 λ other h2.
          >>=-elim (from_factory e l pool b.shares) _ h2 λ made e2 h3.
            >>=-elim (update_rewards e l pool b from u) _ h3 λ l₁ e3 h4.
              >>=-elim (get_backstop_token l₁) _ h4 λ token e4 h5.
                >>=-elim
                  (call_contract e l₁ (transfer token from e.current_contract_address amount)) _ h5
                  λ l₂ e5 h6.
                    >>=-elim (convert_to_shares (plain_math e) b amount) _ h6 λ to_mint e6 h7.
                      panic_if-elim (leb_ℤ to_mint (pos 0)) _ _ h7 λ some_minted h8.
                        >>=-elim (deposit b amount to_mint) _ h8 λ b' e8 h9.
                          >>=-elim (add_shares u to_mint) _ h9 λ u' e9 h10.
                            let same =
                              same_trans (update_rewards-IsSameBalances e l pool b from u e3)
                                (call_contract-IsSameBalances e l₁ _ e5) in
                            subst (λ (a, c). IsEntry l pool from a) (ok-injective h10)
                              (pool-user-IsEntry same pool from b' u' (
                                deposit-IsMatched b u to_mint well has amount
                                  (ground (arith, nonneg)) (ground (arith, some_minted)) e8 e9))

  pub execute_queue_withdrawal-IsEntry :
      {q : Q4W}
      → execute_queue_withdrawal e l from pool amount ≡ ok (l', q)
      → IsEntry l pool from l'
  unfolding execute_queue_withdrawal require_nonnegative
  execute_queue_withdrawal-IsEntry h =
      let b = get_pool_balance l pool in
      let u = get_user_balance l pool from in
      panic_if-elim (ltb_ℤ amount (pos 0)) _ _ h λ nonneg h1.
        >>=-elim (update_rewards e l pool b from u) _ h1 λ l₁ e3 h4.
          >>=-elim (queue_shares_for_withdrawal e.timestamp u amount) _ h4 λ u' e5 h6.
            >>=-elim (queue_for_withdraw b amount) _ h6 λ b' e6 h7.
              >>=-elim (get_unchecked (reverse u'.q4w) 0) _ h7 λ last e7 h8.
                subst (λ (a, c). IsEntry l pool from a) (ok-injective h8)
                  (user-pool-IsEntry (update_rewards-IsSameBalances e l pool b from u e3) pool from
                    b' u'
                    (queue-IsMatched b u amount well has e.timestamp (ground (arith, nonneg)) e5
                      e6))

  pub execute_dequeue_withdrawal-IsEntry :
      execute_dequeue_withdrawal e l from pool amount ≡ ok l' → IsEntry l pool from l'
  unfolding execute_dequeue_withdrawal require_nonnegative
  execute_dequeue_withdrawal-IsEntry h =
      let b = get_pool_balance l pool in
      let u = get_user_balance l pool from in
      panic_if-elim (ltb_ℤ amount (pos 0)) _ _ h λ nonneg h1.
        >>=-elim (update_rewards e l pool b from u) _ h1 λ l₁ e3 h4.
          >>=-elim (dequeue_shares u amount) _ h4 λ u₁ e5 h6.
            >>=-elim (add_shares u₁ amount) _ h6 λ u' e6 h7.
              >>=-elim (dequeue_balance b amount) _ h7 λ b' e7 h8.
                subst (IsEntry l pool from) (ok-injective h8) (
                  user-pool-IsEntry (update_rewards-IsSameBalances e l pool b from u e3) pool from
                    b' u' (dequeue-IsMatched b u amount well has (ground (arith, nonneg)) e5 e6 e7))

  pub execute_withdraw-IsEntry :
      {paid : ℤ} → execute_withdraw e l from pool amount ≡ ok (l', paid) → IsEntry l pool from l'
  unfolding execute_withdraw require_nonnegative
  execute_withdraw-IsEntry h =
      let b = get_pool_balance l pool in
      let u = get_user_balance l pool from in
      panic_if-elim (ltb_ℤ amount (pos 0)) _ _ h λ nonneg h1.
        panic_if-elim
          (not (Map.is_empty (e.get_positions pool e.current_contract_address).liabilities)) _ _ h1
          λ no_debt h2. >>=-elim (withdraw_shares e.timestamp u amount) _ h2 λ u' e3 h4.
            >>=-elim (convert_to_tokens (plain_math e) b amount) _ h4 λ to_return e4 h5.
              panic_if-elim (eqb_ℤ to_return (pos 0)) _ _ h5 λ some_returned h6.
                >>=-elim (withdraw_balance b to_return amount) _ h6 λ b' e6 h7.
                  let stored = set_pool_balance (set_user_balance l pool from u') pool b' in
                  >>=-elim (get_backstop_token stored) _ h7 λ token e7 h8.
                    >>=-elim
                      (call_contract e stored
                        (transfer token e.current_contract_address from to_return))
                      _ h8
                      λ l₂ e8 h9.
                        let same = call_contract-IsSameBalances e stored _ e8 in
                        subst (λ (a, c). IsEntry l pool from a) (ok-injective h9)
                          (record {
                            pool_balance = b';
                            user_balance = u';
                            users = same.users;
                            pools = same.pools;
                            matched =
                                withdraw-IsMatched b u amount well has e.timestamp to_return
                                  (ground (arith, nonneg)) e3 e6;
                          })
