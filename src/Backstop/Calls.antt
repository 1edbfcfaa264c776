-- ===== src/Backstop/Calls.antt =====
-- The calls of depositors and pools: backstop/src/backstop/deposit.rs, withdrawal.rs and
-- fund_management.rs.
use blend_contracts_v.Prelude.{
  ◌==◌, if◌then◌else◌, BackstopError, Result, panic_if, ◌>>=◌, ◌>>◌, backstop_error, ok, ℤ, leb_ℤ,
  eqb_ℤ, pos, not, ◌||◌, reverse,
}
use blend_contracts_v.Env.{Address}
use blend_contracts_v.Backstop.{
  Q4W, require_is_from_pool_factory, withdraw_balance, queue_shares_for_withdrawal, dequeue_shares,
  convert_to_shares, queue_for_withdraw, add_shares, deposit, dequeue_balance, withdraw_shares,
  convert_to_tokens,
}
use blend_contracts_v.Backstop.Ledger.{
  transfer, transfer_from, BackstopEnv, BackstopLedger, get_pool_factory, get_pool_balance,
  get_user_balance, set_pool_balance, get_backstop_token, call_contract, set_user_balance,
}
use blend_contracts_v.Backstop.Rewards.{require_nonnegative, update_rewards, plain_math}
use blend_contracts_v.Storage.{get_unchecked}
use blend_contracts_v.Prelude.Map

module _ (e : BackstopEnv) where
  -- The call of the factory is made only for a pool without shares.
  unfoldable pub from_factory : BackstopLedger → Address → ℤ → Result (Unit {0})
  from_factory l pool balance =
      if eqb_ℤ balance (pos 0)
      then (do
        factory ← get_pool_factory l
        require_is_from_pool_factory (e.is_pool factory pool) balance)
      else ok tt

  -- The ledger and the shares minted.
  unfoldable pub execute_deposit :
      BackstopLedger → Address → Address → ℤ → Result (BackstopLedger × ℤ)
  unfolding from_factory
  execute_deposit l from pool amount = do
    require_nonnegative amount
    panic_if (from == pool || from == e.current_contract_address)
        (backstop_error BackstopError.bad_request)
    let pool_balance = get_pool_balance l pool
    from_factory l pool pool_balance.shares
    let user_balance = get_user_balance l pool from
    l₁ ← update_rewards e l pool pool_balance from user_balance
    token ← get_backstop_token l₁
    l₂ ← call_contract e l₁ (transfer token from e.current_contract_address amount)
    to_mint ← convert_to_shares (plain_math e) pool_balance amount
    panic_if (leb_ℤ to_mint (pos 0)) (backstop_error BackstopError.invalid_share_mint_amount)
    pool_balance' ← deposit pool_balance amount to_mint
    user_balance' ← add_shares user_balance to_mint
    ok (set_user_balance (set_pool_balance l₂ pool pool_balance') pool from user_balance', to_mint)

  -- The entry that is queued is the last of the queue.
  unfoldable pub execute_queue_withdrawal :
      BackstopLedger → Address → Address → ℤ → Result (BackstopLedger × Q4W)
  execute_queue_withdrawal l from pool amount = do
    require_nonnegative amount
    let pool_balance = get_pool_balance l pool
    let user_balance = get_user_balance l pool from
    l₁ ← update_rewards e l pool pool_balance from user_balance
    user_balance' ← queue_shares_for_withdrawal e.timestamp user_balance amount
    pool_balance' ← queue_for_withdraw pool_balance amount
    last ← get_unchecked (reverse user_balance'.q4w) 0
    ok (set_pool_balance (set_user_balance l₁ pool from user_balance') pool pool_balance', last)

  unfoldable pub execute_dequeue_withdrawal :
      BackstopLedger → Address → Address → ℤ → Result BackstopLedger
  execute_dequeue_withdrawal l from pool amount = do
    require_nonnegative amount
    let pool_balance = get_pool_balance l pool
    let user_balance = get_user_balance l pool from
    l₁ ← update_rewards e l pool pool_balance from user_balance
    dequeued ← dequeue_shares user_balance amount
    user_balance' ← add_shares dequeued amount
    pool_balance' ← dequeue_balance pool_balance amount
    ok (set_pool_balance (set_user_balance l₁ pool from user_balance') pool pool_balance')

  -- The ledger and the tokens paid out.
  unfoldable pub execute_withdraw :
      BackstopLedger → Address → Address → ℤ → Result (BackstopLedger × ℤ)
  execute_withdraw l from pool amount = do
    require_nonnegative amount
    let backstop_positions = e.get_positions pool e.current_contract_address
    panic_if (not (Map.is_empty backstop_positions.liabilities))
        (backstop_error BackstopError.bad_debt_exists)
    let pool_balance = get_pool_balance l pool
    user_balance' ← withdraw_shares e.timestamp (get_user_balance l pool from) amount
    to_return ← convert_to_tokens (plain_math e) pool_balance amount
    panic_if (eqb_ℤ to_return (pos 0)) (backstop_error BackstopError.invalid_token_withdraw_amount)
    pool_balance' ← withdraw_balance pool_balance to_return amount
    let l₁ = set_pool_balance (set_user_balance l pool from user_balance') pool pool_balance'
    token ← get_backstop_token l₁
    l₂ ← call_contract e l₁ (transfer token e.current_contract_address from to_return)
    ok (l₂, to_return)

  unfoldable pub execute_draw : BackstopLedger → Address → ℤ → Address → Result BackstopLedger
  execute_draw l pool amount to = do
    require_nonnegative amount
    pool_balance ← withdraw_balance (get_pool_balance l pool) amount (pos 0)
    let l₁ = set_pool_balance l pool pool_balance
    token ← get_backstop_token l₁
    call_contract e l₁ (transfer token e.current_contract_address to amount)

  unfoldable pub execute_donate : BackstopLedger → Address → Address → ℤ → Result BackstopLedger
  unfolding from_factory
  execute_donate l from pool amount = do
    require_nonnegative amount
    panic_if (from == pool || from == e.current_contract_address)
        (backstop_error BackstopError.bad_request)
    let pool_balance = get_pool_balance l pool
    from_factory l pool pool_balance.shares
    token ← get_backstop_token l
    let here = e.current_contract_address
    l₁ ← call_contract e l (transfer_from token here from here amount)
    pool_balance' ← deposit pool_balance amount (pos 0)
    ok (set_pool_balance l₁ pool pool_balance')
