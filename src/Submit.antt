-- ===== src/Submit.antt =====
-- The execution of a transaction's requests, pool/src/pool/submit.rs: the requests, the checks on
-- what they leave behind, the token transfers, and the write back to the ledger.
pub mod Health
pub mod Netting
pub mod FlashLoans
pub mod Allowed
use blend_contracts_v.Prelude.Map
use blend_contracts_v.Prelude.Map.{Map}
use blend_contracts_v.Prelude.{
  ℕ, ◌==◌, if◌then◌else◌, PoolError, Result, ◌>>=◌, ◌>>◌, panic_if, ◌+!◌, ◌-!◌, bad_request,
  invalid_hf, auction_in_progress, min_collateral_not_met, pool_error, trap, ok, ℤ, ltb_ℤ, pos,
  Bool, true, false, not, ◌&&◌, ◌||◌, List, [], ◌∷◌,
}
use blend_contracts_v.Env.{Address, Env, TokenCall, env_math}
use blend_contracts_v.Storage.{Ledger, call_token, Positions, has_auction}
use blend_contracts_v.Actions.{Actions, Request, build_actions_from_request, do_check_max_util}
use blend_contracts_v.Pool.{
  Pool, load_reserve, require_under_max, effective_count, require_action_allowed,
  store_cached_reserves, cache_reserve,
}
use blend_contracts_v.User.{User, has_liabilities, add_liabilities}
use blend_contracts_v.Health.{calculate_from_positions, is_hf_under}
use blend_contracts_v.Reserve.{
  require_utilization_below_max, to_d_token_up, require_reserve_action_allowed,
  require_utilization_below_100,
}
use blend_contracts_v.Pool
use blend_contracts_v.User

pub record FlashLoan : Type 0 where
  pub contract : Address
  pub asset : Address
  pub amount : ℤ

module _ (e : Env) where
  -- Positions below the health factor `hf`; healthy ones below the pool's minimum abort.
  unfoldable pub positions_hf_under : Ledger → Pool → Positions → ℤ → Result (Pool × Bool)
  positions_hf_under l pool positions hf = do
    (pool', position_data) ← calculate_from_positions e l pool positions
    under ← is_hf_under (env_math e) position_data hf
    if under
        then ok (pool', true)
        else (panic_if (ltb_ℤ position_data.collateral_base pool.config.min_collateral)
              (pool_error PoolError.min_collateral_not_met)
            >> ok (pool', false))

  -- The loop over the assets whose utilization has to stay below the reserve's maximum.
  unfoldable pub check_utilizations : Ledger → Pool → List Address → Result Pool
  check_utilizations l pool [] = ok pool
  check_utilizations l pool (asset ∷ rest) = do
    (pool', reserve) ← load_reserve e l pool asset false
    require_utilization_below_max e reserve
    check_utilizations l pool' rest

  -- The health check, of users who owe something.
  unfoldable pub require_healthy : Ledger → Pool → User → Bool → Result Pool
  require_healthy l pool from_state check_health =
      if check_health && has_liabilities from_state
      then (do
        (pool', under) ← positions_hf_under l pool from_state.positions (pos 1_0000100)
        panic_if under (pool_error PoolError.invalid_hf)
        ok pool')
      else ok pool

  unfoldable pub validate_submit : Ledger → Pool → User → ℕ → Bool → List Address → Result Pool
  validate_submit l pool from_state prev_positions_count check_health check_max_util = do
    require_under_max pool from_state.positions prev_positions_count
    panic_if (has_auction l 0 from_state.address) (pool_error PoolError.auction_in_progress)
    pool' ← check_utilizations l pool check_max_util
    require_healthy l pool' from_state check_health

  -- `net_balances` after the tokens that the spender owes, which count below zero.
  subtract_all : Map ℤ → Map ℤ → Result (Map ℤ)
  subtract_all [] net = ok net
  subtract_all ((token, amount) ∷ m) net = do
    balance ← Map.get_or token (pos 0) net -! amount
    subtract_all m (Map.set token balance net)

  -- And after those that the pool owes.
  add_all : Map ℤ → Map ℤ → Result (Map ℤ)
  add_all [] net = ok net
  add_all ((token, amount) ∷ m) net = do
    balance ← Map.get_or token (pos 0) net +! amount
    add_all m (Map.set token balance net)

  unfoldable pub net_balances : Actions → Result (Map ℤ)
  unfolding subtract_all add_all
  net_balances actions = do
    owed ← subtract_all actions.spender_transfer []
    add_all actions.pool_transfer owed

  settle_one : Address → Address → Address → ℤ → Ledger → Result Ledger
  settle_one spender to token amount l =
      if ltb_ℤ amount (pos 0)
      then (do
        absolute ← pos 0 -! amount
        call_token e l (
            TokenCall.transfer_from token e.current_contract_address spender
              e.current_contract_address absolute))
      else (if ltb_ℤ (pos 0) amount
          then call_token e l (TokenCall.transfer token e.current_contract_address to amount)
          else ok l)

  settle : Address → Address → Map ℤ → Ledger → Result Ledger
  unfolding settle_one
  settle spender to [] l = ok l
  settle spender to ((token, amount) ∷ m) l = do
    l' ← settle_one spender to token amount l
    settle spender to m l'

  unfoldable pub handle_transfer_with_allowance :
      Actions → Address → Address → Ledger → Result Ledger
  unfolding settle
  handle_transfer_with_allowance actions spender to l = do
    net ← net_balances actions
    settle spender to net l

  send_all : Address → Address → Map ℤ → Ledger → Result Ledger
  send_all from to [] l = ok l
  send_all from to ((token, amount) ∷ m) l = do
    l' ← call_token e l (TokenCall.transfer token from to amount)
    send_all from to m l'

  unfoldable pub handle_transfers : Actions → Address → Address → Ledger → Result Ledger
  unfolding send_all
  handle_transfers actions spender to l = do
    l' ← send_all spender e.current_contract_address actions.spender_transfer l
    send_all e.current_contract_address to actions.pool_transfer l'

  -- The new ledger and the sender's new positions.
  unfoldable pub execute_submit :
      Ledger → Address → Address → Address → List Request → Bool → Result (Ledger × Positions)
  execute_submit l from spender to requests use_allowance = do
    panic_if
        (from == e.current_contract_address
          || spender == e.current_contract_address
          || to == e.current_contract_address)
        (pool_error PoolError.bad_request)
    pool ← Pool.load l
    let from_state = User.load l from
    prev_positions_count ← effective_count from_state.positions
    t ← build_actions_from_request e l pool from_state requests
    pool' ←
        validate_submit t.ledger t.pool t.user prev_positions_count t.actions.check_health
          t.actions.check_max_util
    l' ←
        (if use_allowance
          then handle_transfer_with_allowance t.actions spender to t.ledger
          else handle_transfers t.actions spender to t.ledger)
    l'' ← store_cached_reserves pool' l'
    ok (User.store t.user l'', t.user.positions)

  -- The flash loan's debt, before the requests.
  unfoldable pub borrow_flash_loan :
      Ledger → Pool → User → FlashLoan → Result (Ledger × Pool × User)
  borrow_flash_loan l pool from_state flash_loan = do
    require_action_allowed pool 4
    (noted, reserve) ← load_reserve e l pool flash_loan.asset true
    d_tokens_minted ← to_d_token_up (env_math e) reserve.state flash_loan.amount
    (l', from_state', reserve') ← add_liabilities e l from_state reserve d_tokens_minted
    require_reserve_action_allowed reserve' 4
    require_utilization_below_100 e reserve'
    ok (l', cache_reserve noted reserve', from_state')

  -- `received` stands for the call of the receiver contract, which may abort.
  unfoldable pub execute_submit_with_flash_loan :
      (FlashLoan → Ledger → Bool)
      → Ledger
      → Address
      → FlashLoan
      → List Request
      → Result (Ledger × Positions)
  unfolding borrow_flash_loan
  execute_submit_with_flash_loan received l from flash_loan requests = do
    panic_if (from == e.current_contract_address) (pool_error PoolError.bad_request)
    pool ← Pool.load l
    let from_state = User.load l from
    prev_positions_count ← effective_count from_state.positions
    (l₁, pool₁, from_state₁) ← borrow_flash_loan l pool from_state flash_loan
    t ← build_actions_from_request e l₁ pool₁ from_state₁ requests
    let actions = do_check_max_util t.actions flash_loan.asset
    pool' ← validate_submit t.ledger t.pool t.user prev_positions_count true actions.check_max_util
    l₂ ← call_token e t.ledger (
        TokenCall.transfer flash_loan.asset e.current_contract_address flash_loan.contract
          flash_loan.amount)
    panic_if (not (received flash_loan l₂)) trap
    l₃ ← handle_transfer_with_allowance actions from from l₂
    l₄ ← store_cached_reserves pool' l₃
    ok (User.store t.user l₄, t.user.positions)
