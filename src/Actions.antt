-- ===== src/Actions.antt =====
-- The requests of a transaction, pool/src/pool/actions.rs: each one moves the user's positions and
-- the reserve, and notes the tokens to transfer and the checks to make.
mod Requests
pub mod Plans
pub mod Minted
pub mod Checks
pub mod Guards
pub mod Faithful
pub mod Allowed
unfoldable pub use Requests.*
use blend_contracts_v.Prelude.Map
use blend_contracts_v.Prelude.Map.{Map}
use blend_contracts_v.Prelude.{
  ℕ, ◌==◌, if◌then◌else◌, PoolError, Result, ◌>>=◌, ◌>>◌, panic_if, ◌+!◌, ◌-!◌, as_u64, bad_request,
  exceeded_supply_cap, min_collateral_not_met, pool_error, ok, err, ℤ, ltb_ℤ, leb_ℤ, eqb_ℤ, pos,
  zero, suc, Bool, true, false, not, ◌&&◌, List, [], ◌∷◌, ◌++◌,
}
use blend_contracts_v.Env.{Address, FixedMath, Env, env_math}
use blend_contracts_v.Storage.{Ledger, ReserveData}
use blend_contracts_v.Pool.{
  contains, Pool, load_reserve, require_action_allowed, load_price, cache_reserve,
}
use blend_contracts_v.Reserve.{
  Reserve, to_asset_from_b_token, to_d_token_down, total_supply, require_reserve_action_allowed,
  to_b_token_up, to_asset_from_d_token, to_b_token_down, to_d_token_up,
  require_utilization_below_100,
}
use blend_contracts_v.User.{
  require_nonnegative, User, get_supply, get_collateral, get_liabilities, has_liabilities,
  add_supply, remove_supply, add_collateral, remove_collateral, add_liabilities, remove_liabilities,
}
use blend_contracts_v.Auction.{fill, delete_liquidation}

-- What the requests of a transaction change: the ledger, the noted actions, the pool with its
-- caches, and the sender.
pub record Tx : Type 0 where
  pub ledger : Ledger
  pub actions : Actions
  pub pool : Pool
  pub user : User

module _ (e : Env) where
  unfoldable pub require_min_position : Reserve → User → Result (Unit {0})
  require_min_position reserve user = do
    position ←
        to_asset_from_b_token (env_math e) reserve.state (get_collateral user reserve.config.index)
    panic_if (not (eqb_ℤ position (pos 0)) && ltb_ℤ position reserve.config.min_position)
        (pool_error PoolError.min_collateral_not_met)

  require_within_cap : Reserve → Result (Unit {0})
  require_within_cap reserve = do
    total ← total_supply e reserve
    panic_if (not (supply_within_cap total reserve.config.supply_cap))
        (pool_error PoolError.exceeded_supply_cap)

  unfoldable pub apply_supply : Request → Tx → Result (Tx × ℤ)
  unfolding require_within_cap
  apply_supply request t = do
    (noted, reserve) ← load_reserve e t.ledger t.pool request.address true
    require_reserve_action_allowed reserve request.request_type
    b_tokens_minted ← to_b_token_down (env_math e) reserve.state request.amount
    (l, user, reserve') ← add_supply e t.ledger t.user reserve b_tokens_minted
    actions ← add_for_spender_transfer t.actions reserve'.asset request.amount
    require_within_cap reserve'
    ok (
      record { ledger = l; actions = actions; pool = cache_reserve noted reserve'; user = user },
      b_tokens_minted,
    )

  unfoldable pub apply_withdraw : Request → Tx → Result (Tx × ℤ × ℤ)
  apply_withdraw request t = do
    (noted, reserve) ← load_reserve e t.ledger t.pool request.address true
    let cur_b_tokens = get_supply t.user reserve.config.index
    let checked =
        (if ltb_ℤ (pos 0) (get_liabilities t.user reserve.config.index)
          then do_check_health t.actions
          else t.actions)
    (tokens_out, to_burn) ← plan_withdraw (env_math e) reserve.state request.amount cur_b_tokens
    (l, user, reserve') ← remove_supply e t.ledger t.user reserve to_burn
    require_utilization_below_100 e reserve'
    actions ← add_for_pool_transfer checked reserve'.asset tokens_out
    ok (
      record { ledger = l; actions = actions; pool = cache_reserve noted reserve'; user = user },
      tokens_out,
      to_burn,
    )

  -- A borrower who opens a collateral position needs a price for it.
  require_price : Pool → User → Reserve → Result Pool
  require_price pool user reserve =
      if has_liabilities user && eqb_ℤ (get_collateral user reserve.config.index) (pos 0)
      then (do (pool', price) ← load_price e pool reserve.asset; ok pool')
      else ok pool

  unfoldable pub apply_supply_collateral : Request → Tx → Result (Tx × ℤ)
  unfolding require_price require_within_cap
  apply_supply_collateral request t = do
    (noted, reserve) ← load_reserve e t.ledger t.pool request.address true
    require_reserve_action_allowed reserve request.request_type
    priced ← require_price noted t.user reserve
    b_tokens_minted ← to_b_token_down (env_math e) reserve.state request.amount
    (l, user, reserve') ← add_collateral e t.ledger t.user reserve b_tokens_minted
    require_min_position reserve' user
    actions ← add_for_spender_transfer t.actions reserve'.asset request.amount
    require_within_cap reserve'
    ok (
      record { ledger = l; actions = actions; pool = cache_reserve priced reserve'; user = user },
      b_tokens_minted,
    )

  unfoldable pub apply_withdraw_collateral : Request → Tx → Result (Tx × ℤ × ℤ)
  apply_withdraw_collateral request t = do
    (noted, reserve) ← load_reserve e t.ledger t.pool request.address true
    let cur_b_tokens = get_collateral t.user reserve.config.index
    (tokens_out, to_burn) ← plan_withdraw (env_math e) reserve.state request.amount cur_b_tokens
    (l, user, reserve') ← remove_collateral e t.ledger t.user reserve to_burn
    require_min_position reserve' user
    require_utilization_below_100 e reserve'
    actions ← add_for_pool_transfer t.actions reserve'.asset tokens_out
    ok (
      record {
        ledger = l;
        actions = do_check_health actions;
        pool = cache_reserve noted reserve';
        user = user;
      },
      tokens_out,
      to_burn,
    )

  unfoldable pub apply_borrow : Request → Tx → Result (Tx × ℤ)
  apply_borrow request t = do
    (noted, reserve) ← load_reserve e t.ledger t.pool request.address true
    require_reserve_action_allowed reserve request.request_type
    d_tokens_minted ← to_d_token_up (env_math e) reserve.state request.amount
    (l, user, reserve') ← add_liabilities e t.ledger t.user reserve d_tokens_minted
    require_utilization_below_100 e reserve'
    let checked = do_check_max_util t.actions reserve'.asset
    actions ← add_for_pool_transfer checked reserve'.asset request.amount
    ok (
      record {
        ledger = l;
        actions = do_check_health actions;
        pool = cache_reserve noted reserve';
        user = user;
      },
      d_tokens_minted,
    )

  -- A payment beyond the debt is taken whole and the refund paid back.
  note_repayment : Actions → Address → ℤ → ℤ → Bool → Result Actions
  note_repayment actions asset amount refund capped =
      if capped
      then (do
        require_nonnegative refund
        taken ← add_for_spender_transfer actions asset amount
        add_for_pool_transfer taken asset refund)
      else add_for_spender_transfer actions asset amount

  unfoldable pub apply_repay : Request → Tx → Result (Tx × ℤ × ℤ)
  unfolding note_repayment
  apply_repay request t = do
    (noted, reserve) ← load_reserve e t.ledger t.pool request.address true
    let cur_d_tokens = get_liabilities t.user reserve.config.index
    (repayment_amount, d_tokens_burnt, amount_to_refund, capped) ←
        plan_repay (env_math e) reserve.state request.amount cur_d_tokens
    actions ← note_repayment t.actions reserve.asset request.amount amount_to_refund capped
    (l, user, reserve') ←
        remove_liabilities e t.ledger t.user reserve
          (if capped then cur_d_tokens else d_tokens_burnt)
    ok (
      record { ledger = l; actions = actions; pool = cache_reserve noted reserve'; user = user },
      repayment_amount,
      d_tokens_burnt,
    )

  -- A fill of the auction of a user, `request.amount as u64` percent of it.
  apply_fill : ℕ → Request → Tx → Result Tx
  apply_fill auction_type request t = do
    (l, pool, user) ←
        fill e t.ledger t.pool auction_type request.address t.user (as_u64 request.amount)
    ok (record t { ledger = l; pool = pool; user = user })

  apply_delete : Tx → Result Tx
  apply_delete t = do
    l ← delete_liquidation t.ledger t.user.address
    ok (record t { ledger = l; actions = do_check_health t.actions })

  abbrev checking_health : Tx → Tx
  checking_health t = record t { actions = do_check_health t.actions }

  dispatch : RequestType → Request → Tx → Result Tx
  unfolding apply_fill apply_delete
  dispatch RequestType.supply request t = do (t', minted) ← apply_supply request t; ok t'
  dispatch RequestType.withdraw request t = do (t', out, burnt) ← apply_withdraw request t; ok t'
  dispatch RequestType.supply_collateral request t = do
    (t', minted) ← apply_supply_collateral request t
    ok t'
  dispatch RequestType.withdraw_collateral request t = do
    (t', out, burnt) ← apply_withdraw_collateral request t
    ok t'
  dispatch RequestType.borrow request t = do (t', minted) ← apply_borrow request t; ok t'
  dispatch RequestType.repay request t = do (t', paid, burnt) ← apply_repay request t; ok t'
  dispatch RequestType.fill_user_liquidation_auction request t = do
    t' ← apply_fill 0 request t
    ok (checking_health t')
  dispatch RequestType.fill_bad_debt_auction request t = do
    t' ← apply_fill 1 request t
    ok (checking_health t')
  dispatch RequestType.fill_interest_auction request t = apply_fill 2 request t
  dispatch RequestType.delete_liquidation_auction request t = apply_delete t

  -- One round of the loop: the request is checked and carried out.
  unfoldable pub apply_request : Request → Tx → Result Tx
  unfolding dispatch
  apply_request request t = do
    require_nonnegative request.amount
    require_action_allowed t.pool request.request_type
    kind ← request_type_from_u32 request.request_type
    dispatch kind request t

  unfoldable pub apply_requests : List Request → Tx → Result Tx
  apply_requests [] t = ok t
  apply_requests (request ∷ rest) t = do t' ← apply_request request t; apply_requests rest t'

  -- `build_actions_from_request`: no actions at first.
  unfoldable pub build_actions_from_request : Ledger → Pool → User → List Request → Result Tx
  build_actions_from_request l pool user requests =
      apply_requests requests
        (record { ledger = l; actions = no_actions; pool = pool; user = user })
