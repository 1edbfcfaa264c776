-- ===== src/Actions/Requests.antt =====
-- The requests, the actions that they note, and the plans of a withdrawal and of a repayment:
-- the types and the pure parts of pool/src/pool/actions.rs.
use blend_contracts_v.Prelude.Map
use blend_contracts_v.Prelude.Map.{Map}
use blend_contracts_v.Prelude.{
  ℕ, ◌==◌, if◌then◌else◌, PoolError, Result, ◌>>=◌, ◌+!◌, ◌-!◌, pool_error, ok, err, ℤ, ltb_ℤ,
  leb_ℤ, pos, zero, suc, Bool, true, false, ◌&&◌, List, [], ◌∷◌, ◌++◌,
}
use blend_contracts_v.Env.{Address, FixedMath}
use blend_contracts_v.Storage.{ReserveData}
use blend_contracts_v.Pool.{contains}
use blend_contracts_v.Reserve.{
  to_asset_from_b_token, to_d_token_down, total_supply, to_b_token_up, to_asset_from_d_token,
}

pub record Request : Type 0 where
  pub request_type : ℕ
  pub address : Address
  pub amount : ℤ

pub data RequestType : Type 0 where
  supply withdraw supply_collateral withdraw_collateral borrow repay : RequestType
  fill_user_liquidation_auction fill_bad_debt_auction fill_interest_auction : RequestType
  delete_liquidation_auction : RequestType

-- `RequestType::from_u32`
unfoldable pub request_type_from_u32 : ℕ → Result RequestType
request_type_from_u32 zero = ok RequestType.supply
request_type_from_u32 (suc zero) = ok RequestType.withdraw
request_type_from_u32 (suc (suc zero)) = ok RequestType.supply_collateral
request_type_from_u32 (suc (suc (suc zero))) = ok RequestType.withdraw_collateral
request_type_from_u32 (suc (suc (suc (suc zero)))) = ok RequestType.borrow
request_type_from_u32 (suc (suc (suc (suc (suc zero))))) = ok RequestType.repay
request_type_from_u32 (suc (suc (suc (suc (suc (suc n)))))) =
    if n == 0
    then ok RequestType.fill_user_liquidation_auction
    else (if n == 1
        then ok RequestType.fill_bad_debt_auction
        else (if n == 2
            then ok RequestType.fill_interest_auction
            else (if n == 3
                then ok RequestType.delete_liquidation_auction
                else err (pool_error PoolError.bad_request))))

pub record Actions : Type 0 where
  pub spender_transfer : Map ℤ
  pub pool_transfer : Map ℤ
  pub check_health : Bool
  pub check_max_util : List Address

-- `Actions::new`
abbrev pub no_actions : Actions
no_actions = record {
  spender_transfer = [];
  pool_transfer = [];
  check_health = false;
  check_max_util = [];
}

abbrev pub add_amount : Address → ℤ → Map ℤ → Result (Map ℤ)
add_amount asset amount m = do sum ← amount +! Map.get_or asset (pos 0) m; ok (Map.set asset sum m)

abbrev pub add_for_spender_transfer : Actions → Address → ℤ → Result Actions
add_for_spender_transfer a asset amount = do
  m ← add_amount asset amount a.spender_transfer
  ok (record a { spender_transfer = m })

abbrev pub add_for_pool_transfer : Actions → Address → ℤ → Result Actions
add_for_pool_transfer a asset amount = do
  m ← add_amount asset amount a.pool_transfer
  ok (record a { pool_transfer = m })

abbrev pub do_check_health : Actions → Actions
do_check_health a = record a { check_health = true }

abbrev pub do_check_max_util : Actions → Address → Actions
do_check_max_util a asset =
    if contains a.check_max_util asset
    then a
    else record a { check_max_util = a.check_max_util ++ (asset ∷ []) }

-- What is paid out, and the b tokens that are burnt, of a position of `cur_b_tokens`.
unfoldable pub plan_withdraw : FixedMath → ReserveData → ℤ → ℤ → Result (ℤ × ℤ)
plan_withdraw math d amount cur_b_tokens = do
  position_value ← to_asset_from_b_token math d cur_b_tokens
  if ltb_ℤ (pos 0) d.b_rate && ltb_ℤ position_value amount
      then ok (position_value, cur_b_tokens)
      else (do
        to_burn ← to_b_token_up math d amount
        if ltb_ℤ cur_b_tokens to_burn
            then (do
              tokens_out ← to_asset_from_b_token math d cur_b_tokens
              ok (tokens_out, cur_b_tokens))
            else ok (amount, to_burn))

abbrev pub supply_within_cap : ℤ → ℤ → Bool
supply_within_cap total_supply supply_cap = leb_ℤ total_supply supply_cap

-- What is paid in, the d tokens that are burnt, the refund, and whether the debt caps the payment.
unfoldable pub plan_repay : FixedMath → ReserveData → ℤ → ℤ → Result (ℤ × ℤ × ℤ × Bool)
plan_repay math d amount cur_d_tokens = do
  d_tokens_burnt ← to_d_token_down math d amount
  if ltb_ℤ cur_d_tokens d_tokens_burnt
      then (do
        cur_underlying_borrowed ← to_asset_from_d_token math d cur_d_tokens
        refund ← amount -! cur_underlying_borrowed
        ok (cur_underlying_borrowed, cur_d_tokens, refund, true))
      else ok (amount, d_tokens_burnt, pos 0, false)
