-- ===== src/Reserve.antt =====
-- A reserve of the pool, pool/src/pool/reserve.rs: conversions between tokens and shares, the
-- utilization, accrual, and the guards on utilization and status.
pub mod Rounding
pub mod Accrual
pub mod Load
pub mod Identity
use blend_contracts_v.Prelude.{
  ℕ, ℤ, pos, ◌+ℤ◌, ◌-ℤ◌, leb_ℤ, ltb_ℤ, eqb_ℤ, Bool, not, ◌||◌, Result, ok, pool_error, PoolError,
  panic_if, ◌>>=◌, ◌>>◌, ◌+!◌, ◌-!◌, ltb, ◌==◌, if◌then◌else◌,
}
use blend_contracts_v.Env.{Address, FixedMath, Env, env_math, pow10, scalar_7, scalar_12}
use blend_contracts_v.Storage.{
  PoolConfig, ReserveConfig, ReserveData, Ledger, get_res_config, get_res_data, set_res_data,
}
use blend_contracts_v.Interest.{calc_accrual}

pub record Reserve : Type 0 where
  pub asset : Address
  pub config : ReserveConfig
  pub state : ReserveData
  pub scalar : ℤ

module _ (math : FixedMath) (d : ReserveData) where
  unfoldable pub to_asset_from_b_token : ℤ → Result ℤ
  to_asset_from_b_token amount = math.floor amount d.b_rate scalar_12

  unfoldable pub to_asset_from_d_token : ℤ → Result ℤ
  to_asset_from_d_token amount = math.ceil amount d.d_rate scalar_12

  unfoldable pub to_b_token_down : ℤ → Result ℤ
  to_b_token_down amount = math.floor amount scalar_12 d.b_rate

  unfoldable pub to_b_token_up : ℤ → Result ℤ
  to_b_token_up amount = math.ceil amount scalar_12 d.b_rate

  unfoldable pub to_d_token_down : ℤ → Result ℤ
  to_d_token_down amount = math.floor amount scalar_12 d.d_rate

  unfoldable pub to_d_token_up : ℤ → Result ℤ
  to_d_token_up amount = math.ceil amount scalar_12 d.d_rate

  -- Capped at 100 percent.
  unfoldable pub utilization : Result ℤ
  utilization = do
    liabilities ← to_asset_from_d_token d.d_supply
    supply ← to_asset_from_b_token d.b_supply
    if eqb_ℤ liabilities (pos 0)
        then ok (pos 0)
        else (if leb_ℤ supply liabilities
            then ok scalar_7
            else math.ceil liabilities scalar_7 supply)

-- The new data and the interest that was charged.
unfoldable pub grow_debt : FixedMath → ReserveData → ℤ → Result (ReserveData × ℤ)
grow_debt math d loan_accrual = do
  pre_update_liabilities ← to_asset_from_d_token math d d.d_supply
  d_rate ← math.ceil loan_accrual d.d_rate scalar_12
  let grown = record d { d_rate = d_rate }
  liabilities ← to_asset_from_d_token math grown d.d_supply
  accrued ← liabilities -! pre_update_liabilities
  ok (grown, accrued)

-- The backstop's part of the interest.
backstop_part : FixedMath → ℕ → ℤ → Result ℤ
backstop_part math bstop_rate accrued =
    if ltb 0 bstop_rate then math.floor accrued (pos bstop_rate) scalar_7 else ok (pos 0)

unfoldable pub accrue : FixedMath → ReserveData → ℕ → ℤ → Result ReserveData
unfolding backstop_part
accrue math d bstop_rate accrued = do
  pre_update_supply ← to_asset_from_b_token math d d.b_supply
  if ltb_ℤ (pos 0) accrued
      then (do
        new_backstop_credit ← backstop_part math bstop_rate accrued
        backstop_credit ← d.backstop_credit +! new_backstop_credit
        with_interest ← pre_update_supply +! accrued
        to_suppliers ← with_interest -! new_backstop_credit
        b_rate ← math.floor to_suppliers scalar_12 d.b_supply
        ok (record d { b_rate = b_rate; backstop_credit = backstop_credit }))
      else ok d

unfoldable pub mint_supply : ReserveData → ℤ → Result ReserveData
mint_supply d amount = do b_supply ← d.b_supply +! amount; ok (record d { b_supply = b_supply })

unfoldable pub burn_supply : ReserveData → ℤ → Result ReserveData
burn_supply d amount = do b_supply ← d.b_supply -! amount; ok (record d { b_supply = b_supply })

abbrev pub utilization_within_max : ℤ → ℕ → Bool
utilization_within_max utilization maximum = leb_ℤ utilization (pos maximum)

abbrev pub utilization_below_100 : ℤ → Bool
utilization_below_100 utilization = ltb_ℤ utilization scalar_7

-- A disabled reserve refuses supply (0), supply collateral (2) and borrow (4).
abbrev pub reserve_action_allowed : Bool → ℕ → Bool
reserve_action_allowed enabled action_type =
    enabled || not (action_type == 0 || action_type == 2 || action_type == 4)

module _ (e : Env) where
  -- The loan interest since the last update, when there is some.
  accrue_interest : PoolConfig → Reserve → ℤ → Result Reserve
  accrue_interest pool_config r cur_util = do
    (loan_accrual, new_ir_mod) ← calc_accrual e r.config cur_util r.state.ir_mod r.state.last_time
    (grown, accrued_interest) ←
        grow_debt (env_math e) (record (r.state) { ir_mod = new_ir_mod }) loan_accrual
    accrued ← accrue (env_math e) grown pool_config.bstop_rate accrued_interest
    ok (record r { state = record accrued { last_time = e.timestamp } })

  -- The reserve at the current timestamp.
  refresh : PoolConfig → Reserve → Result Reserve
  unfolding accrue_interest
  refresh pool_config r =
      let touched = record r { state = record (r.state) { last_time = e.timestamp } } in
      if e.timestamp == r.state.last_time
      then ok r
      else (if eqb_ℤ r.state.b_supply (pos 0) then ok touched else (do
        cur_util ← utilization (env_math e) r.state
        if eqb_ℤ cur_util (pos 0) then ok touched else accrue_interest pool_config r cur_util))

  unfoldable pub load : Ledger → PoolConfig → Address → Result Reserve
  unfolding refresh
  load l pool_config asset = do
    reserve_config ← get_res_config l asset
    reserve_data ← get_res_data l asset
    scalar ← pow10 reserve_config.decimals
    refresh pool_config
        (record { asset = asset; config = reserve_config; state = reserve_data; scalar = scalar })

  unfoldable pub require_utilization_below_max : Reserve → Result (Unit {0})
  require_utilization_below_max r = do
    u ← utilization (env_math e) r.state
    panic_if (not (utilization_within_max u r.config.max_util))
        (pool_error PoolError.invalid_util_rate)

  unfoldable pub require_utilization_below_100 : Reserve → Result (Unit {0})
  require_utilization_below_100 r = do
    u ← utilization (env_math e) r.state
    panic_if (not (utilization_below_100 u)) (pool_error PoolError.invalid_util_rate)

  unfoldable pub total_liabilities : Reserve → Result ℤ
  total_liabilities r = to_asset_from_d_token (env_math e) r.state r.state.d_supply

  unfoldable pub total_supply : Reserve → Result ℤ
  total_supply r = to_asset_from_b_token (env_math e) r.state r.state.b_supply

  unfoldable pub to_effective_asset_from_d_token : Reserve → ℤ → Result ℤ
  to_effective_asset_from_d_token r d_tokens = do
    assets ← to_asset_from_d_token (env_math e) r.state d_tokens
    e.fixed_point.fixed_div_ceil assets (pos r.config.l_factor) scalar_7

  unfoldable pub to_effective_asset_from_b_token : Reserve → ℤ → Result ℤ
  to_effective_asset_from_b_token r b_tokens = do
    assets ← to_asset_from_b_token (env_math e) r.state b_tokens
    e.fixed_point.fixed_mul_floor assets (pos r.config.c_factor) scalar_7

unfoldable pub require_reserve_action_allowed : Reserve → ℕ → Result (Unit {0})
require_reserve_action_allowed r action_type =
    panic_if (not (reserve_action_allowed r.config.enabled action_type))
      (pool_error PoolError.reserve_disabled)

-- `Reserve::store`
abbrev pub store : Ledger → Reserve → Ledger
store l r = set_res_data l r.asset r.state
