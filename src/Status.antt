-- ===== src/Status.antt =====
-- The status of a pool, pool/src/pool/status.rs, and the product of its backstop's balances,
-- shared/backstop_threshold.rs.
pub mod Threshold
pub mod Lifecycle
use blend_contracts_v.Prelude.{
  ℕ, ltb, ◌==◌, if◌then◌else◌, PoolError, Result, ◌>>=◌, ◌>>◌, panic_if, i128_bound, bad_request,
  status_not_allowed, invalid_price, pool_error, ok, err, ℤ, ◌*ℤ◌, ltb_ℤ, leb_ℤ, quot_ℤ, pos,
  negsuc, ◌-◌, Bool, not, ◌&&◌, ◌||◌,
}
use blend_contracts_v.Env.{scalar_7, PoolBackstopData, Env}
use blend_contracts_v.Storage.{Ledger, get_pool_config, get_backstop, set_pool_config}

-- The range of an `i128`, by clamping.
abbrev pub saturate : ℤ → ℤ
saturate (pos n) = if ltb n i128_bound then pos n else pos (i128_bound - 1)
saturate (negsuc n) = if ltb n i128_bound then negsuc n else negsuc (i128_bound - 1)

-- `saturating_mul`
unfoldable pub saturating_mul : ℤ → ℤ → ℤ
saturating_mul a b = saturate (a *ℤ b)

unfoldable pub saturating_backstop_product : ℤ → ℤ → ℤ
unfolding saturating_mul
saturating_backstop_product blnd usdc =
    let bal_blnd = quot_ℤ blnd 1_0000000 in
    let bal_usdc = quot_ℤ usdc 1_0000000 in
    saturating_mul
      (saturating_mul (saturating_mul (saturating_mul bal_blnd bal_blnd) bal_blnd) bal_blnd)
      bal_usdc

abbrev pub threshold_pc : ℕ
threshold_pc = 10_000_000_000_000_000_000_000_000

unfoldable pub threshold_from_product : ℤ → ℤ
unfolding saturating_mul
threshold_from_product product = quot_ℤ (saturating_mul product scalar_7) threshold_pc

unfoldable pub calc_pool_backstop_threshold : PoolBackstopData → ℤ
calc_pool_backstop_threshold p = threshold_from_product (saturating_backstop_product p.blnd p.usdc)

-- The status that the backstop's state calls for when the admin has set none.
abbrev pub permissionless_status : ℤ → Bool → ℕ
permissionless_status q4w_pct met_threshold =
    if leb_ℤ (pos 0_6000000) q4w_pct
    then 5
    else (if leb_ℤ (pos 0_3000000) q4w_pct || not met_threshold then 3 else 1)

-- The status after an update: 0 admin active, 1 active, 2 admin on ice, 3 on ice, 4 admin frozen,
-- 5 frozen, 6 setup.
unfoldable pub updated_status : ℕ → ℤ → Bool → Result ℕ
updated_status status q4w_pct met_threshold =
    if status == 6
    then err (pool_error PoolError.status_not_allowed)
    else (if status == 2
        then ok (if leb_ℤ (pos 0_7500000) q4w_pct then 5 else 2)
        else (if status == 0
            then ok (if not met_threshold || leb_ℤ (pos 0_5000000) q4w_pct then 3 else 0)
            else ok (permissionless_status q4w_pct met_threshold)))

unfoldable pub execute_update_pool_status : Env → Ledger → Result (Ledger × ℕ)
execute_update_pool_status e l = do
  pool_config ← get_pool_config l
  panic_if (pool_config.status == 4) (pool_error PoolError.status_not_allowed)
  backstop_id ← get_backstop l
  let backstop_data = e.pool_data backstop_id e.current_contract_address
  let met_threshold = not (ltb_ℤ (calc_pool_backstop_threshold backstop_data) scalar_7)
  status ← updated_status pool_config.status backstop_data.q4w_pct met_threshold
  ok (set_pool_config l (record pool_config { status = status }), status)

-- What the admin may set, given the backstop's state.
unfoldable pub admin_status : ℕ → ℤ → ℤ → Result ℕ
admin_status pool_status threshold q4w_pct =
    if pool_status == 0
    then (panic_if (ltb_ℤ threshold scalar_7 || leb_ℤ (pos 0_5000000) q4w_pct)
          (pool_error PoolError.status_not_allowed)
        >> ok 0)
    else (if pool_status == 2 || pool_status == 3
        then (panic_if (leb_ℤ (pos 0_7500000) q4w_pct) (pool_error PoolError.status_not_allowed)
            >> ok pool_status)
        else err (pool_error PoolError.bad_request))

unfoldable pub execute_set_pool_status : Env → Ledger → ℕ → Result Ledger
execute_set_pool_status e l pool_status = do
  pool_config ← get_pool_config l
  if pool_status == 4 then ok (set_pool_config l (record pool_config { status = 4 })) else (do
    panic_if (pool_config.status == 4) (pool_error PoolError.status_not_allowed)
    panic_if
        (pool_config.status == 6
          && (pool_status == 0 || pool_status == 2 || pool_status == 3)
          && not (e.decimals pool_config.oracle == 7))
        (pool_error PoolError.invalid_price)
    backstop_id ← get_backstop l
    let backstop_data = e.pool_data backstop_id e.current_contract_address
    status ←
        admin_status pool_status (calc_pool_backstop_threshold backstop_data) backstop_data.q4w_pct
    ok (set_pool_config l (record pool_config { status = status })))
