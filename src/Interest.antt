-- ===== src/Interest.antt =====
-- The interest rate model, pool/src/pool/interest.rs: the current rate by the three legs of the
-- curve, the rate modifier that drifts with utilization, and the accrual of an interval.
pub mod Bounds
use blend_contracts_v.Prelude.{
  ℕ, ◌+◌, ℤ, pos, ◌+ℤ◌, ◌-ℤ◌, ◌*ℤ◌, leb_ℤ, ltb_ℤ, quot_ℤ, Result, ok, err, pool_error, PoolError,
  panic_if, ◌>>=◌, ◌>>◌, ◌+!◌, ◌-!◌, ◌*!◌, add_u, sub_u, ltb, if◌then◌else◌,
}
use blend_contracts_v.Env.{FixedMath, Env, env_math, scalar_7, scalar_12, seconds_per_year}
use blend_contracts_v.Storage.{ReserveConfig}

-- The leg of the curve at or below the target utilization.
low_interest : FixedMath → ReserveConfig → ℤ → ℤ → Result ℤ
low_interest math config cur_util ir_mod = do
  util_scalar ← math.ceil cur_util scalar_7 (pos config.util)
  scaled ← math.ceil util_scalar (pos config.r_one) scalar_7
  base_rate ← scaled +! pos config.r_base
  math.ceil base_rate ir_mod scalar_7

-- The leg from the target up to 95 percent.
mid_interest : FixedMath → ReserveConfig → ℤ → ℤ → Result ℤ
mid_interest math config cur_util ir_mod = do
  above ← cur_util -! pos config.util
  width ← pos 0_9500000 -! pos config.util
  util_scalar ← math.ceil above scalar_7 width
  scaled ← math.ceil util_scalar (pos config.r_two) scalar_7
  with_one ← scaled +! pos config.r_one
  base_rate ← with_one +! pos config.r_base
  math.ceil base_rate ir_mod scalar_7

-- The leg above 95 percent.
high_interest : FixedMath → ReserveConfig → ℤ → ℤ → Result ℤ
high_interest math config cur_util ir_mod = do
  above ← cur_util -! pos 0_9500000
  util_scalar ← math.ceil above scalar_7 (pos 0_0500000)
  extra_rate ← math.ceil util_scalar (pos config.r_three) scalar_7
  two_one ← add_u 32 config.r_two config.r_one
  rates ← add_u 32 two_one config.r_base
  intersection ← math.ceil ir_mod (pos rates) scalar_7
  extra_rate +! intersection

unfoldable pub current_interest : FixedMath → ReserveConfig → ℤ → ℤ → Result ℤ
unfolding low_interest mid_interest high_interest
current_interest math config cur_util ir_mod =
    if leb_ℤ cur_util (pos config.util)
    then low_interest math config cur_util ir_mod
    else (if leb_ℤ cur_util (pos 0_9500000)
        then mid_interest math config cur_util ir_mod
        else high_interest math config cur_util ir_mod)

-- The new rate modifier after `delta_time` seconds at a utilization that misses the target by
-- `util_dif`.
next_ir_mod : FixedMath → ReserveConfig → ℤ → ℤ → ℤ → Result ℤ
next_ir_mod math config util_dif ir_mod delta_time = do
  util_error ← delta_time *! util_dif
  if leb_ℤ (pos 0) util_dif
      then (do
        rate_dif ← math.floor util_error (pos config.reactivity) scalar_7
        next ← ir_mod +! rate_dif
        ok (if ltb_ℤ (pos 10_0000000) next then pos 10_0000000 else next))
      else (do
        rate_dif ← math.ceil util_error (pos config.reactivity) scalar_7
        next ← ir_mod +! rate_dif
        ok (if ltb_ℤ next (pos 0_1000000) then pos 0_1000000 else next))

-- The accrual factor with 12 decimals, and the new rate modifier.
unfoldable pub finish_accrual : FixedMath → ReserveConfig → ℤ → ℤ → ℤ → ℤ → Result (ℤ × ℤ)
unfolding next_ir_mod
finish_accrual math config cur_util ir_mod delta_time cur_ir = do
  util_dif ← cur_util -! pos config.util
  new_ir_mod ← next_ir_mod math config util_dif ir_mod delta_time
  delta_time_scaled ← delta_time *! scalar_12
  accrued ← math.ceil (quot_ℤ delta_time_scaled seconds_per_year) cur_ir scalar_7
  factor ← scalar_12 +! accrued
  ok (factor, new_ir_mod)

unfoldable pub calc_accrual : Env → ReserveConfig → ℤ → ℤ → ℕ → Result (ℤ × ℤ)
calc_accrual e config cur_util ir_mod last_time = do
  cur_ir ← current_interest (env_math e) config cur_util ir_mod
  delta_time ← sub_u e.timestamp last_time
  panic_if (ltb delta_time 1) (pool_error PoolError.internal_error)
  finish_accrual (env_math e) config cur_util ir_mod (pos delta_time) cur_ir
