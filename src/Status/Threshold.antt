-- ===== src/Status/Threshold.antt =====
-- The two readings of a pool's backstop: the pool's in pool/src/pool/status.rs and the backstop's
-- in backstop/src/backstop/pool.rs.
use blend_contracts_v.Prelude.{ℤ, ltb_ℤ, quot_ℤ, pos, negsuc, ◌≡◌, not, ◌*ℤ◌, ◌-ℤ◌, arith}
use blend_contracts_v.Status.{
  threshold_from_product, calc_pool_backstop_threshold, saturating_mul, saturating_backstop_product,
}
use blend_contracts_v.Backstop.{backstop_threshold_from_product, is_pool_above_threshold}
use blend_contracts_v.Env.{PoolBackstopData, scalar_7}

threshold_agrees :
    (product : ℤ)
    → not (ltb_ℤ (threshold_from_product product) scalar_7)
      ≡ backstop_threshold_from_product product
unfolding threshold_from_product backstop_threshold_from_product saturating_mul quot_ℤ ◌*ℤ◌ ◌-ℤ◌
threshold_agrees (pos n) = ground arith
threshold_agrees (negsuc n) = ground arith

-- For any balances of a pool's backstop, the pool takes the threshold to be met exactly where the
-- backstop contract does, through every saturation.
pub calc_pool_backstop_threshold-is_pool_above_threshold :
    (p : PoolBackstopData)
    → not (ltb_ℤ (calc_pool_backstop_threshold p) scalar_7) ≡ is_pool_above_threshold p
unfolding calc_pool_backstop_threshold is_pool_above_threshold
calc_pool_backstop_threshold-is_pool_above_threshold p =
    threshold_agrees (saturating_backstop_product p.blnd p.usdc)
