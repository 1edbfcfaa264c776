-- ===== src/Health.antt =====
-- The value of a set of positions and its health factor, pool/src/pool/health_factor.rs.
pub mod Factor
pub mod Faithful
use blend_contracts_v.Prelude.Map
use blend_contracts_v.Prelude.Map.{Map}
use blend_contracts_v.Prelude.{
  ℕ, if◌then◌else◌, Result, ◌>>=◌, ◌>>◌, ◌+!◌, ok, ℤ, ltb_ℤ, eqb_ℤ, pos, ◌+◌, Bool, true, false,
  ◌&&◌, List, [], ◌∷◌,
}
use blend_contracts_v.Env.{Env, FixedMath, scalar_7, Address, env_math, pow10}
use blend_contracts_v.Reserve.{
  Reserve, to_effective_asset_from_b_token, to_effective_asset_from_d_token, to_asset_from_b_token,
  to_asset_from_d_token,
}
use blend_contracts_v.Storage.{Ledger, Positions, get_res_list}
use blend_contracts_v.Pool.{Pool, load_price_decimals, load_reserve, load_price, cache_reserve}

pub record PositionData : Type 0 where
  pub collateral_base : ℤ
  pub collateral_raw : ℤ
  pub liability_base : ℤ
  pub liability_raw : ℤ
  pub scalar : ℤ

module _ (e : Env) where
  -- The collateral in one reserve, effective and raw.
  add_collateral_value : Reserve → ℤ → ℤ → PositionData → Result PositionData
  add_collateral_value reserve asset_to_base b_tokens acc =
      if ltb_ℤ (pos 0) b_tokens
      then (do
        asset_collateral ← to_effective_asset_from_b_token e reserve b_tokens
        effective ← e.fixed_point.fixed_mul_floor asset_to_base asset_collateral reserve.scalar
        collateral_base ← acc.collateral_base +! effective
        assets ← to_asset_from_b_token (env_math e) reserve.state b_tokens
        raw ← e.fixed_point.fixed_mul_floor asset_to_base assets reserve.scalar
        collateral_raw ← acc.collateral_raw +! raw
        ok (record acc { collateral_base = collateral_base; collateral_raw = collateral_raw }))
      else ok acc

  -- The liabilities in one reserve, effective and raw.
  add_liability_value : Reserve → ℤ → ℤ → PositionData → Result PositionData
  add_liability_value reserve asset_to_base d_tokens acc =
      if ltb_ℤ (pos 0) d_tokens
      then (do
        asset_liability ← to_effective_asset_from_d_token e reserve d_tokens
        effective ← e.fixed_point.fixed_mul_ceil asset_to_base asset_liability reserve.scalar
        liability_base ← acc.liability_base +! effective
        assets ← to_asset_from_d_token (env_math e) reserve.state d_tokens
        raw ← e.fixed_point.fixed_mul_ceil asset_to_base assets reserve.scalar
        liability_raw ← acc.liability_raw +! raw
        ok (record acc { liability_base = liability_base; liability_raw = liability_raw }))
      else ok acc

  -- One round of the loop over the reserve list.
  add_reserve :
      Ledger → Positions → Address → ℕ → Pool → PositionData → Result (Pool × PositionData)
  unfolding add_collateral_value add_liability_value
  add_reserve l positions asset i pool acc =
      let b_token_balance = Map.get_or i (pos 0) positions.collateral in
      let d_token_balance = Map.get_or i (pos 0) positions.liabilities in
      if eqb_ℤ b_token_balance (pos 0) && eqb_ℤ d_token_balance (pos 0) then ok (pool, acc) else (do
        (pool₁, reserve) ← load_reserve e l pool asset false
        (pool₂, asset_to_base) ← load_price e pool₁ reserve.asset
        acc₁ ← add_collateral_value reserve asset_to_base b_token_balance acc
        acc₂ ← add_liability_value reserve asset_to_base d_token_balance acc₁
        ok (cache_reserve pool₂ reserve, acc₂))

  add_reserves :
      Ledger → Positions → List Address → ℕ → Pool → PositionData → Result (Pool × PositionData)
  unfolding add_reserve
  add_reserves l positions [] i pool acc = ok (pool, acc)
  add_reserves l positions (asset ∷ rest) i pool acc = do
    (pool', acc') ← add_reserve l positions asset i pool acc
    add_reserves l positions rest (i + 1) pool' acc'

  unfoldable pub calculate_from_positions : Ledger → Pool → Positions → Result (Pool × PositionData)
  unfolding add_reserves
  calculate_from_positions l pool positions = do
    (pool', decimals) ← load_price_decimals e pool
    oracle_scalar ← pow10 decimals
    add_reserves l positions (get_res_list l) 0 pool' (record {
      collateral_base = pos 0;
      collateral_raw = pos 0;
      liability_base = pos 0;
      liability_raw = pos 0;
      scalar = oracle_scalar;
    })

module _ (math : FixedMath) (p : PositionData) where
  unfoldable pub as_health_factor : Result ℤ
  as_health_factor = math.floor p.collateral_base p.scalar p.liability_base

  unfoldable pub is_hf_over : ℤ → Result Bool
  is_hf_over limit = if eqb_ℤ p.liability_base (pos 0) then ok true else (do
    min_health_factor ← math.ceil p.scalar limit scalar_7
    hf ← as_health_factor
    ok (ltb_ℤ min_health_factor hf))

  unfoldable pub is_hf_under : ℤ → Result Bool
  is_hf_under limit = if eqb_ℤ p.liability_base (pos 0) then ok false else (do
    min_health_factor ← math.floor p.scalar limit scalar_7
    hf ← as_health_factor
    ok (ltb_ℤ hf min_health_factor))
