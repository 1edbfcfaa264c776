-- ===== src/Env.antt =====
-- The host environment (`Env` of soroban_sdk) and the arithmetic boundary, pool/src/math.rs.
-- What stands outside of the repository is a field: the fixed-point crate, the oracle, the backstop's
-- answer, and whether a token call goes through.
pub mod Math
use blend_contracts_v.Prelude.{ℕ, ◌^◌, ℤ, pos, Bool, Option, List, Result, check}

-- Addresses are numbers in the order in which the host sorts them.
abbrev pub Address : Type 0
Address = ℕ

-- The crate soroban_fixed_point_math: `x.fixed_mul_floor(e, &y, &d)` and the other three.
pub record SorobanFixedPoint : Type 0 where
  pub fixed_mul_floor : ℤ → ℤ → ℤ → Result ℤ
  pub fixed_mul_ceil : ℤ → ℤ → ℤ → Result ℤ
  pub fixed_div_floor : ℤ → ℤ → ℤ → Result ℤ
  pub fixed_div_ceil : ℤ → ℤ → ℤ → Result ℤ

-- `trait FixedMath`: `floor x y denominator` and `ceil x y denominator`.
pub record FixedMath : Type 0 where
  pub floor : ℤ → ℤ → ℤ → Result ℤ
  pub ceil : ℤ → ℤ → ℤ → Result ℤ

pub record PriceData : Type 0 where
  pub price : ℤ
  pub timestamp : ℕ

-- What the backstop contract reports of a pool.
pub record PoolBackstopData : Type 0 where
  pub tokens : ℤ
  pub shares : ℤ
  pub q4w_pct : ℤ
  pub blnd : ℤ
  pub usdc : ℤ
  pub token_spot_price : ℤ

-- A call of a token contract: the token, the spender for `transfer_from`, the two accounts; or a call
-- of the backstop to draw from, or donate to, what it holds for the pool.
pub data TokenCall : Type 0 where
  transfer : Address → Address → Address → ℤ → TokenCall
  transfer_from : Address → Address → Address → Address → ℤ → TokenCall
  draw : Address → Address → ℤ → Address → TokenCall
  donate : Address → Address → Address → ℤ → TokenCall

pub record Env : Type 0 where
  pub timestamp : ℕ
  pub sequence : ℕ
  pub current_contract_address : Address
  pub fixed_point : SorobanFixedPoint
  -- the oracle's `decimals` and `lastprice`
  pub decimals : Address → ℕ
  pub lastprice : Address → Address → Option PriceData
  -- the backstop's `backstop_token`, `pool_data` and `gulp_emissions`
  pub backstop_token : Address → Address
  pub pool_data : Address → Address → PoolBackstopData
  pub gulp_emissions : Address → Address → ℤ
  -- whether a token call returns, after those made before it
  pub accepts : List TokenCall → TokenCall → Bool

-- `impl FixedMath for Env`
abbrev pub env_math : Env → FixedMath
env_math e = record { floor = e.fixed_point.fixed_mul_floor; ceil = e.fixed_point.fixed_mul_ceil }

-- `10i128.pow(decimals)`
unfoldable pub pow10 : ℕ → Result ℤ
pow10 d = check (pos (10 ^ d))

abbrev pub scalar_12 : ℤ
scalar_12 = pos 1_000_000_000_000

abbrev pub scalar_7 : ℤ
scalar_7 = pos 1_0000000

abbrev pub seconds_per_year : ℕ
seconds_per_year = 31536000

abbrev pub seconds_per_week : ℕ
seconds_per_week = 604800

abbrev pub max_reserves : ℕ
max_reserves = 30
