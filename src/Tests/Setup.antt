-- ===== src/Tests/Setup.antt =====
-- A small deployment: one reserve, one user, and fixed-point arithmetic by the crate's documentation.
use blend_contracts_v.Prelude.{
  ℕ, ◌==◌, if◌then◌else◌, Result, trap, ok, err, ℤ, pos, negsuc, suc, ◌+◌, refl, true, none, some,
  [], ◌∷◌, arith,
}
use blend_contracts_v.Env.Math.{quotient_floor, quotient_ceil, IsFixedMath, quotient_ceil_neg}
use blend_contracts_v.Env.{SorobanFixedPoint, FixedMath, PoolBackstopData, Env, scalar_7}
use blend_contracts_v.Storage.{ReserveConfig, ReserveData, PoolConfig, Positions, Ledger}
use blend_contracts_v.Reserve.Rounding.{IsNonneg}
use blend_contracts_v.Reserve.Load.{IsSound}
use blend_contracts_v.Reserve.{Reserve}
use blend_contracts_v.User.{User}
use blend_contracts_v.Pool.{Pool}

-- The fixed-point functions, where the laws speak of them.
abbrev pub mul_floor : ℤ → ℤ → ℤ → Result ℤ
mul_floor (pos x) (pos y) (pos d) = quotient_floor x y d
mul_floor (pos x) (pos y) (negsuc d) = err trap
mul_floor (pos x) (negsuc y) d = err trap
mul_floor (negsuc x) y d = err trap

abbrev pub mul_ceil : ℤ → ℤ → ℤ → Result ℤ
mul_ceil (pos x) (pos y) (pos d) = quotient_ceil x y d
mul_ceil (negsuc x) (pos y) (pos d) = quotient_ceil_neg (suc x) y d
mul_ceil x (pos y) (negsuc d) = err trap
mul_ceil x (negsuc y) d = err trap

abbrev pub fixed_point : SorobanFixedPoint
fixed_point = record {
  fixed_mul_floor = mul_floor;
  fixed_mul_ceil = mul_ceil;
  fixed_div_floor = λ x y d. mul_floor x d y;
  fixed_div_ceil = λ x y d. mul_ceil x d y;
}

abbrev pub math : FixedMath
math = record { floor = mul_floor; ceil = mul_ceil }

pub math-IsFixedMath : IsFixedMath math
math-IsFixedMath = record {
  floor_nonneg = λ x y d. refl;
  ceil_nonneg = λ x y d. refl;
  ceil_neg = λ x y d. refl;
}

abbrev pub backstop_data : PoolBackstopData
backstop_data = record {
  tokens = pos 50_000_0000000;
  shares = pos 50_000_0000000;
  q4w_pct = pos 0_1000000;
  blnd = pos 200_000_0000000;
  usdc = pos 10_000_0000000;
  token_spot_price = pos 1_0000000;
}

-- The host `seconds` after the reserve was last touched.
abbrev pub host : ℕ → Env
host seconds = record {
  timestamp = 1_000_000 + seconds;
  sequence = 300;
  current_contract_address = 100;
  fixed_point = fixed_point;
  decimals = λ _. 7;
  lastprice = λ _ _. some (record { price = pos 2_0000000; timestamp = 1_000_000 });
  backstop_token = λ _. 60;
  pool_data = λ _ _. backstop_data;
  gulp_emissions = λ _ _. pos 0;
  accepts = λ _ _. true;
}

abbrev pub config : ReserveConfig
config = record {
  index = 0;
  decimals = 7;
  c_factor = 0_9000000;
  l_factor = 0_9000000;
  util = 0_7500000;
  max_util = 0_9500000;
  r_base = 0_0100000;
  r_one = 0_0500000;
  r_two = 0_5000000;
  r_three = 1_5000000;
  reactivity = 100;
  supply_cap = pos 1_000_000_0000000;
  min_position = pos 0;
  enabled = true;
}

abbrev pub reserve_data : ReserveData
reserve_data = record {
  d_rate = pos 1_100_000_000_000;
  b_rate = pos 1_050_000_000_000;
  ir_mod = pos 1_0000000;
  b_supply = pos 1_000_0000000;
  d_supply = pos 500_0000000;
  backstop_credit = pos 0;
  last_time = 1_000_000;
}

pub reserve_data-IsNonneg : IsNonneg reserve_data
reserve_data-IsNonneg = record {
  d_rate = refl;
  b_rate = refl;
  ir_mod = refl;
  b_supply = refl;
  d_supply = refl;
  backstop_credit = refl;
}

pub reserve_data-IsSound : IsSound reserve_data
reserve_data-IsSound = record {
  nonneg = reserve_data-IsNonneg;
  in_range = (refl, omega arith, omega arith);
}

abbrev pub reserve : Reserve
reserve = record { asset = 1; config = config; state = reserve_data; scalar = scalar_7 }

abbrev pub pool_config : PoolConfig
pool_config = record {
  oracle = 103;
  min_collateral = pos 1_0000000;
  bstop_rate = 0_1000000;
  status = 1;
  max_positions = 4;
}

-- User 7 has collateral, supply and a debt in the reserve.
abbrev pub user_positions : Positions
user_positions = record {
  liabilities = (0, pos 100_0000000) ∷ [];
  collateral = (0, pos 600_0000000) ∷ [];
  supply = (0, pos 50_0000000) ∷ [];
}

abbrev pub user : User
user = record { address = 7; positions = user_positions }

abbrev pub ledger : Ledger
ledger = record {
  admin = some 2;
  proposed_admin = none;
  name = none;
  backstop = some 101;
  blnd_token = some 102;
  pool_config = some pool_config;
  res_list = 1 ∷ [];
  res_config = λ a. if a == 1 then some config else none;
  res_init = λ a. none;
  res_data = λ a. if a == 1 then some reserve_data else none;
  emis_data = λ id. none;
  user_emis = λ a id. none;
  pool_emis = [];
  positions = λ a. if a == 7 then some user_positions else none;
  auctions = λ a t. none;
  token_calls = [];
}

abbrev pub pool : Pool
pool = record {
  config = pool_config;
  reserves = [];
  reserves_to_store = [];
  price_decimals = none;
  prices = [];
}

-- What a call returned.
abbrev pub returned {ℓ} : {A : Type ℓ} → A → Result A → A
returned a (ok b) = b
returned a (err _) = a
