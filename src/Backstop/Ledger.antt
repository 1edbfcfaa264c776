-- ===== src/Backstop/Ledger.antt =====
-- The ledger entries of the backstop contract, backstop/src/storage.rs, and what it asks of the host
-- and of other contracts. Bumping an entry's time to live is left out.
use blend_contracts_v.Prelude.{
  ℕ, if◌then◌else◌, Result, or_panic, trap, err, ok, ℤ, pos, Bool, Option, some, List, [], ◌∷◌,
}
use blend_contracts_v.Env.{Address, SorobanFixedPoint}
use blend_contracts_v.Storage.{Positions, unwrap_or, update₂, update}
use blend_contracts_v.Backstop.{PoolBalance, UserBalance}

pub record RzEmissions : Type 0 where
  pub accrued : ℤ
  pub last_time : ℕ

pub record BackstopEmissionData : Type 0 where
  pub expiration : ℕ
  pub eps : ℕ
  pub index : ℤ
  pub last_time : ℕ

pub record DepositorEmissionData : Type 0 where
  pub index : ℤ
  pub accrued : ℤ

-- A call of another contract that may abort: of a token, with the token, the spender for
-- `transfer_from`, the two accounts, the amount and, for `approve`, the ledger where it ends; or a
-- single-sided deposit of a token into the liquidity pool, with the pool, the token, the amount, the
-- least number of pool tokens and the account.
pub data BackstopCall : Type 0 where
  transfer : Address → Address → Address → ℤ → BackstopCall
  transfer_from : Address → Address → Address → Address → ℤ → BackstopCall
  approve : Address → Address → Address → ℤ → ℕ → BackstopCall
  dep_tokn_amt_in : Address → Address → ℤ → ℤ → Address → BackstopCall

pub record BackstopEnv : Type 0 where
  pub timestamp : ℕ
  pub sequence : ℕ
  pub current_contract_address : Address
  -- the fixed-point crate on plain `i128`, unwrapped
  pub fixed_point : SorobanFixedPoint
  -- the liquidity pool's `get_total_supply` and `get_balance`
  pub get_total_supply : Address → ℤ
  pub get_balance : Address → Address → ℤ
  -- the factory's `is_pool`
  pub is_pool : Address → Address → Bool
  -- a pool's `get_positions`
  pub get_positions : Address → Address → Positions
  -- the emitter's `try_get_last_distro`: nothing where that call fails
  pub try_get_last_distro : Address → Address → Option ℕ
  -- a token's `allowance`, after the calls made before
  pub allowance : List BackstopCall → Address → Address → Address → ℤ
  -- whether a call returns, after those made before it, and what a deposit returns
  pub accepts : List BackstopCall → BackstopCall → Bool
  pub lp_tokns_out : List BackstopCall → BackstopCall → ℤ

-- All entries of the contract, and the calls that were made, the last one first.
pub record BackstopLedger : Type 0 where
  pub emitter : Option Address
  pub pool_factory : Option Address
  pub blnd_token : Option Address
  pub usdc_token : Option Address
  pub backstop_token : Option Address
  pub user_balances : Address → Address → Option UserBalance
  pub pool_balances : Address → Option PoolBalance
  pub last_distribution_time : Option ℕ
  pub reward_zone : Option (List Address)
  pub backfill_emissions : Option ℤ
  pub backfill_status : Option Bool
  pub rz_emis : Address → Option RzEmissions
  pub emis_data : Address → Option BackstopEmissionData
  pub user_emis_data : Address → Address → Option DepositorEmissionData
  pub drop_list : Option (List (Address × ℤ))
  pub calls : List BackstopCall

abbrev pub get_emitter : BackstopLedger → Result Address
get_emitter l = or_panic l.emitter trap

abbrev pub set_emitter : BackstopLedger → Address → BackstopLedger
set_emitter l a = record l { emitter = some a }

abbrev pub get_pool_factory : BackstopLedger → Result Address
get_pool_factory l = or_panic l.pool_factory trap

abbrev pub set_pool_factory : BackstopLedger → Address → BackstopLedger
set_pool_factory l a = record l { pool_factory = some a }

abbrev pub get_blnd_token : BackstopLedger → Result Address
get_blnd_token l = or_panic l.blnd_token trap

abbrev pub set_blnd_token : BackstopLedger → Address → BackstopLedger
set_blnd_token l a = record l { blnd_token = some a }

abbrev pub get_usdc_token : BackstopLedger → Result Address
get_usdc_token l = or_panic l.usdc_token trap

abbrev pub set_usdc_token : BackstopLedger → Address → BackstopLedger
set_usdc_token l a = record l { usdc_token = some a }

abbrev pub get_backstop_token : BackstopLedger → Result Address
get_backstop_token l = or_panic l.backstop_token trap

abbrev pub set_backstop_token : BackstopLedger → Address → BackstopLedger
set_backstop_token l a = record l { backstop_token = some a }

abbrev pub get_user_balance : BackstopLedger → Address → Address → UserBalance
get_user_balance l pool user =
    unwrap_or (l.user_balances pool user) (record { shares = pos 0; q4w = [] })

abbrev pub set_user_balance : BackstopLedger → Address → Address → UserBalance → BackstopLedger
set_user_balance l pool user b = record l {
  user_balances = update₂ l.user_balances pool user (some b);
}

abbrev pub get_pool_balance : BackstopLedger → Address → PoolBalance
get_pool_balance l pool =
    unwrap_or (l.pool_balances pool) (record { shares = pos 0; tokens = pos 0; q4w = pos 0 })

abbrev pub set_pool_balance : BackstopLedger → Address → PoolBalance → BackstopLedger
set_pool_balance l pool b = record l { pool_balances = update l.pool_balances pool (some b) }

abbrev pub get_last_distribution_time : BackstopLedger → ℕ
get_last_distribution_time l = unwrap_or l.last_distribution_time 0

abbrev pub set_last_distribution_time : BackstopLedger → ℕ → BackstopLedger
set_last_distribution_time l t = record l { last_distribution_time = some t }

abbrev pub get_reward_zone : BackstopLedger → List Address
get_reward_zone l = unwrap_or l.reward_zone []

abbrev pub set_reward_zone : BackstopLedger → List Address → BackstopLedger
set_reward_zone l zone = record l { reward_zone = some zone }

abbrev pub get_backfill_emissions : BackstopLedger → ℤ
get_backfill_emissions l = unwrap_or l.backfill_emissions (pos 0)

abbrev pub set_backfill_emissions : BackstopLedger → ℤ → BackstopLedger
set_backfill_emissions l n = record l { backfill_emissions = some n }

abbrev pub get_backfill_status : BackstopLedger → Option Bool
get_backfill_status l = l.backfill_status

abbrev pub set_backfill_status : BackstopLedger → Bool → BackstopLedger
set_backfill_status l b = record l { backfill_status = some b }

abbrev pub get_rz_emis : BackstopLedger → Address → RzEmissions
get_rz_emis l pool = unwrap_or (l.rz_emis pool) (record { accrued = pos 0; last_time = 0 })

abbrev pub set_rz_emis : BackstopLedger → Address → RzEmissions → BackstopLedger
set_rz_emis l pool d = record l { rz_emis = update l.rz_emis pool (some d) }

abbrev pub get_backstop_emis_data : BackstopLedger → Address → Option BackstopEmissionData
get_backstop_emis_data l pool = l.emis_data pool

abbrev pub set_backstop_emis_data : BackstopLedger → Address → BackstopEmissionData → BackstopLedger
set_backstop_emis_data l pool d = record l { emis_data = update l.emis_data pool (some d) }

abbrev pub get_user_emis_data : BackstopLedger → Address → Address → Option DepositorEmissionData
get_user_emis_data l pool user = l.user_emis_data pool user

abbrev pub set_user_emis_data :
    BackstopLedger → Address → Address → DepositorEmissionData → BackstopLedger
set_user_emis_data l pool user d = record l {
  user_emis_data = update₂ l.user_emis_data pool user (some d);
}

abbrev pub get_drop_list : BackstopLedger → Result (List (Address × ℤ))
get_drop_list l = or_panic l.drop_list trap

abbrev pub set_drop_list : BackstopLedger → List (Address × ℤ) → BackstopLedger
set_drop_list l drops = record l { drop_list = some drops }

-- A call of another contract.
unfoldable pub call_contract : BackstopEnv → BackstopLedger → BackstopCall → Result BackstopLedger
call_contract e l c =
    if e.accepts l.calls c then ok (record l { calls = c ∷ l.calls }) else err trap
