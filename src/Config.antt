-- ===== src/Config.antt =====
-- The configuration of a pool and of its reserves, pool/src/pool/config.rs: the first setup, and the
-- queue through which a reserve is added or disabled.
pub mod Stored
pub mod Disable
pub mod Timelock
use blend_contracts_v.Pool
use blend_contracts_v.Reserve
use Prim.Native.String.{String}
use blend_contracts_v.Prelude.{
  ℕ, ltb, leb, ◌==◌, if◌then◌else◌, PoolError, Result, ◌>>=◌, ◌>>◌, panic_if, add_u, bad_request,
  invalid_pool_config_args, invalid_reserve_metadata, init_not_unlocked, pool_error, ok, ℤ, ltb_ℤ,
  eqb_ℤ, pos, ◌*◌, Bool, false, not, ◌&&◌, ◌||◌, Option, none, some, List, [], ◌∷◌,
}
use blend_contracts_v.Storage.{
  PoolConfig, Ledger, ReserveConfig, get_pool_config, ReserveData, set_blnd_token, get_res_list,
  has_queued_reserve_set, del_queued_reserve_set, push_res_list, has_res, get_queued_reserve_set,
  set_pool_config, set_queued_reserve_set, get_res_config, set_res_data, set_res_config,
  set_backstop, set_name, set_admin,
}
use blend_contracts_v.Env.{Env, max_reserves, Address, seconds_per_week, scalar_12, scalar_7}
use blend_contracts_v.Pool.{load_reserve}

-- A take rate below 100 percent, from 2 to 60 positions, and a minimum that is not negative.
abbrev pub is_valid_pool_config : PoolConfig → Bool
is_valid_pool_config c =
    ltb c.bstop_rate 1_0000000
    && not (ltb c.max_positions 2 || ltb (2 * max_reserves) c.max_positions)
    && not (ltb_ℤ c.min_collateral (pos 0))

unfoldable pub require_valid_pool_config : PoolConfig → Result (Unit {0})
require_valid_pool_config c =
    panic_if (not (is_valid_pool_config c)) (pool_error PoolError.invalid_pool_config_args)

unfoldable pub execute_initialize :
    Ledger → Address → String → Address → ℕ → ℕ → ℤ → Address → Address → Result Ledger
execute_initialize l admin name oracle bstop_rate max_positions min_collateral backstop_address
      blnd_id =
    do
      panic_if (not (bstop_rate == 0)) (pool_error PoolError.invalid_pool_config_args)
      let pool_config : PoolConfig = record {
        oracle = oracle;
        min_collateral = min_collateral;
        bstop_rate = bstop_rate;
        status = 6;
        max_positions = max_positions;
      }
      require_valid_pool_config pool_config
      ok (
          set_blnd_token
            (set_pool_config (set_backstop (set_name (set_admin l admin) name) backstop_address)
              pool_config)
            blnd_id)

-- Every reserve is brought up to date under the old take rate.
refresh_all : Env → PoolConfig → List Address → Ledger → Result Ledger
refresh_all e config [] l = ok l
refresh_all e config (asset ∷ rest) l = do
  reserve ← Reserve.load e l config asset
  refresh_all e config rest (Reserve.store l reserve)

unfoldable pub execute_update_pool : Env → Ledger → ℕ → ℕ → ℤ → Result Ledger
unfolding refresh_all
execute_update_pool e l backstop_take_rate max_positions min_collateral = do
  pool_config ← get_pool_config l
  l' ←
      (if not (pool_config.bstop_rate == backstop_take_rate)
        then refresh_all e pool_config (get_res_list l) l
        else ok l)
  let new_config = record pool_config {
    bstop_rate = backstop_take_rate;
    max_positions = max_positions;
    min_collateral = min_collateral;
  }
  require_valid_pool_config new_config
  ok (set_pool_config l' new_config)

abbrev pub is_invalid_metadata : ReserveConfig → Bool
is_invalid_metadata m =
    ltb 18 m.decimals
    || ltb 1_0000000 m.c_factor
    || ltb 1_0000000 m.l_factor
    || ltb 0_9000000 m.util
    || leb 1_0000000 m.max_util
    || leb m.max_util m.util
    || leb 1_0000000 m.r_base
    || ltb m.r_base 0_0001000
    || ltb m.r_two m.r_one
    || ltb m.r_three m.r_two
    || ltb 0_0001000 m.reactivity
    || ltb_ℤ m.min_position (pos 0)

unfoldable pub require_valid_reserve_metadata : ReserveConfig → Result (Unit {0})
require_valid_reserve_metadata m =
    panic_if (is_invalid_metadata m) (pool_error PoolError.invalid_reserve_metadata)

-- The candidate is the current configuration with the reserve disabled.
unfoldable pub is_disable_only : ReserveConfig → ReserveConfig → Bool
is_disable_only current candidate =
    current.enabled
    && not candidate.enabled
    && current.index == candidate.index
    && current.decimals == candidate.decimals
    && current.c_factor == candidate.c_factor
    && current.l_factor == candidate.l_factor
    && current.util == candidate.util
    && current.max_util == candidate.max_util
    && current.r_base == candidate.r_base
    && current.r_one == candidate.r_one
    && current.r_two == candidate.r_two
    && current.r_three == candidate.r_three
    && current.reactivity == candidate.reactivity
    && eqb_ℤ current.supply_cap candidate.supply_cap
    && eqb_ℤ current.min_position candidate.min_position

unfoldable pub require_valid_reserve_metadata_changes :
    ReserveConfig → ReserveConfig → Result (Unit {0})
require_valid_reserve_metadata_changes cur_config metadata =
    panic_if
      (not (cur_config.decimals == metadata.decimals)
        || (not (cur_config.l_factor == 0) && metadata.l_factor == 0))
      (pool_error PoolError.invalid_reserve_metadata)

abbrev pub disables : Option ReserveConfig → ReserveConfig → Bool
disables none metadata = false
disables (some config) metadata = is_disable_only config metadata

abbrev pub require_valid_change : Option ReserveConfig → ReserveConfig → Result (Unit {0})
require_valid_change none metadata = ok tt
require_valid_change (some config) metadata = require_valid_reserve_metadata_changes config metadata

-- Seven days after the queueing, unless the pool is in setup.
abbrev pub unlock_time_of : Env → ℕ → Result ℕ
unlock_time_of e status =
    if status == 6 then ok e.timestamp else add_u 64 e.timestamp seconds_per_week

unfoldable pub execute_queue_set_reserve : Env → Ledger → Address → ReserveConfig → Result Ledger
execute_queue_set_reserve e l asset metadata = do
  panic_if (has_queued_reserve_set l asset) (pool_error PoolError.bad_request)
  require_valid_reserve_metadata metadata
  pool_config ← get_pool_config l
  let current = l.res_config asset
  let disable_only = disables current metadata
  panic_if
      (pool_config.status == 6 && disable_only || not (pool_config.status == 6) && not disable_only)
      (pool_error PoolError.invalid_reserve_metadata)
  require_valid_change current metadata
  unlock_time ← unlock_time_of e pool_config.status
  ok (set_queued_reserve_set l (record { new_config = metadata; unlock_time = unlock_time }) asset)

abbrev pub execute_cancel_queued_set_reserve : Ledger → Address → Ledger
execute_cancel_queued_set_reserve l asset = del_queued_reserve_set l asset

abbrev pub changes_rates : ReserveConfig → ReserveConfig → Bool
changes_rates old new =
    not (old.r_base == new.r_base)
    || not (old.r_one == new.r_one)
    || not (old.r_two == new.r_two)
    || not (old.r_three == new.r_three)
    || not (old.util == new.util)

abbrev pub initial_data : Env → ReserveData
initial_data e = record {
  d_rate = scalar_12;
  b_rate = scalar_12;
  ir_mod = scalar_7;
  b_supply = pos 0;
  d_supply = pos 0;
  backstop_credit = pos 0;
  last_time = e.timestamp;
}

-- A reserve that exists is accrued, and its rate modifier is reset if the curve changes.
update_reserve : Env → Ledger → Address → ReserveConfig → Result (Ledger × ℕ)
update_reserve e l asset config = do
  pool ← Pool.load l
  (pool', reserve) ← load_reserve e l pool asset false
  reserve_config ← get_res_config l asset
  require_valid_reserve_metadata_changes reserve_config config
  let reset =
      (if changes_rates reserve_config config
        then record reserve { state = record (reserve.state) { ir_mod = scalar_7 } }
        else reserve)
  ok (Reserve.store l reset, reserve.config.index)

add_reserve : Env → Ledger → Address → Result (Ledger × ℕ)
add_reserve e l asset = do
  (l', index) ← push_res_list l asset
  ok (set_res_data l' asset (initial_data e), index)

unfoldable pub initialize_reserve : Env → Ledger → Address → ReserveConfig → Result (Ledger × ℕ)
unfolding update_reserve add_reserve
initialize_reserve e l asset config = do
  (l', index) ← (if has_res l asset then update_reserve e l asset config else add_reserve e l asset)
  ok (set_res_config l' asset (record config { index = index }), index)

unfoldable pub execute_set_reserve : Env → Ledger → Address → Result (Ledger × ℕ)
execute_set_reserve e l asset = do
  queued_init ← get_queued_reserve_set l asset
  panic_if (ltb e.timestamp queued_init.unlock_time) (pool_error PoolError.init_not_unlocked)
  require_valid_reserve_metadata queued_init.new_config
  pool_config ← get_pool_config l
  panic_if
      (not (pool_config.status == 6) && not (disables (l.res_config asset) queued_init.new_config))
      (pool_error PoolError.invalid_reserve_metadata)
  initialize_reserve e (del_queued_reserve_set l asset) asset queued_init.new_config
