-- ===== src/Backstop/Zone.antt =====
-- What a pool's backstop is worth, `load_pool_backstop_data` of backstop/src/backstop/pool.rs, and
-- the pools that share the emissions: the reward zone of backstop/src/emissions/manager.rs.
use blend_contracts_v.Prelude.{
  ℕ, ltb, ◌==◌, if◌then◌else◌, BackstopError, Result, panic_if, ◌>>=◌, ◌>>◌, ◌*!◌, sub_u,
  backstop_error, err, ok, ltb_ℤ, leb_ℤ, pos, not, Option, none, some, List, [], ◌∷◌,
}
use blend_contracts_v.Env.{Address, PoolBackstopData, scalar_7}
use blend_contracts_v.Backstop.{is_pool_above_threshold}
use blend_contracts_v.Backstop.Ledger.{
  get_blnd_token, BackstopEnv, BackstopLedger, get_pool_balance, get_last_distribution_time,
  get_reward_zone, set_reward_zone, get_backstop_token, get_usdc_token,
}
use blend_contracts_v.Pool.{contains}
use blend_contracts_v.Storage.{length}

abbrev pub max_rz_size : ℕ
max_rz_size = 30

unfoldable pub load_pool_backstop_data :
    BackstopEnv → BackstopLedger → Address → Result PoolBackstopData
load_pool_backstop_data e l pool = do
  let b = get_pool_balance l pool
  q4w_pct ←
      (if ltb_ℤ (pos 0) b.shares
        then e.fixed_point.fixed_div_ceil b.q4w b.shares scalar_7
        else ok (pos 0))
  backstop_token ← get_backstop_token l
  blnd_token ← get_blnd_token l
  usdc_token ← get_usdc_token l
  let total_comet_shares = e.get_total_supply backstop_token
  let total_blnd = e.get_balance backstop_token blnd_token
  let total_usdc = e.get_balance backstop_token usdc_token
  blnd_per_tkn ← e.fixed_point.fixed_div_floor total_blnd total_comet_shares scalar_7
  usdc_per_tkn ← e.fixed_point.fixed_div_floor total_usdc total_comet_shares scalar_7
  spot_price ← usdc_per_tkn *! pos 5
  if ltb_ℤ (pos 0) b.tokens
      then (do
        blnd ← e.fixed_point.fixed_mul_floor b.tokens blnd_per_tkn scalar_7
        usdc ← e.fixed_point.fixed_mul_floor b.tokens usdc_per_tkn scalar_7
        ok (record {
          tokens = b.tokens;
          shares = b.shares;
          q4w_pct = q4w_pct;
          blnd = blnd;
          usdc = usdc;
          token_spot_price = spot_price;
        }))
      else ok (record {
        tokens = pos 0;
        shares = b.shares;
        q4w_pct = q4w_pct;
        blnd = pos 0;
        usdc = pos 0;
        token_spot_price = spot_price;
      })

-- The zone without the first entry of the pool, which has to be there.
unfoldable pub remove_pool : List Address → Address → Result (List Address)
remove_pool [] pool = err (backstop_error BackstopError.invalid_reward_zone_entry)
remove_pool (p ∷ zone) pool =
    let rest = remove_pool zone pool in
    if p == pool then ok zone else (do zone' ← rest; ok (p ∷ zone'))

unfoldable pub require_distribute_run_recently : BackstopEnv → BackstopLedger → Result (Unit {0})
require_distribute_run_recently e l = do
  earliest ← sub_u e.timestamp 3600
  panic_if (ltb (get_last_distribution_time l) earliest) (backstop_error BackstopError.bad_request)

-- The zone after the pool is swapped in for another.
unfoldable pub swap_in :
    BackstopLedger
    → List Address
    → Address
    → Option Address
    → PoolBackstopData
    → Result (List Address)
unfolding remove_pool
swap_in l zone to_add none d = err (backstop_error BackstopError.reward_zone_full)
swap_in l zone to_add (some to_remove) d = do
  panic_if (leb_ℤ d.tokens (get_pool_balance l to_remove).tokens)
      (backstop_error BackstopError.invalid_reward_zone_entry)
  zone' ← remove_pool zone to_remove
  ok (to_add ∷ zone')

unfoldable pub add_to_reward_zone :
    BackstopEnv → BackstopLedger → Address → Option Address → Result BackstopLedger
unfolding swap_in
add_to_reward_zone e l to_add to_remove = do
  let zone = get_reward_zone l
  panic_if (contains zone to_add) (backstop_error BackstopError.bad_request)
  pool_data ← load_pool_backstop_data e l to_add
  panic_if (not (is_pool_above_threshold pool_data))
      (backstop_error BackstopError.invalid_reward_zone_entry)
  (if ltb 0 (length zone) then require_distribute_run_recently e l else ok tt)
  zone' ←
      (if ltb (length zone) max_rz_size
        then ok (to_add ∷ zone)
        else swap_in l zone to_add to_remove pool_data)
  ok (set_reward_zone l zone')

unfoldable pub remove_from_reward_zone :
    BackstopEnv → BackstopLedger → Address → Result BackstopLedger
remove_from_reward_zone e l to_remove = do
  pool_data ← load_pool_backstop_data e l to_remove
  panic_if (is_pool_above_threshold pool_data) (backstop_error BackstopError.bad_request)
  require_distribute_run_recently e l
  zone ← remove_pool (get_reward_zone l) to_remove
  ok (set_reward_zone l zone)
