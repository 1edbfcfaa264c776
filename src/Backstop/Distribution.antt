-- ===== src/Backstop/Distribution.antt =====
-- Emissions of the emitter, shared out over the reward zone and gulped by its pools: `distribute`,
-- `gulp_emissions` and `set_backstop_emission_eps` of backstop/src/emissions/manager.rs.
use blend_contracts_v.Prelude.{
  ℕ, ltb, leb, ◌==◌, if◌then◌else◌, BackstopError, Result, panic_if, ◌>>=◌, ◌>>◌, ◌+!◌, ◌-!◌, ◌*!◌,
  add_u, sub_u, backstop_error, trap, err, ok, ℤ, pos_part, ltb_ℤ, leb_ℤ, quot_ℤ, pos, ◌-◌, ◌^◌,
  Bool, true, false, not, ◌||◌, Option, none, some, List, [], ◌∷◌,
}
use blend_contracts_v.Env.{Address, seconds_per_week, scalar_7}
use blend_contracts_v.Backstop.{PoolBalance, non_queued_tokens}
use blend_contracts_v.Backstop.Ledger.{
  get_blnd_token, BackstopEnv, BackstopLedger, get_backfill_status, get_backfill_emissions,
  get_pool_balance, get_reward_zone, get_last_distribution_time, BackstopEmissionData, get_emitter,
  set_backfill_emissions, set_last_distribution_time, set_backstop_emis_data, get_rz_emis,
  set_backfill_status, set_rz_emis, call_contract, approve,
}
use blend_contracts_v.Backstop.Rewards.{update_backstop_data, plain_math}
use blend_contracts_v.Storage.{length, is_some}

abbrev pub max_backfilled_emissions : ℤ
max_backfilled_emissions = pos 10_000_000_0000000

-- The state of the backfill, and the time up to which there are emissions.
pub record Distro : Type 0 where
  pub ledger : BackstopLedger
  pub is_backfill : Bool
  pub needs_reset : Bool
  pub emitter_last_distribution : ℕ

unfoldable pub is_status : Option Bool → Bool → Bool
is_status none b = false
is_status (some true) b = b
is_status (some false) b = not b

unfoldable pub read_emitter : BackstopEnv → BackstopLedger → Result Distro
read_emitter e l = do
  let status = get_backfill_status l
  emitter ← get_emitter l
  elim (e.try_get_last_distro emitter e.current_contract_address) [
    | some distro ↦ ok (record {
      ledger = if not (is_status status false) then set_backfill_status l false else l;
      is_backfill = false;
      needs_reset = is_status status true;
      emitter_last_distribution = distro;
    })
    | none ↦ do
      panic_if (is_status status false) (backstop_error BackstopError.bad_request)
      ok (record {
        ledger = if is_some status then l else set_backfill_status l true;
        is_backfill = true;
        needs_reset = false;
        emitter_last_distribution = e.timestamp;
      })
  ]

-- The new emissions, capped by what may be backfilled, and the ledger that counts them.
unfoldable pub cap_backfill : BackstopLedger → ℤ → Result (BackstopLedger × ℤ)
cap_backfill l new_emissions = do
  let cur_backfill = get_backfill_emissions l
  panic_if (leb_ℤ max_backfilled_emissions cur_backfill)
      (backstop_error BackstopError.max_backfill_emissions)
  sum ← new_emissions +! cur_backfill
  capped ←
      (if ltb_ℤ max_backfilled_emissions sum
        then max_backfilled_emissions -! cur_backfill
        else ok new_emissions)
  total ← cur_backfill +! capped
  ok (set_backfill_emissions l total, capped)

module _ (e : BackstopEnv) where
  -- The balances of the zone's pools, and their tokens that are not queued, in total.
  unfoldable pub zone_balances :
      BackstopLedger → List Address → ℤ → Result (List (Address × PoolBalance) × ℤ)
  zone_balances l [] total = ok ([], total)
  zone_balances l (pool ∷ zone) total = do
    let b = get_pool_balance l pool
    tokens ← non_queued_tokens (plain_math e) b
    total₁ ← total +! tokens
    (rest, sum) ← zone_balances l zone total₁
    ok ((pool, b) ∷ rest, sum)

  unfoldable pub share_out :
      List (Address × PoolBalance) → ℤ → ℤ → BackstopLedger → Result BackstopLedger
  share_out [] total new_emissions l = ok l
  share_out ((pool, b) ∷ rest) total new_emissions l = do
    tokens ← non_queued_tokens (plain_math e) b
    share ← e.fixed_point.fixed_div_floor tokens total scalar_7
    new_pool_emissions ← e.fixed_point.fixed_mul_floor share new_emissions scalar_7
    accrued ← (get_rz_emis l pool).accrued +! new_pool_emissions
    share_out rest total new_emissions
        (set_rz_emis l pool (record (get_rz_emis l pool) { accrued = accrued }))

  -- What is distributed once there is a time to count from.
  unfoldable pub distribute_since : Distro → ℕ → Result (BackstopLedger × ℤ)
  distribute_since d last_distribution = do
    elapsed ← sub_u d.emitter_last_distribution last_distribution
    panic_if (ltb elapsed 5) (backstop_error BackstopError.bad_request)
    let zone = get_reward_zone d.ledger
    panic_if (length zone == 0) (backstop_error BackstopError.bad_request)
    uncapped ← pos elapsed *! scalar_7
    (l₁, new_emissions) ←
        (if d.is_backfill then cap_backfill d.ledger uncapped else ok (d.ledger, uncapped))
    let l₂ = set_last_distribution_time l₁ d.emitter_last_distribution
    (balances, total) ← zone_balances l₂ zone (pos 0)
    l₃ ← share_out balances total new_emissions l₂
    ok (l₃, new_emissions)

  unfoldable pub distribute_emissions : BackstopLedger → Result (BackstopLedger × ℤ)
  distribute_emissions l = do
    d ← read_emitter e l
    let last_distribution = get_last_distribution_time d.ledger
    if last_distribution == 0 || d.needs_reset
        then ok (set_last_distribution_time d.ledger d.emitter_last_distribution, pos 0)
        else distribute_since d last_distribution

  -- `u64(tokens * SCALAR_7 / (7 * 24 * 60 * 60))`, which has to fit.
  unfoldable pub rate_of : ℤ → Result ℕ
  rate_of tokens = do
    scaled ← tokens *! scalar_7
    let rate = quot_ℤ scaled seconds_per_week
    if ltb_ℤ rate (pos 0) || leb (2 ^ 64) (pos_part rate) then err trap else ok (pos_part rate)

  -- The tokens that the old rate has not given out yet.
  unfoldable pub not_emitted : BackstopEmissionData → Result ℤ
  not_emitted d =
      if ltb e.timestamp d.expiration
      then e.fixed_point.fixed_mul_floor (pos d.eps) (pos (d.expiration - e.timestamp)) scalar_7
      else ok (pos 0)

  unfoldable pub set_backstop_emission_eps :
      BackstopLedger → Address → PoolBalance → ℤ → Result BackstopLedger
  set_backstop_emission_eps l pool b new_tokens = do
    expiration ← add_u 64 e.timestamp seconds_per_week
    (l₁, data') ← update_backstop_data e l pool b
    elim data' [
      | some d ↦ do
        left ← not_emitted d
        tokens_left_to_emit ← new_tokens +! left
        eps ← rate_of tokens_left_to_emit
        ok (
            set_backstop_emis_data l₁ pool (record {
              expiration = expiration;
              eps = eps;
              index = d.index;
              last_time = e.timestamp;
            }))
      | none ↦ do
        eps ← rate_of new_tokens
        ok (
            set_backstop_emis_data l₁ pool (record {
              expiration = expiration;
              eps = eps;
              index = pos 0;
              last_time = e.timestamp;
            }))
    ]

  -- The ledger, and the emissions of the backstop and of the pool.
  unfoldable pub gulp_rz_emissions : BackstopLedger → Address → Result (BackstopLedger × ℤ × ℤ)
  gulp_rz_emissions l pool = do
    let pool_balance = get_pool_balance l pool
    let new_emissions = get_rz_emis l pool
    day_ago ← sub_u e.timestamp 86400
    panic_if (ltb day_ago new_emissions.last_time) (backstop_error BackstopError.bad_request)
    if ltb_ℤ (pos 0) new_emissions.accrued
        then (do
          to_backstop ← e.fixed_point.fixed_mul_floor new_emissions.accrued (pos 0_7000000) scalar_7
          to_pool ← e.fixed_point.fixed_mul_floor new_emissions.accrued (pos 0_3000000) scalar_7
          blnd ← get_blnd_token l
          let current_allowance = e.allowance l.calls blnd e.current_contract_address pool
          new_seq ← add_u 32 e.sequence 2_073_600
          allowed ← current_allowance +! to_pool
          l₁ ← call_contract e l (approve blnd e.current_contract_address pool allowed new_seq)
          let l₂ = set_rz_emis l₁ pool (record { accrued = pos 0; last_time = e.timestamp })
          l₃ ← set_backstop_emission_eps l₂ pool pool_balance to_backstop
          ok (l₃, to_backstop, to_pool))
        else ok (l, pos 0, pos 0)
