-- ===== src/EmissionManager.antt =====
-- How a pool sets and spends its emissions, pool/src/emissions/manager.rs, and how users claim them,
-- `execute_claim` of pool/src/emissions/distributor.rs.
use blend_contracts_v.Prelude.Map
use blend_contracts_v.Prelude.Map.{Map}
use blend_contracts_v.Prelude.{
  ℕ, ltb, ◌==◌, if◌then◌else◌, PoolError, Result, ◌>>=◌, ◌>>◌, panic_if, or_panic, ◌+!◌, ◌*!◌,
  add_u, mul_u, pool_error, trap, ok, err, ℤ, ltb_ℤ, quot_ℤ, pos, negsuc, ◌-◌, ◌/◌, ◌%◌, ◌^◌, not,
  ◌||◌, none, some, List, [], ◌∷◌, ◌++◌,
}
use blend_contracts_v.Env.{Address, scalar_7, Env, seconds_per_week, pow10, TokenCall}
use blend_contracts_v.Storage.{
  Ledger, ReserveConfig, is_some, get_res_list, get_unchecked, ReserveEmissionData, get_res_data,
  get_pool_emissions, get_backstop, get_elem?, set_pool_emissions, get_res_config, get_blnd_token,
  call_token, set_res_emis_data,
}
use blend_contracts_v.Emissions.{update_emission_data, claim_emissions}
use blend_contracts_v.User.{get_liabilities, get_total_supply}
use blend_contracts_v.User

pub record ReserveEmissionMetadata : Type 0 where
  pub res_index : ℕ
  pub res_type : ℕ
  pub share : ℕ

collect_shares : List Address → List ReserveEmissionMetadata → Map ℕ → Result (Map ℕ)
collect_shares reserve_list [] shares = ok shares
collect_shares reserve_list (m ∷ rest) shares = do
  twice ← mul_u 32 m.res_index 2
  key ← add_u 32 twice m.res_type
  panic_if (ltb 1 m.res_type || not (is_some (get_elem? reserve_list m.res_index)) || m.share == 0)
      (pool_error PoolError.bad_request)
  collect_shares reserve_list rest (Map.set key m.share shares)

-- `set_pool_emissions` of the manager.
unfoldable pub set_shares : Ledger → List ReserveEmissionMetadata → Result Ledger
unfolding collect_shares
set_shares l metadata = do
  shares ← collect_shares (get_res_list l) metadata []
  ok (set_pool_emissions l shares)

-- An enabled reserve's configuration, asset, token id and share.
pub record Enabled : Type 0 where
  pub res_config : ReserveConfig
  pub asset : Address
  pub res_token_id : ℕ
  pub share : ℕ

collect_enabled : Ledger → Map ℕ → List Enabled → ℤ → Result (List Enabled × ℤ)
collect_enabled l [] found total_share = ok (found, total_share)
collect_enabled l ((id, share) ∷ m) found total_share = do
  asset ← get_unchecked (get_res_list l) (id / 2)
  config ← get_res_config l asset
  sum ← (if config.enabled then total_share +! pos share else ok total_share)
  let entry : Enabled = record {
    res_config = config;
    asset = asset;
    res_token_id = id;
    share = share;
  }
  collect_enabled l m (if config.enabled then found ++ (entry ∷ []) else found) sum

-- `tokens * SCALAR_7 / (7 * 24 * 60 * 60)` as a `u64`.
emission_rate : ℤ → Result ℕ
emission_rate tokens = do
  scaled ← tokens *! scalar_7
  elim (quot_ℤ scaled seconds_per_week) [
    | pos n ↦ if ltb n (2 ^ 64) then ok n else err trap
    | negsuc n ↦ err trap
  ]

-- The tokens that the running emission has left to emit.
left_to_emit : Env → ReserveEmissionData → Result ℤ
left_to_emit e d =
    if ltb e.timestamp d.expiration
    then e.fixed_point.fixed_mul_floor (pos d.eps) (pos (d.expiration - e.timestamp)) scalar_7
    else ok (pos 0)

unfoldable pub update_reserve_emission_eps : Env → Ledger → Enabled → ℤ → Result Ledger
unfolding emission_rate left_to_emit
update_reserve_emission_eps e l r new_reserve_emissions = do
  reserve_data ← get_res_data l r.asset
  let supply = (if r.res_token_id % 2 == 0 then reserve_data.d_supply else reserve_data.b_supply)
  expiration ← add_u 64 e.timestamp seconds_per_week
  supply_scalar ← pow10 r.res_config.decimals
  (l', found) ← update_emission_data e l r.res_token_id supply supply_scalar
  elim found [
    | some d ↦ do
      old ← left_to_emit e d
      tokens ← new_reserve_emissions +! old
      eps ← emission_rate tokens
      ok (
          set_res_emis_data l' r.res_token_id
            (record d { expiration = expiration; eps = eps; last_time = e.timestamp }))
    | none ↦ do
      eps ← emission_rate new_reserve_emissions
      ok (
          set_res_emis_data l' r.res_token_id
            (record { expiration = expiration; eps = eps; index = pos 0; last_time = e.timestamp }))
  ]

distribute : Env → ℤ → ℤ → List Enabled → Ledger → Result Ledger
distribute e new_emissions total_share [] l = ok l
distribute e new_emissions total_share (r ∷ rest) l = do
  fraction ← e.fixed_point.fixed_div_floor (pos r.share) total_share scalar_7
  new_reserve_emissions ← e.fixed_point.fixed_mul_floor fraction new_emissions scalar_7
  l' ← update_reserve_emission_eps e l r new_reserve_emissions
  distribute e new_emissions total_share rest l'

unfoldable pub do_gulp_emissions : Env → Ledger → ℤ → Result Ledger
unfolding collect_enabled distribute
do_gulp_emissions e l new_emissions = do
  panic_if (ltb_ℤ new_emissions scalar_7) (pool_error PoolError.bad_request)
  (enabled, total_share) ← collect_enabled l (get_pool_emissions l) [] (pos 0)
  distribute e new_emissions total_share enabled l

-- `gulp_emissions`: what the backstop hands over is distributed.
unfoldable pub gulp_emissions : Env → Ledger → Result (Ledger × ℤ)
gulp_emissions e l = do
  backstop ← get_backstop l
  let new_emissions = e.gulp_emissions backstop e.current_contract_address
  l' ← do_gulp_emissions e l new_emissions
  ok (l', new_emissions)

-- The claim of one token id.
claim_one : Env → Address → ℕ → Ledger → Result (Ledger × ℤ)
claim_one e from id l = do
  let from_state = User.load l from
  res_address ← or_panic (get_elem? (get_res_list l) (id / 2)) (pool_error PoolError.bad_request)
  reserve_config ← get_res_config l res_address
  reserve_data ← get_res_data l res_address
  user_balance ←
      (if id % 2 == 0
        then ok (get_liabilities from_state (id / 2))
        else get_total_supply from_state (id / 2))
  let supply = (if id % 2 == 0 then reserve_data.d_supply else reserve_data.b_supply)
  scalar ← pow10 reserve_config.decimals
  claim_emissions e l id supply scalar from user_balance

claim_all : Env → Address → List ℕ → Ledger → ℤ → Result (Ledger × ℤ)
unfolding claim_one
claim_all e from [] l to_claim = ok (l, to_claim)
claim_all e from (id ∷ rest) l to_claim = do
  (l', claimed) ← claim_one e from id l
  sum ← to_claim +! claimed
  claim_all e from rest l' sum

unfoldable pub execute_claim : Env → Ledger → Address → List ℕ → Address → Result (Ledger × ℤ)
unfolding claim_all
execute_claim e l from reserve_token_ids to = do
  (l', to_claim) ← claim_all e from reserve_token_ids l (pos 0)
  if ltb_ℤ (pos 0) to_claim
      then (do
        backstop ← get_backstop l'
        blnd_token ← get_blnd_token l'
        l'' ←
            call_token e l'
              (TokenCall.transfer_from blnd_token e.current_contract_address backstop to to_claim)
        ok (l'', to_claim))
      else ok (l', to_claim)
