-- ===== src/Backstop/Rewards.antt =====
-- The emissions of a pool's backstop to its depositors: backstop/src/emissions/distributor.rs and
-- backstop/src/emissions/claim.rs.
use blend_contracts_v.Prelude.{
  ltb, leb, ◌==◌, if◌then◌else◌, BackstopError, Result, or_panic, panic_if, ◌>>=◌, ◌>>◌, ◌+!◌, ◌-!◌,
  ◌*!◌, mul_u, sub_u, backstop_error, trap, err, ok, ℤ, ltb_ℤ, eqb_ℤ, pos, ◌+◌, ◌/◌, Bool, true,
  false, not, ◌||◌, Option, none, some, List, [], ◌∷◌,
}
use blend_contracts_v.Prelude.Map.{Map}
use blend_contracts_v.Env.{Address, FixedMath, scalar_7}
use blend_contracts_v.Backstop.{PoolBalance, UserBalance, convert_to_shares, deposit, add_shares}
use blend_contracts_v.Backstop.Ledger.{
  get_blnd_token, BackstopEnv, BackstopLedger, BackstopEmissionData, set_user_emis_data,
  get_pool_balance, get_backstop_emis_data, DepositorEmissionData, get_user_emis_data,
  get_user_balance, set_backstop_emis_data, get_backstop_token, set_user_balance, dep_tokn_amt_in,
  set_pool_balance, call_contract,
}
use blend_contracts_v.Storage.{length}
use blend_contracts_v.Prelude.Map

abbrev pub scalar_14 : ℤ
scalar_14 = pos 100_000_000_000_000

unfoldable pub require_nonnegative : ℤ → Result (Unit {0})
require_nonnegative amount =
    panic_if (ltb_ℤ amount (pos 0)) (backstop_error BackstopError.negative_amount_error)

abbrev pub plain_math : BackstopEnv → FixedMath
plain_math e = record { floor = e.fixed_point.fixed_mul_floor; ceil = e.fixed_point.fixed_mul_ceil }

-- The data after the seconds since the last update.
pub advance_index : BackstopEnv → BackstopEmissionData → PoolBalance → Result BackstopEmissionData
unfolding require_nonnegative
advance_index e d b = do
  let max_timestamp = if ltb d.expiration e.timestamp then d.expiration else e.timestamp
  unqueued_shares ← b.shares -! b.q4w
  require_nonnegative unqueued_shares
  additional_idx ←
      (if eqb_ℤ unqueued_shares (pos 0) then ok (pos 0) else (do
        elapsed ← sub_u max_timestamp d.last_time
        emitted ← pos elapsed *! pos d.eps
        e.fixed_point.fixed_div_floor emitted unqueued_shares scalar_7))
  index ← additional_idx +! d.index
  ok (record d { index = index; last_time = e.timestamp })

unfoldable pub update_backstop_data :
    BackstopEnv
    → BackstopLedger
    → Address
    → PoolBalance
    → Result (BackstopLedger × Option BackstopEmissionData)
unfolding advance_index
update_backstop_data e l pool b = elim (get_backstop_emis_data l pool) [
  | none ↦ ok (l, none)
  | some d ↦
      if leb d.expiration d.last_time
        || e.timestamp == d.last_time
        || d.eps == 0
        || eqb_ℤ b.shares (pos 0)
      then ok (l, some d)
      else (do d' ← advance_index e d b; ok (set_backstop_emis_data l pool d', some d'))
]

-- `set_user_emissions`: the new ledger, and what is paid out.
unfoldable pub settle_depositor :
    BackstopLedger → Address → Address → ℤ → ℤ → Bool → BackstopLedger × ℤ
settle_depositor l pool user index accrued to_claim =
    if to_claim
    then (set_user_emis_data l pool user (record { index = index; accrued = pos 0 }), accrued)
    else (set_user_emis_data l pool user (record { index = index; accrued = accrued }), pos 0)

-- What a depositor had, and what the shares earned since.
pub accrue_depositor :
    BackstopEnv → BackstopEmissionData → UserBalance → DepositorEmissionData → Result ℤ
unfolding require_nonnegative
accrue_depositor e d b u = if eqb_ℤ b.shares (pos 0) then ok u.accrued else (do
  delta_index ← d.index -! u.index
  require_nonnegative delta_index
  to_accrue ← e.fixed_point.fixed_mul_floor b.shares delta_index scalar_14
  u.accrued +! to_accrue)

unfoldable pub update_depositor :
    BackstopEnv
    → BackstopLedger
    → Address
    → Address
    → BackstopEmissionData
    → UserBalance
    → Bool
    → Result (BackstopLedger × ℤ)
unfolding accrue_depositor settle_depositor
update_depositor e l pool user d b to_claim = elim (get_user_emis_data l pool user) [
  | some u ↦
      if not (eqb_ℤ u.index d.index) || to_claim
      then (do
        accrual ← accrue_depositor e d b u
        ok (settle_depositor l pool user d.index accrual to_claim))
      else ok (l, pos 0)
  | none ↦
      if eqb_ℤ b.shares (pos 0)
      then ok (settle_depositor l pool user d.index (pos 0) to_claim)
      else (do
        to_accrue ← e.fixed_point.fixed_mul_floor b.shares d.index scalar_14
        ok (settle_depositor l pool user d.index to_accrue to_claim))
]

-- `update_emissions`
unfoldable pub update_rewards :
    BackstopEnv
    → BackstopLedger
    → Address
    → PoolBalance
    → Address
    → UserBalance
    → Result BackstopLedger
update_rewards e l pool pool_balance user user_balance = do
  (l₁, data') ← update_backstop_data e l pool pool_balance
  elim data' [
    | none ↦ ok l₁
    | some d ↦ do (l₂, paid) ← update_depositor e l₁ pool user d user_balance false; ok l₂
  ]

-- `claim_emissions`
unfoldable pub claim_rewards :
    BackstopEnv
    → BackstopLedger
    → Address
    → PoolBalance
    → Address
    → UserBalance
    → Result (BackstopLedger × ℤ)
claim_rewards e l pool pool_balance user user_balance = do
  (l₁, data') ← update_backstop_data e l pool pool_balance
  elim data' [
    | none ↦ err (backstop_error BackstopError.bad_request)
    | some d ↦ update_depositor e l₁ pool user d user_balance true
  ]

module _ (e : BackstopEnv) (from : Address) where
  -- The loop that settles the pools: the ledger, the sum and the claim of each pool.
  claim_pools : List Address → BackstopLedger → ℤ → Map ℤ → Result (BackstopLedger × ℤ × Map ℤ)
  claim_pools [] l claimed claims = ok (l, claimed, claims)
  claim_pools (pool ∷ pools) l claimed claims = do
    (l₁, claim_amt) ←
        claim_rewards e l pool (get_pool_balance l pool) from (get_user_balance l pool from)
    claimed₁ ← claimed +! claim_amt
    panic_if (Map.contains_key pool claims) (backstop_error BackstopError.bad_request)
    claim_pools pools l₁ claimed₁ (Map.set pool claim_amt claims)

  -- The loop that deposits each pool's part of the new pool tokens.
  deposit_claims : List Address → ℤ → ℤ → Map ℤ → BackstopLedger → Result BackstopLedger
  deposit_claims [] lp_tokens_out claimed claims l = ok l
  deposit_claims (pool ∷ pools) lp_tokens_out claimed claims l = do
    claim_amount ← or_panic (Map.get pool claims) trap
    deposit_amount ← e.fixed_point.fixed_mul_floor lp_tokens_out claim_amount claimed
    l₁ ←
        (if ltb_ℤ (pos 0) deposit_amount
          then (do
            to_mint ← convert_to_shares (plain_math e) (get_pool_balance l pool) deposit_amount
            pool_balance ← deposit (get_pool_balance l pool) deposit_amount to_mint
            user_balance ← add_shares (get_user_balance l pool from) to_mint
            ok (set_user_balance (set_pool_balance l pool pool_balance) pool from user_balance))
          else ok l)
    deposit_claims pools lp_tokens_out claimed claims l₁

  -- `execute_claim` of the backstop.
  unfoldable pub execute_claim_rewards :
      BackstopLedger → List Address → ℤ → Result (BackstopLedger × ℤ)
  unfolding claim_pools deposit_claims
  execute_claim_rewards l pools min_lp_tokens_out = do
    panic_if (length pools == 0) (backstop_error BackstopError.bad_request)
    (l₁, claimed, claims) ← claim_pools pools l (pos 0) []
    if ltb_ℤ (pos 0) claimed
        then (do
          blnd ← get_blnd_token l₁
          lp ← get_backstop_token l₁
          approval_ledger ← mul_u 32 (e.sequence / 100000 + 1) 100000
          let entry = dep_tokn_amt_in lp blnd claimed min_lp_tokens_out e.current_contract_address
          let lp_tokens_out = e.lp_tokns_out l₁.calls entry
          l₂ ← call_contract e l₁ entry
          l₃ ← deposit_claims pools lp_tokens_out claimed claims l₂
          ok (l₃, lp_tokens_out))
        else ok (l₁, pos 0)
