-- ===== src/Emissions.antt =====
-- The emissions of a reserve token to its holders, pool/src/emissions/distributor.rs. Token ids are
-- twice the reserve's index for d tokens, and one more for b tokens.
use blend_contracts_v.Prelude.{
  ℕ, ℤ, Result, Bool, leb, Option, ◌||◌, some, ◌==◌, eqb_ℤ, pos, ltb, if◌then◌else◌, PoolError,
  ◌>>=◌, ◌>>◌, panic_if, ◌+!◌, ◌-!◌, ◌*!◌, sub_u, pool_error, ok, ltb_ℤ, true, false, not, none,
}
use blend_contracts_v.Env.{Env, Address, scalar_7}
use blend_contracts_v.Storage.{
  Ledger, ReserveEmissionData, get_user_emissions, get_res_emis_data, set_res_emis_data,
  set_user_emissions,
}

-- Where an index grows: the data after the seconds since the last update.
advance : Env → ReserveEmissionData → ℤ → ℤ → Result ReserveEmissionData
advance e d supply supply_scalar = do
  let ledger_timestamp = if ltb d.expiration e.timestamp then d.expiration else e.timestamp
  elapsed ← sub_u ledger_timestamp d.last_time
  emitted ← pos elapsed *! pos d.eps
  additional_idx ← e.fixed_point.fixed_div_floor emitted supply supply_scalar
  index ← d.index +! additional_idx
  ok (record d { index = index; last_time = ledger_timestamp })

-- Nothing to do: the emission is over, up to date or empty, or nobody holds the token.
abbrev pub is_settled : Env → ReserveEmissionData → ℤ → Bool
is_settled e d supply =
    leb d.expiration d.last_time || e.timestamp == d.last_time || d.eps == 0 || eqb_ℤ supply (pos 0)

unfoldable pub update_emission_data :
    Env → Ledger → ℕ → ℤ → ℤ → Result (Ledger × Option ReserveEmissionData)
unfolding advance
update_emission_data e l id supply supply_scalar = elim (get_res_emis_data l id) [
  | none ↦ ok (l, none)
  | some d ↦
      if is_settled e d supply
      then ok (l, some d)
      else (do d' ← advance e d supply supply_scalar; ok (set_res_emis_data l id d', some d'))
]

-- `set_user_emissions` of the distributor: the new ledger, and what is paid out.
unfoldable pub settle_user : Ledger → Address → ℕ → ℤ → ℤ → Bool → Ledger × ℤ
settle_user l user id index accrued claim =
    if claim
    then (set_user_emissions l user id (record { index = index; accrued = pos 0 }), accrued)
    else (set_user_emissions l user id (record { index = index; accrued = accrued }), pos 0)

-- What a balance earns while the index moves from `since` to `index`.
earned : Env → ℤ → ℤ → ℤ → ℤ → Result ℤ
earned e supply_scalar balance index since = if eqb_ℤ balance (pos 0) then ok (pos 0) else (do
  delta_index ← index -! since
  panic_if (ltb_ℤ delta_index (pos 0)) (pool_error PoolError.negative_amount_error)
  divisor ← supply_scalar *! scalar_7
  e.fixed_point.fixed_mul_floor balance delta_index divisor)

unfoldable pub update_user_emissions :
    Env → Ledger → ReserveEmissionData → ℕ → ℤ → Address → ℤ → Bool → Result (Ledger × ℤ)
unfolding earned settle_user
update_user_emissions e l d id supply_scalar user balance claim =
    elim (get_user_emissions l user id) [
      | some u ↦
          if not (eqb_ℤ u.index d.index) || claim
          then (do
            to_accrue ← earned e supply_scalar balance d.index u.index
            accrual ← u.accrued +! to_accrue
            ok (settle_user l user id d.index accrual claim))
          else ok (l, pos 0)
      | none ↦
          if eqb_ℤ balance (pos 0) then ok (settle_user l user id d.index (pos 0) claim) else (do
            divisor ← supply_scalar *! scalar_7
            to_accrue ← e.fixed_point.fixed_mul_floor balance d.index divisor
            ok (settle_user l user id d.index to_accrue claim))
    ]

unfoldable pub update_emissions : Env → Ledger → ℕ → ℤ → ℤ → Address → ℤ → Result Ledger
update_emissions e l id supply supply_scalar user balance = do
  (l', found) ← update_emission_data e l id supply supply_scalar
  elim found [
    | none ↦ ok l'
    | some d ↦ do
      (l'', paid) ← update_user_emissions e l' d id supply_scalar user balance false
      ok l''
  ]

unfoldable pub claim_emissions : Env → Ledger → ℕ → ℤ → ℤ → Address → ℤ → Result (Ledger × ℤ)
claim_emissions e l id supply supply_scalar user balance = do
  (l', found) ← update_emission_data e l id supply supply_scalar
  elim found [
    | none ↦ ok (l', pos 0)
    | some d ↦ update_user_emissions e l' d id supply_scalar user balance true
  ]
