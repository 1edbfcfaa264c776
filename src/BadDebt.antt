-- ===== src/BadDebt.antt =====
-- Bad debt, pool/src/pool/bad_debt.rs and pool/src/pool/gulp.rs: a user with debt and no collateral
-- value pays with ordinary supply, defaults on the rest, and leaves worthless collateral to the pool.
pub mod Setoff
pub mod Faithful
pub mod BackstopDebt
use blend_contracts_v.Prelude.Map
use blend_contracts_v.Prelude.Map.{Map}
use blend_contracts_v.Prelude.{
  ℕ, ◌==◌, if◌then◌else◌, PoolError, Result, ◌>>=◌, ◌>>◌, panic_if, ◌-!◌, add_u, mul_u, bad_request,
  auction_in_progress, pool_error, ok, err, ℤ, ltb_ℤ, eqb_ℤ, min_ℤ, pos, Bool, true, false, not,
  ◌&&◌, ◌||◌, List, [], ◌∷◌,
}
use blend_contracts_v.Env.{FixedMath, Address, Env, env_math}
use blend_contracts_v.Storage.{
  ReserveData, get_unchecked, Ledger, get_pool_emissions, get_backstop, is_some, get_res_list,
  has_auction, get_res_emis_data, length, get_user_emissions,
}
use blend_contracts_v.Reserve.{
  to_asset_from_d_token, to_b_token_up, Reserve, to_asset_from_b_token, to_d_token_down,
}
use blend_contracts_v.User.{
  User, remove_collateral, has_liabilities, get_supply, remove_supply, default_liabilities,
  add_supply, remove_liabilities,
}
use blend_contracts_v.Pool.{Pool, load_reserve, cache_reserve, store_cached_reserves}
use blend_contracts_v.Health.{calculate_from_positions}
use blend_contracts_v.User
use blend_contracts_v.Pool
use blend_contracts_v.Reserve

pub record SupplySetoff : Type 0 where
  pub burn : ℤ
  pub repaid : ℤ
  pub residual : ℤ

abbrev pub has_default : SupplySetoff → Bool
has_default s = ltb_ℤ (pos 0) s.residual

abbrev pub no_setoff : ℤ → SupplySetoff
no_setoff amount = record { burn = pos 0; repaid = pos 0; residual = amount }

unfoldable pub supply_setoff : FixedMath → ReserveData → ℤ → ℤ → Result SupplySetoff
supply_setoff math d amount claim =
    if ltb_ℤ (pos 0) claim && ltb_ℤ (pos 0) d.b_rate
    then (do
      debt_assets ← to_asset_from_d_token math d amount
      needed ← to_b_token_up math d debt_assets
      let b_tokens = min_ℤ claim needed
      covered_assets ← to_asset_from_b_token math d b_tokens
      payable ← to_d_token_down math d covered_assets
      let repaid = min_ℤ amount payable
      if ltb_ℤ (pos 0) repaid
          then (do
            residual ← amount -! repaid
            ok (record { burn = b_tokens; repaid = repaid; residual = residual }))
          else ok (no_setoff amount))
    else ok (no_setoff amount)

abbrev pub should_orphan_collateral : Bool → Bool → Bool
should_orphan_collateral had_default has_collateral = had_default && has_collateral

abbrev pub any_positive : Map ℤ → Bool
any_positive [] = false
any_positive ((_, a) ∷ m) = ltb_ℤ (pos 0) a || any_positive m

-- The positive entries of the collateral, with their assets.
positive_collateral : List Address → Map ℤ → Result (List (Address × ℕ × ℤ))
positive_collateral reserve_list [] = ok []
positive_collateral reserve_list ((index, amount) ∷ m) = do
  rest ← positive_collateral reserve_list m
  if ltb_ℤ (pos 0) amount
      then (do asset ← get_unchecked reserve_list index; ok ((asset, index, amount) ∷ rest))
      else ok rest

module _ (e : Env) where
  unfoldable pub require_no_b_token_emissions : Ledger → ℕ → Result (Unit {0})
  require_no_b_token_emissions l reserve_index = do
    twice ← mul_u 32 reserve_index 2
    id ← add_u 32 twice 1
    panic_if
        (Map.contains_key id (get_pool_emissions l)
          || is_some (get_res_emis_data l id)
          || is_some (get_user_emissions l e.current_contract_address id))
        (pool_error PoolError.bad_request)

  -- The part of a debt that the user's own supply pays.
  pay_with_supply : SupplySetoff → Ledger → User → Reserve → Result (Ledger × User × Reserve)
  pay_with_supply setoff l u r =
      if ltb_ℤ (pos 0) setoff.repaid
      then (do
        (l₁, u₁, r₁) ← remove_supply e l u r setoff.burn
        remove_liabilities e l₁ u₁ r₁ setoff.repaid)
      else ok (l, u, r)

  forgive_rest : SupplySetoff → Ledger → User → Reserve → Result (Ledger × User × Reserve)
  forgive_rest setoff l u r =
      if has_default setoff then default_liabilities e l u r setoff.residual else ok (l, u, r)

  -- The loop over the liabilities, on whether a default occurred.
  settle_debts :
      List Address → Map ℤ → Ledger → Pool → User → Bool → Result (Ledger × Pool × User × Bool)
  unfolding pay_with_supply forgive_rest
  settle_debts reserve_list [] l pool u had = ok (l, pool, u, had)
  settle_debts reserve_list ((index, amount) ∷ m) l pool u had = do
    asset ← get_unchecked reserve_list index
    (noted, reserve) ← load_reserve e l pool asset true
    setoff ← supply_setoff (env_math e) reserve.state amount (get_supply u index)
    (l₁, u₁, r₁) ← pay_with_supply setoff l u reserve
    (l₂, u₂, r₂) ← forgive_rest setoff l₁ u₁ r₁
    settle_debts reserve_list m l₂ (cache_reserve noted r₂) u₂ (had || has_default setoff)

  -- The loop that moves collateral into the pool's own supply.
  orphan_collateral :
      List (Address × ℕ × ℤ) → Ledger → Pool → User → User → Result (Ledger × Pool × User × User)
  orphan_collateral [] l pool u pool_user = ok (l, pool, u, pool_user)
  orphan_collateral ((asset, index, amount) ∷ m) l pool u pool_user = do
    require_no_b_token_emissions l index
    (noted, reserve) ← load_reserve e l pool asset true
    (l₁, u₁, r₁) ← remove_collateral e l u reserve amount
    (l₂, pool_user₂, r₂) ← add_supply e l₁ pool_user r₁ amount
    orphan_collateral m l₂ (cache_reserve noted r₂) u₁ pool_user₂

  -- Debt is settled, and then worthless collateral is orphaned if some debt was defaulted.
  settle_all : Ledger → Pool → User → Result (Ledger × Pool × User × Bool)
  unfolding positive_collateral settle_debts orphan_collateral
  settle_all l pool u = do
    let reserve_list = get_res_list l
    collateral ← positive_collateral reserve_list u.positions.collateral
    (l₁, pool₁, u₁, had_default) ← settle_debts reserve_list u.positions.liabilities l pool u false
    if should_orphan_collateral had_default (not (length collateral == 0))
        then (do
          (l₂, pool₂, u₂, pool_user) ←
              orphan_collateral collateral l₁ pool₁ u₁ (User.load l₁ e.current_contract_address)
          ok (User.store pool_user l₂, pool₂, u₂, true))
        else ok (l₁, pool₁, u₁, true)

  -- Whether the collateral has a value; prices are read only if there is any.
  has_collateral_value : Ledger → Pool → User → Result (Pool × Bool)
  has_collateral_value l pool u =
      if any_positive u.positions.collateral
      then (do
        (pool', data_inc) ← calculate_from_positions e l pool u.positions
        ok (pool', not (eqb_ℤ data_inc.collateral_raw (pos 0))))
      else ok (pool, false)

  unfoldable pub check_and_handle_user_bad_debt :
      Ledger → Pool → User → Result (Ledger × Pool × User × Bool)
  unfolding settle_all has_collateral_value
  check_and_handle_user_bad_debt l pool u =
      if not (has_liabilities u) then ok (l, pool, u, false) else (do
        (pool', valued) ← has_collateral_value l pool u
        if valued then ok (l, pool', u, false) else settle_all l pool' u)

  unfoldable pub bad_debt : Ledger → Address → Result Ledger
  bad_debt l user = do
    pool ← Pool.load l
    let user_state = User.load l user
    backstop ← get_backstop l
    panic_if (user == backstop) (pool_error PoolError.bad_request)
    panic_if (has_auction l 0 user) (pool_error PoolError.auction_in_progress)
    (l', pool', user_state', had_bad_debt) ← check_and_handle_user_bad_debt l pool user_state
    if had_bad_debt
        then store_cached_reserves pool' (User.store user_state' l')
        else err (pool_error PoolError.bad_request)

  -- Burns the pool's own b tokens of a reserve that has no debt left. The result is the underlying
  -- that was recognized, always zero.
  unfoldable pub execute_gulp : Ledger → Address → Result (Ledger × ℤ)
  execute_gulp l asset = do
    pool ← Pool.load l
    (pool', reserve) ← load_reserve e l pool asset false
    require_no_b_token_emissions l reserve.config.index
    panic_if (ltb_ℤ (pos 0) reserve.state.d_supply) (pool_error PoolError.bad_request)
    let pool_user = User.load l e.current_contract_address
    let amount = get_supply pool_user reserve.config.index
    if eqb_ℤ amount (pos 0) then ok (l, pos 0) else (do
      (l₁, pool_user₁, r₁) ← remove_supply e l pool_user reserve amount
      ok (User.store pool_user₁ (Reserve.store l₁ r₁), pos 0))
