-- ===== src/User.antt =====
-- A user's positions, pool/src/pool/user.rs: every change settles the emissions first, and moves the
-- reserve's supply by the same amount as the position.
pub mod Balance
pub mod Faithful
pub mod Default
use blend_contracts_v.Prelude.Map
use blend_contracts_v.Prelude.Map.{Map}
use blend_contracts_v.Prelude.{
  ℕ, Bool, ℤ, Result, not, pos, ◌+!◌, panic_if, ltb_ℤ, ok, pool_error, PoolError, if◌then◌else◌,
  ◌>>=◌, ◌>>◌, ◌-!◌, add_u, mul_u, negative_amount_error, invalid_b_token_mint_amount,
  invalid_b_token_burn_amount, invalid_d_token_mint_amount, invalid_d_token_burn_amount, leb_ℤ,
  eqb_ℤ, true, [], ◌∷◌,
}
use blend_contracts_v.Env.{Address, Env, FixedMath, env_math, scalar_12}
use blend_contracts_v.Storage.{
  Ledger, Positions, get_user_positions, set_user_positions, ReserveData,
}
use blend_contracts_v.Reserve.{Reserve, mint_supply, burn_supply, to_asset_from_d_token}
use blend_contracts_v.Pool.{Pool, load_reserve, cache_reserve}
use blend_contracts_v.Emissions.{update_emissions}

pub record User : Type 0 where
  pub address : Address
  pub positions : Positions

-- `User::load`
abbrev pub load : Ledger → Address → User
load l address = record { address = address; positions = get_user_positions l address }

-- `User::store`
abbrev pub store : User → Ledger → Ledger
store u l = set_user_positions l u.address u.positions

abbrev pub has_liabilities : User → Bool
has_liabilities u = not (Map.is_empty u.positions.liabilities)

abbrev pub get_liabilities : User → ℕ → ℤ
get_liabilities u index = Map.get_or index (pos 0) u.positions.liabilities

abbrev pub get_collateral : User → ℕ → ℤ
get_collateral u index = Map.get_or index (pos 0) u.positions.collateral

abbrev pub get_supply : User → ℕ → ℤ
get_supply u index = Map.get_or index (pos 0) u.positions.supply

abbrev pub get_total_supply : User → ℕ → Result ℤ
get_total_supply u index = get_collateral u index +! get_supply u index

abbrev pub require_nonnegative : ℤ → Result (Unit {0})
require_nonnegative amount =
    panic_if (ltb_ℤ amount (pos 0)) (pool_error PoolError.negative_amount_error)

-- The position after a removal: an entry that falls to zero goes.
abbrev pub lower : ℕ → ℤ → Map ℤ → Map ℤ
lower index balance m =
    if eqb_ℤ balance (pos 0) then Map.remove index m else Map.set index balance m

abbrev pub set_liabilities : User → Map ℤ → User
set_liabilities u m = record u { positions = record (u.positions) { liabilities = m } }

abbrev pub set_collateral : User → Map ℤ → User
set_collateral u m = record u { positions = record (u.positions) { collateral = m } }

abbrev pub set_supply : User → Map ℤ → User
set_supply u m = record u { positions = record (u.positions) { supply = m } }

abbrev pub set_d_supply : Reserve → ℤ → Reserve
set_d_supply r d_supply = record r { state = record (r.state) { d_supply = d_supply } }

abbrev pub set_state : Reserve → ReserveData → Reserve
set_state r d = record r { state = d }

module _ (e : Env) where
  unfoldable pub update_d_emissions : Ledger → User → Reserve → ℤ → Result Ledger
  update_d_emissions l u r amount = do
    id ← mul_u 32 r.config.index 2
    update_emissions e l id r.state.d_supply r.scalar u.address amount

  unfoldable pub update_b_emissions : Ledger → User → Reserve → ℤ → Result Ledger
  update_b_emissions l u r amount = do
    twice ← mul_u 32 r.config.index 2
    id ← add_u 32 twice 1
    update_emissions e l id r.state.b_supply r.scalar u.address amount

  unfoldable pub add_liabilities : Ledger → User → Reserve → ℤ → Result (Ledger × User × Reserve)
  add_liabilities l u r amount = do
    panic_if (leb_ℤ amount (pos 0)) (pool_error PoolError.invalid_d_token_mint_amount)
    let balance = get_liabilities u r.config.index
    l' ← update_d_emissions l u r balance
    new_balance ← balance +! amount
    d_supply ← r.state.d_supply +! amount
    ok (
      l',
      set_liabilities u (Map.set r.config.index new_balance u.positions.liabilities),
      set_d_supply r d_supply,
    )

  unfoldable pub remove_liabilities : Ledger → User → Reserve → ℤ → Result (Ledger × User × Reserve)
  remove_liabilities l u r amount = do
    panic_if (leb_ℤ amount (pos 0)) (pool_error PoolError.invalid_d_token_burn_amount)
    let balance = get_liabilities u r.config.index
    l' ← update_d_emissions l u r balance
    new_balance ← balance -! amount
    require_nonnegative new_balance
    d_supply ← r.state.d_supply -! amount
    ok (
      l',
      set_liabilities u (lower r.config.index new_balance u.positions.liabilities),
      set_d_supply r d_supply,
    )

  unfoldable pub add_collateral : Ledger → User → Reserve → ℤ → Result (Ledger × User × Reserve)
  add_collateral l u r amount = do
    panic_if (leb_ℤ amount (pos 0)) (pool_error PoolError.invalid_b_token_mint_amount)
    let balance = get_collateral u r.config.index
    total ← get_total_supply u r.config.index
    l' ← update_b_emissions l u r total
    new_balance ← balance +! amount
    minted ← mint_supply r.state amount
    ok (
      l',
      set_collateral u (Map.set r.config.index new_balance u.positions.collateral),
      set_state r minted,
    )

  unfoldable pub remove_collateral : Ledger → User → Reserve → ℤ → Result (Ledger × User × Reserve)
  remove_collateral l u r amount = do
    panic_if (leb_ℤ amount (pos 0)) (pool_error PoolError.invalid_b_token_burn_amount)
    let balance = get_collateral u r.config.index
    total ← get_total_supply u r.config.index
    l' ← update_b_emissions l u r total
    new_balance ← balance -! amount
    require_nonnegative new_balance
    burnt ← burn_supply r.state amount
    ok (
      l',
      set_collateral u (lower r.config.index new_balance u.positions.collateral),
      set_state r burnt,
    )

  unfoldable pub add_supply : Ledger → User → Reserve → ℤ → Result (Ledger × User × Reserve)
  add_supply l u r amount = do
    panic_if (leb_ℤ amount (pos 0)) (pool_error PoolError.invalid_b_token_mint_amount)
    let balance = get_supply u r.config.index
    total ← get_total_supply u r.config.index
    l' ← update_b_emissions l u r total
    new_balance ← balance +! amount
    minted ← mint_supply r.state amount
    ok (
      l',
      set_supply u (Map.set r.config.index new_balance u.positions.supply),
      set_state r minted,
    )

  unfoldable pub remove_supply : Ledger → User → Reserve → ℤ → Result (Ledger × User × Reserve)
  remove_supply l u r amount = do
    panic_if (leb_ℤ amount (pos 0)) (pool_error PoolError.invalid_b_token_burn_amount)
    let balance = get_supply u r.config.index
    total ← get_total_supply u r.config.index
    l' ← update_b_emissions l u r total
    new_balance ← balance -! amount
    require_nonnegative new_balance
    burnt ← burn_supply r.state amount
    ok (l', set_supply u (lower r.config.index new_balance u.positions.supply), set_state r burnt)

-- The b rate after `defaulted` d tokens are forgiven.
unfoldable pub default_b_rate : FixedMath → ReserveData → ℤ → Result ℤ
default_b_rate math d defaulted =
    if ltb_ℤ (pos 0) d.b_supply
    then (do
      default_amount ← to_asset_from_d_token math d defaulted
      b_rate_loss ← math.ceil default_amount scalar_12 d.b_supply
      new_rate ← d.b_rate -! b_rate_loss
      ok (if ltb_ℤ new_rate (pos 0) then pos 0 else new_rate))
    else ok d.b_rate

unfoldable pub default_liabilities :
    Env → Ledger → User → Reserve → ℤ → Result (Ledger × User × Reserve)
default_liabilities e l u r amount = do
  (l', u', r') ← remove_liabilities e l u r amount
  new_rate ← default_b_rate (env_math e) r'.state amount
  ok (l', u', set_state r' (record (r'.state) { b_rate = new_rate }))

-- What a position change of `rm_positions` and `add_positions` does to one reserve.
abbrev pub Change : Type 0
Change = Ledger → User → Reserve → ℤ → Result (Ledger × User × Reserve)

-- One pass over a map of amounts, by asset.
apply_changes : Env → Change → Map ℤ → Ledger → Pool → User → Result (Ledger × Pool × User)
apply_changes e change [] l pool u = ok (l, pool, u)
apply_changes e change ((asset, amount) ∷ m) l pool u = do
  (l', pool', u') ←
      (if ltb_ℤ (pos 0) amount
        then (do
          (noted, reserve) ← load_reserve e l pool asset true
          (l₁, u₁, r₁) ← change l u reserve amount
          ok (l₁, cache_reserve noted r₁, u₁))
        else ok (l, pool, u))
  apply_changes e change m l' pool' u'

unfoldable pub rm_positions :
    Env → Map ℤ → Map ℤ → Ledger → Pool → User → Result (Ledger × Pool × User)
unfolding apply_changes
rm_positions e collateral_amounts liability_amounts l pool u = do
  (l', pool', u') ← apply_changes e (remove_collateral e) collateral_amounts l pool u
  apply_changes e (remove_liabilities e) liability_amounts l' pool' u'

unfoldable pub add_positions :
    Env → Map ℤ → Map ℤ → Ledger → Pool → User → Result (Ledger × Pool × User)
unfolding apply_changes
add_positions e collateral_amounts liability_amounts l pool u = do
  (l', pool', u') ← apply_changes e (add_collateral e) collateral_amounts l pool u
  apply_changes e (add_liabilities e) liability_amounts l' pool' u'
