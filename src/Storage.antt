-- ===== src/Storage.antt =====
-- The ledger entries of the pool contract (pool/src/storage.rs) with their types, and the functions
-- that read and write them. Bumping an entry's time to live is left out.
use Prim.Native.String.{String}
use blend_contracts_v.Prelude.{
  ℕ, ◌+◌, ◌-◌, ℤ, Bool, true, false, Option, none, some, List, [], ◌∷◌, ◌++◌, Result, ok, err, trap,
  pool_error, PoolError, or_panic, panic_if, ◌>>◌, leb, ◌==◌, if◌then◌else◌,
}
use blend_contracts_v.Prelude.Map.{Map}
use blend_contracts_v.Env.{Address, Env, TokenCall, max_reserves}

pub record PoolConfig : Type 0 where
  pub oracle : Address
  pub min_collateral : ℤ
  pub bstop_rate : ℕ
  pub status : ℕ
  pub max_positions : ℕ

pub record ReserveConfig : Type 0 where
  pub index : ℕ
  pub decimals : ℕ
  pub c_factor : ℕ
  pub l_factor : ℕ
  pub util : ℕ
  pub max_util : ℕ
  pub r_base : ℕ
  pub r_one : ℕ
  pub r_two : ℕ
  pub r_three : ℕ
  pub reactivity : ℕ
  pub supply_cap : ℤ
  pub min_position : ℤ
  pub enabled : Bool

pub record QueuedReserveInit : Type 0 where
  pub new_config : ReserveConfig
  pub unlock_time : ℕ

pub record ReserveData : Type 0 where
  pub d_rate : ℤ
  pub b_rate : ℤ
  pub ir_mod : ℤ
  pub b_supply : ℤ
  pub d_supply : ℤ
  pub backstop_credit : ℤ
  pub last_time : ℕ

pub record ReserveEmissionData : Type 0 where
  pub expiration : ℕ
  pub eps : ℕ
  pub index : ℤ
  pub last_time : ℕ

pub record UserEmissionData : Type 0 where
  pub index : ℤ
  pub accrued : ℤ

-- A user's positions, by the index of the reserve.
pub record Positions : Type 0 where
  pub liabilities : Map ℤ
  pub collateral : Map ℤ
  pub supply : Map ℤ

-- `Positions::env_default`
abbrev pub env_default : Positions
env_default = record { liabilities = []; collateral = []; supply = [] }

pub record AuctionData : Type 0 where
  pub bid : Map ℤ
  pub lot : Map ℤ
  pub block : ℕ

-- All entries of the contract, and the token calls that were made, the last one first.
pub record Ledger : Type 0 where
  pub admin : Option Address
  pub proposed_admin : Option (Address × ℕ)
  pub name : Option String
  pub backstop : Option Address
  pub blnd_token : Option Address
  pub pool_config : Option PoolConfig
  pub res_list : List Address
  pub res_config : Address → Option ReserveConfig
  pub res_init : Address → Option QueuedReserveInit
  pub res_data : Address → Option ReserveData
  pub emis_data : ℕ → Option ReserveEmissionData
  pub user_emis : Address → ℕ → Option UserEmissionData
  pub pool_emis : Map ℕ
  pub positions : Address → Option Positions
  pub auctions : Address → ℕ → Option AuctionData
  pub token_calls : List TokenCall

abbrev pub update {ℓ} : {V : Type ℓ} → (ℕ → V) → ℕ → V → ℕ → V
update f k v j = if j == k then v else f j

abbrev pub update₂ {ℓ} : {V : Type ℓ} → (ℕ → ℕ → V) → ℕ → ℕ → V → ℕ → ℕ → V
update₂ f a k v = update f a (update (f a) k v)

abbrev pub is_some {ℓ} : {A : Type ℓ} → Option A → Bool
is_some none = false
is_some (some _) = true

abbrev pub unwrap_or {ℓ} : {A : Type ℓ} → Option A → A → A
unwrap_or none d = d
unwrap_or (some a) d = a

abbrev pub get_user_positions : Ledger → Address → Positions
get_user_positions l user = unwrap_or (l.positions user) env_default

abbrev pub set_user_positions : Ledger → Address → Positions → Ledger
set_user_positions l user p = record l { positions = update l.positions user (some p) }

abbrev pub get_admin : Ledger → Result Address
get_admin l = or_panic l.admin trap

abbrev pub set_admin : Ledger → Address → Ledger
set_admin l a = record l { admin = some a }

abbrev pub set_name : Ledger → String → Ledger
set_name l n = record l { name = some n }

abbrev pub get_backstop : Ledger → Result Address
get_backstop l = or_panic l.backstop trap

abbrev pub set_backstop : Ledger → Address → Ledger
set_backstop l a = record l { backstop = some a }

abbrev pub get_blnd_token : Ledger → Result Address
get_blnd_token l = or_panic l.blnd_token trap

abbrev pub set_blnd_token : Ledger → Address → Ledger
set_blnd_token l a = record l { blnd_token = some a }

abbrev pub get_pool_config : Ledger → Result PoolConfig
get_pool_config l = or_panic l.pool_config trap

abbrev pub set_pool_config : Ledger → PoolConfig → Ledger
set_pool_config l c = record l { pool_config = some c }

abbrev pub get_res_config : Ledger → Address → Result ReserveConfig
get_res_config l asset = or_panic (l.res_config asset) trap

abbrev pub set_res_config : Ledger → Address → ReserveConfig → Ledger
set_res_config l asset c = record l { res_config = update l.res_config asset (some c) }

abbrev pub has_res : Ledger → Address → Bool
has_res l asset = is_some (l.res_config asset)

abbrev pub get_queued_reserve_set : Ledger → Address → Result QueuedReserveInit
get_queued_reserve_set l asset = or_panic (l.res_init asset) trap

abbrev pub has_queued_reserve_set : Ledger → Address → Bool
has_queued_reserve_set l asset = is_some (l.res_init asset)

abbrev pub set_queued_reserve_set : Ledger → QueuedReserveInit → Address → Ledger
set_queued_reserve_set l i asset = record l { res_init = update l.res_init asset (some i) }

abbrev pub del_queued_reserve_set : Ledger → Address → Ledger
del_queued_reserve_set l asset = record l { res_init = update l.res_init asset none }

abbrev pub get_res_data : Ledger → Address → Result ReserveData
get_res_data l asset = or_panic (l.res_data asset) trap

abbrev pub set_res_data : Ledger → Address → ReserveData → Ledger
set_res_data l asset d = record l { res_data = update l.res_data asset (some d) }

abbrev pub get_res_list : Ledger → List Address
get_res_list l = l.res_list

abbrev pub length {ℓ} : {A : Type ℓ} → List A → ℕ
length [] = 0
length (_ ∷ xs) = length xs + 1

abbrev pub get_elem? {ℓ} : {A : Type ℓ} → List A → ℕ → Option A
get_elem? [] i = none
get_elem? (x ∷ xs) i = if i == 0 then some x else get_elem? xs (i - 1)

-- `get_unchecked`
abbrev pub get_unchecked {ℓ} : {A : Type ℓ} → List A → ℕ → Result A
get_unchecked xs i = or_panic (get_elem? xs i) trap

-- The new list and the index of the asset in it.
unfoldable pub push_res_list : Ledger → Address → Result (Ledger × ℕ)
push_res_list l asset = do
  panic_if (leb max_reserves (length l.res_list)) (pool_error PoolError.bad_request)
  let res_list = l.res_list ++ (asset ∷ [])
  ok (record l { res_list = res_list }, length res_list - 1)

abbrev pub get_res_emis_data : Ledger → ℕ → Option ReserveEmissionData
get_res_emis_data l id = l.emis_data id

abbrev pub set_res_emis_data : Ledger → ℕ → ReserveEmissionData → Ledger
set_res_emis_data l id d = record l { emis_data = update l.emis_data id (some d) }

abbrev pub get_user_emissions : Ledger → Address → ℕ → Option UserEmissionData
get_user_emissions l user id = l.user_emis user id

abbrev pub set_user_emissions : Ledger → Address → ℕ → UserEmissionData → Ledger
set_user_emissions l user id d = record l { user_emis = update₂ l.user_emis user id (some d) }

abbrev pub get_pool_emissions : Ledger → Map ℕ
get_pool_emissions l = l.pool_emis

abbrev pub set_pool_emissions : Ledger → Map ℕ → Ledger
set_pool_emissions l m = record l { pool_emis = m }

abbrev pub get_auction : Ledger → ℕ → Address → Result AuctionData
get_auction l auction_type user = or_panic (l.auctions user auction_type) trap

abbrev pub has_auction : Ledger → ℕ → Address → Bool
has_auction l auction_type user = is_some (l.auctions user auction_type)

abbrev pub set_auction : Ledger → ℕ → Address → AuctionData → Ledger
set_auction l auction_type user d = record l {
  auctions = update₂ l.auctions user auction_type (some d);
}

abbrev pub del_auction : Ledger → ℕ → Address → Ledger
del_auction l auction_type user = record l { auctions = update₂ l.auctions user auction_type none }

-- A call of a token contract, which may abort.
unfoldable pub call_token : Env → Ledger → TokenCall → Result Ledger
call_token e l c =
    if e.accepts l.token_calls c
    then ok (record l { token_calls = c ∷ l.token_calls })
    else err trap
