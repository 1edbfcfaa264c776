-- ===== src/Pool.antt =====
-- The pool as a transaction sees it, pool/src/pool/pool.rs: its configuration, and the caches of
-- reserves and prices that the transaction fills.
pub mod Oracle
pub mod Cache
pub mod Faithful
use blend_contracts_v.Prelude.Map
use blend_contracts_v.Prelude.Map.{Map}
use blend_contracts_v.Prelude.{
  ℕ, List, Bool, Result, Option, add_u, false, some, ok, ltb, panic_if, ℤ, ◌∷◌, ◌&&◌, pool_error,
  ◌||◌, ◌==◌, PoolError, ◌-◌, leb_ℤ, pos, if◌then◌else◌, ◌>>=◌, ◌>>◌, or_panic, invalid_pool_status,
  max_positions_exceeded, internal_reserve_not_found, invalid_price, not, none, [], ◌++◌,
}
use blend_contracts_v.Storage.{PoolConfig, Positions, Ledger, get_pool_config}
use blend_contracts_v.Env.{Address, Env, PriceData}
use blend_contracts_v.Reserve.{Reserve}
use blend_contracts_v.Reserve

pub record Pool : Type 0 where
  pub config : PoolConfig
  pub reserves : Map Reserve
  pub reserves_to_store : List Address
  pub price_decimals : Option ℕ
  pub prices : Map ℤ

-- `Positions::effective_count`
abbrev pub effective_count : Positions → Result ℕ
effective_count p = add_u 32 (Map.len p.liabilities) (Map.len p.collateral)

abbrev pub contains : List ℕ → ℕ → Bool
contains [] a = false
contains (x ∷ xs) a = a == x || contains xs a

-- `Pool::load`
unfoldable pub load : Ledger → Result Pool
load l = do
  pool_config ← get_pool_config l
  ok (record {
    config = pool_config;
    reserves = [];
    reserves_to_store = [];
    price_decimals = none;
    prices = [];
  })

-- The asset is noted for storing when the caller asks for it.
abbrev pub note_store : Pool → Address → Bool → Pool
note_store pool asset keep =
    if keep && not (contains pool.reserves_to_store asset)
    then record pool { reserves_to_store = pool.reserves_to_store ++ (asset ∷ []) }
    else pool

unfoldable pub load_reserve : Env → Ledger → Pool → Address → Bool → Result (Pool × Reserve)
load_reserve e l pool asset keep =
    let noted = note_store pool asset keep in
    elim (Map.get asset noted.reserves) [
      | some reserve ↦ ok (noted, reserve)
      | none ↦ do reserve ← Reserve.load e l noted.config asset; ok (noted, reserve)
    ]

unfoldable pub cache_reserve : Pool → Reserve → Pool
cache_reserve pool reserve = record pool { reserves = Map.set reserve.asset reserve pool.reserves }

store_all : Map Reserve → List Address → Ledger → Result Ledger
store_all reserves [] l = ok l
store_all reserves (a ∷ as') l = do
  reserve ← or_panic (Map.get a reserves) (pool_error PoolError.internal_reserve_not_found)
  store_all reserves as' (Reserve.store l reserve)

unfoldable pub store_cached_reserves : Pool → Ledger → Result Ledger
unfolding store_all
store_cached_reserves pool l = store_all pool.reserves pool.reserves_to_store l

-- Borrow (4) and delete auction (9) need an active pool, supply (0) and supply collateral (2) one
-- that is not frozen or in setup.
abbrev pub is_action_disallowed : ℕ → ℕ → Bool
is_action_disallowed status action_type =
    (ltb 1 status && (action_type == 4 || action_type == 9))
    || (ltb 3 status && (action_type == 2 || action_type == 0))

unfoldable pub require_action_allowed : Pool → ℕ → Result (Unit {0})
require_action_allowed pool action_type =
    panic_if (is_action_disallowed pool.config.status action_type)
      (pool_error PoolError.invalid_pool_status)

unfoldable pub require_under_max : Pool → Positions → ℕ → Result (Unit {0})
require_under_max pool positions previous_num = do
  new_num ← effective_count positions
  panic_if (ltb previous_num new_num && ltb pool.config.max_positions new_num)
      (pool_error PoolError.max_positions_exceeded)

unfoldable pub load_price_decimals : Env → Pool → Result (Pool × ℕ)
load_price_decimals e pool = elim pool.price_decimals [
  | some decimals ↦ ok (pool, decimals)
  | none ↦ do
    let decimals = e.decimals pool.config.oracle
    panic_if (not (decimals == 7)) (pool_error PoolError.invalid_price)
    ok (record pool { price_decimals = some decimals }, decimals)
]

-- A price from the future, older than a day or not positive is refused.
abbrev pub is_bad_price : ℕ → PriceData → Bool
is_bad_price now p = ltb now p.timestamp || ltb 86_400 (now - p.timestamp) || leb_ℤ p.price (pos 0)

unfoldable pub load_price : Env → Pool → Address → Result (Pool × ℤ)
load_price e pool asset = elim (Map.get asset pool.prices) [
  | some price ↦ ok (pool, price)
  | none ↦ do
    price_data ←
        or_panic (e.lastprice pool.config.oracle asset) (pool_error PoolError.invalid_price)
    panic_if (is_bad_price e.timestamp price_data) (pool_error PoolError.invalid_price)
    ok (record pool { prices = Map.set asset price_data.price pool.prices }, price_data.price)
]
