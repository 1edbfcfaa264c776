-- ===== src/PoolFactory.antt =====
-- The factory of pools, pool-factory/src/pool_factory.rs and storage.rs. The hash of the salt, the
-- address it leads to and the code behind a pool's hash are the host's.
pub mod Deploy
use Prim.Native.String.{String}
use blend_contracts_v.Prelude.{
  ℕ, ltb, ◌==◌, if◌then◌else◌, Result, err, ok, ℤ, ltb_ℤ, pos, Bool, true, not, ◌||◌, Option, none,
  some,
}
use blend_contracts_v.Env.{Address}
use blend_contracts_v.Storage.{Ledger, update}

pub data PoolFactoryError : Type 0 where
  internal_error already_initialized_error invalid_pool_init_args : PoolFactoryError

pub record PoolInitMeta : Type 0 where
  pub pool_hash : ℕ
  pub backstop : Address
  pub blnd_id : Address

-- Why a call of the factory aborts.
pub data FactoryPanic : Type 0 where
  factory_error : PoolFactoryError → FactoryPanic
  host_trap : FactoryPanic

pub data FactoryResult {μ} (V : Type μ) : Type μ where
  failed : FactoryPanic → FactoryResult V
  returns : V → FactoryResult V

-- The arguments of a deployment that the creator gives.
pub record PoolArgs : Type 0 where
  pub admin : Address
  pub name : String
  pub oracle : Address
  pub backstop_take_rate : ℕ
  pub max_positions : ℕ
  pub min_collateral : ℤ

-- The entries of the factory, and the pools with the ledgers that their constructors left.
pub record Factory : Type 0 where
  pub pool_init_meta : Option PoolInitMeta
  pub deployed : Address → Bool
  pub pools : Address → Option Ledger

pub record FactoryEnv : Type 0 where
  -- the address for a salt and an admin
  pub pool_address : ℕ → Address → Address
  -- whether no contract is there yet
  pub vacant : Address → Bool
  -- the constructor of the code with a hash
  pub constructor_of : ℕ → PoolArgs → PoolInitMeta → Result Ledger

unfoldable pub factory_constructor : Factory → PoolInitMeta → Factory
factory_constructor f meta = record f { pool_init_meta = some meta }

unfoldable pub is_deployed : Factory → Address → Bool
is_deployed f contract_id = f.deployed contract_id

unfoldable pub set_deployed : Factory → Address → Factory
set_deployed f contract_id = record f { deployed = update f.deployed contract_id true }

-- `deploy_v2`: the contract's constructor runs at an address where nothing is.
unfoldable pub deploy_v2 : FactoryEnv → Factory → Address → PoolArgs → PoolInitMeta → Option Factory
deploy_v2 e f at args meta =
    if e.vacant at
    then elim (e.constructor_of meta.pool_hash args meta) [
      | ok l ↦ some (record f { pools = update f.pools at (some l) })
      | err p ↦ none
    ]
    else none

abbrev pub bad_pool_args : PoolArgs → Bool
bad_pool_args args =
    not (args.backstop_take_rate == 0)
    || ltb args.max_positions 2
    || ltb 60 args.max_positions
    || ltb_ℤ args.min_collateral (pos 0)

-- The deployment, once the metadata is read.
unfoldable pub deploy_from :
    FactoryEnv → Factory → PoolArgs → ℕ → PoolInitMeta → FactoryResult (Factory × Address)
deploy_from e f args salt meta =
    if bad_pool_args args
    then failed (factory_error PoolFactoryError.invalid_pool_init_args)
    else (let at = e.pool_address salt args.admin in
        elim (deploy_v2 e f at args meta) [
          | none ↦ failed host_trap
          | some f' ↦ returns (set_deployed f' at, at)
        ])

abbrev pub with_meta :
    Option PoolInitMeta
    → (PoolInitMeta → FactoryResult (Factory × Address))
    → FactoryResult (Factory × Address)
with_meta none next = failed host_trap
with_meta (some meta) next = next meta

unfoldable pub deploy :
    FactoryEnv → (Address → Bool) → Factory → PoolArgs → ℕ → FactoryResult (Factory × Address)
deploy e auth f args salt =
    if auth args.admin
    then with_meta f.pool_init_meta (deploy_from e f args salt)
    else failed host_trap
