-- ===== src/OracleAdapter.antt =====
-- The pool's view of its price oracle, pool-oracle-adapter/src/lib.rs: prices of a parent oracle in
-- the adapter's decimals, their timestamps rounded down to its resolution. The parent, its price
-- type and `normalized_to_sep40` belong to another repository.
pub mod Timestamps
use blend_contracts_v.Prelude.{
  ℕ, ltb, ◌==◌, if◌then◌else◌, Result, or_panic, ◌>>=◌, trap, err, ok, ◌-◌, ◌%◌, not, ◌||◌, Option,
  none, some, List, [], ◌∷◌, reverse,
}
use blend_contracts_v.Env.{Address, PriceData}
use blend_contracts_v.Storage.{length}

pub data AdapterError : Type 0 where
  already_initialized invalid_config parent_unavailable parent_mismatch : AdapterError

-- Assets are numbers.
pub record PoolOracleConfig : Type 0 where
  pub parent_oracle : Address
  pub deployment_owner : Address
  pub decimals : ℕ
  pub resolution : ℕ
  pub base : ℕ

-- What the adapter asks; a call that fails, or has no answer, gives nothing.
pub record AdapterEnv (NormalizedPrice : Type 0) : Type 0 where
  pub timestamp : ℕ
  pub try_source_base : Address → Option ℕ
  pub try_registered_assets : Address → Option (List ℕ)
  pub try_get_owner : Address → Option Address
  pub try_aggregated_history : Address → ℕ → ℕ → Option (List NormalizedPrice)
  pub try_aggregated_latest : Address → ℕ → Option NormalizedPrice
  pub price_timestamp : NormalizedPrice → ℕ
  pub normalized_to_sep40 : NormalizedPrice → ℕ → Option PriceData

pub data SetUp : Type 0 where
  not_set_up : AdapterError → SetUp
  set_up : PoolOracleConfig → SetUp

abbrev pub max_history_records : ℕ
max_history_records = 32

unfoldable pub bucket_timestamp : ℕ → ℕ → Result ℕ
bucket_timestamp timestamp resolution =
    if resolution == 0 then err trap else ok (timestamp - timestamp % resolution)

-- `CONFIG` has to be there.
unfoldable pub load_config : Option PoolOracleConfig → Result PoolOracleConfig
load_config stored = or_panic stored trap

module _ {NormalizedPrice : Type 0} (e : AdapterEnv NormalizedPrice) where
  -- `__constructor`
  unfoldable pub adapter_constructor :
      Option PoolOracleConfig → Address → Address → ℕ → ℕ → ℕ → SetUp
  adapter_constructor (some c) owner parent decimals resolution base =
      not_set_up AdapterError.already_initialized
  adapter_constructor none owner parent decimals resolution base =
      if ltb 18 decimals || resolution == 0
      then not_set_up AdapterError.invalid_config
      else elim (e.try_source_base parent) [
        | none ↦ not_set_up AdapterError.parent_unavailable
        | some source_base ↦
            if not (source_base == base)
            then not_set_up AdapterError.parent_mismatch
            else elim (e.try_registered_assets parent) [
              | none ↦ not_set_up AdapterError.parent_unavailable
              | some assets ↦
                  if length assets == 0
                  then not_set_up AdapterError.parent_mismatch
                  else elim (e.try_get_owner parent) [
                    | none ↦ not_set_up AdapterError.parent_unavailable
                    | some parent_owner ↦
                        if not (parent_owner == owner)
                        then not_set_up AdapterError.parent_mismatch
                        else set_up (record {
                          parent_oracle = parent;
                          deployment_owner = owner;
                          decimals = decimals;
                          resolution = resolution;
                          base = base;
                        })
                  ]
            ]
      ]

  -- The configuration, if the parent still has its base.
  unfoldable pub active_config : Option PoolOracleConfig → Result (Option PoolOracleConfig)
  active_config stored = do
    config ← load_config stored
    ok (elim (e.try_source_base config.parent_oracle) [
      | none ↦ none
      | some base ↦ if base == config.base then some config else none
    ])

  unfoldable pub normalized_to_adapter : NormalizedPrice → ℕ → ℕ → Result (Option PriceData)
  normalized_to_adapter price decimals resolution = elim (e.normalized_to_sep40 price decimals) [
    | none ↦ ok none
    | some projected ↦ do
      timestamp ← bucket_timestamp projected.timestamp resolution
      ok (some (record { price = projected.price; timestamp = timestamp }))
  ]

  -- The latest entry in the bucket, from the newest on.
  find_price : PoolOracleConfig → ℕ → List NormalizedPrice → Result (Option PriceData)
  find_price config timestamp [] = ok none
  find_price config timestamp (entry ∷ older) =
      let rest = find_price config timestamp older in
      do
        bucket ← bucket_timestamp (e.price_timestamp entry) config.resolution
        if bucket == timestamp
            then normalized_to_adapter entry config.decimals config.resolution
            else rest

  unfoldable pub adapter_price : Option PoolOracleConfig → ℕ → ℕ → Result (Option PriceData)
  unfolding find_price
  adapter_price stored asset timestamp = do
    active ← active_config stored
    elim active [
      | none ↦ ok none
      | some config ↦
          if config.resolution == 0
          then err trap
          else (if not (timestamp % config.resolution == 0)
              then ok none
              else elim (e.try_aggregated_history config.parent_oracle asset max_history_records) [
                | none ↦ ok none
                | some history ↦ find_price config timestamp (reverse history)
              ])
    ]

  -- A price replaces the last one if it has the same timestamp, and else comes after it.
  unfoldable pub put_price : List PriceData → PriceData → List PriceData
  put_price [] price = price ∷ []
  put_price (p ∷ []) price = if p.timestamp == price.timestamp then price ∷ [] else p ∷ price ∷ []
  put_price (p ∷ q ∷ prices) price = p ∷ put_price (q ∷ prices) price

  unfoldable pub collect_prices :
      PoolOracleConfig → List NormalizedPrice → List PriceData → Result (Option (List PriceData))
  collect_prices config [] prices = ok (some prices)
  collect_prices config (entry ∷ history) prices = do
    adapted ← normalized_to_adapter entry config.decimals config.resolution
    elim adapted [
      | none ↦ ok none
      | some price ↦ collect_prices config history (put_price prices price)
    ]

  unfoldable pub adapter_prices : Option PoolOracleConfig → ℕ → ℕ → Result (Option (List PriceData))
  adapter_prices stored asset records = do
    active ← active_config stored
    elim active [
      | none ↦ ok none
      | some config ↦
          if records == 0
          then ok none
          else elim (e.try_aggregated_history config.parent_oracle asset records) [
            | none ↦ ok none
            | some history ↦ do
              collected ← collect_prices config history []
              ok (elim collected [
                | none ↦ none
                | some prices ↦ if length prices == 0 then none else some prices
              ])
          ]
    ]

  unfoldable pub adapter_lastprice : Option PoolOracleConfig → ℕ → Result (Option PriceData)
  adapter_lastprice stored asset = do
    active ← active_config stored
    elim active [
      | none ↦ ok none
      | some config ↦ elim (e.try_aggregated_latest config.parent_oracle asset) [
        | none ↦ ok none
        | some price ↦
            if ltb e.timestamp (e.price_timestamp price)
            then ok none
            else normalized_to_adapter price config.decimals config.resolution
      ]
    ]
