-- ===== src/Tests/Outer.antt =====
-- The contracts around the pool at concrete inputs: the factory, the oracle adapter, the handover of
-- the admin and the reward zone.
use blend_contracts_v.Prelude.{
  ℕ, ◌==◌, check, pos, ◌+◌, ◌≡◌, refl, ◌↔◌, true, false, none, some, [], ◌∷◌, arith, ◌*ℤ◌, quot_ℤ,
}
use blend_contracts_v.Env.{PriceData, Address}
use blend_contracts_v.Storage.{Ledger}
use blend_contracts_v.PoolFactory.{Factory, FactoryEnv, PoolArgs, PoolInitMeta, deploy, returns}
use blend_contracts_v.OracleAdapter.{
  AdapterEnv, PoolOracleConfig, adapter_lastprice, adapter_prices, active_config, load_config,
  normalized_to_adapter, bucket_timestamp, collect_prices, put_price,
}
use blend_contracts_v.PoolFactory.Deploy.{pool_code, IsInBounds, deploy-succeeds}
use blend_contracts_v.Tests.Setup.{ledger, returned, host}
use blend_contracts_v.PoolContract.{
  handle_pool, set_proposed_admin, propose_admin, accept_admin, get_proposed_admin,
}
use blend_contracts_v.Backstop.Ledger.{BackstopLedger, get_reward_zone}
use blend_contracts_v.Backstop.Zone.{add_to_reward_zone, load_pool_backstop_data}
use blend_contracts_v.Tests.Vault.{new_vault, vault_host}
use blend_contracts_v.Backstop.{is_pool_above_threshold, backstop_threshold_from_product}
use blend_contracts_v.PoolContract.Admin.{IsHandover, propose-accept_admin}
use blend_contracts_v.Status.{saturating_backstop_product, saturating_mul}
use blend_contracts_v.OracleAdapter.Timestamps.{
  IsLastPrice, adapter_lastprice-IsLastPrice, IsSeries, adapter_prices-IsSeries,
}
use blend_contracts_v.Backstop.Sheet.{distinct}
use blend_contracts_v.Backstop.RewardZone.{adds, IsZone, ZoneCall-IsZone, adds}

abbrev args : PoolArgs
args = record {
  admin = 3;
  name = "pool";
  oracle = 9;
  backstop_take_rate = 0;
  max_positions = 6;
  min_collateral = pos 1_0000000;
}

abbrev meta : PoolInitMeta
meta = record { pool_hash = 77; backstop = 50; blnd_id = 42 }

abbrev factory : Factory
factory = record { pool_init_meta = some meta; deployed = λ _. false; pools = λ _. none }

abbrev factory_host : FactoryEnv
factory_host = record {
  pool_address = λ salt admin. salt + admin;
  vacant = λ _. true;
  constructor_of = λ _ a m. pool_code (λ _. true) a m;
}

deploy_example :
    ((r : Factory × Address) × (deploy factory_host (λ _. true) factory args 100 ≡ returns r))
    ↔ IsInBounds args
deploy_example = deploy-succeeds factory_host (λ _. true) factory args 100 meta refl refl refl refl

-- A parent whose prices are numbers of seconds.
abbrev parent_host : AdapterEnv ℕ
parent_host = record {
  timestamp = 10_000;
  try_source_base = λ _. some 1;
  try_registered_assets = λ _. some (5 ∷ []);
  try_get_owner = λ _. some 3;
  try_aggregated_history = λ _ _ _. some (9_000 ∷ 9_100 ∷ 9_950 ∷ []);
  try_aggregated_latest = λ _ _. some 9_950;
  price_timestamp = λ p. p;
  normalized_to_sep40 = λ p _. some (record { price = pos 7; timestamp = p });
}

abbrev adapter_config : PoolOracleConfig
adapter_config = record {
  parent_oracle = 8;
  deployment_owner = 3;
  decimals = 7;
  resolution = 300;
  base = 1;
}

abbrev at_time : ℕ → PriceData
at_time t = record { price = pos 7; timestamp = t }

lastprice_example : IsLastPrice parent_host adapter_config 5 (at_time 9_900)
unfolding adapter_lastprice active_config load_config normalized_to_adapter bucket_timestamp
lastprice_example = adapter_lastprice-IsLastPrice parent_host adapter_config 5 refl

prices_example : IsSeries 300 (at_time 9_000 ∷ at_time 9_900 ∷ [])
unfolding adapter_prices active_config load_config normalized_to_adapter bucket_timestamp
    collect_prices put_price
prices_example = adapter_prices-IsSeries parent_host adapter_config 5 32 refl

abbrev owned : Ledger
owned = record ledger { admin = some 3 }

proposed_ledger : Ledger
proposed_ledger = returned owned (handle_pool (host 0) (λ a. a == 3) owned (propose_admin 4))

accepted_ledger : Ledger
accepted_ledger = returned owned (handle_pool (host 10) (λ a. a == 4) proposed_ledger accept_admin)

propose_accept_example :
    IsHandover
      (host 0)
      (λ a. a == 3)
      owned
      4
      (host 10)
      (λ a. a == 4)
      proposed_ledger
      accepted_ledger
unfolding handle_pool set_proposed_admin get_proposed_admin proposed_ledger accepted_ledger
propose_accept_example =
    propose-accept_admin (host 0) (host 10) (λ a. a == 3) (λ a. a == 4) owned 4
      {l' = proposed_ledger} {l₁ = proposed_ledger} {l₂ = accepted_ledger} refl refl refl

abbrev rich_vault : BackstopLedger
rich_vault = record new_vault {
  pool_balances =
      λ _. some (record { shares = pos 50_000_0000000; tokens = pos 50_000_0000000; q4w = pos 0 });
}

zoned_vault : BackstopLedger
zoned_vault = returned new_vault (add_to_reward_zone (vault_host 0) rich_vault 7 none)

reward_pool_example : IsZone (get_reward_zone zoned_vault)
unfolding add_to_reward_zone zoned_vault load_pool_backstop_data is_pool_above_threshold
    backstop_threshold_from_product saturating_backstop_product saturating_mul check ◌*ℤ◌ distinct
    quot_ℤ
reward_pool_example =
    ZoneCall-IsZone {l = rich_vault} {l' = zoned_vault} (adds (vault_host 0) 7 none refl)
      (record { unique = refl; size = omega arith })
