-- ===== src/Tests/Calls.antt =====
-- The theorems on whole calls at concrete inputs.
use blend_contracts_v.Prelude.Map.{set}
use blend_contracts_v.Pool.{
  load_price_decimals, load_price, require_under_max, store_cached_reserves, cache_reserve,
}
use blend_contracts_v.Submit.FlashLoans.{
  IsFlashSubmitted, execute_submit_with_flash_loan-IsFlashSubmitted,
}
use blend_contracts_v.Status.Lifecycle.{
  IsUpdate, IsAdminChange, IsRunning, execute_set_pool_status-IsAdminChange, StatusCalls-IsRunning,
  call, done, StatusCall, execute_update_pool_status-IsUpdate,
}
use blend_contracts_v.Auction.Scaling.{
  IsPartition, auction_timing_modifiers-monotone, IsNonnegSide, scale_auction-full,
  partition_quote-IsPartition,
}
use blend_contracts_v.Prelude.{
  ℕ, check, ℤ, ◌-ℤ◌, ltb_ℤ, quot_ℤ, pos, negsuc, ◌+◌, ◌≤◌, ◌≡◌, refl, ◌⊎◌, true, false, not, Option,
  none, some, List, [], ◌∷◌, arith, ◌*ℤ◌, ◌+ℤ◌,
}
use blend_contracts_v.Actions.{
  Request, Tx, apply_supply, apply_borrow, Actions, no_actions, build_actions_from_request,
  apply_requests, apply_request, request_type_from_u32,
}
use blend_contracts_v.Storage.{
  Ledger, ReserveConfig, AuctionData, Positions, set_pool_config, call_token, push_res_list,
}
use blend_contracts_v.Submit.{
  execute_submit, net_balances, validate_submit, require_healthy, check_utilizations,
  positions_hf_under, handle_transfers, FlashLoan, execute_submit_with_flash_loan,
  handle_transfer_with_allowance,
}
use blend_contracts_v.Status.{
  calc_pool_backstop_threshold, execute_update_pool_status, execute_set_pool_status, updated_status,
  admin_status, threshold_from_product, saturating_backstop_product, saturating_mul,
}
use blend_contracts_v.Config.{
  execute_queue_set_reserve, execute_set_reserve, require_valid_reserve_metadata, is_disable_only,
  require_valid_reserve_metadata_changes, initialize_reserve,
}
use blend_contracts_v.Auction.{
  auction_timing_modifiers, partition_quote, scale_auction, discount_quote,
}
use blend_contracts_v.Actions.Allowed.{ArePermitted}
use blend_contracts_v.Submit.Allowed.{execute_submit-ArePermitted}
use blend_contracts_v.Submit.Health.{IsSubmitted, execute_submit-IsSubmitted}
use blend_contracts_v.Tests.Setup.{
  ledger, returned, backstop_data, config, user_positions, host, pool_config, pool, user,
  math-IsFixedMath, math,
}
use blend_contracts_v.Actions.Guards.{
  IsWithinCap, IsGuardedLoan, apply_supply-IsWithinCap, apply_borrow-IsGuardedLoan,
}
use blend_contracts_v.Pool.Oracle.{IsLoadedPrice, load_price-IsLoadedPrice}
use blend_contracts_v.Env.{scalar_7, pow10}
use blend_contracts_v.Config.Timelock.{
  queue-set_reserve-delay, IsUnlocked, execute_set_reserve-IsUnlocked,
}
use blend_contracts_v.Backstop.{is_pool_above_threshold}
use blend_contracts_v.Status.Threshold.{calc_pool_backstop_threshold-is_pool_above_threshold}
use blend_contracts_v.User.{add_supply, add_liabilities, update_d_emissions, update_b_emissions}
use blend_contracts_v.Emissions.{update_emissions, update_emission_data}
use blend_contracts_v.Health.{calculate_from_positions, is_hf_under, as_health_factor}
use blend_contracts_v.Submit.Netting.{IsDistinct, net_balances-get}
use blend_contracts_v.Interest.{calc_accrual, current_interest, finish_accrual}
use blend_contracts_v.Reserve
use blend_contracts_v.Pool

-- A supply of 10 tokens and a loan of 5 tokens.
abbrev supply_request : Request
supply_request = record { request_type = 0; address = 1; amount = pos 10_0000000 }

abbrev borrow_request : Request
borrow_request = record { request_type = 4; address = 1; amount = pos 5_0000000 }

abbrev requests : List Request
requests = supply_request ∷ borrow_request ∷ []

abbrev submitted : Ledger × Positions
submitted = returned (ledger, user_positions) (execute_submit (host 0) ledger 7 7 7 requests false)

execute_submit_example : IsSubmitted (host 0) ledger 7 requests (submitted.0) (submitted.1)
unfolding execute_submit Pool.load build_actions_from_request apply_requests apply_request
    Pool.require_action_allowed request_type_from_u32 apply_supply Pool.load_reserve Reserve.load
    pow10 check Reserve.require_reserve_action_allowed Reserve.to_b_token_down add_supply ◌+ℤ◌
    update_b_emissions update_emissions update_emission_data Reserve.mint_supply
    Reserve.total_supply Reserve.to_asset_from_b_token apply_borrow Reserve.to_d_token_up
    add_liabilities update_d_emissions Reserve.require_utilization_below_100 Reserve.utilization
    Reserve.to_asset_from_d_token set validate_submit require_healthy check_utilizations
    require_under_max positions_hf_under calculate_from_positions load_price_decimals load_price
    is_hf_under as_health_factor Reserve.to_effective_asset_from_b_token
    Reserve.to_effective_asset_from_d_token Reserve.require_utilization_below_max handle_transfers
    call_token store_cached_reserves cache_reserve
execute_submit_example = execute_submit-IsSubmitted (host 0) ledger 7 7 7 requests false refl

both_permitted_example : ArePermitted 1 requests
unfolding execute_submit Pool.load build_actions_from_request apply_requests apply_request
    Pool.require_action_allowed request_type_from_u32 apply_supply Pool.load_reserve Reserve.load
    pow10 check Reserve.require_reserve_action_allowed Reserve.to_b_token_down add_supply ◌+ℤ◌
    update_b_emissions update_emissions update_emission_data Reserve.mint_supply
    Reserve.total_supply Reserve.to_asset_from_b_token apply_borrow Reserve.to_d_token_up
    add_liabilities update_d_emissions Reserve.require_utilization_below_100 Reserve.utilization
    Reserve.to_asset_from_d_token set validate_submit require_healthy check_utilizations
    require_under_max positions_hf_under calculate_from_positions load_price_decimals load_price
    is_hf_under as_health_factor Reserve.to_effective_asset_from_b_token
    Reserve.to_effective_asset_from_d_token Reserve.require_utilization_below_max handle_transfers
    call_token store_cached_reserves cache_reserve
both_permitted_example =
    execute_submit-ArePermitted (host 0) ledger pool_config 7 7 7 requests false refl refl

abbrev tx : Tx
tx = record { ledger = ledger; actions = no_actions; pool = pool; user = user }

abbrev after_supply : Tx × ℤ
after_supply = returned (tx, pos 0) (apply_supply (host 0) supply_request tx)

apply_supply_example : IsWithinCap (host 0) supply_request tx (after_supply.0) (after_supply.1)
unfolding apply_supply Pool.load_reserve Reserve.load pow10 check
    Reserve.require_reserve_action_allowed Reserve.to_b_token_down add_supply ◌+ℤ◌
    update_b_emissions update_emissions update_emission_data Reserve.mint_supply
    Reserve.total_supply Reserve.to_asset_from_b_token
apply_supply_example = apply_supply-IsWithinCap (host 0) supply_request tx refl

abbrev after_borrow : Tx × ℤ
after_borrow = returned (tx, pos 0) (apply_borrow (host 0) borrow_request tx)

apply_borrow_example : IsGuardedLoan (host 0) borrow_request tx (after_borrow.0) (after_borrow.1)
unfolding apply_borrow Pool.load_reserve Reserve.load pow10 check
    Reserve.require_reserve_action_allowed Reserve.to_d_token_up add_liabilities update_d_emissions
    update_emissions update_emission_data ◌+ℤ◌ Reserve.require_utilization_below_100
    Reserve.utilization Reserve.to_asset_from_d_token Reserve.to_asset_from_b_token set
apply_borrow_example =
    apply_borrow-IsGuardedLoan (host 0) borrow_request tx {minted = after_borrow.1} refl

priced_example :
    IsLoadedPrice
      (host 500)
      pool
      1
      (record pool { prices = (1, pos 2_0000000) ∷ [] })
      (pos 2_0000000)
unfolding load_price set
priced_example = load_price-IsLoadedPrice (host 500) pool 1 (record { positive = λ a p h. cc }) refl

abbrev owing : Actions
owing = record {
  spender_transfer = (1, pos 30) ∷ (2, pos 5) ∷ [];
  pool_transfer = (1, pos 12) ∷ [];
  check_health = false;
  check_max_util = [];
}

net_example : negsuc 17 ≡ pos 12 -ℤ pos 30
unfolding net_balances set check ◌-ℤ◌ ◌+ℤ◌ IsDistinct
net_example =
    net_balances-get (host 0) owing 1 {net = (1, negsuc 17) ∷ (2, negsuc 4) ∷ []} (refl, (refl, tt))
      (refl, tt) refl

threshold_example :
    not (ltb_ℤ (calc_pool_backstop_threshold backstop_data) scalar_7)
    ≡ is_pool_above_threshold backstop_data
threshold_example = calc_pool_backstop_threshold-is_pool_above_threshold backstop_data

abbrev with_status : ℕ → Ledger
with_status s = set_pool_config ledger (record pool_config { status = s })

update_example : IsUpdate (host 0) (with_status 0) (with_status 0) 0
unfolding execute_update_pool_status updated_status calc_pool_backstop_threshold
    threshold_from_product saturating_backstop_product saturating_mul quot_ℤ ◌*ℤ◌ ◌-ℤ◌
update_example = execute_update_pool_status-IsUpdate (host 0) (with_status 0) refl

set_example : IsAdminChange (host 0) ledger (with_status 2) 2
unfolding execute_set_pool_status admin_status
set_example = execute_set_pool_status-IsAdminChange (host 0) ledger 2 refl

status_calls_example : IsRunning pool_config ledger (with_status 4)
unfolding execute_set_pool_status admin_status
status_calls_example =
    StatusCalls-IsRunning pool_config refl (omega arith)
      (call (call done (StatusCall.set (host 0) 2 refl)) (StatusCall.set (host 9) 4 refl))

-- The reserve is disabled through the queue.
abbrev disabled : ReserveConfig
disabled = record config { enabled = false }

abbrev queued_ledger : Ledger
queued_ledger = returned ledger (execute_queue_set_reserve (host 0) ledger 1 disabled)

delay_example : 1_000_000 + 604_800 ≤ 1_700_000
unfolding execute_queue_set_reserve execute_set_reserve require_valid_reserve_metadata
    is_disable_only require_valid_reserve_metadata_changes initialize_reserve Pool.load
    Pool.load_reserve Reserve.load pow10 check Reserve.utilization Reserve.to_asset_from_d_token
    Reserve.to_asset_from_b_token calc_accrual current_interest ◌+ℤ◌ finish_accrual ◌-ℤ◌ quot_ℤ ◌*ℤ◌
    Reserve.accrue Reserve.grow_debt push_res_list
delay_example =
    queue-set_reserve-delay (host 0) (host 700_000) ledger 1 disabled queued_ledger
      {l₁ = queued_ledger} {config = pool_config} refl (λ x. omega arith) refl refl refl

abbrev carried_out : Ledger × ℕ
carried_out = returned (ledger, 9) (execute_set_reserve (host 700_000) queued_ledger 1)

unlocked_example : IsUnlocked (host 700_000) queued_ledger 1 (carried_out.0) (carried_out.1)
unfolding execute_queue_set_reserve execute_set_reserve require_valid_reserve_metadata
    is_disable_only require_valid_reserve_metadata_changes initialize_reserve Pool.load
    Pool.load_reserve Reserve.load pow10 check Reserve.utilization Reserve.to_asset_from_d_token
    Reserve.to_asset_from_b_token calc_accrual current_interest ◌+ℤ◌ finish_accrual ◌-ℤ◌ quot_ℤ ◌*ℤ◌
    Reserve.accrue Reserve.grow_debt push_res_list
unlocked_example = execute_set_reserve-IsUnlocked (host 700_000) queued_ledger 1 refl

timing_example :
    ((auction_timing_modifiers 250).0 ≤ (auction_timing_modifiers 100).0)
    × ((auction_timing_modifiers 100).1 ≤ (auction_timing_modifiers 250).1)
    × ((auction_timing_modifiers 100).0 ≤ 1_0000000)
    × ((auction_timing_modifiers 100).1 ≤ 1_0000000)
    × (((auction_timing_modifiers 100).0 ≡ 1_0000000)
        ⊎ ((auction_timing_modifiers 100).1 ≡ 1_0000000))
timing_example = auction_timing_modifiers-monotone 100 250 (omega arith)

partition_quote_example :
    IsPartition math math-IsFixedMath true (pos 1001) 0_2500000 (pos 251) (pos 750)
unfolding partition_quote check ◌-ℤ◌
partition_quote_example =
    partition_quote-IsPartition math math-IsFixedMath true (pos 1001) 0_2500000 refl (omega arith)
      refl

abbrev auction : AuctionData
auction = record { bid = (1, pos 1000) ∷ []; lot = (1, pos 1500) ∷ []; block = 200 }

abbrev filled : AuctionData × Option AuctionData
filled = returned (auction, some auction) (scale_auction (host 0) auction 100)

full_fill_example : filled.1 ≡ none
unfolding scale_auction partition_quote discount_quote check ◌-ℤ◌ set IsNonnegSide
    auction_timing_modifiers
full_fill_example = scale_auction-full (host 0) math-IsFixedMath auction (refl, tt) (refl, tt) refl

-- A loan of 20 tokens with a supply of 10 tokens.
abbrev flash_loan : FlashLoan
flash_loan = record { contract = 55; asset = 1; amount = pos 20_0000000 }

abbrev flash_submitted : Ledger × Positions
flash_submitted =
    returned (ledger, user_positions)
      (execute_submit_with_flash_loan (host 0) (λ loan l. true) ledger 7 flash_loan
        (supply_request ∷ []))

flash_loan_example :
    IsFlashSubmitted
      (host 0)
      (λ loan l. true)
      ledger
      7
      flash_loan
      (supply_request ∷ [])
      (flash_submitted.0)
      (flash_submitted.1)
unfolding execute_submit_with_flash_loan Pool.load build_actions_from_request apply_requests
    apply_request Pool.require_action_allowed request_type_from_u32 apply_supply Pool.load_reserve
    Reserve.load pow10 check Reserve.require_reserve_action_allowed Reserve.to_b_token_down
    add_supply ◌+ℤ◌ update_b_emissions update_emissions update_emission_data Reserve.mint_supply
    Reserve.total_supply Reserve.to_asset_from_b_token apply_borrow Reserve.to_d_token_up
    add_liabilities update_d_emissions Reserve.require_utilization_below_100 Reserve.utilization
    Reserve.to_asset_from_d_token set validate_submit require_healthy check_utilizations
    require_under_max positions_hf_under calculate_from_positions load_price_decimals load_price
    is_hf_under as_health_factor Reserve.to_effective_asset_from_b_token
    Reserve.to_effective_asset_from_d_token Reserve.require_utilization_below_max
    handle_transfer_with_allowance net_balances ◌-ℤ◌ call_token store_cached_reserves cache_reserve
flash_loan_example =
    execute_submit_with_flash_loan-IsFlashSubmitted (host 0) (λ loan l. true) ledger 7 flash_loan
      (supply_request ∷ []) refl
