-- ===== src/Tests/Users.antt =====
-- The theorems on positions, withdrawals, repayments and bad debt at concrete inputs.
use blend_contracts_v.Backstop.Dequeue.{
  IsDequeued, IsEntered, queue_shares_for_withdrawal-IsEntered, dequeue_shares-IsDequeued,
}
use blend_contracts_v.Actions.Plans.{
  IsWithdrawal, IsRepayment, plan_withdraw-IsWithdrawal, plan_repay-IsRepayment,
}
use blend_contracts_v.BadDebt.Setoff.{IsSetoff, supply_setoff-IsSetoff}
use blend_contracts_v.Prelude.Map.{set}
use blend_contracts_v.Prelude.{check, pos, ◌≡◌, refl, ◌↔◌, true, [], ◌∷◌, arith, ◌-ℤ◌, ◌+ℤ◌}
use blend_contracts_v.Actions.{plan_withdraw, plan_repay}
use blend_contracts_v.BadDebt.{supply_setoff}
use blend_contracts_v.User.{
  default_b_rate, add_supply, User, add_liabilities, update_b_emissions, update_d_emissions,
}
use blend_contracts_v.Health.{PositionData, is_hf_under, as_health_factor}
use blend_contracts_v.Storage.{Ledger}
use blend_contracts_v.Backstop.{
  UserBalance, withdraw_shares, take_front, dequeue_shares, queue_shares_for_withdrawal,
  take_newest,
}
use blend_contracts_v.Reserve.{
  to_asset_from_b_token, to_asset_from_d_token, to_b_token_up, to_d_token_down, Reserve,
  mint_supply,
}
use blend_contracts_v.Env.{scalar_7}
use blend_contracts_v.Health.Factor.{RatioUnder, is_hf_under-exact}
use blend_contracts_v.User.Default.{IsDefaultRate, default_b_rate-IsDefaultRate}
use blend_contracts_v.Tests.Setup.{
  returned, reserve_data, math, ledger, math-IsFixedMath, user, reserve_data-IsNonneg, reserve,
  host,
}
use blend_contracts_v.Backstop.Queue.{IsAtLeast, IsWithdrawn, withdraw_shares-IsWithdrawn}
use blend_contracts_v.Emissions.{update_emissions, update_emission_data}
use blend_contracts_v.User.Balance.{
  IsBalanced, PositionChanges-IsBalanced, then_change, none_made, supplied, borrowed,
}

plan_withdraw_example :
    IsWithdrawal math math-IsFixedMath reserve_data reserve_data-IsNonneg
      (pos 1000)
      (pos 5000)
      (pos 1000)
      (pos 953)
unfolding plan_withdraw to_asset_from_b_token to_b_token_up check
plan_withdraw_example =
    plan_withdraw-IsWithdrawal math math-IsFixedMath reserve_data reserve_data-IsNonneg (pos 1000)
      (pos 5000) refl refl refl

-- More is paid than the debt of 500 d tokens is worth.
plan_repay_example :
    IsRepayment math math-IsFixedMath reserve_data reserve_data-IsNonneg
      (pos 1000)
      (pos 500)
      (pos 550)
      (pos 500)
      (pos 450)
unfolding plan_repay to_asset_from_d_token to_d_token_down check ◌-ℤ◌
plan_repay_example =
    plan_repay-IsRepayment math math-IsFixedMath reserve_data reserve_data-IsNonneg (pos 1000)
      (pos 500) refl refl {capped = true} refl

supply_setoff_example :
    IsSetoff math math-IsFixedMath reserve_data reserve_data-IsNonneg
      (pos 1000)
      (pos 500)
      (record { burn = pos 500; repaid = pos 477; residual = pos 523 })
unfolding supply_setoff to_asset_from_b_token to_b_token_up to_asset_from_d_token to_d_token_down
    check ◌-ℤ◌
supply_setoff_example =
    supply_setoff-IsSetoff math math-IsFixedMath reserve_data reserve_data-IsNonneg (pos 1000)
      (pos 500) refl refl refl

default_b_rate_example : IsDefaultRate reserve_data (pos 110_0000000) (pos 940_000_000_000)
unfolding default_b_rate to_asset_from_d_token check ◌-ℤ◌
default_b_rate_example =
    default_b_rate-IsDefaultRate math math-IsFixedMath reserve_data reserve_data-IsNonneg
      (pos 100_0000000) refl refl refl

abbrev values : PositionData
values = record {
  collateral_base = pos 100_0000000;
  collateral_raw = pos 110_0000000;
  liability_base = pos 99_9999000;
  liability_raw = pos 90_0000000;
  scalar = scalar_7;
}

under_example : (true ≡ true) ↔ RatioUnder values 1_0000100
unfolding is_hf_under as_health_factor check
under_example =
    is_hf_under-exact math math-IsFixedMath values
      (record { collateral = refl; liability = refl; scale = refl }) 1_0000100 refl

-- Ten b tokens more as supply, then five d tokens more.
abbrev after_supply : Ledger × User × Reserve
after_supply =
    returned (ledger, user, reserve) (add_supply (host 0) ledger user reserve (pos 10_0000000))

abbrev after_borrow : Ledger × User × Reserve
after_borrow =
    returned (ledger, user, reserve)
      (add_liabilities (host 0) (after_supply.0) (after_supply.1) (after_supply.2) (pos 5_0000000))

balance_example : IsBalanced user reserve (after_borrow.1) (after_borrow.2)
unfolding add_supply add_liabilities update_b_emissions update_d_emissions update_emissions
    update_emission_data mint_supply check ◌+ℤ◌ set
balance_example = PositionChanges-IsBalanced (
    then_change (host 0)
      (then_change (host 0) none_made (supplied ledger (after_supply.0) (pos 10_0000000) refl))
      (borrowed (after_supply.0) (after_borrow.0) (pos 5_0000000) refl))

abbrev balance : UserBalance
balance = record {
  shares = pos 70;
  q4w =
      record { amount = pos 10; exp = 1000 }
      ∷ record { amount = pos 20; exp = 2000 }
      ∷ record { amount = pos 5; exp = 9000 }
      ∷ [];
}

withdrawn_example : IsWithdrawn 1 3000 balance (pos 25) (record {
  shares = pos 70;
  q4w = record { amount = pos 5; exp = 2000 } ∷ record { amount = pos 5; exp = 9000 } ∷ [];
})
unfolding withdraw_shares take_front check ◌-ℤ◌ IsAtLeast
withdrawn_example =
    withdraw_shares-IsWithdrawn 1 3000 balance (pos 25) (omega arith)
      (omega arith, (omega arith, (omega arith, tt))) refl refl

dequeue_shares_example : IsDequeued 1 balance (pos 8) (record {
  shares = pos 70;
  q4w = record { amount = pos 10; exp = 1000 } ∷ record { amount = pos 17; exp = 2000 } ∷ [];
})
unfolding dequeue_shares take_newest check ◌-ℤ◌ IsAtLeast
dequeue_shares_example =
    dequeue_shares-IsDequeued 1 balance (pos 8) (omega arith)
      (omega arith, (omega arith, (omega arith, tt))) refl refl

queue_shares_example :
    IsEntered 5000
      (record { shares = pos 70; q4w = [] })
      (pos 30)
      (record { shares = pos 40; q4w = record { amount = pos 30; exp = 1_473_800 } ∷ [] })
unfolding queue_shares_for_withdrawal check ◌-ℤ◌
queue_shares_example =
    queue_shares_for_withdrawal-IsEntered 5000 (record { shares = pos 70; q4w = [] }) (pos 30) refl
