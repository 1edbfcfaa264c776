-- ===== src/Tests/Reserves.antt =====
-- The theorems on rates, conversions and interest at concrete inputs.
use blend_contracts_v.Reserve
use blend_contracts_v.Reserve.Accrual.{IsAccrued, accrue-IsAccrued}
use blend_contracts_v.Interest.Bounds.{IsAccrual, calc_accrual-IsAccrual}
use blend_contracts_v.Prelude.{check, ℤ, quot_ℤ, pos, ◌≡◌, refl, arith, ◌+ℤ◌, ◌-ℤ◌, ◌*ℤ◌}
use blend_contracts_v.Reserve.{
  to_b_token_down, to_d_token_down, to_asset_from_d_token, grow_debt, accrue, Reserve,
  to_asset_from_b_token, to_d_token_up, to_b_token_up, utilization, total_liabilities, total_supply,
  require_utilization_below_max,
}
use blend_contracts_v.Storage.{ReserveData}
use blend_contracts_v.Tests.Setup.{
  returned, reserve_data, host, reserve, math, config, ledger, math-IsFixedMath, pool_config,
  reserve_data-IsNonneg, reserve_data-IsSound,
}
use blend_contracts_v.Interest.{calc_accrual, current_interest, finish_accrual}
use blend_contracts_v.Reserve.Rounding.{IsUtilization, utilization-IsUtilization}
use blend_contracts_v.Env.{pow10}
use blend_contracts_v.Reserve.Load.{IsRefreshed, load-IsRefreshed}

utilization_example : IsUtilization (pos 550_0000000) (pos 1_050_0000000) (pos 5238096)
unfolding to_asset_from_d_token to_asset_from_b_token utilization check
utilization_example =
    utilization-IsUtilization math math-IsFixedMath reserve_data reserve_data-IsNonneg refl refl
      refl

-- One percent of interest.
abbrev grown : ReserveData
grown = record reserve_data { d_rate = pos 1_111_000_000_000 }

-- Interest of 5.5 tokens, a tenth of it for the backstop.
abbrev accrued : ReserveData
accrued = record reserve_data { b_rate = pos 1_054_950_000_000; backstop_credit = pos 0_5500000 }

accrue_example :
    IsAccrued math math-IsFixedMath reserve_data reserve_data-IsNonneg 0_1000000
      (pos 5_5000000)
      refl
      (omega arith)
      accrued
unfolding accrue to_asset_from_b_token check ◌+ℤ◌ ◌-ℤ◌
accrue_example =
    accrue-IsAccrued math math-IsFixedMath reserve_data reserve_data-IsNonneg 0_1000000
      (pos 5_5000000) refl (omega arith) refl

abbrev accrual : ℤ × ℤ
accrual =
    returned (pos 0, pos 0)
      (calc_accrual (host 86_400) config (pos 8000000) (pos 1_0000000) 1_000_000)

calc_accrual_example :
    IsAccrual math math-IsFixedMath config (pos 8000000) (pos 1_0000000) (accrual.0) (accrual.1)
unfolding calc_accrual current_interest finish_accrual check ◌+ℤ◌ ◌-ℤ◌ ◌*ℤ◌ quot_ℤ
calc_accrual_example =
    calc_accrual-IsAccrual (host 86_400) math-IsFixedMath config (pos 8000000) (pos 1_0000000)
      1_000_000 (omega arith) refl (refl, omega arith, omega arith) refl

-- A day later.
abbrev loaded : Reserve
loaded = returned reserve (Reserve.load (host 86_400) ledger pool_config 1)

load_example :
    IsRefreshed (host 86_400) reserve_data loaded.state
    × (loaded.config ≡ config)
    × (loaded.asset ≡ 1)
unfolding Reserve.load calc_accrual current_interest finish_accrual check ◌+ℤ◌ ◌-ℤ◌ ◌*ℤ◌ quot_ℤ
    pow10 utilization grow_debt accrue to_asset_from_b_token to_asset_from_d_token
load_example =
    load-IsRefreshed (host 86_400) math-IsFixedMath pool_config (omega arith) ledger 1 config
      reserve_data refl refl (omega arith) reserve_data-IsSound refl
