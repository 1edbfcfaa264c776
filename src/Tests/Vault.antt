-- ===== src/Tests/Vault.antt =====
-- A small backstop: one pool, two depositors, and plain fixed-point arithmetic.
use blend_contracts_v.Prelude.{
  ℕ, ◌==◌, Result, trap, err, ℤ, pos, negsuc, ◌+◌, refl, true, none, some, [], ◌∷◌, ◌+ℤ◌, ◌>>=◌,
  check, ok, ◌≤ℤ◌, ◌*◌, ◌≤◌, ◌≡◌, ◌↔◌, ◌++◌, arith, ◌-ℤ◌,
}
use blend_contracts_v.Env.{SorobanFixedPoint, FixedMath}
use blend_contracts_v.Backstop.Ledger.{BackstopEnv, BackstopLedger, call_contract}
use blend_contracts_v.Backstop.Price.{
  plain_quotient_floor, IsPlainMath, deposit-IsFair, withdraw-IsFair,
}
use blend_contracts_v.Tests.Setup.{mul_ceil, returned}
use blend_contracts_v.Storage.{env_default}
use blend_contracts_v.Backstop.Sheet.{sum_over, distinct}
use blend_contracts_v.Backstop.Contract.{handle, deposit_msg, queue_msg}
use blend_contracts_v.Backstop.Messages.{
  Messages, then_message, none_left, IsBalanced, is_from, Messages-IsBalanced,
}
use blend_contracts_v.Backstop.Queue.{queued, IsAtLeast, expired}
use blend_contracts_v.Backstop.{
  UserBalance, PoolBalance, queue_shares_for_withdrawal, convert_to_shares, convert_to_tokens,
  queue_for_withdraw, withdraw_shares, deposit, withdraw_balance, dequeue_shares, add_shares,
  require_is_from_pool_factory, dequeue_balance,
}
use blend_contracts_v.Backstop.Calls.{execute_deposit, execute_queue_withdrawal, from_factory}
use blend_contracts_v.Backstop.Access.{withdraw_shares-succeeds}
use blend_contracts_v.User.{require_nonnegative}
use blend_contracts_v.Backstop.Rewards.{update_rewards, update_backstop_data}
use blend_contracts_v.Backstop.Undo.{queue-dequeue}

abbrev pub plain_floor : ℤ → ℤ → ℤ → Result ℤ
plain_floor (pos x) (pos y) (pos d) = plain_quotient_floor x y d
plain_floor (pos x) (pos y) (negsuc d) = err trap
plain_floor (pos x) (negsuc y) d = err trap
plain_floor (negsuc x) y d = err trap

abbrev pub plain_point : SorobanFixedPoint
plain_point = record {
  fixed_mul_floor = plain_floor;
  fixed_mul_ceil = mul_ceil;
  fixed_div_floor = λ x y d. plain_floor x d y;
  fixed_div_ceil = λ x y d. mul_ceil x d y;
}

abbrev pub plain : FixedMath
plain = record { floor = plain_floor; ceil = mul_ceil }

pub plain-IsPlainMath : IsPlainMath plain
plain-IsPlainMath = record { floor_nonneg = λ x y d. refl }

abbrev pub vault_host : ℕ → BackstopEnv
vault_host seconds = record {
  timestamp = 1_000_000 + seconds;
  sequence = 300;
  current_contract_address = 50;
  fixed_point = plain_point;
  get_total_supply = λ _. pos 1_000_000_0000000;
  get_balance = λ _ _. pos 4_000_000_0000000;
  is_pool = λ _ pool. pool == 7;
  get_positions = λ _ _. env_default;
  try_get_last_distro = λ _ _. some 1_000_000;
  allowance = λ _ _ _ _. pos 0;
  accepts = λ _ _. true;
  lp_tokns_out = λ _ _. pos 0;
}

abbrev pub new_vault : BackstopLedger
new_vault = record {
  emitter = some 40;
  pool_factory = some 41;
  blnd_token = some 42;
  usdc_token = some 43;
  backstop_token = some 44;
  user_balances = λ _ _. none;
  pool_balances = λ _. none;
  last_distribution_time = none;
  reward_zone = none;
  backfill_emissions = none;
  backfill_status = none;
  rz_emis = λ _. none;
  emis_data = λ _. none;
  user_emis_data = λ _ _. none;
  drop_list = some [];
  calls = [];
}

new_vault-IsBalanced : IsBalanced (1 ∷ 2 ∷ []) new_vault
unfolding sum_over queued IsAtLeast ◌+ℤ◌
new_vault-IsBalanced pool = record {
  shares = refl;
  q4w = refl;
  tokens = refl;
  well = λ u. record { shares = refl; q4w = tt };
}

after_deposit : BackstopLedger
after_deposit =
    returned new_vault (handle (vault_host 0) (λ a. a == 1) new_vault (deposit_msg 1 7 (pos 100)))

after_queue : BackstopLedger
after_queue =
    returned new_vault (handle (vault_host 10) (λ a. a == 1) after_deposit (queue_msg 1 7 (pos 30)))

deposited_and_queued : Messages (1 ∷ 2 ∷ []) new_vault after_queue
unfolding handle is_from after_deposit after_queue execute_deposit execute_queue_withdrawal
    require_nonnegative from_factory require_is_from_pool_factory update_rewards
    update_backstop_data call_contract convert_to_shares deposit add_shares
    queue_shares_for_withdrawal queue_for_withdraw check ◌+ℤ◌ ◌-ℤ◌
deposited_and_queued =
    then_message {l = new_vault} {l₁ = after_deposit} (vault_host 0) (λ a. a == 1)
      (deposit_msg 1 7 (pos 100)) refl refl
      (then_message {l = after_deposit} {l₁ = after_queue} (vault_host 10) (λ a. a == 1)
        (queue_msg 1 7 (pos 30)) refl refl none_left)

messages_example : IsBalanced (1 ∷ 2 ∷ []) after_queue
unfolding distinct
messages_example = Messages-IsBalanced (1 ∷ 2 ∷ []) refl deposited_and_queued new_vault-IsBalanced

abbrev depositor : UserBalance
depositor = record {
  shares = pos 70;
  q4w = record { amount = pos 10; exp = 1000 } ∷ record { amount = pos 20; exp = 9000 } ∷ [];
}

abbrev vault : PoolBalance
vault = record { shares = pos 100; tokens = pos 150; q4w = pos 30 }

undo_example :
    ((dequeue_shares
          (record {
            shares = pos 45;
            q4w = depositor.q4w ++ (record { amount = pos 25; exp = 1_473_800 } ∷ []);
          })
          (pos 25)
        >>= λ taken. add_shares taken (pos 25))
      ≡ ok depositor)
    × (dequeue_balance (record vault { q4w = pos 55 }) (pos 25) ≡ ok vault)
unfolding queue_shares_for_withdrawal queue_for_withdraw check ◌+ℤ◌ ◌-ℤ◌
undo_example = queue-dequeue 5000 depositor (pos 25) vault refl refl refl refl refl

access_example : ((u' : UserBalance) × (withdraw_shares 2000 depositor (pos 8) ≡ ok u')) ↔ (8 ≤ 10)
unfolding IsAtLeast queued expired ◌+ℤ◌
access_example =
    withdraw_shares-succeeds 2000 depositor (pos 8) (omega arith, (omega arith, tt)) (omega arith)
      (omega arith) (omega arith)

fair_deposit_example : (150 * 106 ≤ 160 * 100) × (pos 9 ≤ℤ pos 10)
unfolding convert_to_shares convert_to_tokens deposit check ◌+ℤ◌
fair_deposit_example =
    deposit-IsFair plain plain-IsPlainMath vault (pos 10)
      {b' = record { shares = pos 106; tokens = pos 160; q4w = pos 30 }} (omega arith) refl refl
      refl refl refl refl

fair_withdrawal_example : (150 * 79 ≤ 119 * 100) × (31 * 100 ≤ 21 * 150)
unfolding convert_to_tokens withdraw_balance check ◌-ℤ◌
fair_withdrawal_example =
    withdraw-IsFair plain plain-IsPlainMath vault (pos 21)
      {b' = record { shares = pos 79; tokens = pos 119; q4w = pos 9 }} refl refl refl refl refl
