-- ===== src/Backstop/Contract.antt =====
-- The entry points of the backstop, backstop/src/contract.rs. Whose authorization each asks for is
-- an argument; the events are left out. This version refuses the calls of the emissions.
use blend_contracts_v.Prelude.{
  BackstopError, Result, panic_if, ◌>>=◌, ◌>>◌, ◌+!◌, backstop_error, trap, err, ok, ℤ, ltb_ℤ, pos,
  Bool, not, Option, List, [], ◌∷◌,
}
use blend_contracts_v.Env.{Address}
use blend_contracts_v.Backstop.Ledger.{
  BackstopEnv, BackstopLedger, set_blnd_token, set_backstop_token, set_pool_factory, set_usdc_token,
  set_emitter, set_drop_list,
}
use blend_contracts_v.Backstop.Calls.{
  execute_deposit, execute_queue_withdrawal, execute_dequeue_withdrawal, execute_withdraw,
  execute_draw, execute_donate,
}
use blend_contracts_v.Backstop.Distribution.{max_backfilled_emissions}

sum_drops : List (Address × ℤ) → ℤ → Result ℤ
sum_drops [] total = ok total
sum_drops ((_, amount) ∷ drops) total = do total₁ ← total +! amount; sum_drops drops total₁

-- `__constructor`
unfoldable pub backstop_constructor :
    BackstopLedger
    → Address
    → Address
    → Address
    → Address
    → Address
    → List (Address × ℤ)
    → Result BackstopLedger
unfolding sum_drops
backstop_constructor l backstop_token emitter blnd_token usdc_token pool_factory drop_list = do
  let l₁ = set_blnd_token (set_backstop_token l backstop_token) blnd_token
  let l₂ = set_pool_factory (set_usdc_token l₁ usdc_token) pool_factory
  drop_total ← sum_drops drop_list (pos 0)
  with_backfill ← drop_total +! max_backfilled_emissions
  panic_if (ltb_ℤ (pos 50_000_000_0000000) with_backfill) (backstop_error BackstopError.bad_request)
  ok (set_emitter (set_drop_list l₂ drop_list) emitter)

-- A message to the contract.
pub data BackstopMessage : Type 0 where
  deposit_msg queue_msg dequeue_msg withdraw_msg : Address → Address → ℤ → BackstopMessage
  draw_msg : Address → ℤ → Address → BackstopMessage
  donate_msg : Address → Address → ℤ → BackstopMessage
  distribute_msg drop_msg : BackstopMessage
  gulp_msg remove_reward_msg : Address → BackstopMessage
  add_reward_msg : Address → Option Address → BackstopMessage
  claim_msg : Address → List Address → ℤ → BackstopMessage

-- `require_auth`: an address that the transaction has authorized.
abbrev pub require_auth : (Address → Bool) → Address → Result (Unit {0})
require_auth auth a = panic_if (not (auth a)) trap

abbrev pub refused : Result BackstopLedger
refused = err (backstop_error BackstopError.bad_request)

unfoldable pub handle :
    BackstopEnv → (Address → Bool) → BackstopLedger → BackstopMessage → Result BackstopLedger
handle e auth l (deposit_msg from pool amount) = do
  require_auth auth from
  (l', to_mint) ← execute_deposit e l from pool amount
  ok l'
handle e auth l (queue_msg from pool amount) = do
  require_auth auth from
  (l', to_queue) ← execute_queue_withdrawal e l from pool amount
  ok l'
handle e auth l (dequeue_msg from pool amount) = do
  require_auth auth from
  execute_dequeue_withdrawal e l from pool amount
handle e auth l (withdraw_msg from pool amount) = do
  require_auth auth from
  (l', to_withdraw) ← execute_withdraw e l from pool amount
  ok l'
handle e auth l (draw_msg pool amount to) = do
  require_auth auth pool
  execute_draw e l pool amount to
handle e auth l (donate_msg from pool amount) = do
  require_auth auth from
  require_auth auth pool
  execute_donate e l from pool amount
handle e auth l distribute_msg = refused
handle e auth l drop_msg = refused
handle e auth l (gulp_msg pool) = refused
handle e auth l (remove_reward_msg pool) = refused
handle e auth l (add_reward_msg to_add to_remove) = refused
handle e auth l (claim_msg from pools min_out) = refused
