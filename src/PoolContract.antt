-- ===== src/PoolContract.antt =====
-- The entry points of the pool, pool/src/contract.rs, and the proposed admin of pool/src/storage.rs.
-- Whose authorization a message has is an argument; events and the getters are left out.
pub mod Admin
use Prim.Native.String.{String}
use blend_contracts_v.Prelude.{
  ℕ, ltb, ◌==◌, if◌then◌else◌, PoolError, Result, or_panic, ◌>>=◌, ◌>>◌, add_u, pool_error, err, ok,
  ℤ, Bool, true, false, Option, none, some, List,
}
use blend_contracts_v.Env.{Address, Env}
use blend_contracts_v.Storage.{ReserveConfig, Ledger, get_admin, set_admin}
use blend_contracts_v.Liquidation.{create_auction}
use blend_contracts_v.Actions.{Request}
use blend_contracts_v.Backstop.Contract.{require_auth}
use blend_contracts_v.EmissionManager.{ReserveEmissionMetadata, gulp_emissions, execute_claim}
use blend_contracts_v.Config.{
  execute_initialize, execute_queue_set_reserve, execute_cancel_queued_set_reserve,
  execute_set_reserve,
}
use blend_contracts_v.Submit.{execute_submit}
use blend_contracts_v.Status.{execute_update_pool_status, execute_set_pool_status}
use blend_contracts_v.BadDebt.{execute_gulp, bad_debt}
use blend_contracts_v.Auction.{delete_stale_auction}

-- Ten days of ledgers, five seconds each.
abbrev pub proposal_ledgers : ℕ
proposal_ledgers = 172_800

unfoldable pub get_proposed_admin : Env → Ledger → Option Address
get_proposed_admin e l = elim l.proposed_admin [
  | none ↦ none
  | some proposal ↦ if ltb proposal.1 e.sequence then none else some proposal.0
]

unfoldable pub set_proposed_admin : Env → Ledger → Address → Result Ledger
set_proposed_admin e l proposed_admin = do
  expiry_ledger ← add_u 32 e.sequence proposal_ledgers
  ok (record l { proposed_admin = some (proposed_admin, expiry_ledger) })

-- `__constructor`
unfoldable pub pool_constructor :
    (Address → Bool)
    → Ledger
    → Address
    → String
    → Address
    → ℕ
    → ℕ
    → ℤ
    → Address
    → Address
    → Result Ledger
pool_constructor auth l admin name oracle bstop_rate max_positions min_collateral backstop_id
      blnd_id =
    require_auth auth admin
    >> execute_initialize l admin name oracle bstop_rate max_positions min_collateral backstop_id
        blnd_id

-- A message that may change the pool's ledger.
pub data PoolMessage : Type 0 where
  propose_admin : Address → PoolMessage
  accept_admin update_status gulp_emissions_msg : PoolMessage
  update_pool : ℕ → ℕ → ℤ → PoolMessage
  queue_set_reserve : Address → ReserveConfig → PoolMessage
  cancel_set_reserve set_reserve gulp bad_debt_msg : Address → PoolMessage
  submit submit_with_allowance : Address → Address → Address → List Request → PoolMessage
  flash_loan : Address → List Request → PoolMessage
  set_status : ℕ → PoolMessage
  set_emissions_config : List ReserveEmissionMetadata → PoolMessage
  claim : Address → List ℕ → Address → PoolMessage
  new_auction : ℕ → Address → List Address → List Address → ℕ → PoolMessage
  del_auction_msg : ℕ → Address → PoolMessage

module _ (e : Env) (auth : Address → Bool) (l : Ledger) where
  pub admin_only : Result (Unit {0})
  admin_only = do admin ← get_admin l; require_auth auth admin

  -- The spender's word, and the sender's if that is another.
  submit_auth : Address → Address → Result (Unit {0})
  submit_auth from spender = do
    require_auth auth spender
    if from == spender then ok tt else require_auth auth from

  refused_call : Result Ledger
  refused_call = err (pool_error PoolError.bad_request)

  unfoldable pub handle_pool : PoolMessage → Result Ledger
  unfolding admin_only submit_auth refused_call
  handle_pool (propose_admin new_admin) = do admin_only; set_proposed_admin e l new_admin
  handle_pool accept_admin = do
    proposed_admin ← or_panic (get_proposed_admin e l) (pool_error PoolError.bad_request)
    require_auth auth proposed_admin
    cur_admin ← get_admin l
    ok (set_admin l proposed_admin)
  handle_pool (update_pool rate max_positions min_collateral) = refused_call
  handle_pool (queue_set_reserve asset metadata) = do
    admin_only
    execute_queue_set_reserve e l asset metadata
  handle_pool (cancel_set_reserve asset) = do
    admin_only
    ok (execute_cancel_queued_set_reserve l asset)
  handle_pool (set_reserve asset) = do (l', index) ← execute_set_reserve e l asset; ok l'
  handle_pool (submit from spender to requests) = do
    submit_auth from spender
    (l', positions) ← execute_submit e l from spender to requests false
    ok l'
  handle_pool (submit_with_allowance from spender to requests) = do
    submit_auth from spender
    (l', positions) ← execute_submit e l from spender to requests true
    ok l'
  handle_pool (flash_loan from requests) = refused_call
  handle_pool update_status = do (l', status) ← execute_update_pool_status e l; ok l'
  handle_pool (set_status status) = do admin_only; execute_set_pool_status e l status
  handle_pool (gulp asset) = do (l', delta) ← execute_gulp e l asset; ok l'
  handle_pool gulp_emissions_msg = do (l', emissions) ← gulp_emissions e l; ok l'
  handle_pool (set_emissions_config metadata) = refused_call
  handle_pool (claim from ids to) = do
    require_auth auth from
    (l', claimed) ← execute_claim e l from ids to
    ok l'
  handle_pool (new_auction auction_type user bid lot percent) = do
    (l', auction_data) ← create_auction e l auction_type user bid lot percent
    ok l'
  handle_pool (del_auction_msg auction_type user) = delete_stale_auction e l auction_type user
  handle_pool (bad_debt_msg user) = bad_debt e l user
