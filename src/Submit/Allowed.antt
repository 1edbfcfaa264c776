-- ===== src/Submit/Allowed.antt =====
-- The pool's status decides which requests a transaction may hold: `execute_submit` of
-- pool/src/pool/submit.rs.
use blend_contracts_v.Prelude.{
  ◌==◌, >>=-elim, panic_if-elim, ok-injective, ok, ◌≡◌, sym, ap, ◌∙◌, subst, Bool, ◌||◌, some, List,
}
use blend_contracts_v.Env.{Env, Address}
use blend_contracts_v.Storage.{Ledger, PoolConfig, Positions, get_pool_config}
use blend_contracts_v.Actions.{Request, build_actions_from_request}
use blend_contracts_v.Actions.Allowed.{ArePermitted, apply_requests-ArePermitted}
use blend_contracts_v.Submit.{execute_submit}
use blend_contracts_v.Pool.{effective_count, Pool}
use blend_contracts_v.Pool
use blend_contracts_v.User

-- A submission returns only when the status that the stored configuration has at its start permits
-- every request: its amount is not negative, its type is one of the ten and not the fill of an
-- auction of bad debt or interest, above status 1 it neither borrows nor deletes a liquidation,
-- and above status 3 it does not supply.
pub execute_submit-ArePermitted :
    (e : Env) (l : Ledger) (c : PoolConfig) (from spender to : Address) (requests : List Request)
    (use_allowance : Bool) {result : Ledger × Positions}
    → l.pool_config ≡ some c
    → execute_submit e l from spender to requests use_allowance ≡ ok result
    → ArePermitted c.status requests
unfolding execute_submit Pool.load build_actions_from_request
execute_submit-ArePermitted e l c from spender to requests use_allowance stored h =
    panic_if-elim
      (from == e.current_contract_address
        || spender == e.current_contract_address
        || to == e.current_contract_address)
      _ _ h
      λ others h1. >>=-elim (Pool.load l) _ h1 λ pool e1 h2.
        >>=-elim (effective_count (User.load l from).positions) _ h2 λ count e2 h3.
          >>=-elim (build_actions_from_request e l pool (User.load l from) requests) _ h3 λ t e3 h4.
            >>=-elim (get_pool_config l) _ e1 λ config e4 h5.
              subst (λ (x : PoolConfig). ArePermitted x.status requests)
                (ap (λ (x : Pool). x.config) (sym (ok-injective h5))
                  ∙ sym (ok-injective (rw (stored, get_pool_config) at e4)))
                (apply_requests-ArePermitted e requests _ e3)
