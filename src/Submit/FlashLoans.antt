-- ===== src/Submit/FlashLoans.antt =====
-- What holds when a transaction with a flash loan passes: `execute_submit_with_flash_loan` of
-- pool/src/pool/submit.rs.
use blend_contracts_v.Pool
use blend_contracts_v.User
use blend_contracts_v.Submit.{
  borrow_flash_loan, execute_submit_with_flash_loan, FlashLoan, validate_submit,
  handle_transfer_with_allowance,
}
use blend_contracts_v.Pool.Faithful.{
  IsFaithful, IsSourced, load-IsSourced, ◌after◌, same, cache_reserve-IsFaithful,
  load_reserve-IsFaithful,
}
use blend_contracts_v.Actions.Faithful.{build_actions_from_request-IsFaithful}
use blend_contracts_v.Reserve.{
  to_d_token_up, require_reserve_action_allowed, require_utilization_below_100,
}
use blend_contracts_v.Submit.Health.{
  IsValidated-IsSourced, IsValidated, validate_submit-IsValidated, stored_positions,
}
use blend_contracts_v.Prelude.{
  ap, sym, ℕ, ◌==◌, >>=-elim, panic_if-elim, ok-injective, ok, ◌≡◌, refl, subst, Bool, true, not,
  List, arith,
}
use blend_contracts_v.Env.{env_math, Env, Address, TokenCall}
use blend_contracts_v.Storage.{Ledger, Positions, get_user_positions, call_token}
use blend_contracts_v.Actions.{Request, Tx, build_actions_from_request, do_check_max_util}
use blend_contracts_v.Pool.{
  require_action_allowed, load_reserve, Pool, effective_count, contains, store_cached_reserves,
}
use blend_contracts_v.User.{User, add_liabilities}
use blend_contracts_v.Actions.Checks.{do_check_max_util-contains, do_check_max_util-keeps}

-- The loan is a debt of the sender before the requests run; the sender's health is always checked,
-- and so is the utilization of the loan's asset; the receiver is called once the loan is paid out.
pub record IsFlashSubmitted (e : Env) (received : FlashLoan → Ledger → Bool) (l : Ledger)
    (from : Address) (loan : FlashLoan) (requests : List Request) (l' : Ledger)
    (positions : Positions) : Type 0 where
  pub owed_ledger : Ledger
  pub owed_pool : Pool
  pub owing : User
  pub pool : Pool
  pub loaded : Pool.load l ≡ ok pool
  pub borrowed :
      borrow_flash_loan e l pool (User.load l from) loan ≡ ok (owed_ledger, owed_pool, owing)
  pub tx : Tx
  pub built : build_actions_from_request e owed_ledger owed_pool owing requests ≡ ok tx
  pub prev : ℕ
  pub is_prev : effective_count (get_user_positions l from) ≡ ok prev
  pub checked : List Address
  pub loan_checked : contains checked loan.asset ≡ true
  pub all_checked :
      (asset : Address)
      → contains tx.actions.check_max_util asset ≡ true
      → contains checked asset ≡ true
  pub validated : IsValidated e tx.ledger tx.pool tx.user prev true checked
  pub sourced : IsSourced e (validated.checked_pool)
  pub paid : Ledger
  pub is_paid :
      call_token e tx.ledger
        (TokenCall.transfer loan.asset e.current_contract_address loan.contract loan.amount)
      ≡ ok paid
  pub was_received : received loan paid ≡ true
  pub returned_positions : positions ≡ tx.user.positions
  pub stored : get_user_positions l' tx.user.address ≡ positions

borrow_flash_loan-IsFaithful :
    (e : Env) (l : Ledger) (pool : Pool) (u : User) (loan : FlashLoan) {l' : Ledger} {pool' : Pool}
    {u' : User}
    → borrow_flash_loan e l pool u loan ≡ ok (l', pool', u')
    → IsFaithful e pool pool'
unfolding borrow_flash_loan
borrow_flash_loan-IsFaithful e l pool u loan h =
    >>=-elim (require_action_allowed pool 4) _ h λ _ e1 h1.
      >>=-elim (load_reserve e l pool loan.asset true) _ h1 λ (noted, reserve) e2 h2.
        >>=-elim (to_d_token_up (env_math e) reserve.state loan.amount) _ h2 λ minted e3 h3.
          >>=-elim (add_liabilities e l u reserve minted) _ h3 λ (l₁, u₁, r₁) e4 h4.
            >>=-elim (require_reserve_action_allowed r₁ 4) _ h4 λ _ e5 h5.
              >>=-elim (require_utilization_below_100 e r₁) _ h5 λ _ e6 h6.
                same e (ap (λ (x : Ledger × Pool × User). x.1) (sym (ok-injective h6)))
                after cache_reserve-IsFaithful e noted r₁
                after load_reserve-IsFaithful e l pool loan.asset true e2

-- Where `execute_submit_with_flash_loan` returns, the loan became a debt of the sender before the
-- requests ran; the last checks passed with the health check on, for a list of assets that has the
-- loan's and all that the requests noted, each of which was loaded from the pool of the
-- transaction with a utilization of at most its maximum; the sender, if anything is owed, was
-- healthy as valued with the pool that these loads left, whose prices are all positive, from the
-- pool's oracle and at most a day old; the loan was paid out and the receiver's call returned
-- after that; and the positions that were checked are the ones stored and returned.
pub execute_submit_with_flash_loan-IsFlashSubmitted :
    (e : Env) (received : FlashLoan → Ledger → Bool) (l : Ledger) (from : Address)
    (loan : FlashLoan) (requests : List Request) {l' : Ledger} {positions : Positions}
    → execute_submit_with_flash_loan e received l from loan requests ≡ ok (l', positions)
    → IsFlashSubmitted e received l from loan requests l' positions
unfolding execute_submit_with_flash_loan
execute_submit_with_flash_loan-IsFlashSubmitted e received l from loan requests h =
    panic_if-elim (from == e.current_contract_address) _ _ h λ not_self h1.
      >>=-elim (Pool.load l) _ h1 λ pool e1 h2.
        >>=-elim (effective_count (get_user_positions l from)) _ h2 λ prev e2 h3.
          >>=-elim (borrow_flash_loan e l pool (User.load l from) loan) _ h3
            λ (l₁, pool₁, u₁) e3 h4.
              >>=-elim (build_actions_from_request e l₁ pool₁ u₁ requests) _ h4 λ t e4 h5.
                >>=-elim
                  (validate_submit e t.ledger t.pool t.user prev true
                    (do_check_max_util t.actions loan.asset).check_max_util)
                  _ h5
                  λ pool' e5 h6.
                    >>=-elim
                      (call_token e t.ledger (
                        TokenCall.transfer loan.asset e.current_contract_address loan.contract
                          loan.amount))
                      _ h6
                      λ l₂ e6 h7. panic_if-elim (not (received loan l₂)) _ _ h7 λ came h8.
                        >>=-elim
                          (handle_transfer_with_allowance e (do_check_max_util t.actions loan.asset)
                            from from l₂)
                          _ h8
                          λ l₃ e7 h9. >>=-elim (store_cached_reserves pool' l₃) _ h9 λ l₄ e8 h10.
                            subst (λ (a, b). IsFlashSubmitted e received l from loan requests a b)
                              (ok-injective h10)
                              (record {
                                owed_ledger = l₁;
                                owed_pool = pool₁;
                                owing = u₁;
                                pool = pool;
                                loaded = e1;
                                borrowed = e3;
                                tx = t;
                                built = e4;
                                prev = prev;
                                is_prev = e2;
                                validated =
                                    validate_submit-IsValidated e t.ledger t.pool t.user prev true _
                                      e5;
                                checked = (do_check_max_util t.actions loan.asset).check_max_util;
                                loan_checked = do_check_max_util-contains t.actions loan.asset;
                                all_checked =
                                    λ asset h. do_check_max_util-keeps t.actions loan.asset asset h;
                                sourced =
                                    IsValidated-IsSourced
                                      (build_actions_from_request-IsFaithful e l₁ pool₁ u₁ requests
                                          e4
                                        after borrow_flash_loan-IsFaithful e l pool
                                            (User.load l from) loan e3)
                                      (load-IsSourced e l e1)
                                      (validate_submit-IsValidated e t.ledger t.pool t.user prev
                                        true _ e5);
                                paid = l₂;
                                is_paid = e6;
                                was_received = ground (arith, came);
                                returned_positions = refl;
                                stored = stored_positions l₄ t.user;
                              })
