-- ===== src/Submit/Health.antt =====
-- What holds of a sender's positions when a transaction passes: `validate_submit` and
-- `execute_submit` of pool/src/pool/submit.rs.
use blend_contracts_v.Pool
use blend_contracts_v.User
use blend_contracts_v.Pool.Faithful.{IsFaithful, IsSourced, same_prices, load-IsSourced}
use blend_contracts_v.Health.Faithful.{calculate_from_positions-IsFaithful}
use blend_contracts_v.Actions.Faithful.{build_actions_from_request-IsFaithful}
use blend_contracts_v.Pool.Cache.{IsSameView, load_reserve-IsSameView}
use blend_contracts_v.Prelude.{
  ℕ, >>=-elim, ok-injective, ok, ℤ, ◌≤ℤ◌, pos, ◌≤◌, ◌≡◌, ap, ◌⊎◌, Bool, true, false, List, [], ◌∷◌,
  ◌==◌, if◌then◌else◌, Bool-cases, panic_if-elim, ltb_ℤ, refl, ◌∙◌, subst, ◌≢◌, inl, inr, ◌||◌,
  arith,
}
use blend_contracts_v.Env.{Env, Address, env_math}
use blend_contracts_v.Storage.{Ledger, Positions, has_auction, get_user_positions, PoolConfig}
use blend_contracts_v.Pool.{
  Pool, effective_count, load_reserve, require_under_max, store_cached_reserves,
}
use blend_contracts_v.Submit.{
  positions_hf_under, check_utilizations, validate_submit, execute_submit, require_healthy,
  handle_transfer_with_allowance, handle_transfers,
}
use blend_contracts_v.Health.{PositionData, calculate_from_positions, is_hf_under}
use blend_contracts_v.User.{User, has_liabilities}
use blend_contracts_v.Actions.{Request, Tx, build_actions_from_request}
use blend_contracts_v.Reserve.{Reserve, utilization, require_utilization_below_max}

-- Positions whose value was calculated with a pool, which read no price but from the oracle for it, and
-- found healthy and large enough.
pub record IsHealthy (e : Env) (l : Ledger) (pool : Pool) (positions : Positions) (minimum : ℤ)
    : Type 0 where
  pub after : Pool
  pub value : PositionData
  pub calculated : calculate_from_positions e l pool positions ≡ ok (after, value)
  pub faithful : IsFaithful e pool after
  pub healthy : is_hf_under (env_math e) value (pos 1_0000100) ≡ ok false
  pub enough : minimum ≤ℤ value.collateral_base

-- The assets were loaded one after another, into the pool that each one left, and each one's reserve
-- has a utilization of at most its maximum.
pub data AreUtilized (e : Env) (l : Ledger) : List Address → Pool → Pool → Type 0 where
  none_checked : {pool : Pool} → AreUtilized e l [] pool pool
  then_checked :
      {asset : Address} {rest : List Address} {pool pool₁ pool' : Pool} (reserve : Reserve) (u : ℤ)
      → load_reserve e l pool asset false ≡ ok (pool₁, reserve)
      → utilization (env_math e) reserve.state ≡ ok u
      → u ≤ℤ pos (reserve.config.max_util)
      → AreUtilized e l rest pool₁ pool'
      → AreUtilized e l (asset ∷ rest) pool pool'

-- A submission that passes: the sender is not being liquidated, has no more positions than are
-- allowed unless there were at least as many before, the assets to check are within their maximum
-- utilization, and if the requests call for it and anything is owed, the sender is healthy, valued
-- with the pool of the transaction: its configuration, the prices that it had read, and the reserves
-- that it had cached and the check of the utilizations loaded.
pub record IsValidated (e : Env) (l : Ledger) (pool : Pool) (u : User) (prev : ℕ)
    (check_health : Bool) (assets : List Address) : Type 0 where
  pub not_liquidated : has_auction l 0 u.address ≡ false
  pub count : ℕ
  pub is_count : effective_count u.positions ≡ ok count
  pub count_bound : (count ≤ prev) ⊎ (count ≤ pool.config.max_positions)
  pub checked_pool : Pool
  pub utilized : AreUtilized e l assets pool checked_pool
  pub same_view : IsSameView pool checked_pool
  pub health :
      check_health ≡ true
      → has_liabilities u ≡ true
      → IsHealthy e l checked_pool u.positions pool.config.min_collateral

true≢false : true ≢ false
true≢false h = cc

module _ (e : Env) (l : Ledger) where
  positions_hf_under-IsHealthy :
      (pool : Pool) (positions : Positions) {pool' : Pool}
      → positions_hf_under e l pool positions (pos 1_0000100) ≡ ok (pool', false)
      → IsHealthy e l pool positions pool.config.min_collateral
  unfolding positions_hf_under
  positions_hf_under-IsHealthy pool positions h =
      >>=-elim (calculate_from_positions e l pool positions) _ h λ (after, value) e1 h1.
        >>=-elim (is_hf_under (env_math e) value (pos 1_0000100)) _ h1 λ under e2 h2.
          elim (Bool-cases under) [
            | inl is_under ↦
                let h3 = rw is_under at h2 in
                absurd (true≢false (ap (λ (x : Pool × Bool). x.1) (ok-injective h3)))
            | inr not_under ↦
                panic_if-elim (ltb_ℤ value.collateral_base pool.config.min_collateral) _ _
                  (rw not_under at h2)
                  λ large h3. record {
                    after = after;
                    value = value;
                    calculated = e1;
                    faithful = calculate_from_positions-IsFaithful e l positions pool e1;
                    healthy = rw not_under at e2;
                    enough = ground (arith, large);
                  }
          ]

  check_utilizations-AreUtilized :
      (pool : Pool) (assets : List Address) {pool' : Pool}
      → check_utilizations e l pool assets ≡ ok pool'
      → AreUtilized e l assets pool pool' × IsSameView pool pool'
  unfolding check_utilizations require_utilization_below_max
  check_utilizations-AreUtilized pool [] h =
      subst (λ p. AreUtilized e l [] pool p × IsSameView pool p) (ok-injective h)
        (none_checked, record { config = refl; prices = refl; price_decimals = refl })
  check_utilizations-AreUtilized pool (asset ∷ rest) h =
      >>=-elim (load_reserve e l pool asset false) _ h λ (pool₁, reserve) e1 h1.
        >>=-elim (require_utilization_below_max e reserve) _ h1 λ _ e2 h2.
          >>=-elim (utilization (env_math e) reserve.state) _ e2 λ u e3 passed.
            let (utilized, later) = check_utilizations-AreUtilized pool₁ rest h2 in
            let first = load_reserve-IsSameView e l pool asset false e1 in
            (
              then_checked reserve u e1 e3 (ground (arith, passed)) utilized,
              record {
                config = later.config ∙ first.config;
                prices = later.prices ∙ first.prices;
                price_decimals = later.price_decimals ∙ first.price_decimals;
              },
            )

  -- A submission that passes the last checks is valid in the sense above.
  pub validate_submit-IsValidated :
      (pool : Pool) (u : User) (prev : ℕ) (check_health : Bool) (assets : List Address)
      {pool' : Pool}
      → validate_submit e l pool u prev check_health assets ≡ ok pool'
      → IsValidated e l pool u prev check_health assets
  unfolding validate_submit require_under_max require_healthy
  validate_submit-IsValidated pool u prev check_health assets h =
      >>=-elim (require_under_max pool u.positions prev) _ h λ _ e1 h1.
        >>=-elim (effective_count u.positions) _ e1 λ count e2 h2.
          panic_if-elim (has_auction l 0 u.address) _ _ h1 λ no_auction h3.
            >>=-elim (check_utilizations e l pool assets) _ h3 λ pool₁ e3 h4.
              let (utilized, same_view) = check_utilizations-AreUtilized pool assets e3 in
              record {
                checked_pool = pool₁;
                utilized = utilized;
                same_view = same_view;
                not_liquidated = no_auction;
                count = count;
                is_count = e2;
                count_bound = ground (arith, h2);
                health = λ checked owes.
                    >>=-elim (positions_hf_under e l pool₁ u.positions (pos 1_0000100)) _
                      (rw (checked, owes) at h4)
                      λ (pool₂, under) e4 h5. panic_if-elim under _ _ h5 λ not_under h6.
                        subst (λ (c : PoolConfig). IsHealthy e l pool₁ u.positions c.min_collateral)
                          same_view.config
                          (positions_hf_under-IsHealthy pool₁ u.positions (rw not_under at e4));
              }

-- The pool that the positions are valued with has no price but from the oracle, if the pool that the
-- transaction started with had none.
pub IsValidated-IsSourced :
    {e : Env} {l : Ledger} {start pool : Pool} {u : User} {prev : ℕ} {check_health : Bool}
    {assets : List Address}
    → IsFaithful e start pool
    → IsSourced e start
    → (v : IsValidated e l pool u prev check_health assets) → IsSourced e (v.checked_pool)
IsValidated-IsSourced {e} {pool = pool} faithful sourced v =
    (same_prices e pool v.checked_pool v.same_view.config v.same_view.prices).sourced
      (faithful.sourced sourced)

-- Where a submission returns, the requests were carried out, what they led to passed the last
-- checks, and the positions that are stored are those of the sender that were checked.
pub record IsSubmitted (e : Env) (l : Ledger) (from : Address) (requests : List Request)
    (l' : Ledger) (positions : Positions) : Type 0 where
  pub tx : Tx
  pub pool : Pool
  pub loaded : Pool.load l ≡ ok pool
  pub prev : ℕ
  pub is_prev : effective_count (get_user_positions l from) ≡ ok prev
  pub built : build_actions_from_request e l pool (User.load l from) requests ≡ ok tx
  pub returned : positions ≡ tx.user.positions
  pub validated :
      IsValidated e tx.ledger tx.pool tx.user prev tx.actions.check_health tx.actions.check_max_util
  pub sourced : IsSourced e (validated.checked_pool)
  pub stored : get_user_positions l' tx.user.address ≡ positions

pub stored_positions :
    (l : Ledger) (u : User) → get_user_positions (User.store u l) u.address ≡ u.positions
stored_positions l u = ground arith

-- Where `execute_submit` returns, the requests were carried out on the loaded pool and the stored
-- positions of the sender; at the last checks the sender was not being liquidated and had at most
-- as many positions as before or as the pool allows; the assets that the requests noted were
-- loaded one after another from the pool that the requests left, each with a utilization of at
-- most its maximum; if the requests call for it and anything is owed, the positions, valued with
-- the pool that these loads left, are not under 1.00001 by the health factor test and have an
-- effective collateral of at least the pool's minimum; that pool has the configuration and the
-- prices of the one that the requests left, and every price in it, and every one that the
-- valuation adds, is positive and the pool's oracle's, not from the future and at most a day old;
-- and the positions that were checked are the ones stored and returned.
pub execute_submit-IsSubmitted :
    (e : Env) (l : Ledger) (from spender to : Address) (requests : List Request)
    (use_allowance : Bool) {l' : Ledger} {positions : Positions}
    → execute_submit e l from spender to requests use_allowance ≡ ok (l', positions)
    → IsSubmitted e l from requests l' positions
unfolding execute_submit
execute_submit-IsSubmitted e l from spender to requests use_allowance h =
    panic_if-elim
      (from == e.current_contract_address
        || spender == e.current_contract_address
        || to == e.current_contract_address)
      _ _ h
      λ not_self h1. >>=-elim (Pool.load l) _ h1 λ pool e1 h2.
        >>=-elim (effective_count (get_user_positions l from)) _ h2 λ prev e2 h3.
          >>=-elim (build_actions_from_request e l pool (User.load l from) requests) _ h3 λ t e3 h4.
            >>=-elim
              (validate_submit e t.ledger t.pool t.user prev t.actions.check_health
                t.actions.check_max_util)
              _ h4
              λ pool' e4 h5.
                >>=-elim
                  (if use_allowance
                    then handle_transfer_with_allowance e t.actions spender to t.ledger
                    else handle_transfers e t.actions spender to t.ledger)
                  _ h5
                  λ l₁ e5 h6. >>=-elim (store_cached_reserves pool' l₁) _ h6 λ l₂ e6 h7.
                    subst (λ (a, b). IsSubmitted e l from requests a b) (ok-injective h7)
                      (record {
                        tx = t;
                        pool = pool;
                        loaded = e1;
                        prev = prev;
                        is_prev = e2;
                        built = e3;
                        returned = refl;
                        validated =
                            validate_submit-IsValidated e t.ledger t.pool t.user prev
                              t.actions.check_health t.actions.check_max_util e4;
                        sourced =
                            IsValidated-IsSourced
                              (build_actions_from_request-IsFaithful e l pool (User.load l from)
                                requests e3)
                              (load-IsSourced e l e1)
                              (validate_submit-IsValidated e t.ledger t.pool t.user prev
                                t.actions.check_health t.actions.check_max_util e4);
                        stored = stored_positions l₂ t.user;
                      })
