-- ===== src/Actions/Faithful.antt =====
-- The requests of a transaction are faithful to the pool's configuration and its oracle:
-- pool/src/pool/actions.rs.
use blend_contracts_v.Pool.Faithful.{
  IsFaithful, ◌after◌, same, load_reserve-IsFaithful, cache_reserve-IsFaithful,
  load_price-IsFaithful,
}
use blend_contracts_v.Storage.{Ledger}
use blend_contracts_v.Prelude.{
  List, [], ◌∷◌, ℕ, Bool-cases, >>=-elim, ok-injective, as_u64, ok, ℤ, eqb_ℤ, pos, ◌≡◌, sym, ap,
  inl, inr, true, ◌&&◌,
}
use blend_contracts_v.Actions.{
  apply_requests, build_actions_from_request, dispatch, apply_delete, Tx, Request,
  require_within_cap, require_price, apply_supply, apply_withdraw, apply_supply_collateral,
  apply_withdraw_collateral, apply_borrow, apply_repay, note_repayment, apply_fill,
  require_min_position, plan_withdraw, plan_repay, add_for_pool_transfer, add_for_spender_transfer,
  apply_request,
}
use blend_contracts_v.Auction.{fill, delete_liquidation}
use blend_contracts_v.Auction.Faithful.{fill-IsFaithful}
use blend_contracts_v.Env.{Env, env_math}
use blend_contracts_v.Pool.{load_reserve, Pool, load_price, require_action_allowed}
use blend_contracts_v.Reserve.{
  require_reserve_action_allowed, to_b_token_down, Reserve, to_d_token_up,
  require_utilization_below_100,
}
use blend_contracts_v.User.{
  User, remove_supply, remove_collateral, remove_liabilities, add_supply, has_liabilities,
  add_collateral, add_liabilities, get_collateral, require_nonnegative,
}
use blend_contracts_v.Actions.Requests.{request_type_from_u32, RequestType}

module _ (e : Env) where
  apply_supply-IsFaithful :
      (request : Request) (t : Tx) {x : Tx × ℤ}
      → apply_supply e request t ≡ ok x
      → IsFaithful e t.pool x.0.pool
  unfolding apply_supply
  apply_supply-IsFaithful request t h =
      >>=-elim (load_reserve e t.ledger t.pool request.address true) _ h λ (noted, reserve) e1 h1.
        >>=-elim (require_reserve_action_allowed reserve request.request_type) _ h1 λ _ e2 h2.
          >>=-elim (to_b_token_down (env_math e) reserve.state request.amount) _ h2 λ minted e3 h3.
            >>=-elim (add_supply e t.ledger t.user reserve minted) _ h3 λ (l, user, reserve') e4 h4.
              >>=-elim (add_for_spender_transfer t.actions reserve'.asset request.amount) _ h4
                λ actions e5 h5. >>=-elim (require_within_cap e reserve') _ h5 λ _ e6 h6.
                  same e (ap (λ (x : Tx × ℤ). x.0.pool) (sym (ok-injective h6)))
                  after cache_reserve-IsFaithful e noted reserve'
                  after load_reserve-IsFaithful e t.ledger t.pool request.address true e1

  apply_withdraw-IsFaithful :
      (request : Request) (t : Tx) {x : Tx × ℤ × ℤ}
      → apply_withdraw e request t ≡ ok x
      → IsFaithful e t.pool x.0.pool
  unfolding apply_withdraw
  apply_withdraw-IsFaithful request t h =
      >>=-elim (load_reserve e t.ledger t.pool request.address true) _ h λ (noted, reserve) e1 h1.
        >>=-elim (plan_withdraw (env_math e) reserve.state request.amount _) _ h1
          λ (tokens_out, to_burn) e2 h2.
            >>=-elim (remove_supply e t.ledger t.user reserve to_burn) _ h2
              λ (l, user, reserve') e3 h3.
                >>=-elim (require_utilization_below_100 e reserve') _ h3 λ _ e4 h4.
                  >>=-elim (add_for_pool_transfer _ reserve'.asset tokens_out) _ h4 λ actions e5 h5.
                    same e (ap (λ (x : Tx × ℤ × ℤ). x.0.pool) (sym (ok-injective h5)))
                    after cache_reserve-IsFaithful e noted reserve'
                    after load_reserve-IsFaithful e t.ledger t.pool request.address true e1

  require_price-IsFaithful :
      (pool : Pool) (user : User) (reserve : Reserve) {pool' : Pool}
      → require_price e pool user reserve ≡ ok pool'
      → IsFaithful e pool pool'
  unfolding require_price
  require_price-IsFaithful pool user reserve h =
      elim (Bool-cases
        (has_liabilities user && eqb_ℤ (get_collateral user reserve.config.index) (pos 0))) [
          | inr no_price ↦ same e (ap (λ (x : Pool). x) (sym (ok-injective (rw no_price at h))))
          | inl priced ↦
              >>=-elim (load_price e pool reserve.asset) _ (rw priced at h) λ (pool₁, price) e1 h1.
                same e (ap (λ (x : Pool). x) (sym (ok-injective h1)))
                after load_price-IsFaithful e pool reserve.asset e1
        ]

  apply_supply_collateral-IsFaithful :
      (request : Request) (t : Tx) {x : Tx × ℤ}
      → apply_supply_collateral e request t ≡ ok x
      → IsFaithful e t.pool x.0.pool
  unfolding apply_supply_collateral
  apply_supply_collateral-IsFaithful request t h =
      >>=-elim (load_reserve e t.ledger t.pool request.address true) _ h λ (noted, reserve) e1 h1.
        >>=-elim (require_reserve_action_allowed reserve request.request_type) _ h1 λ _ e2 h2.
          >>=-elim (require_price e noted t.user reserve) _ h2 λ priced e3 h3.
            >>=-elim (to_b_token_down (env_math e) reserve.state request.amount) _ h3
              λ minted e4 h4.
                >>=-elim (add_collateral e t.ledger t.user reserve minted) _ h4
                  λ (l, user, reserve') e5 h5.
                    >>=-elim (require_min_position e reserve' user) _ h5 λ _ e6 h6.
                      >>=-elim (add_for_spender_transfer t.actions reserve'.asset request.amount) _
                        h6
                        λ actions e7 h7. >>=-elim (require_within_cap e reserve') _ h7 λ _ e8 h8.
                          same e (ap (λ (x : Tx × ℤ). x.0.pool) (sym (ok-injective h8)))
                          after cache_reserve-IsFaithful e priced reserve'
                          after require_price-IsFaithful noted t.user reserve e3
                          after load_reserve-IsFaithful e t.ledger t.pool request.address true e1

  apply_withdraw_collateral-IsFaithful :
      (request : Request) (t : Tx) {x : Tx × ℤ × ℤ}
      → apply_withdraw_collateral e request t ≡ ok x
      → IsFaithful e t.pool x.0.pool
  unfolding apply_withdraw_collateral
  apply_withdraw_collateral-IsFaithful request t h =
      >>=-elim (load_reserve e t.ledger t.pool request.address true) _ h λ (noted, reserve) e1 h1.
        >>=-elim (plan_withdraw (env_math e) reserve.state request.amount _) _ h1
          λ (tokens_out, to_burn) e2 h2.
            >>=-elim (remove_collateral e t.ledger t.user reserve to_burn) _ h2
              λ (l, user, reserve') e3 h3.
                >>=-elim (require_min_position e reserve' user) _ h3 λ _ e4 h4.
                  >>=-elim (require_utilization_below_100 e reserve') _ h4 λ _ e5 h5.
                    >>=-elim (add_for_pool_transfer t.actions reserve'.asset tokens_out) _ h5
                      λ actions e6 h6.
                        same e (ap (λ (x : Tx × ℤ × ℤ). x.0.pool) (sym (ok-injective h6)))
                        after cache_reserve-IsFaithful e noted reserve'
                        after load_reserve-IsFaithful e t.ledger t.pool request.address true e1

  apply_borrow-IsFaithful :
      (request : Request) (t : Tx) {x : Tx × ℤ}
      → apply_borrow e request t ≡ ok x
      → IsFaithful e t.pool x.0.pool
  unfolding apply_borrow
  apply_borrow-IsFaithful request t h =
      >>=-elim (load_reserve e t.ledger t.pool request.address true) _ h λ (noted, reserve) e1 h1.
        >>=-elim (require_reserve_action_allowed reserve request.request_type) _ h1 λ _ e2 h2.
          >>=-elim (to_d_token_up (env_math e) reserve.state request.amount) _ h2 λ minted e3 h3.
            >>=-elim (add_liabilities e t.ledger t.user reserve minted) _ h3
              λ (l, user, reserve') e4 h4.
                >>=-elim (require_utilization_below_100 e reserve') _ h4 λ _ e5 h5.
                  >>=-elim (add_for_pool_transfer _ reserve'.asset request.amount) _ h5
                    λ actions e6 h6.
                      same e (ap (λ (x : Tx × ℤ). x.0.pool) (sym (ok-injective h6)))
                      after cache_reserve-IsFaithful e noted reserve'
                      after load_reserve-IsFaithful e t.ledger t.pool request.address true e1

  apply_repay-IsFaithful :
      (request : Request) (t : Tx) {x : Tx × ℤ × ℤ}
      → apply_repay e request t ≡ ok x
      → IsFaithful e t.pool x.0.pool
  unfolding apply_repay
  apply_repay-IsFaithful request t h =
      >>=-elim (load_reserve e t.ledger t.pool request.address true) _ h λ (noted, reserve) e1 h1.
        >>=-elim (plan_repay (env_math e) reserve.state request.amount _) _ h1
          λ (paid, burnt, refund, capped) e2 h2.
            >>=-elim (note_repayment e t.actions reserve.asset request.amount refund capped) _ h2
              λ actions e3 h3.
                >>=-elim (remove_liabilities e t.ledger t.user reserve _) _ h3
                  λ (l, user, reserve') e4 h4.
                    same e (ap (λ (x : Tx × ℤ × ℤ). x.0.pool) (sym (ok-injective h4)))
                    after cache_reserve-IsFaithful e noted reserve'
                    after load_reserve-IsFaithful e t.ledger t.pool request.address true e1

  apply_fill-IsFaithful :
      (auction_type : ℕ) (request : Request) (t : Tx) {t' : Tx}
      → apply_fill e auction_type request t ≡ ok t'
      → IsFaithful e t.pool t'.pool
  unfolding apply_fill
  apply_fill-IsFaithful auction_type request t h =
      >>=-elim (fill e t.ledger t.pool auction_type request.address t.user (as_u64 request.amount))
        _ h
        λ (l, pool, user) e1 h1.
          same e (ap (λ (x : Tx). x.pool) (sym (ok-injective h1)))
          after fill-IsFaithful e t.ledger t.pool auction_type request.address t.user _ e1

  dispatch-IsFaithful :
      (kind : RequestType) (request : Request) (t : Tx) {t' : Tx}
      → dispatch e kind request t ≡ ok t'
      → IsFaithful e t.pool t'.pool
  unfolding dispatch apply_delete
  dispatch-IsFaithful RequestType.supply request t h =
      >>=-elim (apply_supply e request t) _ h λ (t₁, minted) e1 h1.
        same e (ap (λ (x : Tx). x.pool) (sym (ok-injective h1)))
        after apply_supply-IsFaithful request t e1
  dispatch-IsFaithful RequestType.withdraw request t h =
      >>=-elim (apply_withdraw e request t) _ h λ (t₁, out, burnt) e1 h1.
        same e (ap (λ (x : Tx). x.pool) (sym (ok-injective h1)))
        after apply_withdraw-IsFaithful request t e1
  dispatch-IsFaithful RequestType.supply_collateral request t h =
      >>=-elim (apply_supply_collateral e request t) _ h λ (t₁, minted) e1 h1.
        same e (ap (λ (x : Tx). x.pool) (sym (ok-injective h1)))
        after apply_supply_collateral-IsFaithful request t e1
  dispatch-IsFaithful RequestType.withdraw_collateral request t h =
      >>=-elim (apply_withdraw_collateral e request t) _ h λ (t₁, out, burnt) e1 h1.
        same e (ap (λ (x : Tx). x.pool) (sym (ok-injective h1)))
        after apply_withdraw_collateral-IsFaithful request t e1
  dispatch-IsFaithful RequestType.borrow request t h =
      >>=-elim (apply_borrow e request t) _ h λ (t₁, minted) e1 h1.
        same e (ap (λ (x : Tx). x.pool) (sym (ok-injective h1)))
        after apply_borrow-IsFaithful request t e1
  dispatch-IsFaithful RequestType.repay request t h =
      >>=-elim (apply_repay e request t) _ h λ (t₁, paid, burnt) e1 h1.
        same e (ap (λ (x : Tx). x.pool) (sym (ok-injective h1)))
        after apply_repay-IsFaithful request t e1
  dispatch-IsFaithful RequestType.fill_user_liquidation_auction request t h =
      >>=-elim (apply_fill e 0 request t) _ h λ t₁ e1 h1.
        same e (ap (λ (x : Tx). x.pool) (sym (ok-injective h1)))
        after apply_fill-IsFaithful 0 request t e1
  dispatch-IsFaithful RequestType.fill_bad_debt_auction request t h =
      >>=-elim (apply_fill e 1 request t) _ h λ t₁ e1 h1.
        same e (ap (λ (x : Tx). x.pool) (sym (ok-injective h1)))
        after apply_fill-IsFaithful 1 request t e1
  dispatch-IsFaithful RequestType.fill_interest_auction request t h =
      apply_fill-IsFaithful 2 request t h
  dispatch-IsFaithful RequestType.delete_liquidation_auction request t h =
      >>=-elim (delete_liquidation t.ledger t.user.address) _ h
        λ l e1 h1. same e (ap (λ (x : Tx). x.pool) (sym (ok-injective h1)))

  pub apply_request-IsFaithful :
      (request : Request) (t : Tx) {t' : Tx}
      → apply_request e request t ≡ ok t'
      → IsFaithful e t.pool t'.pool
  unfolding apply_request
  apply_request-IsFaithful request t h =
      >>=-elim (require_nonnegative request.amount) _ h λ _ e1 h1.
        >>=-elim (require_action_allowed t.pool request.request_type) _ h1 λ _ e2 h2.
          >>=-elim (request_type_from_u32 request.request_type) _ h2
            λ kind e3 h3. dispatch-IsFaithful kind request t h3

  apply_requests-IsFaithful :
      (requests : List Request) (t : Tx) {t' : Tx}
      → apply_requests e requests t ≡ ok t'
      → IsFaithful e t.pool t'.pool
  unfolding apply_requests
  apply_requests-IsFaithful [] t h = same e (ap (λ (x : Tx). x.pool) (sym (ok-injective h)))
  apply_requests-IsFaithful (request ∷ rest) t h =
      >>=-elim (apply_request e request t) _ h
        λ t₁ e1 h1. apply_requests-IsFaithful rest t₁ h1 after apply_request-IsFaithful request t e1

  pub build_actions_from_request-IsFaithful :
      (l : Ledger) (pool : Pool) (u : User) (requests : List Request) {t : Tx}
      → build_actions_from_request e l pool u requests ≡ ok t
      → IsFaithful e pool t.pool
  unfolding build_actions_from_request
  build_actions_from_request-IsFaithful l pool u requests h = apply_requests-IsFaithful requests _ h
