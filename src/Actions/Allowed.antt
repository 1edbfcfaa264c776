-- ===== src/Actions/Allowed.antt =====
-- Which requests the status of the pool lets through: `build_actions_from_request` of
-- pool/src/pool/actions.rs, whose steps keep the configuration that `require_action_allowed` of
-- pool/src/pool/pool.rs reads.
use blend_contracts_v.Prelude.{
  refl, ℕ, >>=-elim, ok, ◌≤ℤ◌, pos, ◌≤◌, ◌≡◌, ◌≢◌, ◌⊎◌, inl, inr, List, [], ◌∷◌, zero, suc, subst,
  arith,
}
use blend_contracts_v.Actions.{dispatch, Tx, Request, apply_fill, apply_request, apply_requests}
use blend_contracts_v.Auction.{fill, auction_type_from_u32}
use blend_contracts_v.Storage.{PoolConfig}
use blend_contracts_v.Env.{Env}
use blend_contracts_v.Pool.{require_action_allowed}
use blend_contracts_v.User.{require_nonnegative}
use blend_contracts_v.Actions.Requests.{request_type_from_u32, RequestType}
use blend_contracts_v.Actions.Faithful.{apply_request-IsFaithful}

-- What a request that goes through has, in a pool of the status `status`: it fills no auction of bad
-- debt or interest, opens no debt and deletes no liquidation above status 1, and supplies nothing
-- above status 3.
pub record IsPermitted (status : ℕ) (request : Request) : Type 0 where
  pub nonnegative : pos 0 ≤ℤ request.amount
  pub known : request.request_type ≤ 9
  pub no_outer_fill : (request.request_type ≢ 7) × (request.request_type ≢ 8)
  pub new_debt : (status ≤ 1) ⊎ ((request.request_type ≢ 4) × (request.request_type ≢ 9))
  pub new_supply : (status ≤ 3) ⊎ ((request.request_type ≢ 0) × (request.request_type ≢ 2))

unfoldable pub ArePermitted : ℕ → List Request → Type 0
ArePermitted status [] = Unit {0}
ArePermitted status (request ∷ rest) = IsPermitted status request × ArePermitted status rest

module _ (e : Env) where
  known_type : (n : ℕ) {kind : RequestType} → request_type_from_u32 n ≡ ok kind → n ≤ 9
  unfolding request_type_from_u32
  known_type zero h = ground arith
  known_type (suc zero) h = ground arith
  known_type (suc (suc zero)) h = ground arith
  known_type (suc (suc (suc zero))) h = ground arith
  known_type (suc (suc (suc (suc zero)))) h = ground arith
  known_type (suc (suc (suc (suc (suc zero))))) h = ground arith
  known_type (suc (suc (suc (suc (suc (suc n)))))) h = ground (arith, h)

  apply_fill-fails :
      (auction_type : ℕ) (request : Request) (t : Tx) {t' : Tx}
      → (auction_type ≡ 1) ⊎ (auction_type ≡ 2)
      → apply_fill e auction_type request t ≢ ok t'
  unfolding apply_fill fill auction_type_from_u32
  apply_fill-fails auction_type request t (inl is_bad_debt) h =
      let refused = rw is_bad_debt at h in cc
  apply_fill-fails auction_type request t (inr is_interest) h =
      let refused = rw is_interest at h in cc

  apply_request-refuses :
      (request : Request) (t : Tx) {t' : Tx}
      → apply_request e request t ≡ ok t'
      → (request.request_type ≢ 7) × (request.request_type ≢ 8)
  unfolding apply_request request_type_from_u32 dispatch
  apply_request-refuses request t h = >>=-elim (require_nonnegative request.amount) _ h λ _ e1 h1.
      >>=-elim (require_action_allowed t.pool request.request_type) _ h1 λ _ e2 h2. (
        (λ is_bad_debt.
            >>=-elim (apply_fill e 1 request t) _ (rw is_bad_debt at h2)
              λ _ e3 _. apply_fill-fails 1 request t (inl refl) e3),
        (λ is_interest. apply_fill-fails 2 request t (inr refl) (rw is_interest at h2)),
      )

  apply_request-IsPermitted :
      (request : Request) (t : Tx) {t' : Tx}
      → apply_request e request t ≡ ok t'
      → IsPermitted t.pool.config.status request
  unfolding apply_request require_action_allowed
  apply_request-IsPermitted request t h =
      >>=-elim (require_nonnegative request.amount) _ h λ _ e1 h1.
        >>=-elim (require_action_allowed t.pool request.request_type) _ h1 λ _ e2 h2.
          >>=-elim (request_type_from_u32 request.request_type) _ h2 λ kind e3 h3. record {
            nonnegative = ground (arith, e1);
            known = known_type request.request_type e3;
            no_outer_fill = apply_request-refuses request t h;
            new_debt = ground (arith, e2);
            new_supply = ground (arith, e2);
          }

  pub apply_requests-ArePermitted :
      (requests : List Request) (t : Tx) {t' : Tx}
      → apply_requests e requests t ≡ ok t'
      → ArePermitted t.pool.config.status requests
  unfolding apply_requests ArePermitted
  apply_requests-ArePermitted [] t h = tt
  apply_requests-ArePermitted (request ∷ rest) t h =
      >>=-elim (apply_request e request t) _ h λ t₁ e1 h1. (
        apply_request-IsPermitted request t e1,
        subst (λ (c : PoolConfig). ArePermitted c.status rest)
            ((apply_request-IsFaithful e request t e1).config)
            (apply_requests-ArePermitted rest t₁ h1),
      )
