-- ===== src/Pool/Faithful.antt =====
-- What a transaction may not do to the pool that it works on: change its configuration, or cache a
-- price that the oracle does not give. `load_reserve`, `cache_reserve`, `load_price` and
-- `load_price_decimals` of pool/src/pool/pool.rs.
use blend_contracts_v.Prelude.Map
use blend_contracts_v.Pool
use blend_contracts_v.Prelude.{
  none, ◌≢◌, ℕ, ◌==◌, Bool, Bool-cases, Option-cases, PoolError, or_panic, or_panic-some, >>=-elim,
  panic_if-elim, ok-injective, pool_error, ok, not, ℤ, ◌<ℤ◌, pos, ◌≡◌, refl, sym, ap, ◌∙◌, subst,
  inl, inr, some, arith, ==_iff,
}
use blend_contracts_v.Pool.{
  Pool, load_reserve, cache_reserve, load_price, load_price_decimals, is_bad_price,
}
use blend_contracts_v.Pool.Cache.{load_reserve-IsSameView}
use blend_contracts_v.Pool.Oracle.{IsFresh}
use blend_contracts_v.Env.{Env, Address}
use blend_contracts_v.Storage.{Ledger, PoolConfig, get_pool_config}
use blend_contracts_v.Reserve.{Reserve}

-- Every cached price is positive and what the pool's oracle gives, not from the future and at most a
-- day old.
pub record IsSourced (e : Env) (pool : Pool) : Type 0 where
  pub positive :
      (asset : Address) (price : ℤ) → Map.get asset pool.prices ≡ some price → pos 0 <ℤ price
  pub fresh :
      (asset : Address) (price : ℤ)
      → Map.get asset pool.prices ≡ some price
      → IsFresh e pool asset price

-- A later state of a pool in a transaction: the same configuration, and prices from the oracle if
-- there were none but such.
pub record IsFaithful (e : Env) (pool pool' : Pool) : Type 0 where
  pub config : pool'.config ≡ pool.config
  pub sourced : IsSourced e pool → IsSourced e pool'

none≢some {ℓ} : {A : Type ℓ} {a : A} → none ≢ some a
none≢some h = cc

infixr 60 ◌after◌
pub ◌after◌ : {e : Env} {a b c : Pool} → IsFaithful e b c → IsFaithful e a b → IsFaithful e a c
h after g = record { config = h.config ∙ g.config; sourced = λ s. h.sourced (g.sourced s) }

-- A pool that has read no price has none but from the oracle.
pub load-IsSourced : (e : Env) (l : Ledger) {pool : Pool} → Pool.load l ≡ ok pool → IsSourced e pool
unfolding Pool.load
load-IsSourced e l h = >>=-elim (get_pool_config l) _ h λ config e1 h1.
    subst (IsSourced e) (ok-injective h1)
      (record { positive = λ a p k. cc; fresh = λ a p k. absurd (none≢some k) })

module _ (e : Env) where
  pub same : {pool pool' : Pool} → pool' ≡ pool → IsFaithful e pool pool'
  same {pool} h = record {
    config = ap (λ (p : Pool). p.config) h;
    sourced = λ s. subst (IsSourced e) (sym h) s;
  }

  -- A pool with the same configuration and prices.
  pub same_prices :
      (pool pool' : Pool)
      → pool'.config ≡ pool.config
      → pool'.prices ≡ pool.prices
      → IsFaithful e pool pool'
  same_prices pool pool' c p = record {
    config = c;
    sourced = λ s. record {
      positive = λ a v h. s.positive a v (ap (λ m. Map.get a m) (sym p) ∙ h);
      fresh = λ a v h.
          let f = s.fresh a v (ap (λ m. Map.get a m) (sym p) ∙ h) in
          record {
            given = f.given;
            from_oracle = ap (λ (x : PoolConfig). e.lastprice x.oracle a) c ∙ f.from_oracle;
            same = f.same;
            not_future = f.not_future;
            not_old = f.not_old;
          };
    };
  }

  pub load_reserve-IsFaithful :
      (l : Ledger) (pool : Pool) (asset : Address) (keep : Bool) {pool' : Pool} {r : Reserve}
      → load_reserve e l pool asset keep ≡ ok (pool', r)
      → IsFaithful e pool pool'
  load_reserve-IsFaithful l pool asset keep h =
      let v = load_reserve-IsSameView e l pool asset keep h in same_prices pool _ v.config v.prices

  pub cache_reserve-IsFaithful :
      (pool : Pool) (r : Reserve) → IsFaithful e pool (cache_reserve pool r)
  unfolding cache_reserve
  cache_reserve-IsFaithful pool r = same_prices pool _ refl refl

  -- A price that is read is cached as the oracle gave it.
  pub load_price-IsFaithful :
      (pool : Pool) (asset : Address) {pool' : Pool} {price : ℤ}
      → load_price e pool asset ≡ ok (pool', price)
      → IsFaithful e pool pool'
  unfolding load_price
  load_price-IsFaithful pool asset h = elim (Option-cases (Map.get asset pool.prices)) [
    | inr (cached, found) ↦
        same (ap (λ (x : Pool × ℤ). x.0) (sym (ok-injective (rw (found, load_price) at h))))
    | inl missing ↦
        >>=-elim
          (or_panic (e.lastprice pool.config.oracle asset) (pool_error PoolError.invalid_price)) _
          (rw (missing, load_price) at h)
          λ given e1 h1. panic_if-elim (is_bad_price e.timestamp given) _ _ h1 λ good h2.
            let filled : Pool = record pool { prices = Map.set asset given.price pool.prices } in
            let kept : IsFaithful e pool filled = record {
              config = refl;
              sourced = λ s. record {
                positive = λ a v k.
                    ground
                      (arith, good, Map.get-set a asset given.price pool.prices, s.positive a v, k);
                fresh = λ a v k. elim (Bool-cases (a == asset)) [
                  | inl here ↦
                      let is_here : a ≡ asset = (==_iff a asset).0 here in
                      record {
                        given = given;
                        from_oracle =
                            ap (λ x. e.lastprice pool.config.oracle x) is_here
                            ∙ or_panic-some _ _ e1;
                        same = ground (arith, Map.get-set a asset given.price pool.prices, here, k);
                        not_future = ground (arith, good);
                        not_old = ground (arith, good);
                      }
                  | inr other ↦
                      let f =
                        s.fresh a v
                          (ground (arith, Map.get-set a asset given.price pool.prices, other, k)) in
                      record {
                        given = f.given;
                        from_oracle = f.from_oracle;
                        same = f.same;
                        not_future = f.not_future;
                        not_old = f.not_old;
                      }
                ];
              };
            } in
            subst (λ (x : Pool × ℤ). IsFaithful e pool x.0) (ok-injective h2) kept
  ]

  pub load_price_decimals-IsFaithful :
      (pool : Pool) {pool' : Pool} {decimals : ℕ}
      → load_price_decimals e pool ≡ ok (pool', decimals)
      → IsFaithful e pool pool'
  unfolding load_price_decimals
  load_price_decimals-IsFaithful pool h = elim (Option-cases pool.price_decimals) [
    | inr (cached, found) ↦
        same
          (ap (λ (x : Pool × ℕ). x.0) (sym (ok-injective (rw (found, load_price_decimals) at h))))
    | inl missing ↦
        panic_if-elim (not (e.decimals pool.config.oracle == 7)) _ _
          (rw (missing, load_price_decimals) at h)
          λ seven h1.
            subst (λ (x : Pool × ℕ). IsFaithful e pool x.0) (ok-injective h1)
              (same_prices pool _ refl refl)
  ]
