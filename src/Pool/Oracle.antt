-- ===== src/Pool/Oracle.antt =====
-- The prices of a transaction: `load_price` of pool/src/pool/pool.rs.
use blend_contracts_v.Prelude.Map
use blend_contracts_v.Prelude.{
  Option-cases, PoolError, or_panic, >>=-elim, panic_if-elim, or_panic-some, ok-injective,
  pool_error, ok, ℤ, ◌<ℤ◌, pos, ◌+◌, ◌≤◌, ◌≡◌, refl, subst, ◌≢◌, ◌⊎◌, inl, inr, some, arith,
}
use blend_contracts_v.Pool.{Pool, load_price, is_bad_price}
use blend_contracts_v.Env.{Env, Address, PriceData}

-- Every cached price is positive.
pub record IsPriced (pool : Pool) : Type 0 where
  pub positive :
      (asset : Address) (price : ℤ) → Map.get asset pool.prices ≡ some price → pos 0 <ℤ price

-- A price as the oracle of the pool gave it: positive, not from the future, at most a day old.
pub record IsFresh (e : Env) (pool : Pool) (asset : Address) (price : ℤ) : Type 0 where
  pub given : PriceData
  pub from_oracle : e.lastprice pool.config.oracle asset ≡ some given
  pub same : given.price ≡ price
  pub not_future : given.timestamp ≤ e.timestamp
  pub not_old : e.timestamp ≤ given.timestamp + 86_400

-- What loading a price gives: a positive price that was cached or is fresh, and a pool that keeps
-- its cached prices positive and gives the same price again, whatever the oracle says by then.
pub record IsLoadedPrice (e : Env) (pool : Pool) (asset : Address) (pool' : Pool) (price : ℤ)
    : Type 0 where
  pub positive : pos 0 <ℤ price
  pub source : (Map.get asset pool.prices ≡ some price) ⊎ IsFresh e pool asset price
  pub priced : IsPriced pool'
  pub stable : (e' : Env) → load_price e' pool' asset ≡ ok (pool', price)
  pub others :
      (other : Address) → other ≢ asset → Map.get other pool'.prices ≡ Map.get other pool.prices

again :
    (e : Env) (pool : Pool) (asset : Address) (price : ℤ)
    → Map.get asset pool.prices ≡ some price
    → load_price e pool asset ≡ ok (pool, price)
unfolding load_price
again e pool asset price h = rw (h, load_price) refl

-- With a cache of positive prices, a price that `load_price` returns is positive and either cached
-- or given by the pool's oracle, not from the future and at most a day old; the cache keeps its
-- other prices and stays positive, and a second load gives the same price whatever the oracle says
-- by then.
pub load_price-IsLoadedPrice :
    (e : Env) (pool : Pool) (asset : Address) {pool' : Pool} {price : ℤ}
    → IsPriced pool
    → load_price e pool asset ≡ ok (pool', price)
    → IsLoadedPrice e pool asset pool' price
unfolding load_price
load_price-IsLoadedPrice e pool asset {pool'} {price} priced h =
    elim (Option-cases (Map.get asset pool.prices)) [
      | inr (cached, found) ↦
          subst (λ (p, v). IsLoadedPrice e pool asset p v)
            (ok-injective (rw (found, load_price) at h))
            (record {
              positive = priced.positive asset cached found;
              source = inl found;
              priced = priced;
              stable = λ e'. again e' pool asset cached found;
              others = λ other x. refl;
            })
      | inl missing ↦
          let h1 = rw (missing, load_price) at h in
          >>=-elim
            (or_panic (e.lastprice pool.config.oracle asset) (pool_error PoolError.invalid_price)) _
            h1
            λ given e1 h2. panic_if-elim (is_bad_price e.timestamp given) _ _ h2 λ good h3.
              let filled : Pool = record pool { prices = Map.set asset given.price pool.prices } in
              let hit : Map.get asset filled.prices ≡ some given.price =
                ground (arith, Map.get-set asset asset given.price pool.prices) in
              subst (λ (p, v). IsLoadedPrice e pool asset p v) (ok-injective h3)
                (record {
                  positive = ground (arith, good);
                  source = inr (record {
                    given = given;
                    from_oracle = or_panic-some _ _ e1;
                    same = refl;
                    not_future = ground (arith, good);
                    not_old = ground (arith, good);
                  });
                  priced = record {
                    positive = λ a p k. ground (
                      arith,
                      good,
                      Map.get-set a asset given.price pool.prices,
                      priced.positive a p,
                      k,
                    );
                  };
                  stable = λ e'. again e' filled asset given.price hit;
                  others =
                      λ other x. ground (arith, Map.get-set other asset given.price pool.prices, x);
                })
    ]
