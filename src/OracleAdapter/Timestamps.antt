-- ===== src/OracleAdapter/Timestamps.antt =====
-- The timestamps of the adapter's prices: `lastprice` and `prices` of pool-oracle-adapter/src/lib.rs.
use mathlib.Core.Option.{some-injective}
use blend_contracts_v.Prelude.{
  ℕ, ◌==◌, Bool-cases, Option-cases, >>=-elim, ok-injective, ok, ◌+◌, ◌-◌, ◌%◌, ◌≤◌, ◌<◌, ◌≡◌, sym,
  ap, subst, inl, inr, some, arith, ◌∙◌, ◌≢◌, true, false, List, [], ◌∷◌, ltb,
}
use blend_contracts_v.Env.{PriceData}
use blend_contracts_v.OracleAdapter.{
  AdapterEnv, PoolOracleConfig, bucket_timestamp, normalized_to_adapter, put_price, collect_prices,
  adapter_lastprice, adapter_prices, active_config, load_config,
}
use blend_contracts_v.Storage.{length}

-- The start `t'` of the bucket that `t` lies in.
pub record IsBucket (resolution t t' : ℕ) : Type 0 where
  pub aligned : t' % resolution ≡ 0
  pub below : t' ≤ t
  pub near : t < t' + resolution

rounded_down : (resolution t : ℕ) → 0 < resolution → IsBucket resolution t (t - t % resolution)
rounded_down resolution t h = record {
  aligned = grind arith;
  below = omega arith;
  near = grind arith;
}

bucket_timestamp-IsBucket :
    (t resolution : ℕ) {t' : ℕ} → bucket_timestamp t resolution ≡ ok t' → IsBucket resolution t t'
unfolding bucket_timestamp
bucket_timestamp-IsBucket t resolution h = elim (Bool-cases (resolution == 0)) [
  | inl q ↦ let impossible = rw q at h in absurd (cc)
  | inr q ↦
      subst (IsBucket resolution t) (ok-injective (rw q at h))
        (rounded_down resolution t (ground (arith, q)))
]

module _ {N : Type 0} (e : AdapterEnv N) (c : PoolOracleConfig) where
  -- A price in the adapter's decimals has the start of its bucket for a timestamp.
  normalized_to_adapter-IsBucket :
      (p : N) (decimals resolution : ℕ) {q : PriceData}
      → normalized_to_adapter e p decimals resolution ≡ ok (some q)
      → (projected : PriceData) × (e.normalized_to_sep40 p decimals ≡ some projected)
        × (q.price ≡ projected.price)
        × IsBucket resolution projected.timestamp q.timestamp
  unfolding normalized_to_adapter
  normalized_to_adapter-IsBucket p decimals resolution {q} h =
      elim (Option-cases (e.normalized_to_sep40 p decimals)) [
        | inl n ↦ let impossible = rw (n, normalized_to_adapter) at h in absurd (cc)
        | inr (projected, s) ↦
            >>=-elim (bucket_timestamp projected.timestamp resolution) _
              (rw (s, normalized_to_adapter) at h)
              λ t e1 h1.
                let same = some-injective _ _ (ok-injective h1) in
                (
                  projected,
                  s,
                  ap (λ x. x.price) (sym same),
                  subst (λ x. IsBucket resolution projected.timestamp x.timestamp) same
                      (bucket_timestamp-IsBucket projected.timestamp resolution e1),
                )
      ]

-- What a last price comes from: the parent's latest, not from the future, in its bucket.
pub record IsLastPrice {N : Type 0} (e : AdapterEnv N) (c : PoolOracleConfig) (asset : ℕ)
    (q : PriceData) : Type 0 where
  pub latest : N
  pub projected : PriceData
  pub base : e.try_source_base c.parent_oracle ≡ some c.base
  pub from_parent : e.try_aggregated_latest c.parent_oracle asset ≡ some latest
  pub in_decimals : e.normalized_to_sep40 latest c.decimals ≡ some projected
  pub price : q.price ≡ projected.price
  pub published : e.price_timestamp latest ≤ e.timestamp
  pub bucket : IsBucket c.resolution projected.timestamp q.timestamp

-- Every timestamp is the start of a bucket, and differs from the one before it.
unfoldable pub IsSeriesAfter : ℕ → ℕ → List PriceData → Type 0
IsSeriesAfter resolution before [] = Unit {0}
IsSeriesAfter resolution before (p ∷ prices) =
    (before ≢ p.timestamp)
    × (p.timestamp % resolution ≡ 0)
    × IsSeriesAfter resolution p.timestamp prices

unfoldable pub IsSeries : ℕ → List PriceData → Type 0
IsSeries resolution [] = Unit {0}
IsSeries resolution (p ∷ prices) =
    (p.timestamp % resolution ≡ 0) × IsSeriesAfter resolution p.timestamp prices

module _ {N : Type 0} (e : AdapterEnv N) where
  put_price-after :
      (resolution before : ℕ) (p : PriceData) (prices : List PriceData) (new : PriceData)
      → IsSeriesAfter resolution before (p ∷ prices)
      → new.timestamp % resolution ≡ 0
      → IsSeriesAfter resolution before (put_price e (p ∷ prices) new)
  unfolding IsSeriesAfter put_price
  put_price-after resolution before p [] new s a =
      elim (Bool-cases (p.timestamp == new.timestamp)) [
        | inl q ↦
            let same : p.timestamp ≡ new.timestamp = ground (arith, q) in
            rw q (subst (λ t. before ≢ t) same s.0, a, tt)
        | inr q ↦ rw q (
          s.0,
          s.1,
          ((λ same. let impossible : true ≡ false = ground (arith, q, same) in absurd (cc)), a, tt),
        )
      ]
  put_price-after resolution before p (r ∷ prices) new s a =
      (s.0, s.1, put_price-after resolution p.timestamp r prices new s.2 a)

  put_price-IsSeries :
      (resolution : ℕ) (prices : List PriceData) (new : PriceData)
      → IsSeries resolution prices
      → new.timestamp % resolution ≡ 0
      → IsSeries resolution (put_price e prices new)
  unfolding IsSeries IsSeriesAfter put_price
  put_price-IsSeries resolution [] new s a = (a, tt)
  put_price-IsSeries resolution (p ∷ []) new s a =
      elim (Bool-cases (p.timestamp == new.timestamp)) [
        | inl q ↦ rw q (a, tt)
        | inr q ↦ rw q (
          s.0,
          ((λ same. let impossible : true ≡ false = ground (arith, q, same) in absurd (cc)), a, tt),
        )
      ]
  put_price-IsSeries resolution (p ∷ r ∷ prices) new s a =
      (s.0, put_price-after resolution p.timestamp r prices new s.1 a)

  collect_prices-IsSeries :
      (c : PoolOracleConfig) (history : List N) (prices : List PriceData) {all : List PriceData}
      → IsSeries c.resolution prices
      → collect_prices e c history prices ≡ ok (some all)
      → IsSeries c.resolution all
  unfolding collect_prices
  collect_prices-IsSeries c [] prices s h =
      subst (IsSeries c.resolution) (some-injective _ _ (ok-injective h)) s
  collect_prices-IsSeries c (entry ∷ history) prices s h =
      >>=-elim (normalized_to_adapter e entry c.decimals c.resolution) _ h λ adapted e1 h1.
        elim (Option-cases adapted) [
          | inl n ↦ let impossible = rw n at h1 in absurd (cc)
          | inr (q, a) ↦
              let (projected, from, price, bucket) =
                normalized_to_adapter-IsBucket e c entry c.decimals c.resolution (e1 ∙ ap ok a) in
              collect_prices-IsSeries c history (put_price e prices q)
                (put_price-IsSeries c.resolution prices q s bucket.aligned) (rw a at h1)
        ]

  -- An active configuration is the stored one, and the parent has its base.
  active_config-some :
      (c c' : PoolOracleConfig)
      → active_config e (some c) ≡ ok (some c')
      → (c ≡ c') × (e.try_source_base c.parent_oracle ≡ some c.base)
  unfolding active_config load_config
  active_config-some c c' h = elim (Option-cases (e.try_source_base c.parent_oracle)) [
    | inl n ↦ let impossible = rw (n, active_config) at h in absurd (cc)
    | inr (base, b) ↦
        let h1 = rw (b, active_config) at h in
        elim (Bool-cases (base == c.base)) [
          | inl q ↦
              let same : base ≡ c.base = ground (arith, q) in
              (some-injective _ _ (ok-injective (rw q at h1)), b ∙ ap (λ x. some x) same)
          | inr q ↦ let impossible = rw q at h1 in absurd (cc)
        ]
  ]

  start : (resolution : ℕ) → IsSeries resolution []
  unfolding IsSeries
  start resolution = tt

  -- A last price that the adapter gives is the parent's latest in the adapter's decimals, while
  -- the parent still has the configured base and its latest is not from the future; its timestamp
  -- is the start of the bucket that the converted price's timestamp lies in.
  pub adapter_lastprice-IsLastPrice :
      (c : PoolOracleConfig) (asset : ℕ) {q : PriceData}
      → adapter_lastprice e (some c) asset ≡ ok (some q)
      → IsLastPrice e c asset q
  unfolding adapter_lastprice
  adapter_lastprice-IsLastPrice c asset {q} h =
      >>=-elim (active_config e (some c)) _ h λ active e1 h1. elim (Option-cases active) [
        | inl n ↦ let impossible = rw n at h1 in absurd (cc)
        | inr (c', a) ↦
            let (same, base) = active_config-some c c' (e1 ∙ ap ok a) in
            let h2 = rw a at h1 in
            subst (λ x. IsLastPrice e x asset q) (sym same)
              (elim (Option-cases (e.try_aggregated_latest c'.parent_oracle asset)) [
                | inl n ↦ let impossible = rw n at h2 in absurd (cc)
                | inr (latest, p) ↦
                    let h3 = rw p at h2 in
                    elim (Bool-cases (ltb e.timestamp (e.price_timestamp latest))) [
                      | inl future ↦ let impossible = rw future at h3 in absurd (cc)
                      | inr past ↦
                          let (projected, from, price, bucket) =
                            normalized_to_adapter-IsBucket e c' latest c'.decimals c'.resolution
                              (rw past at h3) in
                          record {
                            latest = latest;
                            projected = projected;
                            base =
                                subst (λ x. e.try_source_base x.parent_oracle ≡ some x.base) same
                                  base;
                            from_parent = p;
                            in_decimals = from;
                            price = price;
                            published = ground (arith, past);
                            bucket = bucket;
                          }
                    ]
              ])
      ]

  -- In a series of prices that the adapter gives, every timestamp is a multiple of the resolution
  -- and differs from the one before it, whatever the parent's history.
  pub adapter_prices-IsSeries :
      (c : PoolOracleConfig) (asset records : ℕ) {prices : List PriceData}
      → adapter_prices e (some c) asset records ≡ ok (some prices)
      → IsSeries c.resolution prices
  unfolding adapter_prices
  adapter_prices-IsSeries c asset records {prices} h =
      >>=-elim (active_config e (some c)) _ h λ active e1 h1. elim (Option-cases active) [
        | inl n ↦ let impossible = rw n at h1 in absurd (cc)
        | inr (c', a) ↦
            let (same, base) = active_config-some c c' (e1 ∙ ap ok a) in
            let h2 = rw a at h1 in
            subst (λ x. IsSeries x.resolution prices) (sym same)
              (elim (Bool-cases (records == 0)) [
                | inl q ↦ let impossible = rw q at h2 in absurd (cc)
                | inr q ↦
                    let h3 = rw q at h2 in
                    elim (Option-cases (e.try_aggregated_history c'.parent_oracle asset records)) [
                      | inl n ↦ let impossible = rw n at h3 in absurd (cc)
                      | inr (history, p) ↦
                          >>=-elim (collect_prices e c' history []) _ (rw p at h3)
                            λ collected e2 h4. elim (Option-cases collected) [
                              | inl n ↦ let impossible = rw n at h4 in absurd (cc)
                              | inr (all, g) ↦
                                  let h5 = rw g at h4 in
                                  elim (Bool-cases (length all == 0)) [
                                    | inl z ↦ let impossible = rw z at h5 in absurd (cc)
                                    | inr z ↦
                                        subst (IsSeries c'.resolution)
                                          (some-injective _ _ (ok-injective (rw z at h5)))
                                          (collect_prices-IsSeries c' history []
                                            (start c'.resolution) (e2 ∙ ap ok g))
                                  ]
                            ]
                    ]
              ])
      ]
