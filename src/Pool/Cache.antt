-- ===== src/Pool/Cache.antt =====
-- What loading a reserve into the pool's cache leaves alone: `load_reserve` of
-- pool/src/pool/pool.rs.
use blend_contracts_v.Prelude.Map
use blend_contracts_v.Reserve
use blend_contracts_v.Prelude.{
  subst, Bool-cases, Option-cases, >>=-elim, ok-injective, ok, ◌≡◌, refl, inl, inr, Bool, not, ◌&&◌,
}
use blend_contracts_v.Pool.{Pool, load_reserve, note_store, contains}
use blend_contracts_v.Env.{Address, Env}
use blend_contracts_v.Storage.{Ledger}
use blend_contracts_v.Reserve.{Reserve}

-- What a transaction works with while it loads reserves: the configuration and the prices.
pub record IsSameView (pool pool' : Pool) : Type 0 where
  pub config : pool'.config ≡ pool.config
  pub prices : pool'.prices ≡ pool.prices
  pub price_decimals : pool'.price_decimals ≡ pool.price_decimals

note_store-IsSameView :
    (pool : Pool) (asset : Address) (keep : Bool) → IsSameView pool (note_store pool asset keep)
note_store-IsSameView pool asset keep =
    elim (Bool-cases (keep && not (contains pool.reserves_to_store asset))) [
      | inl new ↦ rw new (record { config = refl; prices = refl; price_decimals = refl })
      | inr noted ↦ rw noted (record { config = refl; prices = refl; price_decimals = refl })
    ]

-- Loading a reserve keeps the pool's configuration and prices.
pub load_reserve-IsSameView :
    (e : Env) (l : Ledger) (pool : Pool) (asset : Address) (keep : Bool) {pool' : Pool}
    {r : Reserve}
    → load_reserve e l pool asset keep ≡ ok (pool', r)
    → IsSameView pool pool'
unfolding load_reserve
load_reserve-IsSameView e l pool asset keep h =
    elim (Option-cases (Map.get asset (note_store pool asset keep).reserves)) [
      | inr (cached, found) ↦
          subst (λ (x : Pool × Reserve). IsSameView pool x.0)
            (ok-injective (rw (found, load_reserve) at h)) (note_store-IsSameView pool asset keep)
      | inl missing ↦
          >>=-elim (Reserve.load e l (note_store pool asset keep).config asset) _
            (rw (missing, load_reserve) at h)
            λ r e1 h1.
              subst (λ (x : Pool × Reserve). IsSameView pool x.0) (ok-injective h1)
                (note_store-IsSameView pool asset keep)
    ]
