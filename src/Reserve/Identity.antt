-- ===== src/Reserve/Identity.antt =====
-- A reserve that is loaded is the stored one: `load` of pool/src/pool/reserve.rs changes only its data.
use blend_contracts_v.Reserve
use blend_contracts_v.Reserve.{Reserve, refresh, accrue_interest, grow_debt, accrue, utilization}
use blend_contracts_v.Prelude.{
  ℤ, ok, ◌≡◌, subst, ◌==◌, Bool-cases, >>=-elim, ok-injective, eqb_ℤ, pos, refl, inl, inr, some,
}
use blend_contracts_v.Storage.{PoolConfig, Ledger, ReserveConfig, get_res_data}
use blend_contracts_v.Env.{Env, env_math, Address, pow10}
use blend_contracts_v.Interest.{calc_accrual}

-- The same asset with the same configuration.
pub record IsSameReserve (r r' : Reserve) : Type 0 where
  pub asset : r'.asset ≡ r.asset
  pub config : r'.config ≡ r.config

module _ (e : Env) (pool_config : PoolConfig) where
  accrue_interest-IsSameReserve :
      (r : Reserve) {r' : Reserve} (u : ℤ)
      → accrue_interest e pool_config r u ≡ ok r'
      → IsSameReserve r r'
  unfolding accrue_interest
  accrue_interest-IsSameReserve r u h =
      >>=-elim (calc_accrual e r.config u r.state.ir_mod r.state.last_time) _ h
        λ (factor, ir_mod) e1 h1.
          >>=-elim (grow_debt (env_math e) (record (r.state) { ir_mod = ir_mod }) factor) _ h1
            λ (grown, interest) e2 h2.
              >>=-elim (accrue (env_math e) grown pool_config.bstop_rate interest) _ h2
                λ accrued e3 h3.
                  subst (IsSameReserve r) (ok-injective h3) (record { asset = refl; config = refl })

  refresh-IsSameReserve :
      (r : Reserve) {r' : Reserve} → refresh e pool_config r ≡ ok r' → IsSameReserve r r'
  unfolding refresh
  refresh-IsSameReserve r {r'} h =
      let touched : Reserve = record r { state = record (r.state) { last_time = e.timestamp } } in
      let same : IsSameReserve r touched = record { asset = refl; config = refl } in
      elim (Bool-cases (e.timestamp == r.state.last_time)) [
        | inl current ↦
            subst (IsSameReserve r) (ok-injective (rw current at h))
              (record { asset = refl; config = refl })
        | inr old ↦
            let h1 = rw old at h in
            elim (Bool-cases (eqb_ℤ r.state.b_supply (pos 0))) [
              | inl empty ↦ subst (IsSameReserve r) (ok-injective (rw empty at h1)) same
              | inr held ↦ >>=-elim (utilization (env_math e) r.state) _ (rw held at h1) λ u e1 h2.
                  elim (Bool-cases (eqb_ℤ u (pos 0))) [
                    | inl unused ↦ subst (IsSameReserve r) (ok-injective (rw unused at h2)) same
                    | inr used ↦ accrue_interest-IsSameReserve r u (rw used at h2)
                  ]
            ]
      ]

  pub load-identity :
      (l : Ledger) (asset : Address) (config : ReserveConfig) {r : Reserve}
      → l.res_config asset ≡ some config
      → Reserve.load e l pool_config asset ≡ ok r
      → (r.asset ≡ asset) × (r.config ≡ config)
  unfolding Reserve.load
  load-identity l asset config hc h = >>=-elim (get_res_data l asset) _ (rw hc at h) λ d e1 h1.
      >>=-elim (pow10 config.decimals) _ h1 λ scalar e2 h2.
        let same =
          refresh-IsSameReserve
            (record { asset = asset; config = config; state = d; scalar = scalar }) h2 in
        (same.asset, same.config)
