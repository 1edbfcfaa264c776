-- ===== src/Reserve/Load.antt =====
-- A reserve as a transaction loads it: `load` of pool/src/pool/reserve.rs, with the interest that it
-- accrues.
use blend_contracts_v.Reserve
use blend_contracts_v.Reserve.{
  accrue_interest, refresh, Reserve, grow_debt, accrue, utilization, to_asset_from_d_token,
  to_asset_from_b_token,
}
use blend_contracts_v.Prelude.{
  ℕ, >>=-elim, ok, ℤ, ◌≤ℤ◌, NonNeg, ◌≤◌, ◌<◌, ◌≡◌, sym, subst, ◌==◌, Bool-cases, ok-injective,
  eqb_ℤ, pos, refl, ap, ◌∙◌, inl, inr, some, arith,
}
use blend_contracts_v.Storage.{ReserveData, PoolConfig, Ledger, ReserveConfig}
use blend_contracts_v.Env.{Env, env_math, Address, pow10}
use blend_contracts_v.Reserve.Rounding.{IsNonneg, utilization-IsUtilization}
use blend_contracts_v.Env.Math.{IsFixedMath}
use blend_contracts_v.Interest.Bounds.{InRange, calc_accrual-IsAccrual}
use blend_contracts_v.Interest.{calc_accrual}
use blend_contracts_v.Reserve.Accrual.{grow_debt_grows, accrue-IsAccrued}

-- What the stored entry of a reserve promises.
pub record IsSound (d : ReserveData) : Type 0 where
  pub nonneg : IsNonneg d
  pub in_range : InRange d.ir_mod

-- A reserve after it has been brought up to date.
pub record IsRefreshed (e : Env) (d d' : ReserveData) : Type 0 where
  pub sound : IsSound d'
  pub current : d'.last_time ≡ e.timestamp
  pub same_b_supply : d'.b_supply ≡ d.b_supply
  pub same_d_supply : d'.d_supply ≡ d.d_supply
  pub b_rate_grows : d.b_rate ≤ℤ d'.b_rate
  pub d_rate_grows : d.d_rate ≤ℤ d'.d_rate
  pub credit_grows : d.backstop_credit ≤ℤ d'.backstop_credit

module _ (e : Env) (laws : IsFixedMath (env_math e)) (pool_config : PoolConfig)
    (rate : pool_config.bstop_rate < 1_0000000) where
  accrue_interest-IsRefreshed :
      (r : Reserve) (cur_util : ℤ) {r' : Reserve}
      → r.config.util ≤ 0_9500000
      → IsSound r.state
      → NonNeg cur_util
      → accrue_interest e pool_config r cur_util ≡ ok r'
      → IsRefreshed e r.state r'.state × (r'.config ≡ r.config) × (r'.asset ≡ r.asset)
  unfolding accrue_interest
  accrue_interest-IsRefreshed r cur_util k s n h =
      >>=-elim (calc_accrual e r.config cur_util r.state.ir_mod r.state.last_time) _ h
        λ (factor, ir_mod) e1 h1.
          let a =
            calc_accrual-IsAccrual e laws r.config cur_util r.state.ir_mod r.state.last_time k n
              s.in_range e1 in
          let touched : ReserveData = record (r.state) { ir_mod = ir_mod } in
          let sound : IsNonneg touched = record {
            d_rate = s.nonneg.d_rate;
            b_rate = s.nonneg.b_rate;
            ir_mod = a.range.0;
            b_supply = s.nonneg.b_supply;
            d_supply = s.nonneg.d_supply;
            backstop_credit = s.nonneg.backstop_credit;
          } in
          >>=-elim (grow_debt (env_math e) touched factor) _ h1 λ (grown, interest) e2 h2.
            let g =
              grow_debt_grows (env_math e) laws touched sound factor a.factor_nonneg a.factor_ge
                e2 in
            let grown_sound : IsNonneg grown = subst IsNonneg (sym g.0) (record {
              d_rate = g.2;
              b_rate = sound.b_rate;
              ir_mod = sound.ir_mod;
              b_supply = sound.b_supply;
              d_supply = sound.d_supply;
              backstop_credit = sound.backstop_credit;
            }) in
            >>=-elim (accrue (env_math e) grown pool_config.bstop_rate interest) _ h2
              λ accrued e3 h3.
                let c =
                  accrue-IsAccrued (env_math e) laws grown grown_sound pool_config.bstop_rate
                    interest g.3 rate e3 in
                let d_rate : accrued.d_rate ≡ grown.d_rate =
                  ap (λ (x : ReserveData). x.d_rate) c.frame in
                let new_mod : accrued.ir_mod ≡ ir_mod =
                  ap (λ (x : ReserveData). x.ir_mod) c.frame
                  ∙ ap (λ (x : ReserveData). x.ir_mod) g.0 in
                let b_supply : accrued.b_supply ≡ r.state.b_supply =
                  ap (λ (x : ReserveData). x.b_supply) c.frame
                  ∙ ap (λ (x : ReserveData). x.b_supply) g.0 in
                let d_supply : accrued.d_supply ≡ r.state.d_supply =
                  ap (λ (x : ReserveData). x.d_supply) c.frame
                  ∙ ap (λ (x : ReserveData). x.d_supply) g.0 in
                let b_rate : grown.b_rate ≡ r.state.b_rate =
                  ap (λ (x : ReserveData). x.b_rate) g.0 in
                let credit : grown.backstop_credit ≡ r.state.backstop_credit =
                  ap (λ (x : ReserveData). x.backstop_credit) g.0 in
                let result : Reserve = record r {
                  state = record accrued { last_time = e.timestamp };
                } in
                subst
                  (λ (x : Reserve).
                    IsRefreshed e r.state x.state × (x.config ≡ r.config) × (x.asset ≡ r.asset))
                  {x = result} (ok-injective h3)
                  (
                    record {
                      sound = record {
                        nonneg = record {
                          d_rate = subst NonNeg (sym d_rate) g.2;
                          b_rate = c.b_rate_grows.0;
                          ir_mod = subst NonNeg (sym new_mod) a.range.0;
                          b_supply = subst NonNeg (sym b_supply) s.nonneg.b_supply;
                          d_supply = subst NonNeg (sym d_supply) s.nonneg.d_supply;
                          backstop_credit = c.credit_grows.0;
                        };
                        in_range = subst InRange (sym new_mod) a.range;
                      };
                      current = refl;
                      same_b_supply = b_supply;
                      same_d_supply = d_supply;
                      b_rate_grows = subst (λ x. x ≤ℤ accrued.b_rate) b_rate c.b_rate_grows.1;
                      d_rate_grows = subst (λ x. r.state.d_rate ≤ℤ x) (sym d_rate) g.1;
                      credit_grows =
                          subst (λ x. x ≤ℤ accrued.backstop_credit) credit c.credit_grows.1;
                    },
                    refl,
                    refl,
                  )

  -- A reserve that is already current, or that nobody has borrowed from, keeps its rates.
  idle :
      (r : Reserve) (now : ℕ)
      → now ≡ e.timestamp
      → IsSound r.state
      → IsRefreshed e r.state (record (r.state) { last_time = now })
  idle r now h s = record {
    sound = record {
      nonneg = record {
        d_rate = s.nonneg.d_rate;
        b_rate = s.nonneg.b_rate;
        ir_mod = s.nonneg.ir_mod;
        b_supply = s.nonneg.b_supply;
        d_supply = s.nonneg.d_supply;
        backstop_credit = s.nonneg.backstop_credit;
      };
      in_range = s.in_range;
    };
    current = h;
    same_b_supply = refl;
    same_d_supply = refl;
    b_rate_grows = omega arith;
    d_rate_grows = omega arith;
    credit_grows = omega arith;
  }

  utilization-NonNeg :
      (d : ReserveData) {u : ℤ} → IsNonneg d → utilization (env_math e) d ≡ ok u → NonNeg u
  unfolding utilization
  utilization-NonNeg d s h =
      >>=-elim (to_asset_from_d_token (env_math e) d d.d_supply) _ h λ l e1 h1.
        >>=-elim (to_asset_from_b_token (env_math e) d d.b_supply) _ h1
          λ b e2 h2. (utilization-IsUtilization (env_math e) laws d s e1 e2 h).nonneg

  refresh-IsRefreshed :
      (r : Reserve) {r' : Reserve}
      → r.config.util ≤ 0_9500000
      → IsSound r.state
      → refresh e pool_config r ≡ ok r'
      → IsRefreshed e r.state r'.state × (r'.config ≡ r.config) × (r'.asset ≡ r.asset)
  unfolding refresh
  refresh-IsRefreshed r {r'} k s h = elim (Bool-cases (e.timestamp == r.state.last_time)) [
    | inl current ↦ same (idle r r.state.last_time (ground (arith, current)) s) (rw current at h)
    | inr old ↦
        let h1 = rw old at h in
        elim (Bool-cases (eqb_ℤ r.state.b_supply (pos 0))) [
          | inl empty ↦ same (idle r e.timestamp refl s) (rw empty at h1)
          | inr held ↦ >>=-elim (utilization (env_math e) r.state) _ (rw held at h1) λ u e1 h2.
              elim (Bool-cases (eqb_ℤ u (pos 0))) [
                | inl unused ↦ same (idle r e.timestamp refl s) (rw unused at h2)
                | inr used ↦
                    accrue_interest-IsRefreshed r u k s (utilization-NonNeg r.state s.nonneg e1)
                      (rw used at h2)
              ]
        ]
  ]
    where
      same :
          {now : ℕ}
          → IsRefreshed e r.state (record (r.state) { last_time = now })
          → ok (record r { state = record (r.state) { last_time = now } }) ≡ ok r'
          → IsRefreshed e r.state r'.state × (r'.config ≡ r.config) × (r'.asset ≡ r.asset)
      same i q =
          subst
            (λ (x : Reserve).
              IsRefreshed e r.state x.state × (x.config ≡ r.config) × (x.asset ≡ r.asset))
            (ok-injective q) (i, refl, refl)

  -- Where the stored data has no negative field and a rate modifier between 0.1 and 10, the take
  -- rate is below 100 percent and the target utilization at most 95 percent, a reserve that `load`
  -- returns is sound in the same sense, current at the ledger's time, has the stored supplies,
  -- configuration and asset, and neither rate nor the backstop's credit has fallen.
  pub load-IsRefreshed :
      (l : Ledger) (asset : Address) (config : ReserveConfig) (d : ReserveData) {r : Reserve}
      → l.res_config asset ≡ some config
      → l.res_data asset ≡ some d
      → config.util ≤ 0_9500000
      → IsSound d
      → Reserve.load e l pool_config asset ≡ ok r
      → IsRefreshed e d r.state × (r.config ≡ config) × (r.asset ≡ asset)
  unfolding Reserve.load
  load-IsRefreshed l asset config d hc hd k s h =
      >>=-elim (pow10 config.decimals) _ (rw (hc, hd) at h) λ scalar e1 h1.
        refresh-IsRefreshed (record { asset = asset; config = config; state = d; scalar = scalar })
          k s h1
