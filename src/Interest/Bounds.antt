-- ===== src/Interest/Bounds.antt =====
-- The bounds of the rate modifier and of the accrual factor: pool/src/pool/interest.rs.
use blend_contracts_v.Prelude.{
  ℕ, ok, ℤ, pos_part, ◌≤ℤ◌, NonNeg, pos, negsuc, ◌≤◌, ◌≡◌, refl, Bool-cases, >>=-elim, ok-injective,
  ◌+!◌, ◌-!◌, ◌*!◌, check-ok, +!-parts, -!-parts, ◌-ℤ◌, leb_ℤ, quot_ℤ, suc, ◌*◌, ◌/◌, subst, inl,
  inr, arith, ◌*ℤ◌, ltb, panic_if-elim, add_u, sub_u,
}
use blend_contracts_v.Env.{FixedMath, scalar_12, scalar_7, seconds_per_year, Env, env_math}
use blend_contracts_v.Env.Math.{IsFixedMath, floor-IsFloor, ceil-IsCeil}
use blend_contracts_v.Storage.{ReserveConfig}
use blend_contracts_v.Interest.{
  next_ir_mod, finish_accrual, current_interest, low_interest, mid_interest, high_interest,
  calc_accrual,
}
use blend_contracts_v.Reserve.Accrual.{lt_of_mul_lt}

-- The modifier stays between a tenth and ten.
abbrev pub InRange : ℤ → Type 0
InRange ir_mod = NonNeg ir_mod × (pos 0_1000000 ≤ℤ ir_mod) × (ir_mod ≤ℤ pos 10_0000000)

module _ (math : FixedMath) (laws : IsFixedMath math) (config : ReserveConfig) where
  -- A scaled difference has the difference's sign.
  scaled-sign :
      (t : ℕ) (z : ℤ) {r : ℤ}
      → pos t *! z ≡ ok r
      → (pos 0 ≤ℤ z → NonNeg r) × (z ≤ℤ pos 0 → pos_part r ≡ 0)
  unfolding ◌*ℤ◌
  scaled-sign t (pos n) h =
      let same = check-ok (pos t *ℤ pos n) h in (λ x. grind (arith, same), λ x. grind (arith, same))
  scaled-sign t (negsuc n) h =
      let same = check-ok (pos t *ℤ negsuc n) h in
      (λ x. absurd (omega arith), λ x. grind (arith, same))

  -- What is not positive stays so when it is scaled and rounded up.
  ceil-nonpos :
      (x : ℤ) (y d : ℕ) {r : ℤ}
      → pos_part x ≡ 0
      → math.ceil x (pos y) (pos d) ≡ ok r
      → pos_part r ≡ 0
  unfolding ◌-ℤ◌
  ceil-nonpos (pos n) y d {r} k h =
      let c = ceil-IsCeil math laws (pos n) (pos y) (pos d) refl refl refl h in
      grind (arith, c, lt_of_mul_lt (pos_part r) 1 d)
  ceil-nonpos (negsuc n) y d {r} k h =
      let same = check-ok (pos 0 -ℤ pos (suc n * y / d)) {r = r} in
      ground (arith, laws.ceil_neg n y d, same)

  quot-NonNeg : (z : ℤ) (d : ℕ) → NonNeg z → NonNeg (quot_ℤ z d)
  unfolding quot_ℤ
  quot-NonNeg (pos n) d h = refl
  quot-NonNeg (negsuc n) d h = absurd (omega arith)

  next_ir_mod-InRange :
      (util_dif ir_mod : ℤ) (delta_time : ℕ) {next : ℤ}
      → InRange ir_mod
      → next_ir_mod math config util_dif ir_mod (pos delta_time) ≡ ok next
      → InRange next × (pos 0 ≤ℤ util_dif → ir_mod ≤ℤ next) × (util_dif ≤ℤ pos 0 → next ≤ℤ ir_mod)
  unfolding next_ir_mod
  next_ir_mod-InRange util_dif ir_mod delta_time range h =
      >>=-elim (pos delta_time *! util_dif) _ h λ util_error e1 h1.
        let sign = scaled-sign delta_time util_dif e1 in
        elim (Bool-cases (leb_ℤ (pos 0) util_dif)) [
          | inl above ↦
              let h2 = rw above at h1 in
              >>=-elim (math.floor util_error (pos config.reactivity) scalar_7) _ h2
                λ rate_dif e2 h3. >>=-elim (ir_mod +! rate_dif) _ h3 λ next e3 h4.
                  let f =
                    floor-IsFloor math laws util_error (pos config.reactivity) scalar_7
                      (sign.0 (ground arith)) refl refl e2 in
                  let sum = +!-parts ir_mod rate_dif e3 in
                  ground (arith, f.nonneg, sum, ok-injective h4)
          | inr below ↦
              let h2 = rw below at h1 in
              >>=-elim (math.ceil util_error (pos config.reactivity) scalar_7) _ h2
                λ rate_dif e2 h3. >>=-elim (ir_mod +! rate_dif) _ h3 λ next e3 h4.
                  let c =
                    ceil-nonpos util_error config.reactivity 1_0000000 (sign.1 (ground arith)) e2 in
                  let sum = +!-parts ir_mod rate_dif e3 in ground (arith, c, sum, ok-injective h4)
        ]

  -- An accrual over any interval keeps the modifier in range, raises it only above the target
  -- utilization and lowers it only below, and its factor is at least one.
  pub record IsAccrual (cur_util ir_mod factor new_ir_mod : ℤ) : Type 0 where
    pub factor_nonneg : NonNeg factor
    pub factor_ge : scalar_12 ≤ℤ factor
    pub range : InRange new_ir_mod
    pub rises : pos config.util ≤ℤ cur_util → ir_mod ≤ℤ new_ir_mod
    pub falls : cur_util ≤ℤ pos config.util → new_ir_mod ≤ℤ ir_mod

  pub finish_accrual-IsAccrual :
      (cur_util ir_mod cur_ir : ℤ) (delta_time : ℕ) {factor new_ir_mod : ℤ}
      → InRange ir_mod
      → NonNeg cur_ir
      → finish_accrual math config cur_util ir_mod (pos delta_time) cur_ir ≡ ok (factor, new_ir_mod)
      → IsAccrual cur_util ir_mod factor new_ir_mod
  unfolding finish_accrual
  finish_accrual-IsAccrual cur_util ir_mod cur_ir delta_time range n h =
      >>=-elim (cur_util -! pos config.util) _ h λ util_dif e1 h1.
        >>=-elim (next_ir_mod math config util_dif ir_mod (pos delta_time)) _ h1 λ new_ir_mod e2 h2.
          >>=-elim (pos delta_time *! scalar_12) _ h2 λ scaled e3 h3.
            >>=-elim (math.ceil (quot_ℤ scaled seconds_per_year) cur_ir scalar_7) _ h3
              λ accrued e4 h4. >>=-elim (scalar_12 +! accrued) _ h4 λ factor e5 h5.
                let dif = -!-parts cur_util (pos config.util) e1 in
                let next = next_ir_mod-InRange util_dif ir_mod delta_time range e2 in
                let years : NonNeg (quot_ℤ scaled seconds_per_year) =
                  quot-NonNeg scaled seconds_per_year
                    ((scaled-sign delta_time scalar_12 e3).0 (omega arith)) in
                let c = ceil-IsCeil math laws _ cur_ir scalar_7 years n refl e4 in
                let sum = +!-parts scalar_12 accrued e5 in
                subst (λ (f, m). IsAccrual cur_util ir_mod f m) (ok-injective h5)
                  (record {
                    factor_nonneg = omega (arith, sum, c.nonneg);
                    factor_ge = omega (arith, sum, c.nonneg);
                    range = next.0;
                    rises = λ x. next.1 (omega (arith, dif));
                    falls = λ x. next.2 (omega (arith, dif));
                  })

  ceil-NonNeg :
      (x y d : ℤ) {r : ℤ} → NonNeg x → NonNeg y → NonNeg d → math.ceil x y d ≡ ok r → NonNeg r
  ceil-NonNeg x y d n m k h = (ceil-IsCeil math laws x y d n m k h).nonneg

  -- Where the target is at most 95 percent, a utilization and a modifier that are not negative give a
  -- rate that is not negative, on each leg of the curve.
  current_interest-NonNeg :
      (cur_util ir_mod : ℤ) {r : ℤ}
      → config.util ≤ 0_9500000
      → NonNeg cur_util
      → NonNeg ir_mod
      → current_interest math config cur_util ir_mod ≡ ok r
      → NonNeg r
  unfolding current_interest low_interest mid_interest high_interest
  current_interest-NonNeg cur_util ir_mod k n m h =
      elim (Bool-cases (leb_ℤ cur_util (pos config.util))) [
        | inl low ↦
            let h1 = rw low at h in
            >>=-elim (math.ceil cur_util scalar_7 (pos config.util)) _ h1 λ u e1 h2.
              >>=-elim (math.ceil u (pos config.r_one) scalar_7) _ h2 λ scaled e2 h3.
                >>=-elim (scaled +! pos config.r_base) _ h3 λ base_rate e3 h4.
                  let s =
                    ceil-NonNeg u (pos config.r_one) scalar_7
                      (ceil-NonNeg cur_util scalar_7 (pos config.util) n refl refl e1) refl refl
                      e2 in
                  ceil-NonNeg base_rate ir_mod scalar_7
                    (omega (arith, s, +!-parts scaled (pos config.r_base) e3)) m refl h4
        | inr above ↦
            let h1 = rw above at h in
            elim (Bool-cases (leb_ℤ cur_util (pos 0_9500000))) [
              | inl mid ↦
                  let h2 = rw mid at h1 in
                  >>=-elim (cur_util -! pos config.util) _ h2 λ over e1 h3.
                    >>=-elim (pos 0_9500000 -! pos config.util) _ h3 λ width e2 h4.
                      >>=-elim (math.ceil over scalar_7 width) _ h4 λ u e3 h5.
                        >>=-elim (math.ceil u (pos config.r_two) scalar_7) _ h5 λ scaled e4 h6.
                          >>=-elim (scaled +! pos config.r_one) _ h6 λ with_one e5 h7.
                            >>=-elim (with_one +! pos config.r_base) _ h7 λ base_rate e6 h8.
                              let un =
                                ceil-NonNeg over scalar_7 width
                                  (ground (arith, -!-parts cur_util (pos config.util) e1)) refl
                                  (omega (arith, k, -!-parts (pos 0_9500000) (pos config.util) e2))
                                  e3 in
                              let s = ceil-NonNeg u (pos config.r_two) scalar_7 un refl refl e4 in
                              let w = +!-parts scaled (pos config.r_one) e5 in
                              ceil-NonNeg base_rate ir_mod scalar_7
                                (omega (arith, s, w, +!-parts with_one (pos config.r_base) e6)) m
                                refl h8
              | inr high ↦
                  let h2 = rw high at h1 in
                  >>=-elim (cur_util -! pos 0_9500000) _ h2 λ over e1 h3.
                    >>=-elim (math.ceil over scalar_7 (pos 0_0500000)) _ h3 λ u e2 h4.
                      >>=-elim (math.ceil u (pos config.r_three) scalar_7) _ h4 λ extra e3 h5.
                        >>=-elim (add_u 32 config.r_two config.r_one) _ h5 λ two_one e4 h6.
                          >>=-elim (add_u 32 two_one config.r_base) _ h6 λ rates e5 h7.
                            >>=-elim (math.ceil ir_mod (pos rates) scalar_7) _ h7 λ meets e6 h8.
                              let un =
                                ceil-NonNeg over scalar_7 (pos 0_0500000)
                                  (ground (arith, -!-parts cur_util (pos 0_9500000) e1)) refl refl
                                  e2 in
                              let x = ceil-NonNeg u (pos config.r_three) scalar_7 un refl refl e3 in
                              let y = ceil-NonNeg ir_mod (pos rates) scalar_7 m refl refl e6 in
                              omega (arith, x, y, +!-parts extra meets h8)
            ]
      ]

-- Where the target utilization is at most 95 percent, the utilization is not negative and the
-- stored modifier lies between 0.1 and 10, the accrual factor is at least one, the new modifier
-- lies in the same range, and it does not fall at or above the target nor rise at or below it.
pub calc_accrual-IsAccrual :
    (e : Env) (laws : IsFixedMath (env_math e)) (config : ReserveConfig) (cur_util ir_mod : ℤ)
    (last_time : ℕ) {factor new_ir_mod : ℤ}
    → config.util ≤ 0_9500000
    → NonNeg cur_util
    → InRange ir_mod
    → calc_accrual e config cur_util ir_mod last_time ≡ ok (factor, new_ir_mod)
    → IsAccrual (env_math e) laws config cur_util ir_mod factor new_ir_mod
unfolding calc_accrual
calc_accrual-IsAccrual e laws config cur_util ir_mod last_time k n range h =
    >>=-elim (current_interest (env_math e) config cur_util ir_mod) _ h λ cur_ir e1 h1.
      >>=-elim (sub_u e.timestamp last_time) _ h1 λ delta e2 h2.
        panic_if-elim (ltb delta 1) _ _ h2 λ later h3.
          finish_accrual-IsAccrual (env_math e) laws config cur_util ir_mod cur_ir delta range
            (current_interest-NonNeg (env_math e) laws config cur_util ir_mod k n range.0 e1) h3
