-- ===== src/Reserve/Accrual.antt =====
-- What accrual does to the rates of a reserve: pool/src/pool/reserve.rs, `grow_debt` and `accrue`.
use blend_contracts_v.Prelude.{
  ◌≡◌, refl, ℤ, pos_part, ◌≤ℤ◌, NonNeg, ok, >>=-elim, check-ok, int_laws, ◌-ℤ◌, ℕ, ◌<◌, ◌*◌,
  Bool-cases, arith, ◌+◌, ltb_ℤ, ◌≤◌, pos, inr, inl, ◌+!◌, ◌-!◌, subst, ok-injective, +!-parts,
  -!-parts,
}
use blend_contracts_v.Env.{FixedMath, scalar_12, scalar_7}
use blend_contracts_v.Env.Math.{IsFixedMath, ceil-IsCeil, IsFloor, floor-IsFloor}
use blend_contracts_v.Storage.{ReserveData}
use blend_contracts_v.Reserve.{
  to_asset_from_d_token, grow_debt, to_asset_from_b_token, accrue, backstop_part,
}
use blend_contracts_v.Reserve.Rounding.{
  IsNonneg, to_asset_from_d_token-IsCeil, mul_mono, to_asset_from_b_token-IsFloor,
}

pub lt_of_mul_lt : (a b c : ℕ) → a * c < b * c → a < b
lt_of_mul_lt a b c h = grind arith

module _ (math : FixedMath) (laws : IsFixedMath math) (d : ReserveData) (sound : IsNonneg d) where
  -- For sound data and a factor of at least one, `grow_debt` changes only the d rate, which does
  -- not fall, and the interest charged is not negative.
  pub grow_debt_grows :
      (factor : ℤ) {d' : ReserveData} {accrued : ℤ}
      → NonNeg factor
      → scalar_12 ≤ℤ factor
      → grow_debt math d factor ≡ ok (d', accrued)
      → (d' ≡ record d { d_rate = d'.d_rate })
        × (d.d_rate ≤ℤ d'.d_rate)
        × NonNeg d'.d_rate
        × NonNeg accrued
  unfolding grow_debt to_asset_from_d_token
  grow_debt_grows factor {d'} {accrued} nonneg one h =
      >>=-elim (to_asset_from_d_token math d d.d_supply) _ h λ before e1 h1.
        >>=-elim (math.ceil factor d.d_rate scalar_12) _ h1 λ rate e2 h2.
          >>=-elim (to_asset_from_d_token math (record d { d_rate = rate }) d.d_supply) _ h2
            λ after e3 h3.
              let grown =
                ceil-IsCeil math laws factor d.d_rate scalar_12 nonneg sound.d_rate refl e2 in
              let b = to_asset_from_d_token-IsCeil math laws d sound _ sound.d_supply e1 in
              let a =
                ceil-IsCeil math laws d.d_supply rate scalar_12 sound.d_supply grown.nonneg refl
                  e3 in
              grind (
                int_laws,
                check-ok (after -ℤ before),
                mul_mono 1_000_000_000_000 (pos_part factor) (pos_part d.d_rate),
                mul_mono (pos_part d.d_rate) (pos_part rate) (pos_part d.d_supply),
              )

  module _ (bstop_rate : ℕ) (accrued : ℤ) (nonneg : NonNeg accrued)
      (rate : bstop_rate < 1_0000000) where
    -- The backstop's part of some interest is less than the interest.
    backstop_part-lt :
        {part : ℤ}
        → 0 < pos_part accrued
        → backstop_part math bstop_rate accrued ≡ ok part
        → NonNeg part × (pos_part part < pos_part accrued)
    unfolding backstop_part
    backstop_part-lt {part} some_interest h = ground (
      arith,
      floor-IsFloor math laws accrued (pos bstop_rate) scalar_7 {r = part} nonneg refl refl,
      mul_mono bstop_rate 9_999_999 (pos_part accrued),
    )

    -- Accrual changes only the b rate and the backstop's credit, lowers neither, and what it adds to
    -- the suppliers' claims and to the credit is at most the interest.
    pub record IsAccrued (d' : ReserveData) : Type 0 where
      pub frame : d' ≡ record d { b_rate = d'.b_rate; backstop_credit = d'.backstop_credit }
      pub b_rate_grows : NonNeg d'.b_rate × (d.b_rate ≤ℤ d'.b_rate)
      pub credit_grows : NonNeg d'.backstop_credit × (d.backstop_credit ≤ℤ d'.backstop_credit)
      pub conserves :
          pos_part d'.b_rate * pos_part d.b_supply + pos_part d'.backstop_credit * 1_000_000_000_000
          ≤ pos_part d.b_rate * pos_part d.b_supply
            + (pos_part d.backstop_credit + pos_part accrued) * 1_000_000_000_000

    rate_grows :
        {before shared new_rate : ℤ}
        → IsFloor d.b_supply d.b_rate scalar_12 before
        → pos_part before + 1 ≤ pos_part shared
        → NonNeg shared
        → IsFloor shared scalar_12 d.b_supply new_rate
        → pos_part d.b_rate ≤ pos_part new_rate
    rate_grows {shared = s} {new_rate = r} b more n f = omega (
      arith,
      lt_of_mul_lt (pos_part d.b_rate) (pos_part r + 1) (pos_part d.b_supply) (omega arith),
    )

    -- For sound data, interest that is not negative and a take rate below 100 percent, `accrue`
    -- changes only the b rate and the backstop's credit, lowers neither, and what the suppliers'
    -- claims, at the exact rates, and the credit grow by together is at most the interest.
    pub accrue-IsAccrued :
        {d' : ReserveData} → accrue math d bstop_rate accrued ≡ ok d' → IsAccrued d'
    unfolding accrue to_asset_from_b_token
    accrue-IsAccrued {d'} h = >>=-elim (to_asset_from_b_token math d d.b_supply) _ h λ before e1 h1.
        elim (Bool-cases (ltb_ℤ (pos 0) accrued)) [
          | inr none_due ↦ subst IsAccrued (ok-injective (rw none_due at h1)) (record {
            frame = refl;
            b_rate_grows = (sound.b_rate, omega arith);
            credit_grows = (sound.backstop_credit, omega arith);
            conserves = omega arith;
          })
          | inl due ↦
              let h2 = rw due at h1 in
              >>=-elim (backstop_part math bstop_rate accrued) _ h2 λ part e2 h3.
                >>=-elim (d.backstop_credit +! part) _ h3 λ credit e3 h4.
                  >>=-elim (before +! accrued) _ h4 λ all e4 h5.
                    >>=-elim (all -! part) _ h5 λ shared e5 h6.
                      >>=-elim (math.floor shared scalar_12 d.b_supply) _ h6 λ new_rate e6 h7.
                        let b =
                          to_asset_from_b_token-IsFloor math laws d sound _ sound.b_supply e1 in
                        let p = backstop_part-lt (ground arith) e2 in
                        let new_credit = +!-parts d.backstop_credit part e3 in
                        let with_interest = +!-parts before accrued e4 in
                        let to_suppliers = -!-parts all part e5 in
                        let nonneg_shared : NonNeg shared = omega int_laws in
                        let n =
                          floor-IsFloor math laws shared scalar_12 d.b_supply nonneg_shared refl
                            sound.b_supply e6 in
                        subst IsAccrued (ok-injective h7) (record {
                          frame = refl;
                          b_rate_grows = (
                            n.nonneg,
                            omega (
                              arith,
                              rate_grows b (omega int_laws) nonneg_shared n,
                              n.nonneg,
                              sound.b_rate,
                            ),
                          );
                          credit_grows = omega int_laws;
                          conserves = omega (
                            arith, b, n, p, new_credit, with_interest, to_suppliers,
                            sound.backstop_credit,
                          );
                        })
        ]
