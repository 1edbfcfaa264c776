-- ===== src/Health/Factor.antt =====
-- What the tests of the health factor decide: pool/src/pool/health_factor.rs.
use blend_contracts_v.Prelude.{
  ℕ, Bool-cases, >>=-elim, ok-injective, ok, ℤ, pos_part, neg_part, NonNeg, eqb_ℤ, pos, ◌+◌, ◌*◌,
  ◌<◌, ◌≡◌, refl, ap, ◌↔◌, inl, inr, Bool, true, arith,
}
use blend_contracts_v.Health.{PositionData, as_health_factor, is_hf_under}
use blend_contracts_v.Env.{FixedMath, scalar_7}
use blend_contracts_v.Env.Math.{IsFixedMath, IsFloor, floor-IsFloor}
use blend_contracts_v.Reserve.Rounding.{mul_mono}

-- The values of positions with 7 decimals, none of them negative.
pub record IsValued (p : PositionData) : Type 0 where
  pub collateral : NonNeg p.collateral_base
  pub liability : NonNeg p.liability_base
  pub scale : p.scalar ≡ scalar_7

-- The ratio of the collateral to the liabilities lies under `limit`, which has 7 decimals.
abbrev pub RatioUnder : PositionData → ℕ → Type 0
RatioUnder p limit = pos_part p.collateral_base * 1_0000000 < limit * pos_part p.liability_base

module _ (math : FixedMath) (laws : IsFixedMath math) (p : PositionData) (valued : IsValued p)
    (limit : ℕ) where
  as_health_factor-IsFloor :
      {hf : ℤ}
      → as_health_factor math p ≡ ok hf
      → IsFloor p.collateral_base p.scalar p.liability_base hf
  unfolding as_health_factor
  as_health_factor-IsFloor =
      floor-IsFloor math laws p.collateral_base p.scalar p.liability_base valued.collateral
        (ap neg_part valued.scale) valued.liability

  -- For values with 7 decimals that are not negative, the rounded test `is_hf_under` is exact
  -- wherever it returns: it holds just where the collateral is less than the limit times the
  -- liabilities, the limit having 7 decimals.
  pub is_hf_under-exact :
      {under : Bool}
      → is_hf_under math p (pos limit) ≡ ok under
      → (under ≡ true) ↔ RatioUnder p limit
  unfolding is_hf_under
  is_hf_under-exact {under} h = elim (Bool-cases (eqb_ℤ p.liability_base (pos 0))) [
    | inl nothing_owed ↦ ground (arith, ok-injective (rw nothing_owed at h))
    | inr owed ↦ >>=-elim (math.floor p.scalar (pos limit) scalar_7) _ (rw owed at h) λ least e1 h1.
        >>=-elim (as_health_factor math p) _ h1 λ hf e2 h2.
          let m =
            floor-IsFloor math laws p.scalar (pos limit) scalar_7 (ap neg_part valued.scale) refl
              refl e1 in
          let f = as_health_factor-IsFloor e2 in
          let same = ok-injective h2 in
          let scale = ap pos_part valued.scale in
          ground (
            arith,
            m,
            f,
            same,
            scale,
            valued,
            mul_mono limit (pos_part hf) (pos_part p.liability_base),
            mul_mono (pos_part hf + 1) limit (pos_part p.liability_base),
          )
  ]
