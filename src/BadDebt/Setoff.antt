-- ===== src/BadDebt/Setoff.antt =====
-- What a debtor's own supply pays of a bad debt: `supply_setoff` of pool/src/pool/bad_debt.rs.
use blend_contracts_v.Reserve.Rounding.{
  to_asset_from_b_token-IsFloor, to_d_token_down-IsFloor, mul_mono, IsNonneg,
  to_asset_from_d_token-IsCeil, to_b_token_up-IsCeil,
}
use blend_contracts_v.Prelude.{
  Bool-cases, >>=-elim, ok-injective, ◌-!◌, -!-parts, ok, ℤ, pos_part, ◌≤ℤ◌, NonNeg, ltb_ℤ, min_ℤ,
  pos, ◌+◌, ◌*◌, ◌≤◌, ◌≡◌, refl, subst, inl, inr, ◌&&◌, arith,
}
use blend_contracts_v.Env.{FixedMath}
use blend_contracts_v.Env.Math.{IsFixedMath}
use blend_contracts_v.Storage.{ReserveData}
use blend_contracts_v.BadDebt.{SupplySetoff, no_setoff, supply_setoff}
use blend_contracts_v.Reserve.{
  to_asset_from_d_token, to_b_token_up, to_asset_from_b_token, to_d_token_down,
}

module _ (math : FixedMath) (laws : IsFixedMath math) (d : ReserveData) (sound : IsNonneg d) where
  -- A setoff burns at most the claim, splits the debt exactly, and repays no more than the burnt
  -- b tokens are worth; where it repays nothing, it burns nothing.
  pub record IsSetoff (amount claim : ℤ) (s : SupplySetoff) : Type 0 where
    pub burn_nonneg : NonNeg s.burn
    pub repaid_nonneg : NonNeg s.repaid
    pub residual_nonneg : NonNeg s.residual
    pub burn_le : s.burn ≤ℤ claim
    pub splits : pos_part s.repaid + pos_part s.residual ≡ pos_part amount
    pub backed : pos_part s.repaid * pos_part d.d_rate ≤ pos_part s.burn * pos_part d.b_rate
    pub unused : s.repaid ≡ pos 0 → s.burn ≡ pos 0

  module _ (amount claim : ℤ) (n : NonNeg amount) (m : NonNeg claim) where
    nothing : IsSetoff amount claim (no_setoff amount)
    nothing = record {
      burn_nonneg = refl;
      repaid_nonneg = refl;
      residual_nonneg = n;
      burn_le = omega arith;
      splits = omega arith;
      backed = omega arith;
      unused = λ x. refl;
    }

    -- For sound data, and a debt and a claim that are not negative, a setoff burns at most the
    -- claim, splits the debt exactly into the repaid part and the residual, repays no more than
    -- the burnt b tokens are worth, and burns nothing where it repays nothing.
    pub supply_setoff-IsSetoff :
        {s : SupplySetoff} → supply_setoff math d amount claim ≡ ok s → IsSetoff amount claim s
    unfolding supply_setoff
    supply_setoff-IsSetoff {s} h =
        elim (Bool-cases (ltb_ℤ (pos 0) claim && ltb_ℤ (pos 0) d.b_rate)) [
          | inr none_held ↦ subst (IsSetoff amount claim) (ok-injective (rw none_held at h)) nothing
          | inl held ↦ >>=-elim (to_asset_from_d_token math d amount) _ (rw held at h) λ debt e1 h1.
              >>=-elim (to_b_token_up math d debt) _ h1 λ needed e2 h2.
                >>=-elim (to_asset_from_b_token math d (min_ℤ claim needed)) _ h2 λ covered e3 h3.
                  >>=-elim (to_d_token_down math d covered) _ h3 λ payable e4 h4.
                    let a = to_asset_from_d_token-IsCeil math laws d sound amount n e1 in
                    let b = to_b_token_up-IsCeil math laws d sound debt a.nonneg e2 in
                    let burn_nonneg : NonNeg (min_ℤ claim needed) = ground (arith, b.nonneg) in
                    let c = to_asset_from_b_token-IsFloor math laws d sound _ burn_nonneg e3 in
                    let p = to_d_token_down-IsFloor math laws d sound covered c.nonneg e4 in
                    elim (Bool-cases (ltb_ℤ (pos 0) (min_ℤ amount payable))) [
                      | inr too_small ↦
                          subst (IsSetoff amount claim) (ok-injective (rw too_small at h4)) nothing
                      | inl pays ↦
                          >>=-elim (amount -! min_ℤ amount payable) _ (rw pays at h4)
                            λ residual e5 h5.
                              let parts = -!-parts amount (min_ℤ amount payable) e5 in
                              subst (IsSetoff amount claim) (ok-injective h5) (record {
                                burn_nonneg = burn_nonneg;
                                repaid_nonneg = ground (arith, p.nonneg);
                                residual_nonneg = ground arith;
                                burn_le = ground arith;
                                splits = ground arith;
                                backed = ground (
                                  arith,
                                  p,
                                  c,
                                  mul_mono (pos_part (min_ℤ amount payable)) (pos_part payable)
                                      (pos_part d.d_rate),
                                );
                                unused = λ x. absurd (ground arith);
                              })
                    ]
        ]
