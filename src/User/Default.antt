-- ===== src/User/Default.antt =====
-- What a default costs the suppliers: `default_b_rate` and `default_liabilities` of
-- pool/src/pool/user.rs.
use blend_contracts_v.Prelude.{
  ℕ, Bool-cases, >>=-elim, ok-injective, ◌-!◌, -!-parts, ok, ℤ, pos_part, ◌≤ℤ◌, NonNeg, ltb_ℤ, pos,
  ◌+◌, ◌*◌, ◌≤◌, ◌<◌, ◌≡◌, refl, sym, ◌∙◌, subst, inl, inr, arith,
}
use blend_contracts_v.Storage.{ReserveData}
use blend_contracts_v.Env.{FixedMath, scalar_12}
use blend_contracts_v.Env.Math.{IsFixedMath, ceil-IsCeil}
use blend_contracts_v.Reserve.Rounding.{IsNonneg, to_asset_from_d_token-IsCeil}
use blend_contracts_v.User.{default_b_rate}
use blend_contracts_v.Reserve.{to_asset_from_d_token}

-- The b rate after a default: it does not rise, it stays where no b tokens are held, and where some
-- are and it is not used up, the suppliers' claims fall by at least the debt that is forgiven.
pub record IsDefaultRate (d : ReserveData) (owed r : ℤ) : Type 0 where
  pub nonneg : NonNeg r
  pub falls : r ≤ℤ d.b_rate
  pub kept : pos_part d.b_supply ≡ 0 → r ≡ d.b_rate
  pub covers :
      0 < pos_part d.b_supply
      → 0 < pos_part r
      → pos_part r * pos_part d.b_supply + pos_part owed * 1_000_000_000_000
        ≤ pos_part d.b_rate * pos_part d.b_supply

spread : (b r l s o : ℕ) → r + l ≡ b → o ≤ l * s → r * s + o ≤ b * s
spread b r l s o h k = grind arith

module _ (math : FixedMath) (laws : IsFixedMath math) (d : ReserveData) (sound : IsNonneg d) where
  -- For sound data and an amount of defaulted d tokens that is not negative, the b rate after the
  -- default is not negative and not above the old one; where no b tokens are held it is the old
  -- one; and where some are held and it is not used up, the suppliers' claims at the new rate and
  -- the debt forgiven are together at most their claims at the old rate.
  pub default_b_rate-IsDefaultRate :
      (defaulted : ℤ) {owed r : ℤ}
      → NonNeg defaulted
      → to_asset_from_d_token math d defaulted ≡ ok owed
      → default_b_rate math d defaulted ≡ ok r
      → IsDefaultRate d owed r
  unfolding default_b_rate
  default_b_rate-IsDefaultRate defaulted {owed} {r} n ho h =
      elim (Bool-cases (ltb_ℤ (pos 0) d.b_supply)) [
        | inr empty ↦
            let same = ok-injective (rw empty at h) in
            subst (IsDefaultRate d owed) same (record {
              nonneg = sound.b_rate;
              falls = omega arith;
              kept = λ x. refl;
              covers = λ x y. absurd (ground arith);
            })
        | inl held ↦ >>=-elim (to_asset_from_d_token math d defaulted) _ (rw held at h) λ o e1 h1.
            >>=-elim (math.ceil o scalar_12 d.b_supply) _ h1 λ loss e2 h2.
              >>=-elim (d.b_rate -! loss) _ h2 λ rate e3 h3.
                let same = ok-injective (sym ho ∙ e1) in
                let c = to_asset_from_d_token-IsCeil math laws d sound defaulted n e1 in
                let l =
                  ceil-IsCeil math laws o scalar_12 d.b_supply c.nonneg refl sound.b_supply e2 in
                let parts = -!-parts d.b_rate loss e3 in
                subst (IsDefaultRate d owed) (ok-injective h3) (record {
                  nonneg = ground arith;
                  falls = ground arith;
                  kept = λ x. absurd (ground (arith, held, x));
                  covers = λ x y. ground (
                    arith,
                    same,
                    l,
                    parts,
                    spread (pos_part d.b_rate) (pos_part rate) (pos_part loss) (pos_part d.b_supply)
                        (pos_part owed * 1_000_000_000_000),
                  );
                })
      ]
