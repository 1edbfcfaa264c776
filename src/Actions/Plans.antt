-- ===== src/Actions/Plans.antt =====
-- What a withdrawal and a repayment move: `plan_withdraw` and `plan_repay` of
-- pool/src/pool/actions.rs.
use blend_contracts_v.Prelude.{
  Bool-cases, >>=-elim, ok-injective, ok, ℤ, pos_part, ◌≤ℤ◌, NonNeg, ltb_ℤ, pos, ◌*◌, ◌≤◌, ◌≡◌, inl,
  inr, ◌&&◌, ◌-!◌, -!-parts, ◌+◌, refl, subst, Bool, arith,
}
use blend_contracts_v.Env.{FixedMath}
use blend_contracts_v.Env.Math.{IsFixedMath}
use blend_contracts_v.Storage.{ReserveData}
use blend_contracts_v.Reserve.Rounding.{
  IsNonneg, to_asset_from_b_token-IsFloor, to_b_token_up-IsCeil, to_d_token_down-IsFloor,
  to_asset_from_d_token-IsCeil, mul_mono,
}
use blend_contracts_v.Actions.{plan_withdraw, plan_repay}
use blend_contracts_v.Reserve.{
  to_asset_from_b_token, to_b_token_up, to_d_token_down, to_asset_from_d_token,
}

module _ (math : FixedMath) (laws : IsFixedMath math) (d : ReserveData) (sound : IsNonneg d) where
  -- What a withdrawal may move: no more than the position, no more than was asked for, and no more
  -- than the burnt b tokens are worth.
  pub record IsWithdrawal (amount position out burnt : ℤ) : Type 0 where
    pub out_nonneg : NonNeg out
    pub burnt_nonneg : NonNeg burnt
    pub burnt_le : burnt ≤ℤ position
    pub out_le : out ≤ℤ amount
    pub backed : pos_part out * 1_000_000_000_000 ≤ pos_part burnt * pos_part d.b_rate

  module _ (amount position : ℤ) (n : NonNeg amount) (m : NonNeg position) where
    -- For sound data, and an amount and a position that are not negative, a withdrawal that
    -- `plan_withdraw` returns burns no more b tokens than the position holds, pays out no more
    -- than the amount, and pays out no more than the burnt b tokens are worth; neither is
    -- negative.
    pub plan_withdraw-IsWithdrawal :
        {out burnt : ℤ}
        → plan_withdraw math d amount position ≡ ok (out, burnt)
        → IsWithdrawal amount position out burnt
    unfolding plan_withdraw
    plan_withdraw-IsWithdrawal {out} {burnt} h =
        >>=-elim (to_asset_from_b_token math d position) _ h λ value e1 h1.
          let v = to_asset_from_b_token-IsFloor math laws d sound position m e1 in
          elim (Bool-cases (ltb_ℤ (pos 0) d.b_rate && ltb_ℤ value amount)) [
            | inl all ↦
                subst (λ (o, b). IsWithdrawal amount position o b) (ok-injective (rw all at h1))
                  (record {
                    out_nonneg = v.nonneg;
                    burnt_nonneg = m;
                    burnt_le = omega arith;
                    out_le = ground arith;
                    backed = v.below;
                  })
            | inr part ↦ >>=-elim (to_b_token_up math d amount) _ (rw part at h1) λ up e2 h2.
                let u = to_b_token_up-IsCeil math laws d sound amount n e2 in
                elim (Bool-cases (ltb_ℤ position up)) [
                  | inr enough ↦
                      subst (λ (o, b). IsWithdrawal amount position o b)
                        (ok-injective (rw enough at h2))
                        (record {
                          out_nonneg = n;
                          burnt_nonneg = u.nonneg;
                          burnt_le = ground arith;
                          out_le = omega arith;
                          backed = u.above;
                        })
                  | inl short ↦
                      >>=-elim (to_asset_from_b_token math d position) _ (rw short at h2)
                        λ out' e3 h3.
                          let o = to_asset_from_b_token-IsFloor math laws d sound position m e3 in
                          subst (λ (o, b). IsWithdrawal amount position o b) (ok-injective h3)
                            (record {
                              out_nonneg = o.nonneg;
                              burnt_nonneg = m;
                              burnt_le = omega arith;
                              out_le = ground (
                                arith,
                                o,
                                u,
                                mul_mono (pos_part position + 1) (pos_part up) (pos_part d.b_rate),
                              );
                              backed = o.below;
                            })
                ]
          ]

  -- What a repayment may move: the payment and the refund make up the amount, the burnt d tokens
  -- are at most the debt, and they oblige to at most the payment.
  pub record IsRepayment (amount debt paid burnt refund : ℤ) : Type 0 where
    pub burnt_nonneg : NonNeg burnt
    pub burnt_le : burnt ≤ℤ debt
    pub refund_nonneg : NonNeg refund
    pub paid_nonneg : NonNeg paid
    pub splits : pos_part paid + pos_part refund ≡ pos_part amount
    pub frees : pos_part burnt * pos_part d.d_rate ≤ pos_part paid * 1_000_000_000_000

  module _ (amount debt : ℤ) (n : NonNeg amount) (m : NonNeg debt) where
    -- For sound data, and an amount and a debt that are not negative, a repayment that
    -- `plan_repay` returns splits the amount into the payment and a refund that are not negative,
    -- burns no more d tokens than the debt, and the burnt d tokens oblige to no more than the
    -- payment.
    pub plan_repay-IsRepayment :
        {paid burnt refund : ℤ} {capped : Bool}
        → plan_repay math d amount debt ≡ ok (paid, burnt, refund, capped)
        → IsRepayment amount debt paid burnt refund
    unfolding plan_repay
    plan_repay-IsRepayment h = >>=-elim (to_d_token_down math d amount) _ h λ down e1 h1.
        let b = to_d_token_down-IsFloor math laws d sound amount n e1 in
        elim (Bool-cases (ltb_ℤ debt down)) [
          | inr within ↦
              subst (λ (p, b, r, c). IsRepayment amount debt p b r) (ok-injective (rw within at h1))
                (record {
                  burnt_nonneg = b.nonneg;
                  burnt_le = ground arith;
                  refund_nonneg = refl;
                  paid_nonneg = n;
                  splits = omega arith;
                  frees = b.below;
                })
          | inl capped' ↦
              >>=-elim (to_asset_from_d_token math d debt) _ (rw capped' at h1) λ owed e2 h2.
                >>=-elim (amount -! owed) _ h2 λ back e3 h3.
                  let o = to_asset_from_d_token-IsCeil math laws d sound debt m e2 in
                  let parts = -!-parts amount owed e3 in
                  let le : pos_part owed ≤ pos_part amount = ground (
                    arith,
                    o,
                    b,
                    mul_mono (pos_part debt + 1) (pos_part down) (pos_part d.d_rate),
                  ) in
                  subst (λ (p, b, r, c). IsRepayment amount debt p b r) (ok-injective h3)
                    (record {
                      burnt_nonneg = m;
                      burnt_le = omega arith;
                      refund_nonneg = omega arith;
                      paid_nonneg = o.nonneg;
                      splits = omega arith;
                      frees = o.above;
                    })
        ]
