-- ===== src/Health/Faithful.antt =====
-- The valuation of positions is faithful to the pool's configuration and its oracle:
-- `calculate_from_positions` of pool/src/pool/health_factor.rs.
use blend_contracts_v.Pool.Faithful.{
  IsFaithful, ◌after◌, same, load_reserve-IsFaithful, cache_reserve-IsFaithful,
  load_price-IsFaithful, load_price_decimals-IsFaithful,
}
use blend_contracts_v.Prelude.{
  ℕ, Bool-cases, >>=-elim, ok-injective, ok, eqb_ℤ, pos, ◌+◌, ◌≡◌, sym, ap, inl, inr, false, ◌&&◌,
  List, [], ◌∷◌,
}
use blend_contracts_v.Env.{Env, Address, pow10}
use blend_contracts_v.Storage.{Ledger, Positions, get_res_list}
use blend_contracts_v.Pool.{Pool, load_reserve, load_price, load_price_decimals}
use blend_contracts_v.Health.{
  PositionData, add_reserve, add_reserves, add_collateral_value, add_liability_value,
  calculate_from_positions,
}
use blend_contracts_v.Prelude.Map

module _ (e : Env) (l : Ledger) (positions : Positions) where
  add_reserve-IsFaithful :
      (asset : Address) (i : ℕ) (pool : Pool) (acc : PositionData) {pool' : Pool}
      {acc' : PositionData}
      → add_reserve e l positions asset i pool acc ≡ ok (pool', acc')
      → IsFaithful e pool pool'
  unfolding add_reserve
  add_reserve-IsFaithful asset i pool acc h =
      let b = Map.get_or i (pos 0) positions.collateral in
      let d = Map.get_or i (pos 0) positions.liabilities in
      elim (Bool-cases (eqb_ℤ b (pos 0) && eqb_ℤ d (pos 0))) [
        | inl nothing ↦
            same e (ap (λ (x : Pool × PositionData). x.0) (sym (ok-injective (rw nothing at h))))
        | inr some_held ↦
            >>=-elim (load_reserve e l pool asset false) _ (rw some_held at h) λ (pool₁, r) e1 h1.
              >>=-elim (load_price e pool₁ r.asset) _ h1 λ (pool₂, price) e2 h2.
                >>=-elim (add_collateral_value e r price b acc) _ h2 λ acc₁ e3 h3.
                  >>=-elim (add_liability_value e r price d acc₁) _ h3 λ acc₂ e4 h4.
                    same e (ap (λ (x : Pool × PositionData). x.0) (sym (ok-injective h4)))
                    after cache_reserve-IsFaithful e pool₂ r
                    after load_price-IsFaithful e pool₁ r.asset e2
                    after load_reserve-IsFaithful e l pool asset false e1
      ]

  add_reserves-IsFaithful :
      (assets : List Address) (i : ℕ) (pool : Pool) (acc : PositionData) {pool' : Pool}
      {acc' : PositionData}
      → add_reserves e l positions assets i pool acc ≡ ok (pool', acc')
      → IsFaithful e pool pool'
  unfolding add_reserves
  add_reserves-IsFaithful [] i pool acc h =
      same e (ap (λ (x : Pool × PositionData). x.0) (sym (ok-injective h)))
  add_reserves-IsFaithful (asset ∷ rest) i pool acc h =
      >>=-elim (add_reserve e l positions asset i pool acc) _ h λ (pool₁, acc₁) e1 h1.
        add_reserves-IsFaithful rest (i + 1) pool₁ acc₁ h1
        after add_reserve-IsFaithful asset i pool acc e1

  pub calculate_from_positions-IsFaithful :
      (pool : Pool) {pool' : Pool} {data' : PositionData}
      → calculate_from_positions e l pool positions ≡ ok (pool', data')
      → IsFaithful e pool pool'
  unfolding calculate_from_positions
  calculate_from_positions-IsFaithful pool h =
      >>=-elim (load_price_decimals e pool) _ h λ (pool₁, decimals) e1 h1.
        >>=-elim (pow10 decimals) _ h1 λ scalar e2 h2.
          add_reserves-IsFaithful (get_res_list l) 0 pool₁ _ h2
          after load_price_decimals-IsFaithful e pool e1
