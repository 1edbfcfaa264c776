-- ===== src/Reserve/Rounding.antt =====
-- Which way the conversions of a reserve round, and what its utilization bounds
-- (pool/src/pool/reserve.rs).
use blend_contracts_v.Prelude.{
  ℕ, ◌+◌, ◌*◌, ◌≤◌, ◌<◌, ◌≡◌, ℤ, pos, pos_part, ◌≤ℤ◌, ◌<ℤ◌, NonNeg, ok, >>=-elim, arith,
}
use blend_contracts_v.Env.{FixedMath, Env, env_math, scalar_7, scalar_12}
use blend_contracts_v.Env.Math.{IsFixedMath, IsFloor, IsCeil, floor-IsFloor, ceil-IsCeil}
use blend_contracts_v.Storage.{ReserveData}
use blend_contracts_v.Reserve.{
  Reserve, to_asset_from_b_token, to_asset_from_d_token, to_b_token_down, to_b_token_up,
  to_d_token_down, to_d_token_up, utilization, require_utilization_below_max, total_liabilities,
  total_supply,
}

-- No stored amount or rate is negative.
pub record IsNonneg (d : ReserveData) : Type 0 where
  pub d_rate : NonNeg d.d_rate
  pub b_rate : NonNeg d.b_rate
  pub ir_mod : NonNeg d.ir_mod
  pub b_supply : NonNeg d.b_supply
  pub d_supply : NonNeg d.d_supply
  pub backstop_credit : NonNeg d.backstop_credit

quotient_le_scale : (u s l : ℕ) → l < s → u * s < l * 1_0000000 + s → u ≤ 1_0000000
quotient_le_scale u s l h k = grind arith

pub mul_mono : (a b c : ℕ) → a ≤ b → a * c ≤ b * c
mul_mono a b c h = grind arith

-- What a utilization says of the reserve's totals.
pub record IsUtilization (liabilities supply u : ℤ) : Type 0 where
  pub nonneg : NonNeg u
  pub capped : u ≤ℤ scalar_7
  pub zero_iff_no_debt : (u ≡ pos 0 → liabilities ≡ pos 0) × (liabilities ≡ pos 0 → u ≡ pos 0)
  pub covers : u <ℤ scalar_7 → pos_part liabilities * 1_0000000 ≤ pos_part u * pos_part supply

module _ (math : FixedMath) (laws : IsFixedMath math) (d : ReserveData) (sound : IsNonneg d) where
  module _ (x : ℤ) {r : ℤ} (nonneg : NonNeg x) where
    pub to_asset_from_b_token-IsFloor :
        to_asset_from_b_token math d x ≡ ok r → IsFloor x d.b_rate scalar_12 r
    unfolding to_asset_from_b_token
    to_asset_from_b_token-IsFloor =
        floor-IsFloor math laws x d.b_rate scalar_12 nonneg sound.b_rate (omega arith)

    pub to_asset_from_d_token-IsCeil :
        to_asset_from_d_token math d x ≡ ok r → IsCeil x d.d_rate scalar_12 r
    unfolding to_asset_from_d_token
    to_asset_from_d_token-IsCeil =
        ceil-IsCeil math laws x d.d_rate scalar_12 nonneg sound.d_rate (omega arith)

    pub to_b_token_down-IsFloor : to_b_token_down math d x ≡ ok r → IsFloor x scalar_12 d.b_rate r
    unfolding to_b_token_down
    to_b_token_down-IsFloor =
        floor-IsFloor math laws x scalar_12 d.b_rate nonneg (omega arith) sound.b_rate

    pub to_b_token_up-IsCeil : to_b_token_up math d x ≡ ok r → IsCeil x scalar_12 d.b_rate r
    unfolding to_b_token_up
    to_b_token_up-IsCeil =
        ceil-IsCeil math laws x scalar_12 d.b_rate nonneg (omega arith) sound.b_rate

    pub to_d_token_down-IsFloor : to_d_token_down math d x ≡ ok r → IsFloor x scalar_12 d.d_rate r
    unfolding to_d_token_down
    to_d_token_down-IsFloor =
        floor-IsFloor math laws x scalar_12 d.d_rate nonneg (omega arith) sound.d_rate

    pub to_d_token_up-IsCeil : to_d_token_up math d x ≡ ok r → IsCeil x scalar_12 d.d_rate r
    unfolding to_d_token_up
    to_d_token_up-IsCeil =
        ceil-IsCeil math laws x scalar_12 d.d_rate nonneg (omega arith) sound.d_rate

  -- For sound data and an amount that is not negative, the b tokens that a deposit mints are worth
  -- at most the deposit, and the b tokens that a withdrawal burns are worth at least what it pays
  -- out.
  pub supply_rounding :
      (amount : ℤ) {minted worth burnt cost : ℤ}
      → NonNeg amount
      → to_b_token_down math d amount ≡ ok minted
      → to_asset_from_b_token math d minted ≡ ok worth
      → to_b_token_up math d amount ≡ ok burnt
      → to_asset_from_b_token math d burnt ≡ ok cost
      → (worth ≤ℤ amount) × (amount ≤ℤ cost)
  supply_rounding amount n hm hw hb hc =
      let m = to_b_token_down-IsFloor amount n hm in
      let w = to_asset_from_b_token-IsFloor _ m.nonneg hw in
      let b = to_b_token_up-IsCeil amount n hb in
      let c = to_asset_from_b_token-IsFloor _ b.nonneg hc in omega arith

  -- For sound data and an amount that is not negative, the d tokens that a loan mints oblige to at
  -- least the loan, and the d tokens that a repayment burns oblige to at most what was paid.
  pub debt_rounding :
      (amount : ℤ) {minted owed burnt freed : ℤ}
      → NonNeg amount
      → to_d_token_up math d amount ≡ ok minted
      → to_asset_from_d_token math d minted ≡ ok owed
      → to_d_token_down math d amount ≡ ok burnt
      → to_asset_from_d_token math d burnt ≡ ok freed
      → (amount ≤ℤ owed) × (freed ≤ℤ amount)
  debt_rounding amount n hm ho hb hf =
      let m = to_d_token_up-IsCeil amount n hm in
      let o = to_asset_from_d_token-IsCeil _ m.nonneg ho in
      let b = to_d_token_down-IsFloor amount n hb in
      let f = to_asset_from_d_token-IsCeil _ b.nonneg hf in omega arith

  -- For sound data, a utilization is between 0 and 100 percent, it is zero just where nothing is
  -- owed, and below 100 percent the liabilities are at most that part of the supply.
  pub utilization-IsUtilization :
      {liabilities supply u : ℤ}
      → to_asset_from_d_token math d d.d_supply ≡ ok liabilities
      → to_asset_from_b_token math d d.b_supply ≡ ok supply
      → utilization math d ≡ ok u
      → IsUtilization liabilities supply u
  unfolding utilization
  utilization-IsUtilization {liabilities} {supply} {u} hl hs hu =
      let l = to_asset_from_d_token-IsCeil _ sound.d_supply hl in
      let s = to_asset_from_b_token-IsFloor _ sound.b_supply hs in
      ground (
        arith,
        ceil-IsCeil math laws liabilities scalar_7 supply {r = u} l.nonneg (omega arith) s.nonneg,
        quotient_le_scale (pos_part u) (pos_part supply) (pos_part liabilities),
      )

module _ (e : Env) (laws : IsFixedMath (env_math e)) (r : Reserve) (sound : IsNonneg r.state) where
  -- For a reserve with sound data and a maximum utilization below 100 percent, where the guard on
  -- the maximum passes, the liabilities are at most that part of the supply.
  pub require_utilization_below_max-bounds :
      {liabilities supply : ℤ}
      → r.config.max_util < 1_0000000
      → total_liabilities e r ≡ ok liabilities
      → total_supply e r ≡ ok supply
      → require_utilization_below_max e r ≡ ok tt
      → pos_part liabilities * 1_0000000 ≤ r.config.max_util * pos_part supply
  unfolding require_utilization_below_max total_liabilities total_supply
  require_utilization_below_max-bounds {liabilities} {supply} hm hl hs h =
      >>=-elim (utilization (env_math e) r.state) _ h λ u hu passed.
        let facts = utilization-IsUtilization (env_math e) laws r.state sound hl hs hu in
        ground (arith, facts, mul_mono (pos_part u) r.config.max_util (pos_part supply))
