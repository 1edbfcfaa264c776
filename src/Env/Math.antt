-- ===== src/Env/Math.antt =====
-- What the code relies on in the fixed-point crate, and the two bounds that the proofs use.
use blend_contracts_v.Prelude.{
  ℕ, suc, ◌+◌, ◌-◌, ◌*◌, ◌/◌, ◌≤◌, ◌<◌, ◌≡◌, sym, ◌∙◌, ℤ, pos, negsuc, pos_part, ◌-ℤ◌, NonNeg,
  Result, ok, err, trap, check, ◌==◌, if◌then◌else◌, arith,
}
use blend_contracts_v.Env.{FixedMath}

-- The quotient of a product, rounded down or up, as the crate documents it: the product is not
-- limited to 128 bits, the result is, and a zero denominator traps.
abbrev pub quotient_floor : ℕ → ℕ → ℕ → Result ℤ
quotient_floor x y d = if d == 0 then err trap else check (pos (x * y / d))

abbrev pub quotient_ceil : ℕ → ℕ → ℕ → Result ℤ
quotient_ceil x y d = if d == 0 then err trap else check (pos ((x * y + (d - 1)) / d))

-- A negative quotient that is rounded up is rounded towards zero.
abbrev pub quotient_ceil_neg : ℕ → ℕ → ℕ → Result ℤ
quotient_ceil_neg x y d = if d == 0 then err trap else check (pos 0 -ℤ pos (x * y / d))

pub record IsFixedMath (math : FixedMath) : Type 0 where
  pub floor_nonneg : (x y d : ℕ) → math.floor (pos x) (pos y) (pos d) ≡ quotient_floor x y d
  pub ceil_nonneg : (x y d : ℕ) → math.ceil (pos x) (pos y) (pos d) ≡ quotient_ceil x y d
  pub ceil_neg : (x y d : ℕ) → math.ceil (negsuc x) (pos y) (pos d) ≡ quotient_ceil_neg (suc x) y d

-- The result `r` of rounding `x * y / d` down: not negative, and within one unit below.
pub record IsFloor (x y d r : ℤ) : Type 0 where
  pub nonneg : NonNeg r
  pub divisor : 0 < pos_part d
  pub below : pos_part r * pos_part d ≤ pos_part x * pos_part y
  pub above : pos_part x * pos_part y < (pos_part r + 1) * pos_part d

pub record IsCeil (x y d r : ℤ) : Type 0 where
  pub nonneg : NonNeg r
  pub divisor : 0 < pos_part d
  pub above : pos_part x * pos_part y ≤ pos_part r * pos_part d
  pub below : pos_part r * pos_part d < pos_part x * pos_part y + pos_part d

floor_rounds : (n d : ℕ) → 0 < d → (n / d * d ≤ n) × (n < (n / d + 1) * d)
floor_rounds n d h = grind arith

ceil_rounds : (n d : ℕ) → 0 < d → (n ≤ (n + (d - 1)) / d * d) × ((n + (d - 1)) / d * d < n + d)
ceil_rounds n d h = grind (arith, floor_rounds (n + (d - 1)) d h)

pub quotient_floor-IsFloor :
    (x y d : ℕ) {r : ℤ} → quotient_floor x y d ≡ ok r → IsFloor (pos x) (pos y) (pos d) r
unfolding check
quotient_floor-IsFloor x y d h = ground (arith, floor_rounds (x * y) d)

quotient_ceil-IsCeil :
    (x y d : ℕ) {r : ℤ} → quotient_ceil x y d ≡ ok r → IsCeil (pos x) (pos y) (pos d) r
unfolding check
quotient_ceil-IsCeil x y d h = ground (arith, ceil_rounds (x * y) d)

module _ (math : FixedMath) (laws : IsFixedMath math) where
  -- A quotient of numbers that are not negative is rounded down, wherever the call returns.
  pub floor-IsFloor :
      (x y d : ℤ) {r : ℤ}
      → NonNeg x
      → NonNeg y
      → NonNeg d
      → math.floor x y d ≡ ok r
      → IsFloor x y d r
  floor-IsFloor (pos x) (pos y) (pos d) _ _ _ h =
      quotient_floor-IsFloor x y d (sym (laws.floor_nonneg x y d) ∙ h)
  floor-IsFloor (negsuc x) y d hx _ _ h = absurd (omega arith)
  floor-IsFloor (pos x) (negsuc y) d _ hy _ h = absurd (omega arith)
  floor-IsFloor (pos x) (pos y) (negsuc d) _ _ hd h = absurd (omega arith)

  pub ceil-IsCeil :
      (x y d : ℤ) {r : ℤ} → NonNeg x → NonNeg y → NonNeg d → math.ceil x y d ≡ ok r → IsCeil x y d r
  ceil-IsCeil (pos x) (pos y) (pos d) _ _ _ h =
      quotient_ceil-IsCeil x y d (sym (laws.ceil_nonneg x y d) ∙ h)
  ceil-IsCeil (negsuc x) y d hx _ _ h = absurd (omega arith)
  ceil-IsCeil (pos x) (negsuc y) d _ hy _ h = absurd (omega arith)
  ceil-IsCeil (pos x) (pos y) (negsuc d) _ _ hd h = absurd (omega arith)
