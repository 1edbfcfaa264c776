-- ===== src/Prelude/Panics.antt =====
-- Results of fallible code. A panic of a contract aborts the whole transaction, so no state comes
-- back with it.
use mathlib.Core.Path.{◌≡◌, refl}
use mathlib.Core.Bool.{Bool, true, false}
use mathlib.Core.Logic.{◌⊎◌, inl, inr}
use mathlib.Core.Option.{Option, none, some}
use Prim.Native.Nat.{ℕ, ◌+◌, ◌-◌, ◌*◌, ◌%◌, ◌^◌}
use native.Mathlib.Omega.{arith}
use blend_contracts_v.Prelude.Tests.{ltb, if◌then◌else◌}
use blend_contracts_v.Prelude.Int.{
  ℤ, pos, negsuc, pos_part, neg_part, ◌+ℤ◌, ◌-ℤ◌, ◌*ℤ◌, +ℤ_parts, -ℤ_parts,
}

-- The error codes of the pool contract.
pub data PoolError : Type 0 where
  internal_error already_initialized_error unauthorized_error negative_amount_error : PoolError
  balance_error overflow_error bad_request invalid_pool_config_args : PoolError
  invalid_reserve_metadata init_not_unlocked status_not_allowed invalid_hf : PoolError
  invalid_pool_status invalid_util_rate max_positions_exceeded : PoolError
  internal_reserve_not_found invalid_price invalid_liquidation auction_in_progress : PoolError
  invalid_liq_too_large invalid_liq_too_small interest_too_small : PoolError
  invalid_b_token_mint_amount invalid_b_token_burn_amount : PoolError
  invalid_d_token_mint_amount invalid_d_token_burn_amount : PoolError
  exceeded_supply_cap invalid_bid invalid_lot reserve_disabled min_collateral_not_met : PoolError

-- The error codes of the backstop contract.
pub data BackstopError : Type 0 where
  internal_error already_initialized_error unauthorized_error negative_amount_error : BackstopError
  balance_error overflow_error bad_request not_expired invalid_reward_zone_entry : BackstopError
  insufficient_funds not_pool invalid_share_mint_amount : BackstopError
  invalid_token_withdraw_amount too_many_q4w_entries not_in_reward_zone : BackstopError
  reward_zone_full max_backfill_emissions bad_debt_exists : BackstopError

-- Why a call aborts: an error code, or a trap of the host (overflow, division by zero, a missing
-- entry, a failed call of another contract).
pub data Panic : Type 0 where
  pool_error : PoolError → Panic
  backstop_error : BackstopError → Panic
  trap : Panic

infixl 5 ◌>>=◌ ◌>>◌
pub data Result {μ} (V : Type μ) : Type μ where
  err : Panic → Result V
  ok : V → Result V

abbrev pub or_panic {μ} : {V : Type μ} → Option V → Panic → Result V
or_panic (some v) p = ok v
or_panic none p = err p

-- `if c { panic_with_error!(e, p) }`
abbrev pub panic_if : Bool → Panic → Result (Unit {0})
panic_if false p = ok tt
panic_if true p = err p

-- The calls of a function in their order, up to the first that aborts.
abbrev pub ◌>>=◌ {μ ν} : {V : Type μ} {W : Type ν} → Result V → (V → Result W) → Result W
err p >>= rest = err p
ok v >>= rest = rest v

abbrev pub ◌>>◌ {ν} : {W : Type ν} → Result (Unit {0}) → Result W → Result W
first >> rest = first >>= λ done. rest

-- A chain that returned: its first step returned a value, and so did the rest from there.
pub >>=-elim {ℓ κ μ} :
    {A : Type ℓ} {B : Type κ} {P : Type μ} (m : Result A) (f : A → Result B) {b : B}
    → (m >>= f) ≡ ok b
    → ((a : A) → m ≡ ok a → f a ≡ ok b → P)
    → P
>>=-elim (ok a) f h k = k a refl h
>>=-elim (err e) f h k = cc

-- The same after a guard.
pub panic_if-elim {κ μ} :
    {B : Type κ} {P : Type μ} (c : Bool) (p : Panic) (m : Result B) {b : B}
    → (panic_if c p >> m) ≡ ok b
    → (c ≡ false → m ≡ ok b → P)
    → P
panic_if-elim true p m h k = cc
panic_if-elim false p m h k = k refl h

pub or_panic-some {ℓ} :
    {A : Type ℓ} (o : Option A) (p : Panic) {a : A} → or_panic o p ≡ ok a → o ≡ some a
or_panic-some none p h = cc
or_panic-some (some a) p h = cc

pub ok-injective {ℓ} : {A : Type ℓ} {a b : A} → ok a ≡ ok b → a ≡ b
ok-injective h = cc

-- An `i128` holds what lies from -2^127 to 2^127 - 1.
abbrev pub i128_bound : ℕ
i128_bound = 2 ^ 127

abbrev pub fits : ℤ → Bool
fits (pos n) = ltb n i128_bound
fits (negsuc n) = ltb n i128_bound

-- The arithmetic of `i128` traps outside that range (overflow-checks are on in release builds).
unfoldable pub check : ℤ → Result ℤ
check z = if fits z then ok z else err trap

infixl 65 ◌+!◌ ◌-!◌
infixl 70 ◌*!◌
abbrev pub ◌+!◌ : ℤ → ℤ → Result ℤ
a +! b = check (a +ℤ b)

abbrev pub ◌-!◌ : ℤ → ℤ → Result ℤ
a -! b = check (a -ℤ b)

abbrev pub ◌*!◌ : ℤ → ℤ → Result ℤ
a *! b = check (a *ℤ b)

-- Unsigned words of `w` bits.
abbrev pub add_u : ℕ → ℕ → ℕ → Result ℕ
add_u w a b = if ltb (a + b) (2 ^ w) then ok (a + b) else err trap

abbrev pub mul_u : ℕ → ℕ → ℕ → Result ℕ
mul_u w a b = if ltb (a * b) (2 ^ w) then ok (a * b) else err trap

abbrev pub sub_u : ℕ → ℕ → Result ℕ
sub_u a b = if ltb a b then err trap else ok (a - b)

pub check-ok : (z : ℤ) {r : ℤ} → check z ≡ ok r → r ≡ z
unfolding check
check-ok z h = ground arith

-- What `omega` reads of a checked sum, difference or product that returned.
disjoint_parts : (z : ℤ) → (pos_part z ≡ 0) ⊎ (neg_part z ≡ 0)
disjoint_parts (pos n) = inr refl
disjoint_parts (negsuc n) = inl refl

pub +!-parts :
    (a b : ℤ) {r : ℤ}
    → a +! b ≡ ok r
    → (pos_part r + neg_part a + neg_part b ≡ neg_part r + pos_part a + pos_part b)
      × ((pos_part r ≡ 0) ⊎ (neg_part r ≡ 0))
+!-parts a b {r} h = rw (check-ok _ h) (+ℤ_parts a b, disjoint_parts (a +ℤ b))

pub -!-parts :
    (a b : ℤ) {r : ℤ}
    → a -! b ≡ ok r
    → (pos_part r + neg_part a + pos_part b ≡ neg_part r + pos_part a + neg_part b)
      × ((pos_part r ≡ 0) ⊎ (neg_part r ≡ 0))
-!-parts a b {r} h = rw (check-ok _ h) (-ℤ_parts a b, disjoint_parts (a -ℤ b))

-- `x as u64` for an `i128`: its low 64 bits.
unfoldable pub as_u64 : ℤ → ℕ
as_u64 (pos n) = n % 2 ^ 64
as_u64 (negsuc n) = 2 ^ 64 - 1 - n % 2 ^ 64
