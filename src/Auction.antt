-- ===== src/Auction.antt =====
-- Liquidation auctions, pool/src/auctions/auction.rs: the split of an auction by the fill percentage,
-- the modifiers of its age, and its life in the ledger. Types 1 and 2 are refused before any of
-- their code runs.
pub mod Scaling
pub mod Faithful
use blend_contracts_v.Prelude.Map
use blend_contracts_v.Prelude.Map.{Map}
use blend_contracts_v.Prelude.{
  ℕ, ltb, ◌==◌, if◌then◌else◌, PoolError, Result, ◌>>=◌, ◌>>◌, panic_if, ◌-!◌, add_u, sub_u,
  bad_request, invalid_liquidation, pool_error, ok, err, ℤ, ltb_ℤ, pos, ◌-◌, ◌*◌, Bool, true, false,
  not, ◌&&◌, ◌||◌, Option, none, some, List, [], ◌∷◌,
}
use blend_contracts_v.Env.{FixedMath, Env, Address, scalar_7, env_math}
use blend_contracts_v.Storage.{
  Ledger, AuctionData, has_auction, get_auction, del_auction, is_some, set_auction,
}
use blend_contracts_v.Pool.{contains, Pool}
use blend_contracts_v.User.{User, rm_positions, add_positions}
use blend_contracts_v.BadDebt.{check_and_handle_user_bad_debt}
use blend_contracts_v.User

pub data AuctionType : Type 0 where
  user_liquidation bad_debt_auction interest_auction : AuctionType

unfoldable pub auction_type_from_u32 : ℕ → Result AuctionType
auction_type_from_u32 value =
    if value == 0
    then ok AuctionType.user_liquidation
    else (if value == 1
        then ok AuctionType.bad_debt_auction
        else (if value == 2
            then ok AuctionType.interest_auction
            else err (pool_error PoolError.bad_request)))

abbrev pub is_user_liquidation : AuctionType → Bool
is_user_liquidation AuctionType.user_liquidation = true
is_user_liquidation AuctionType.bad_debt_auction = false
is_user_liquidation AuctionType.interest_auction = false

-- The bid's and the lot's modifier, with 7 decimals, after so many blocks.
unfoldable pub auction_timing_modifiers : ℕ → ℕ × ℕ
auction_timing_modifiers block_dif =
    if ltb 200 block_dif
    then (if ltb block_dif 400
        then (1_0000000 - (block_dif - 200) * 0_0050000, 1_0000000)
        else (0, 1_0000000))
    else (1_0000000, block_dif * 0_0050000)

abbrev pub rounded : FixedMath → Bool → ℤ → ℤ → ℤ → Result ℤ
rounded math round_up x y d = if round_up then math.ceil x y d else math.floor x y d

-- The part of an amount to fill now, and the rest.
unfoldable pub partition_quote : FixedMath → Bool → ℤ → ℤ → Result (ℤ × ℤ)
partition_quote math round_up amount percent_filled = do
  to_fill_base ← rounded math round_up amount percent_filled scalar_7
  rest ← amount -! to_fill_base
  ok (to_fill_base, rest)

unfoldable pub discount_quote : FixedMath → Bool → ℤ → ℤ → Result ℤ
discount_quote math round_up to_fill_base modifier =
    rounded math round_up to_fill_base modifier scalar_7

abbrev pub set_positive : ℕ → ℤ → Map ℤ → Map ℤ
set_positive k v m = if ltb_ℤ (pos 0) v then Map.set k v m else m

-- One side of the auction: what is filled and what remains.
scale_side : FixedMath → Bool → ℤ → ℤ → Map ℤ → Map ℤ × Map ℤ → Result (Map ℤ × Map ℤ)
scale_side math round_up percent modifier [] sides = ok sides
scale_side math round_up percent modifier ((asset, amount) ∷ m) sides = do
  (to_fill_base, remaining_base) ← partition_quote math round_up amount percent
  to_fill_scaled ← discount_quote math round_up to_fill_base modifier
  scale_side math round_up percent modifier m
      (set_positive asset to_fill_scaled sides.0, set_positive asset remaining_base sides.1)

unfoldable pub scale_auction : Env → AuctionData → ℕ → Result (AuctionData × Option AuctionData)
unfolding scale_side
scale_auction e d percent_filled = do
  panic_if (ltb 100 percent_filled || percent_filled == 0) (pool_error PoolError.bad_request)
  block_dif ← sub_u e.sequence d.block
  let modifiers = auction_timing_modifiers block_dif
  let percent = pos (percent_filled * 1_00000)
  bids ← scale_side (env_math e) true percent (pos modifiers.0) d.bid ([], [])
  lots ← scale_side (env_math e) false percent (pos modifiers.1) d.lot ([], [])
  let to_fill : AuctionData = record { bid = bids.0; lot = lots.0; block = d.block }
  let remaining : AuctionData = record { bid = bids.1; lot = lots.1; block = d.block }
  ok (
    to_fill,
    if Map.is_empty remaining.lot && Map.is_empty remaining.bid then none else some remaining,
  )

unfoldable pub require_unique_addresses : List Address → Result (Unit {0})
require_unique_addresses [] = ok tt
require_unique_addresses (a ∷ as') =
    panic_if (contains as' a) (pool_error PoolError.bad_request) >> require_unique_addresses as'

unfoldable pub delete_stale_auction : Env → Ledger → ℕ → Address → Result Ledger
delete_stale_auction e l auction_type user = do
  panic_if (not (has_auction l auction_type user)) (pool_error PoolError.bad_request)
  auction ← get_auction l auction_type user
  stale_from ← add_u 32 auction.block 500
  panic_if (ltb e.sequence stale_from) (pool_error PoolError.bad_request)
  ok (del_auction l auction_type user)

unfoldable pub delete_liquidation : Ledger → Address → Result Ledger
delete_liquidation l user = do
  panic_if (not (has_auction l 0 user)) (pool_error PoolError.bad_request)
  ok (del_auction l 0 user)

-- `fill_user_liq_auction` of pool/src/auctions/user_liquidation_auction.rs.
fill_user_liq_auction :
    Env → Ledger → Pool → AuctionData → Address → User → Bool → Result (Ledger × Pool × User)
fill_user_liq_auction e l pool d user filler is_full_fill = do
  (l₁, pool₁, user_state₁) ← rm_positions e d.lot d.bid l pool (User.load l user)
  (l₂, pool₂, filler₂) ← add_positions e d.lot d.bid l₁ pool₁ filler
  if is_full_fill
      then (do
        (l₃, pool₃, user_state₃, handled) ← check_and_handle_user_bad_debt e l₂ pool₂ user_state₁
        ok (User.store user_state₃ l₃, pool₃, filler₂))
      else ok (User.store user_state₁ l₂, pool₂, filler₂)

unfoldable pub fill : Env → Ledger → Pool → ℕ → Address → User → ℕ → Result (Ledger × Pool × User)
unfolding fill_user_liq_auction
fill e l pool auction_type user filler percent_filled = do
  kind ← auction_type_from_u32 auction_type
  panic_if (not (is_user_liquidation kind)) (pool_error PoolError.bad_request)
  panic_if (user == filler.address) (pool_error PoolError.invalid_liquidation)
  d ← get_auction l auction_type user
  (to_fill, remaining) ← scale_auction e d percent_filled
  (l', pool', filler') ←
      fill_user_liq_auction e l pool to_fill user filler (not (is_some remaining))
  ok (
    elim remaining [
      | some rest ↦ set_auction l' auction_type user rest
      | none ↦ del_auction l' auction_type user
    ],
    pool',
    filler',
  )
