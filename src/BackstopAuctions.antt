-- ===== src/BackstopAuctions.antt =====
-- The auctions of the backstop's bad debt and of the interest set aside for it, pool/src/auctions/
-- bad_debt_auction.rs and backstop_interest_auction.rs. Auctions of these types are refused before
-- this code runs, so no entry point of the pool reaches it in this version.
use blend_contracts_v.Prelude.{
  ℕ, leb, ◌==◌, if◌then◌else◌, PoolError, Result, panic_if, ◌>>=◌, ◌>>◌, ◌+!◌, ◌-!◌, ◌*!◌, add_u,
  pool_error, ok, ℤ, ltb_ℤ, leb_ℤ, min_ℤ, pos, Bool, true, false, not, ◌||◌, List, [], ◌∷◌,
}
use blend_contracts_v.Prelude.Map.{Map}
use blend_contracts_v.Env.{Address, Env, scalar_7, env_math, transfer, donate, pow10, draw}
use blend_contracts_v.Pool.{Pool, load_price, load_reserve, load_price_decimals, cache_reserve}
use blend_contracts_v.BadDebt.BackstopDebt.{check_and_handle_backstop_bad_debt}
use blend_contracts_v.Storage.{
  Ledger, length, get_backstop, get_unchecked, Positions, AuctionData, has_auction,
  get_user_positions, call_token,
}
use blend_contracts_v.Reserve.{to_asset_from_d_token}
use blend_contracts_v.User.{User, rm_positions, add_positions}
use blend_contracts_v.Prelude.Map
use blend_contracts_v.Pool
use blend_contracts_v.User

-- The checks that both kinds of auction begin with, and the pool with its oracle's scalar.
open_auction : Env → Ledger → ℕ → Address → List Address → ℕ → Result (Pool × ℤ)
open_auction e l auction_type user assets percent = do
  backstop ← get_backstop l
  panic_if (not (user == backstop)) (pool_error PoolError.bad_request)
  panic_if (not (percent == 100)) (pool_error PoolError.bad_request)
  panic_if (has_auction l auction_type backstop) (pool_error PoolError.auction_in_progress)
  pool ← Pool.load l
  panic_if (leb pool.config.max_positions (length assets))
      (pool_error PoolError.max_positions_exceeded)
  (pool₁, decimals) ← load_price_decimals e pool
  oracle_scalar ← pow10 decimals
  ok (pool₁, oracle_scalar)

-- A side has to be the backstop's token alone.
require_backstop_token : Env → Address → List Address → PoolError → Result Address
require_backstop_token e backstop side error = do
  let token = e.backstop_token backstop
  panic_if (not (length side == 1)) (pool_error error)
  first ← get_unchecked side 0
  panic_if (not (first == token)) (pool_error error)
  ok token

-- The backstop tokens for a value: a fifth more than it, at the token's spot price.
backstop_tokens_for : Env → ℤ → ℤ → ℤ → Result ℤ
backstop_tokens_for e value oracle_scalar spot_price = do
  with_premium ← e.fixed_point.fixed_mul_floor value (pos 1_2000000) oracle_scalar
  e.fixed_point.fixed_div_floor with_premium spot_price scalar_7

-- The loop over the bid: the debts, and their value.
collect_debts :
    Env → Ledger → Positions → List Address → Pool → Map ℤ → ℤ → Result (Pool × Map ℤ × ℤ)
collect_debts e l positions [] pool bid debt_value = ok (pool, bid, debt_value)
collect_debts e l positions (asset ∷ assets) pool bid debt_value = do
  (pool₁, reserve) ← load_reserve e l pool asset false
  let liability_balance = Map.get_or reserve.config.index (pos 0) positions.liabilities
  panic_if (not (ltb_ℤ (pos 0) liability_balance)) (pool_error PoolError.invalid_bid)
  (pool₂, asset_to_base) ← load_price e pool₁ reserve.asset
  asset_balance ← to_asset_from_d_token (env_math e) reserve.state liability_balance
  value ← e.fixed_point.fixed_mul_floor asset_to_base asset_balance reserve.scalar
  debt_value₁ ← debt_value +! value
  collect_debts e l positions assets pool₂ (Map.set reserve.asset liability_balance bid) debt_value₁

unfoldable pub create_bad_debt_auction_data :
    Env → Ledger → Address → List Address → List Address → ℕ → Result AuctionData
unfolding open_auction collect_debts require_backstop_token backstop_tokens_for
create_bad_debt_auction_data e l user bid lot percent = do
  (pool, oracle_scalar) ← open_auction e l 1 user bid percent
  block ← add_u 32 e.sequence 1
  (pool₁, bids, debt_value) ← collect_debts e l (get_user_positions l user) bid pool [] (pos 0)
  panic_if (Map.is_empty bids || leb_ℤ debt_value (pos 0)) (pool_error PoolError.invalid_bid)
  backstop_token ← require_backstop_token e user lot PoolError.invalid_lot
  let data' = e.pool_data user e.current_contract_address
  panic_if (leb_ℤ data'.tokens (pos 0)) (pool_error PoolError.invalid_lot)
  needed ← backstop_tokens_for e debt_value oracle_scalar data'.token_spot_price
  let lot_amount = min_ℤ data'.tokens needed
  ok (record { bid = bids; lot = Map.set backstop_token lot_amount []; block = block })

unfoldable pub fill_bad_debt_auction :
    Env → Ledger → Pool → AuctionData → User → Bool → Result (Ledger × Pool × User)
fill_bad_debt_auction e l pool d filler is_full_fill = do
  backstop_address ← get_backstop l
  panic_if (filler.address == backstop_address) (pool_error PoolError.bad_request)
  (l₁, pool₁, backstop_state₁) ← rm_positions e [] d.bid l pool (User.load l backstop_address)
  (l₂, pool₂, filler₂) ← add_positions e [] d.bid l₁ pool₁ filler
  let lot_amount = Map.get_or (e.backstop_token backstop_address) (pos 0) d.lot
  l₃ ←
      (if ltb_ℤ (pos 0) lot_amount
        then call_token e l₂
            (draw backstop_address e.current_contract_address lot_amount filler.address)
        else ok l₂)
  if is_full_fill
      then (do
        (l₄, pool₄, backstop_state₄, defaulted) ←
            check_and_handle_backstop_bad_debt e l₃ pool₂ backstop_address backstop_state₁
        ok (User.store backstop_state₄ l₄, pool₄, filler₂))
      else ok (User.store backstop_state₁ l₃, pool₂, filler₂)

-- The loop over the lot: the interest set aside, and its value.
collect_interest : Env → Ledger → List Address → Pool → Map ℤ → ℤ → Result (Pool × Map ℤ × ℤ)
collect_interest e l [] pool lot interest_value = ok (pool, lot, interest_value)
collect_interest e l (asset ∷ assets) pool lot interest_value = do
  (pool₁, reserve) ← load_reserve e l pool asset false
  let credit = reserve.state.backstop_credit
  (pool₂, lot₂, interest_value₂) ←
      (if ltb_ℤ (pos 0) credit
        then (do
          (pool₂, asset_to_base) ← load_price e pool₁ reserve.asset
          value ← e.fixed_point.fixed_mul_floor asset_to_base credit reserve.scalar
          sum ← interest_value +! value
          ok (pool₂, Map.set reserve.asset credit lot, sum))
        else ok (pool₁, lot, interest_value))
  collect_interest e l assets pool₂ lot₂ interest_value₂

unfoldable pub create_interest_auction_data :
    Env → Ledger → Address → List Address → List Address → ℕ → Result AuctionData
unfolding open_auction collect_interest require_backstop_token backstop_tokens_for
create_interest_auction_data e l user bid lot percent = do
  (pool, oracle_scalar) ← open_auction e l 2 user lot percent
  block ← add_u 32 e.sequence 1
  (pool₁, lots, interest_value) ← collect_interest e l lot pool [] (pos 0)
  panic_if (Map.is_empty lots) (pool_error PoolError.invalid_lot)
  least ← pos 200 *! oracle_scalar
  panic_if (ltb_ℤ interest_value least) (pool_error PoolError.interest_too_small)
  backstop_token ← require_backstop_token e user bid PoolError.invalid_bid
  let data' = e.pool_data user e.current_contract_address
  bid_amount ← backstop_tokens_for e interest_value oracle_scalar data'.token_spot_price
  ok (record { bid = Map.set backstop_token bid_amount []; lot = lots; block = block })

-- The loop that pays the lot out of the interest set aside.
pay_interest : Env → Address → Map ℤ → Ledger → Pool → Result (Ledger × Pool)
pay_interest e filler [] l pool = ok (l, pool)
pay_interest e filler ((asset, lot_amount) ∷ m) l pool = do
  (pool₁, reserve) ← load_reserve e l pool asset true
  credit ← reserve.state.backstop_credit -! lot_amount
  let paid = record reserve { state = record reserve.state { backstop_credit = credit } }
  l₁ ← call_token e l (transfer asset e.current_contract_address filler lot_amount)
  pay_interest e filler m l₁ (cache_reserve pool₁ paid)

unfoldable pub fill_interest_auction :
    Env → Ledger → Pool → AuctionData → Address → Result (Ledger × Pool)
unfolding pay_interest
fill_interest_auction e l pool d filler = do
  backstop ← get_backstop l
  panic_if (filler == backstop) (pool_error PoolError.bad_request)
  let bid_amount = Map.get_or (e.backstop_token backstop) (pos 0) d.bid
  l₁ ←
      (if ltb_ℤ (pos 0) bid_amount
        then call_token e l (donate backstop filler e.current_contract_address bid_amount)
        else ok l)
  pay_interest e filler d.lot l₁ pool
