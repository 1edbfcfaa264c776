-- ===== src/Liquidation.antt =====
-- The creation of a liquidation auction, pool/src/auctions/user_liquidation_auction.rs and
-- `create_auction` of pool/src/auctions/auction.rs.
use blend_contracts_v.Prelude.Map
use blend_contracts_v.Prelude.Map.{Map}
use blend_contracts_v.Prelude.{
  ℕ, ltb, ◌==◌, if◌then◌else◌, PoolError, Result, ◌>>=◌, ◌>>◌, panic_if, or_panic, ◌+!◌, ◌-!◌, ◌*!◌,
  add_u, pool_error, ok, ℤ, ltb_ℤ, leb_ℤ, eqb_ℤ, quot_ℤ, pos, Bool, false, not, ◌&&◌, ◌||◌, List,
  [], ◌∷◌,
}
use blend_contracts_v.Env.{Env, Address, env_math}
use blend_contracts_v.Storage.{
  Ledger, get_unchecked, AuctionData, get_backstop, Positions, has_auction, get_res_list, length,
  set_auction,
}
use blend_contracts_v.Health.{PositionData, is_hf_over, is_hf_under, calculate_from_positions}
use blend_contracts_v.Pool.{Pool, load_reserve}
use blend_contracts_v.User.{User, rm_positions}
use blend_contracts_v.Auction.{auction_type_from_u32, is_user_liquidation, require_unique_addresses}
use blend_contracts_v.Pool
use blend_contracts_v.User

module _ (e : Env) where
  -- The user's balances in the listed assets; an asset without one is refused with `missing`.
  select : Ledger → PoolError → Map ℤ → List Address → Pool → Map ℤ → Result (Pool × Map ℤ)
  select l missing balances [] pool chosen = ok (pool, chosen)
  select l missing balances (asset ∷ rest) pool chosen = do
    (pool', reserve) ← load_reserve e l pool asset false
    amount ← or_panic (Map.get reserve.config.index balances) (pool_error missing)
    select l missing balances rest pool' (Map.set reserve.config.index amount chosen)

  -- A map by reserve index as quotes by asset: a share of each amount, and the whole amounts.
  quote : List Address → ℤ → ℤ → Map ℤ → Map ℤ × Map ℤ → Result (Map ℤ × Map ℤ)
  quote reserve_list share scalar [] quotes = ok quotes
  quote reserve_list share scalar ((index, amount) ∷ m) quotes = do
    asset ← get_unchecked reserve_list index
    removed ← e.fixed_point.fixed_mul_ceil amount share scalar
    quote reserve_list share scalar m
        (Map.set asset removed quotes.0, Map.set asset amount quotes.1)

  -- The estimated premium that a liquidator gets, from the average factors of the positions.
  estimate_incentive : PositionData → Result ℤ
  estimate_incentive inc = do
    avg_cf ← e.fixed_point.fixed_div_floor inc.collateral_base inc.collateral_raw inc.scalar
    avg_lf ← e.fixed_point.fixed_div_floor inc.liability_base inc.liability_raw inc.scalar
    ratio ← e.fixed_point.fixed_div_ceil avg_cf avg_lf inc.scalar
    gap ← inc.scalar -! ratio
    double ← pos 2 *! inc.scalar
    half ← e.fixed_point.fixed_div_ceil gap double inc.scalar
    half +! inc.scalar

  -- The collateral that the liquidated part of the debt is estimated to take.
  estimate_withdrawn : PositionData → ℤ → Result ℤ
  unfolding estimate_incentive
  estimate_withdrawn inc percent = do
    est_incentive ← estimate_incentive inc
    liquidated ← e.fixed_point.fixed_mul_floor inc.liability_raw percent inc.scalar
    e.fixed_point.fixed_mul_floor liquidated est_incentive inc.scalar

  -- The share of the lot, capped at the whole of it; a capped lot has to hold all collateral.
  lot_share : PositionData → ℤ → Bool → Result ℤ
  lot_share inc est_withdrawn_collateral is_all_collateral = do
    pct ← e.fixed_point.fixed_div_ceil est_withdrawn_collateral inc.collateral_raw inc.scalar
    if ltb_ℤ inc.scalar pct
        then (panic_if (not is_all_collateral) (pool_error PoolError.invalid_liquidation)
            >> ok inc.scalar)
        else ok pct

  -- The size of the liquidation is judged by the health that it leaves behind.
  choose_quote : PositionData → Bool → ℤ → ℤ → AuctionData → AuctionData → Result AuctionData
  choose_quote new_data is_full est_withdrawn collateral_raw partial full =
      if is_full
      then (do
        over ←
            (if ltb_ℤ est_withdrawn collateral_raw
              then is_hf_over (env_math e) new_data (pos 1_1500000)
              else ok false)
        panic_if over (pool_error PoolError.invalid_liq_too_large)
        ok full)
      else (do
        over ← is_hf_over (env_math e) new_data (pos 1_1500000)
        panic_if over (pool_error PoolError.invalid_liq_too_large)
        under ← is_hf_under (env_math e) new_data (pos 1_0300000)
        panic_if under (pool_error PoolError.invalid_liq_too_small)
        ok partial)

  -- The quote, and the ledger with the emissions settled on the way, once the positions of the user (`data_all`) and of the auction (`inc`) are valued.
  price_liquidation :
      Ledger
      → Pool
      → User
      → Positions
      → PositionData
      → PositionData
      → ℕ
      → ℕ
      → Result (Ledger × AuctionData)
  unfolding estimate_withdrawn lot_share quote choose_quote
  price_liquidation l pool user_state auctioned all inc percent block = do
    let is_all_collateral = eqb_ℤ inc.collateral_raw all.collateral_raw
    let is_full = is_all_collateral && eqb_ℤ inc.liability_raw all.liability_raw && ltb 95 percent
    scaled ← pos (if is_full then 95 else percent) *! all.scalar
    let percent_scaled = quot_ℤ scaled 100
    est_withdrawn ← estimate_withdrawn inc percent_scaled
    share ← lot_share inc est_withdrawn is_all_collateral
    lots ← quote (get_res_list l) share all.scalar auctioned.collateral ([], [])
    bids ← quote (get_res_list l) percent_scaled all.scalar auctioned.liabilities ([], [])
    (l', pool', left) ← rm_positions e lots.0 bids.0 l pool user_state
    (pool'', new_data) ← calculate_from_positions e l' pool' left.positions
    auction_data ←
        choose_quote new_data is_full est_withdrawn all.collateral_raw
          (record { bid = bids.0; lot = lots.0; block = block })
          (record { bid = bids.1; lot = lots.1; block = block })
    ok (l', auction_data)

  unfoldable pub create_user_liq_auction_data :
      Ledger → Address → List Address → List Address → ℕ → Result (Ledger × AuctionData)
  unfolding select price_liquidation
  create_user_liq_auction_data l user bid lot percent = do
    backstop ← get_backstop l
    panic_if (user == e.current_contract_address || user == backstop)
        (pool_error PoolError.invalid_liquidation)
    panic_if (has_auction l 0 user) (pool_error PoolError.auction_in_progress)
    panic_if (ltb 100 percent || percent == 0) (pool_error PoolError.invalid_liquidation)
    block ← add_u 32 e.sequence 1
    pool ← Pool.load l
    assets ← add_u 32 (length lot) (length bid)
    panic_if (ltb pool.config.max_positions assets) (pool_error PoolError.max_positions_exceeded)
    let user_state = User.load l user
    (pool₁, all) ← calculate_from_positions e l pool user_state.positions
    panic_if (leb_ℤ all.liability_base all.collateral_base)
        (pool_error PoolError.invalid_liquidation)
    (pool₂, liabilities) ←
        select l PoolError.invalid_bid user_state.positions.liabilities bid pool₁ []
    panic_if (Map.is_empty liabilities) (pool_error PoolError.invalid_bid)
    (pool₃, collateral) ←
        select l PoolError.invalid_lot user_state.positions.collateral lot pool₂ []
    panic_if (Map.is_empty collateral) (pool_error PoolError.invalid_lot)
    let auctioned : Positions = record {
      liabilities = liabilities;
      collateral = collateral;
      supply = [];
    }
    (pool₄, inc) ← calculate_from_positions e l pool₃ auctioned
    price_liquidation l pool₄ user_state auctioned all inc percent block

  unfoldable pub create_auction :
      Ledger → ℕ → Address → List Address → List Address → ℕ → Result (Ledger × AuctionData)
  create_auction l auction_type user bid lot percent = do
    kind ← auction_type_from_u32 auction_type
    panic_if (not (is_user_liquidation kind)) (pool_error PoolError.bad_request)
    require_unique_addresses bid
    require_unique_addresses lot
    (l', auction_data) ← create_user_liq_auction_data l user bid lot percent
    ok (set_auction l' auction_type user auction_data, auction_data)
