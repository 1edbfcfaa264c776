-- ===== src/Auction/Scaling.antt =====
-- How an auction is split and discounted: pool/src/auctions/auction.rs.
use blend_contracts_v.Auction.{
  scale_side, auction_timing_modifiers, scale_auction, partition_quote, discount_quote,
}
use blend_contracts_v.Prelude.{
  ℕ, >>=-elim, ok-injective, ◌-!◌, sub_u, -!-parts, ok, ℤ, pos_part, NonNeg, pos, ◌+◌, ◌*◌, ◌≤◌,
  ◌<◌, ◌≡◌, refl, sym, ap, subst, ◌⊎◌, Bool, true, false, Option, none, [], ◌∷◌, arith,
}
use blend_contracts_v.Env.{FixedMath, Env, env_math, scalar_7}
use blend_contracts_v.Env.Math.{IsFixedMath, ceil-IsCeil, floor-IsFloor}
use blend_contracts_v.Prelude.Map.{Map}
use blend_contracts_v.Storage.{AuctionData}
use blend_contracts_v.Reserve.Rounding.{mul_mono}

-- At a later age the bid's modifier is not larger and the lot's not smaller; neither is above 100
-- percent, and one of them is 100 percent.
pub auction_timing_modifiers-monotone :
    (age later : ℕ)
    → age ≤ later
    → ((auction_timing_modifiers later).0 ≤ (auction_timing_modifiers age).0)
      × ((auction_timing_modifiers age).1 ≤ (auction_timing_modifiers later).1)
      × ((auction_timing_modifiers age).0 ≤ 1_0000000)
      × ((auction_timing_modifiers age).1 ≤ 1_0000000)
      × (((auction_timing_modifiers age).0 ≡ 1_0000000)
          ⊎ ((auction_timing_modifiers age).1 ≡ 1_0000000))
unfolding auction_timing_modifiers
auction_timing_modifiers-monotone age later h = ground arith

-- No amount of a side is negative.
unfoldable pub IsNonnegSide : Map ℤ → Type 0
IsNonnegSide [] = Unit {0}
IsNonnegSide ((_, amount) ∷ m) = NonNeg amount × IsNonnegSide m

module _ (math : FixedMath) (laws : IsFixedMath math) where
  -- The two parts of an amount make it up, neither is negative, a full fill leaves nothing, and the
  -- part is the percentage of the amount, rounded up by less than one for a bid and down by less
  -- than one for a lot.
  pub record IsPartition (round_up : Bool) (amount : ℤ) (percent : ℕ) (part rest : ℤ) : Type 0 where
    pub part_nonneg : NonNeg part
    pub rest_nonneg : NonNeg rest
    pub sum : pos_part part + pos_part rest ≡ pos_part amount
    pub full : percent ≡ 1_0000000 → rest ≡ pos 0
    pub bid :
        round_up ≡ true
        → (pos_part amount * percent ≤ pos_part part * 1_0000000)
          × (pos_part part * 1_0000000 < pos_part amount * percent + 1_0000000)
    pub lot :
        round_up ≡ false
        → (pos_part part * 1_0000000 ≤ pos_part amount * percent)
          × (pos_part amount * percent < (pos_part part + 1) * 1_0000000)

  -- For an amount that is not negative and a percentage of at most 100, the filled part and the
  -- rest are not negative and make up the amount, a full fill leaves nothing, and the part is the
  -- percentage of the amount, rounded up by less than one for a bid and down by less than one for
  -- a lot.
  pub partition_quote-IsPartition :
      (round_up : Bool) (amount : ℤ) (percent : ℕ) {part rest : ℤ}
      → NonNeg amount
      → percent ≤ 1_0000000
      → partition_quote math round_up amount (pos percent) ≡ ok (part, rest)
      → IsPartition round_up amount percent part rest
  unfolding partition_quote
  partition_quote-IsPartition true amount percent n k h =
      >>=-elim (math.ceil amount (pos percent) scalar_7) _ h λ part e1 h1.
        >>=-elim (amount -! part) _ h1 λ rest e2 h2.
          let c = ceil-IsCeil math laws amount (pos percent) scalar_7 n refl refl e1 in
          let m = -!-parts amount part e2 in
          let mono = mul_mono percent 1_0000000 (pos_part amount) k in
          subst (λ (a, b). IsPartition true amount percent a b) (ok-injective h2)
            (record {
              part_nonneg = c.nonneg;
              rest_nonneg = grind (arith, c, m, mono);
              sum = grind (arith, c, m, mono);
              full = λ x. ground (arith, c, m, x);
              bid = λ x. (c.above, c.below);
              lot = λ x. cc;
            })
  partition_quote-IsPartition false amount percent n k h =
      >>=-elim (math.floor amount (pos percent) scalar_7) _ h λ part e1 h1.
        >>=-elim (amount -! part) _ h1 λ rest e2 h2.
          let c = floor-IsFloor math laws amount (pos percent) scalar_7 n refl refl e1 in
          let m = -!-parts amount part e2 in
          let mono = mul_mono percent 1_0000000 (pos_part amount) k in
          subst (λ (a, b). IsPartition false amount percent a b) (ok-injective h2)
            (record {
              part_nonneg = c.nonneg;
              rest_nonneg = grind (arith, c, m, mono);
              sum = grind (arith, c, m, mono);
              full = λ x. ground (arith, c, m, x);
              bid = λ x. cc;
              lot = λ x. (c.below, c.above);
            })

  full_side :
      (round_up : Bool) (modifier : ℤ) (m scaled : Map ℤ) {x : Map ℤ × Map ℤ}
      → IsNonnegSide m
      → scale_side math round_up (pos 1_0000000) modifier m (scaled, []) ≡ ok x
      → x.1 ≡ []
  unfolding scale_side IsNonnegSide
  full_side round_up modifier [] scaled p h = ap (λ x. x.1) (sym (ok-injective h))
  full_side round_up modifier ((asset, amount) ∷ m) scaled p h =
      >>=-elim (partition_quote math round_up amount (pos 1_0000000)) _ h λ (part, rest) e1 h1.
        >>=-elim (discount_quote math round_up part modifier) _ h1 λ discounted e2 h2.
          let q = partition_quote-IsPartition round_up amount 1_0000000 p.0 (omega arith) e1 in
          full_side round_up modifier m _ p.1 (rw (q.full refl) at h2)

-- For an auction without negative amounts, a fill of 100 percent that returns leaves no auction.
pub scale_auction-full :
    (e : Env) (laws : IsFixedMath (env_math e)) (d : AuctionData) {to_fill : AuctionData}
    {remaining : Option AuctionData}
    → IsNonnegSide d.bid
    → IsNonnegSide d.lot
    → scale_auction e d 100 ≡ ok (to_fill, remaining)
    → remaining ≡ none
unfolding scale_auction
scale_auction-full e laws d p q h = >>=-elim (sub_u e.sequence d.block) _ h λ age e1 h1.
    >>=-elim
      (scale_side (env_math e) true (pos 1_0000000) (pos (auction_timing_modifiers age).0) d.bid
        ([], []))
      _ h1
      λ bids e2 h2.
        >>=-elim
          (scale_side (env_math e) false (pos 1_0000000) (pos (auction_timing_modifiers age).1)
            d.lot ([], []))
          _ h2
          λ lots e3 h3.
            let b = full_side (env_math e) laws true _ d.bid [] p e2 in
            let l = full_side (env_math e) laws false _ d.lot [] q e3 in
            ground (arith, b, l, ok-injective h3)
