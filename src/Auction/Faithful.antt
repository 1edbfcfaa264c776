-- ===== src/Auction/Faithful.antt =====
-- The fill of an auction is faithful to the pool's configuration and its oracle: `fill` of
-- pool/src/auctions/auction.rs.
use blend_contracts_v.Pool.Faithful.{IsFaithful, ◌after◌, same}
use blend_contracts_v.Prelude.{
  ℕ, ◌==◌, Bool-cases, >>=-elim, panic_if-elim, ok-injective, ok, ◌≡◌, sym, ap, inl, inr, Bool, not,
}
use blend_contracts_v.Env.{Env, Address}
use blend_contracts_v.Storage.{Ledger, AuctionData, get_auction, is_some}
use blend_contracts_v.Pool.{Pool}
use blend_contracts_v.User.{User, rm_positions, add_positions}
use blend_contracts_v.Auction.{
  fill_user_liq_auction, fill, auction_type_from_u32, is_user_liquidation, scale_auction,
}
use blend_contracts_v.User.Faithful.{add_positions-IsFaithful, rm_positions-IsFaithful}
use blend_contracts_v.BadDebt.{check_and_handle_user_bad_debt}
use blend_contracts_v.BadDebt.Faithful.{check_and_handle_user_bad_debt-IsFaithful}
use blend_contracts_v.User

abbrev Filled : Type 0
Filled = Ledger × Pool × User

fill_user_liq_auction-IsFaithful :
    (e : Env) (l : Ledger) (pool : Pool) (d : AuctionData) (user : Address) (filler : User)
    (is_full_fill : Bool) {r : Filled}
    → fill_user_liq_auction e l pool d user filler is_full_fill ≡ ok r
    → IsFaithful e pool r.1
unfolding fill_user_liq_auction
fill_user_liq_auction-IsFaithful e l pool d user filler is_full_fill h =
    >>=-elim (rm_positions e d.lot d.bid l pool (User.load l user)) _ h λ (l₁, pool₁, u₁) e1 h1.
      >>=-elim (add_positions e d.lot d.bid l₁ pool₁ filler) _ h1 λ (l₂, pool₂, filler₂) e2 h2.
        let first =
          add_positions-IsFaithful e d.lot d.bid l₁ pool₁ filler e2
          after rm_positions-IsFaithful e d.lot d.bid l pool (User.load l user) e1 in
        elim (Bool-cases is_full_fill) [
          | inr partly ↦
              same e (ap (λ (x : Filled). x.1) (sym (ok-injective (rw partly at h2)))) after first
          | inl full ↦
              >>=-elim (check_and_handle_user_bad_debt e l₂ pool₂ u₁) _ (rw full at h2)
                λ (l₃, pool₃, u₃, handled) e3 h3.
                  same e (ap (λ (x : Filled). x.1) (sym (ok-injective h3)))
                  after check_and_handle_user_bad_debt-IsFaithful e l₂ pool₂ u₁ e3
                  after first
        ]

pub fill-IsFaithful :
    (e : Env) (l : Ledger) (pool : Pool) (auction_type : ℕ) (user : Address) (filler : User)
    (percent_filled : ℕ) {r : Filled}
    → fill e l pool auction_type user filler percent_filled ≡ ok r
    → IsFaithful e pool r.1
unfolding fill
fill-IsFaithful e l pool auction_type user filler percent_filled h =
    >>=-elim (auction_type_from_u32 auction_type) _ h λ kind e1 h1.
      panic_if-elim (not (is_user_liquidation kind)) _ _ h1 λ is_user h2.
        panic_if-elim (user == filler.address) _ _ h2 λ other h3.
          >>=-elim (get_auction l auction_type user) _ h3 λ d e2 h4.
            >>=-elim (scale_auction e d percent_filled) _ h4 λ (to_fill, remaining) e3 h5.
              >>=-elim
                (fill_user_liq_auction e l pool to_fill user filler (not (is_some remaining))) _ h5
                λ (l', pool', filler') e4 h6.
                  same e (ap (λ (x : Filled). x.1) (sym (ok-injective h6)))
                  after fill_user_liq_auction-IsFaithful e l pool to_fill user filler _ e4
