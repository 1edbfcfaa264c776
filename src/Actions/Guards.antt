-- ===== src/Actions/Guards.antt =====
-- What a supply and a loan leave behind: `apply_supply` and `apply_borrow` of
-- pool/src/pool/actions.rs.
use blend_contracts_v.Prelude.Map
use blend_contracts_v.Prelude.Map.{Map}
use blend_contracts_v.Actions.{
  require_within_cap, apply_supply, Actions, apply_borrow, Tx, do_check_max_util, Request,
  add_amount, add_for_pool_transfer, add_for_spender_transfer,
}
use blend_contracts_v.Prelude.{
  ap, sym, ◌∙◌, ◌+ℤ◌, >>=-elim, ok-injective, ok, ℤ, ◌≤ℤ◌, ◌<ℤ◌, pos, ◌≡◌, subst, true, some, arith,
  refl,
}
use blend_contracts_v.Pool.{Pool, cache_reserve, contains, load_reserve}
use blend_contracts_v.Env.{Env, env_math, scalar_7}
use blend_contracts_v.User.{add_supply, add_liabilities, get_supply, get_liabilities}
use blend_contracts_v.Reserve.{
  Reserve, require_utilization_below_100, total_supply, utilization, require_reserve_action_allowed,
  to_d_token_up, to_b_token_down,
}
use blend_contracts_v.Actions.Minted.{
  add_amount-exact, add_supply-IsSupplied, add_liabilities-IsBorrowed,
}
use blend_contracts_v.Actions.Checks.{do_check_max_util-contains, do_check_max_util-pool_transfer}

-- What a supply leaves behind: the requested reserve, as it was loaded, has the minted b tokens more
-- and nothing else, stands in the pool's cache and is within its cap; the sender's supply has the b
-- tokens more, and the sender owes the amount in its asset.
pub record IsWithinCap (e : Env) (request : Request) (t t' : Tx) (minted : ℤ) : Type 0 where
  pub noted : Pool
  pub before : Reserve
  pub loaded : load_reserve e t.ledger t.pool request.address true ≡ ok (noted, before)
  pub is_minted : to_b_token_down (env_math e) before.state request.amount ≡ ok minted
  pub some_minted : pos 0 <ℤ minted
  pub reserve : Reserve
  pub is_reserve : reserve ≡ record before {
    state = record (before.state) { b_supply = before.state.b_supply +ℤ minted };
  }
  pub pool : t'.pool ≡ cache_reserve noted reserve
  pub cached : Map.get before.asset t'.pool.reserves ≡ some reserve
  pub credited :
      get_supply t'.user before.config.index ≡ get_supply t.user before.config.index +ℤ minted
  pub taken :
      Map.get_or before.asset (pos 0) t'.actions.spender_transfer
      ≡ request.amount +ℤ Map.get_or before.asset (pos 0) t.actions.spender_transfer
  pub total : ℤ
  pub is_total : total_supply e reserve ≡ ok total
  pub within : total ≤ℤ reserve.config.supply_cap

cached_reserve :
    (pool : Pool) (r : Reserve) → Map.get r.asset (cache_reserve pool r).reserves ≡ some r
unfolding cache_reserve
cached_reserve pool r = ground (arith, Map.get-set r.asset r.asset r pool.reserves)

-- A supply that is carried out mints some b tokens, as many as the amount converts to at the rate
-- of the requested reserve as it was loaded; the reserve that it leaves in the pool's cache has
-- these b tokens more and nothing else, and a total supply within its cap; the sender's supply has
-- the b tokens more, and the sender owes the amount more in its asset.
pub apply_supply-IsWithinCap :
    (e : Env) (request : Request) (t : Tx) {t' : Tx} {minted : ℤ}
    → apply_supply e request t ≡ ok (t', minted)
    → IsWithinCap e request t t' minted
unfolding apply_supply require_within_cap
apply_supply-IsWithinCap e request t h =
    >>=-elim (load_reserve e t.ledger t.pool request.address true) _ h λ (noted, before) e1 h1.
      >>=-elim (require_reserve_action_allowed before request.request_type) _ h1 λ _ e2 h2.
        >>=-elim (to_b_token_down (env_math e) before.state request.amount) _ h2 λ minted e3 h3.
          >>=-elim (add_supply e t.ledger t.user before minted) _ h3 λ (l, user, after) e4 h4.
            >>=-elim (add_for_spender_transfer t.actions after.asset request.amount) _ h4
              λ actions e5 h5. >>=-elim (require_within_cap e after) _ h5 λ _ e6 h6.
                >>=-elim (total_supply e after) _ e6 λ total e7 h7.
                  >>=-elim (add_amount after.asset request.amount t.actions.spender_transfer) _ e5
                    λ m e8 h8.
                      let s = add_supply-IsSupplied e t.ledger t.user before minted e4 in
                      let same_asset : after.asset ≡ before.asset =
                        ap (λ (x : Reserve). x.asset) s.is_reserve in
                      subst (λ (x, y). IsWithinCap e request t x y) (ok-injective h6)
                        (record {
                          noted = noted;
                          before = before;
                          loaded = e1;
                          is_minted = e3;
                          some_minted = s.positive;
                          reserve = after;
                          is_reserve = s.is_reserve;
                          pool = refl;
                          cached =
                              subst
                                (λ a. Map.get a (cache_reserve noted after).reserves ≡ some after)
                                same_asset (cached_reserve noted after);
                          credited = s.credited;
                          taken =
                              subst
                                (λ a.
                                  Map.get_or a (pos 0) actions.spender_transfer
                                  ≡ request.amount
                                    +ℤ Map.get_or a (pos 0) t.actions.spender_transfer)
                                same_asset
                                (ap
                                    (λ (x : Actions).
                                      Map.get_or after.asset (pos 0) x.spender_transfer)
                                    (sym (ok-injective h8))
                                  ∙ add_amount-exact after.asset request.amount
                                      t.actions.spender_transfer e8);
                          total = total;
                          is_total = e7;
                          within = ground (arith, h7);
                        })

-- What a loan leaves behind: the requested reserve, as it was loaded, has the minted d tokens more and
-- nothing else, stands in the pool's cache and is utilized below 100 percent; the sender's debt has
-- the d tokens more, the pool owes the amount in its asset, and the sender's health and the reserve's
-- maximum utilization are to be checked.
pub record IsGuardedLoan (e : Env) (request : Request) (t t' : Tx) (minted : ℤ) : Type 0 where
  pub noted : Pool
  pub before : Reserve
  pub loaded : load_reserve e t.ledger t.pool request.address true ≡ ok (noted, before)
  pub is_minted : to_d_token_up (env_math e) before.state request.amount ≡ ok minted
  pub some_minted : pos 0 <ℤ minted
  pub reserve : Reserve
  pub is_reserve : reserve ≡ record before {
    state = record (before.state) { d_supply = before.state.d_supply +ℤ minted };
  }
  pub pool : t'.pool ≡ cache_reserve noted reserve
  pub cached : Map.get before.asset t'.pool.reserves ≡ some reserve
  pub owed :
      get_liabilities t'.user before.config.index
      ≡ get_liabilities t.user before.config.index +ℤ minted
  pub paid :
      Map.get_or before.asset (pos 0) t'.actions.pool_transfer
      ≡ request.amount +ℤ Map.get_or before.asset (pos 0) t.actions.pool_transfer
  pub level : ℤ
  pub is_level : utilization (env_math e) reserve.state ≡ ok level
  pub below_100 : level <ℤ scalar_7
  pub checks_health : t'.actions.check_health ≡ true
  pub checks_util : contains t'.actions.check_max_util before.asset ≡ true

-- A loan that is carried out mints some d tokens, as many as the amount converts to at the rate of
-- the requested reserve as it was loaded; the reserve that it leaves in the pool's cache has these
-- d tokens more and nothing else, and a utilization below 100 percent; the sender's debt has the d
-- tokens more, the pool owes the amount more in its asset, and the sender's health and that
-- asset's utilization are noted to be checked.
pub apply_borrow-IsGuardedLoan :
    (e : Env) (request : Request) (t : Tx) {t' : Tx} {minted : ℤ}
    → apply_borrow e request t ≡ ok (t', minted)
    → IsGuardedLoan e request t t' minted
unfolding apply_borrow require_utilization_below_100
apply_borrow-IsGuardedLoan e request t h =
    >>=-elim (load_reserve e t.ledger t.pool request.address true) _ h λ (noted, before) e1 h1.
      >>=-elim (require_reserve_action_allowed before request.request_type) _ h1 λ _ e2 h2.
        >>=-elim (to_d_token_up (env_math e) before.state request.amount) _ h2 λ minted e3 h3.
          >>=-elim (add_liabilities e t.ledger t.user before minted) _ h3 λ (l, user, after) e4 h4.
            >>=-elim (require_utilization_below_100 e after) _ h4 λ _ e6 h5.
              let checked = do_check_max_util t.actions after.asset in
              >>=-elim (add_for_pool_transfer checked after.asset request.amount) _ h5
                λ actions e5 h6.
                  >>=-elim (add_amount after.asset request.amount checked.pool_transfer) _ e5
                    λ m e8 h8. >>=-elim (utilization (env_math e) after.state) _ e6 λ u e7 h7.
                      let s = add_liabilities-IsBorrowed e t.ledger t.user before minted e4 in
                      let same_asset : after.asset ≡ before.asset =
                        ap (λ (x : Reserve). x.asset) s.is_reserve in
                      subst (λ (x, y). IsGuardedLoan e request t x y) (ok-injective h6)
                        (record {
                          noted = noted;
                          before = before;
                          loaded = e1;
                          is_minted = e3;
                          some_minted = s.positive;
                          reserve = after;
                          is_reserve = s.is_reserve;
                          pool = refl;
                          cached =
                              subst
                                (λ a. Map.get a (cache_reserve noted after).reserves ≡ some after)
                                same_asset (cached_reserve noted after);
                          owed = s.owed;
                          paid =
                              subst
                                (λ a.
                                  Map.get_or a (pos 0) actions.pool_transfer
                                  ≡ request.amount +ℤ Map.get_or a (pos 0) t.actions.pool_transfer)
                                same_asset
                                (ap
                                    (λ (x : Actions).
                                      Map.get_or after.asset (pos 0) x.pool_transfer)
                                    (sym (ok-injective h8))
                                  ∙ add_amount-exact after.asset request.amount
                                      checked.pool_transfer e8
                                  ∙ ap (λ m. request.amount +ℤ Map.get_or after.asset (pos 0) m)
                                      (do_check_max_util-pool_transfer t.actions after.asset));
                          level = u;
                          is_level = e7;
                          below_100 = ground (arith, h7);
                          checks_health = refl;
                          checks_util =
                              subst (λ a. contains actions.check_max_util a ≡ true) same_asset
                                (subst
                                  (λ (x : Actions). contains x.check_max_util after.asset ≡ true)
                                  (ok-injective h8)
                                  (do_check_max_util-contains t.actions after.asset));
                        })
