-- ===== src/User/Balance.antt =====
-- The balance between a user's positions and the supplies of a reserve: the six position changes of
-- pool/src/pool/user.rs.
use blend_contracts_v.Prelude.Map
use blend_contracts_v.Prelude.{
  ℕ, >>=-elim, panic_if-elim, ◌+!◌, ok, ℤ, ◌+ℤ◌, ◌-ℤ◌, leb_ℤ, pos, ◌≡◌, arith, ok-injective, ◌-!◌,
  +!-parts, -!-parts, int_laws, refl, ◌∙◌, subst, eq_of_parts,
}
use blend_contracts_v.Env.{Env}
use blend_contracts_v.User.{
  User, add_supply, lower, remove_supply, get_collateral, get_liabilities, add_collateral,
  remove_collateral, get_supply, add_liabilities, remove_liabilities, get_total_supply,
  update_b_emissions, set_supply, require_nonnegative, set_collateral, update_d_emissions,
  set_state,
}
use blend_contracts_v.Prelude.Map.{Map}
use blend_contracts_v.Reserve.{Reserve, mint_supply, burn_supply}
use blend_contracts_v.Storage.{Ledger}

-- One change of a user's position in a reserve.
pub data PositionChange (e : Env) (u : User) (r : Reserve) (u' : User) (r' : Reserve) : Type 0 where
  supplied :
      (l l' : Ledger) (amount : ℤ)
      → add_supply e l u r amount ≡ ok (l', u', r')
      → PositionChange e u r u' r'
  withdrawn :
      (l l' : Ledger) (amount : ℤ)
      → remove_supply e l u r amount ≡ ok (l', u', r')
      → PositionChange e u r u' r'
  pledged :
      (l l' : Ledger) (amount : ℤ)
      → add_collateral e l u r amount ≡ ok (l', u', r')
      → PositionChange e u r u' r'
  released :
      (l l' : Ledger) (amount : ℤ)
      → remove_collateral e l u r amount ≡ ok (l', u', r')
      → PositionChange e u r u' r'
  borrowed :
      (l l' : Ledger) (amount : ℤ)
      → add_liabilities e l u r amount ≡ ok (l', u', r')
      → PositionChange e u r u' r'
  repaid :
      (l l' : Ledger) (amount : ℤ)
      → remove_liabilities e l u r amount ≡ ok (l', u', r')
      → PositionChange e u r u' r'

pub data PositionChanges (u : User) (r : Reserve) : User → Reserve → Type 0 where
  none_made : PositionChanges u r u r
  then_change :
      {u' u'' : User} {r' r'' : Reserve} (e : Env)
      → PositionChanges u r u' r'
      → PositionChange e u' r' u'' r''
      → PositionChanges u r u'' r''

-- The b tokens and the d tokens of the reserve that are not the user's.
abbrev pub others_b : User → Reserve → ℤ
others_b u r = r.state.b_supply -ℤ (get_collateral u r.config.index +ℤ get_supply u r.config.index)

abbrev pub others_d : User → Reserve → ℤ
others_d u r = r.state.d_supply -ℤ get_liabilities u r.config.index

-- The supplies of the reserve moved by what the user's positions in it moved.
pub record IsBalanced (u : User) (r : Reserve) (u' : User) (r' : Reserve) : Type 0 where
  pub same_user : u'.address ≡ u.address
  pub same_config : r'.config ≡ r.config
  pub b_balance : others_b u' r' ≡ others_b u r
  pub d_balance : others_d u' r' ≡ others_d u r

get_or-set : (i : ℕ) (v : ℤ) (m : Map ℤ) → Map.get_or i (pos 0) (Map.set i v m) ≡ v
get_or-set i v m = ground (arith, Map.get-set i i v m)

get_or-lower : (i : ℕ) (v : ℤ) (m : Map ℤ) → Map.get_or i (pos 0) (lower i v m) ≡ v
get_or-lower i v m = ground (arith, Map.get-set i i v m, Map.get-remove i i m)

added :
    (b c x a : ℤ) {b' x' : ℤ} → b +! a ≡ ok b' → x +! a ≡ ok x' → b' -ℤ (c +ℤ x') ≡ b -ℤ (c +ℤ x)
added b c x a h k = eq_of_parts _ _ (omega (int_laws, +!-parts b a h, +!-parts x a k))

removed :
    (b c x a : ℤ) {b' x' : ℤ} → b -! a ≡ ok b' → x -! a ≡ ok x' → b' -ℤ (c +ℤ x') ≡ b -ℤ (c +ℤ x)
removed b c x a h k = eq_of_parts _ _ (omega (int_laws, -!-parts b a h, -!-parts x a k))

added_first :
    (b c x a : ℤ) {b' x' : ℤ} → b +! a ≡ ok b' → x +! a ≡ ok x' → b' -ℤ (x' +ℤ c) ≡ b -ℤ (x +ℤ c)
added_first b c x a h k = eq_of_parts _ _ (omega (int_laws, +!-parts b a h, +!-parts x a k))

removed_first :
    (b c x a : ℤ) {b' x' : ℤ} → b -! a ≡ ok b' → x -! a ≡ ok x' → b' -ℤ (x' +ℤ c) ≡ b -ℤ (x +ℤ c)
removed_first b c x a h k = eq_of_parts _ _ (omega (int_laws, -!-parts b a h, -!-parts x a k))

added_debt : (b x a : ℤ) {b' x' : ℤ} → b +! a ≡ ok b' → x +! a ≡ ok x' → b' -ℤ x' ≡ b -ℤ x
added_debt b x a h k = eq_of_parts _ _ (omega (int_laws, +!-parts b a h, +!-parts x a k))

removed_debt : (b x a : ℤ) {b' x' : ℤ} → b -! a ≡ ok b' → x -! a ≡ ok x' → b' -ℤ x' ≡ b -ℤ x
removed_debt b x a h k = eq_of_parts _ _ (omega (int_laws, -!-parts b a h, -!-parts x a k))

module _ (e : Env) (l : Ledger) (u : User) (r : Reserve) (amount : ℤ) {l' : Ledger} {u' : User}
    {r' : Reserve} where
  add_supply-IsBalanced : add_supply e l u r amount ≡ ok (l', u', r') → IsBalanced u r u' r'
  unfolding add_supply mint_supply
  add_supply-IsBalanced h = panic_if-elim (leb_ℤ amount (pos 0)) _ _ h λ some_amount h1.
      >>=-elim (get_total_supply u r.config.index) _ h1 λ total e1 h2.
        >>=-elim (update_b_emissions e l u r total) _ h2 λ l₁ e2 h3.
          >>=-elim (get_supply u r.config.index +! amount) _ h3 λ balance e3 h4.
            >>=-elim (mint_supply r.state amount) _ h4 λ state' e4 h5.
              >>=-elim (r.state.b_supply +! amount) _ e4 λ b_supply e5 h6.
                let moved : IsBalanced u r
                    (set_supply u (Map.set r.config.index balance u.positions.supply))
                    (set_state r (record (r.state) { b_supply = b_supply })) =
                  record {
                    same_user = refl;
                    same_config = refl;
                    b_balance = rw (get_or-set r.config.index balance u.positions.supply) (
                        added r.state.b_supply (get_collateral u r.config.index)
                          (get_supply u r.config.index) amount e5 e3);
                    d_balance = refl;
                  } in
                subst (λ (_, v, q). IsBalanced u r v q) (ok-injective h5)
                  (subst
                    (λ d.
                      IsBalanced u r
                        (set_supply u (Map.set r.config.index balance u.positions.supply))
                        (set_state r d))
                    (ok-injective h6) moved)

  remove_supply-IsBalanced : remove_supply e l u r amount ≡ ok (l', u', r') → IsBalanced u r u' r'
  unfolding remove_supply burn_supply
  remove_supply-IsBalanced h = panic_if-elim (leb_ℤ amount (pos 0)) _ _ h λ some_amount h1.
      >>=-elim (get_total_supply u r.config.index) _ h1 λ total e1 h2.
        >>=-elim (update_b_emissions e l u r total) _ h2 λ l₁ e2 h3.
          >>=-elim (get_supply u r.config.index -! amount) _ h3 λ balance e3 h4.
            >>=-elim (require_nonnegative balance) _ h4 λ _ e6 h4.
              >>=-elim (burn_supply r.state amount) _ h4 λ state' e4 h5.
                >>=-elim (r.state.b_supply -! amount) _ e4 λ b_supply e5 h6.
                  let moved : IsBalanced u r
                      (set_supply u (lower r.config.index balance u.positions.supply))
                      (set_state r (record (r.state) { b_supply = b_supply })) =
                    record {
                      same_user = refl;
                      same_config = refl;
                      b_balance = rw (get_or-lower r.config.index balance u.positions.supply) (
                          removed r.state.b_supply (get_collateral u r.config.index)
                            (get_supply u r.config.index) amount e5 e3);
                      d_balance = refl;
                    } in
                  subst (λ (_, v, q). IsBalanced u r v q) (ok-injective h5)
                    (subst
                      (λ d.
                        IsBalanced u r
                          (set_supply u (lower r.config.index balance u.positions.supply))
                          (set_state r d))
                      (ok-injective h6) moved)

  add_collateral-IsBalanced : add_collateral e l u r amount ≡ ok (l', u', r') → IsBalanced u r u' r'
  unfolding add_collateral mint_supply
  add_collateral-IsBalanced h = panic_if-elim (leb_ℤ amount (pos 0)) _ _ h λ some_amount h1.
      >>=-elim (get_total_supply u r.config.index) _ h1 λ total e1 h2.
        >>=-elim (update_b_emissions e l u r total) _ h2 λ l₁ e2 h3.
          >>=-elim (get_collateral u r.config.index +! amount) _ h3 λ balance e3 h4.
            >>=-elim (mint_supply r.state amount) _ h4 λ state' e4 h5.
              >>=-elim (r.state.b_supply +! amount) _ e4 λ b_supply e5 h6.
                let moved : IsBalanced u r
                    (set_collateral u (Map.set r.config.index balance u.positions.collateral))
                    (set_state r (record (r.state) { b_supply = b_supply })) =
                  record {
                    same_user = refl;
                    same_config = refl;
                    b_balance = rw (get_or-set r.config.index balance u.positions.collateral) (
                        added_first r.state.b_supply (get_supply u r.config.index)
                          (get_collateral u r.config.index) amount e5 e3);
                    d_balance = refl;
                  } in
                subst (λ (_, v, q). IsBalanced u r v q) (ok-injective h5)
                  (subst
                    (λ d.
                      IsBalanced u r
                        (set_collateral u (Map.set r.config.index balance u.positions.collateral))
                        (set_state r d))
                    (ok-injective h6) moved)

  remove_collateral-IsBalanced :
      remove_collateral e l u r amount ≡ ok (l', u', r') → IsBalanced u r u' r'
  unfolding remove_collateral burn_supply
  remove_collateral-IsBalanced h = panic_if-elim (leb_ℤ amount (pos 0)) _ _ h λ some_amount h1.
      >>=-elim (get_total_supply u r.config.index) _ h1 λ total e1 h2.
        >>=-elim (update_b_emissions e l u r total) _ h2 λ l₁ e2 h3.
          >>=-elim (get_collateral u r.config.index -! amount) _ h3 λ balance e3 h4.
            >>=-elim (require_nonnegative balance) _ h4 λ _ e6 h4.
              >>=-elim (burn_supply r.state amount) _ h4 λ state' e4 h5.
                >>=-elim (r.state.b_supply -! amount) _ e4 λ b_supply e5 h6.
                  let moved : IsBalanced u r
                      (set_collateral u (lower r.config.index balance u.positions.collateral))
                      (set_state r (record (r.state) { b_supply = b_supply })) =
                    record {
                      same_user = refl;
                      same_config = refl;
                      b_balance = rw (get_or-lower r.config.index balance u.positions.collateral) (
                          removed_first r.state.b_supply (get_supply u r.config.index)
                            (get_collateral u r.config.index) amount e5 e3);
                      d_balance = refl;
                    } in
                  subst (λ (_, v, q). IsBalanced u r v q) (ok-injective h5)
                    (subst
                      (λ d.
                        IsBalanced u r
                          (set_collateral u (lower r.config.index balance u.positions.collateral))
                          (set_state r d))
                      (ok-injective h6) moved)

  add_liabilities-IsBalanced :
      add_liabilities e l u r amount ≡ ok (l', u', r') → IsBalanced u r u' r'
  unfolding add_liabilities
  add_liabilities-IsBalanced h = panic_if-elim (leb_ℤ amount (pos 0)) _ _ h λ some_amount h1.
      >>=-elim (update_d_emissions e l u r (get_liabilities u r.config.index)) _ h1 λ l₁ e2 h3.
        >>=-elim (get_liabilities u r.config.index +! amount) _ h3 λ balance e3 h4.
          >>=-elim (r.state.d_supply +! amount) _ h4 λ d_supply e5 h6.
            subst (λ (_, v, q). IsBalanced u r v q) (ok-injective h6)
              (record {
                same_user = refl;
                same_config = refl;
                b_balance = refl;
                d_balance =
                    rw (get_or-set r.config.index balance u.positions.liabilities)
                      (added_debt r.state.d_supply (get_liabilities u r.config.index) amount e5 e3);
              })

  remove_liabilities-IsBalanced :
      remove_liabilities e l u r amount ≡ ok (l', u', r') → IsBalanced u r u' r'
  unfolding remove_liabilities
  remove_liabilities-IsBalanced h = panic_if-elim (leb_ℤ amount (pos 0)) _ _ h λ some_amount h1.
      >>=-elim (update_d_emissions e l u r (get_liabilities u r.config.index)) _ h1 λ l₁ e2 h3.
        >>=-elim (get_liabilities u r.config.index -! amount) _ h3 λ balance e3 h4.
          >>=-elim (require_nonnegative balance) _ h4 λ _ e6 h4.
            >>=-elim (r.state.d_supply -! amount) _ h4 λ d_supply e5 h6.
              subst (λ (_, v, q). IsBalanced u r v q) (ok-injective h6)
                (record {
                  same_user = refl;
                  same_config = refl;
                  b_balance = refl;
                  d_balance = rw (get_or-lower r.config.index balance u.positions.liabilities) (
                      removed_debt r.state.d_supply (get_liabilities u r.config.index) amount e5
                        e3);
                })

change-IsBalanced :
    {e : Env} {u u' : User} {r r' : Reserve} → PositionChange e u r u' r' → IsBalanced u r u' r'
change-IsBalanced {e} {u} {u'} {r} {r'} (supplied l l' a h) = add_supply-IsBalanced e l u r a h
change-IsBalanced {e} {u} {u'} {r} {r'} (withdrawn l l' a h) = remove_supply-IsBalanced e l u r a h
change-IsBalanced {e} {u} {u'} {r} {r'} (pledged l l' a h) = add_collateral-IsBalanced e l u r a h
change-IsBalanced {e} {u} {u'} {r} {r'} (released l l' a h) =
    remove_collateral-IsBalanced e l u r a h
change-IsBalanced {e} {u} {u'} {r} {r'} (borrowed l l' a h) = add_liabilities-IsBalanced e l u r a h
change-IsBalanced {e} {u} {u'} {r} {r'} (repaid l l' a h) =
    remove_liabilities-IsBalanced e l u r a h

IsBalanced-trans :
    {u u' u'' : User} {r r' r'' : Reserve}
    → IsBalanced u r u' r'
    → IsBalanced u' r' u'' r''
    → IsBalanced u r u'' r''
IsBalanced-trans a b = record {
  same_user = b.same_user ∙ a.same_user;
  same_config = b.same_config ∙ a.same_config;
  b_balance = b.b_balance ∙ a.b_balance;
  d_balance = b.d_balance ∙ a.d_balance;
}

-- Over any sequence of the six position changes of a user in a reserve, each in its own
-- environment, the user's address and the reserve's configuration stay, and the b supply less the
-- user's b tokens and the d supply less the user's d tokens in the reserve stay the same.
pub PositionChanges-IsBalanced :
    {u : User} {r : Reserve} {u' : User} {r' : Reserve}
    → PositionChanges u r u' r'
    → IsBalanced u r u' r'
PositionChanges-IsBalanced none_made = record {
  same_user = refl;
  same_config = refl;
  b_balance = refl;
  d_balance = refl;
}
PositionChanges-IsBalanced (then_change e before last) =
    IsBalanced-trans (PositionChanges-IsBalanced before) (change-IsBalanced last)
