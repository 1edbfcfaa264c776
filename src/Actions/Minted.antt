-- ===== src/Actions/Minted.antt =====
-- The tokens that a supply and a loan mint, and the amounts that they note: `add_supply` and
-- `add_liabilities` of pool/src/pool/user.rs, `add_amount` of pool/src/pool/actions.rs.
use blend_contracts_v.Prelude.Map
use blend_contracts_v.Prelude.Map.{Map}
use blend_contracts_v.Actions.{add_amount}
use blend_contracts_v.Prelude.{
  ℕ, ap, sym, ◌∙◌, ◌+ℤ◌, ◌+!◌, +!-parts, eq_of_parts, int_laws, >>=-elim, panic_if-elim,
  ok-injective, ok, ℤ, ◌<ℤ◌, leb_ℤ, pos, ◌≡◌, arith,
}
use blend_contracts_v.Env.{Env, Address}
use blend_contracts_v.User.{
  add_supply, User, add_liabilities, get_supply, get_liabilities, get_total_supply,
  update_b_emissions, update_d_emissions,
}
use blend_contracts_v.Reserve.{Reserve, mint_supply}
use blend_contracts_v.Storage.{Ledger, ReserveData}

+!-exact : (x y : ℤ) {z : ℤ} → x +! y ≡ ok z → z ≡ x +ℤ y
+!-exact x y h = eq_of_parts _ _ (omega (int_laws, +!-parts x y h))

get_or-set : (i : ℕ) (v : ℤ) (m : Map ℤ) → Map.get_or i (pos 0) (Map.set i v m) ≡ v
get_or-set i v m = ground (arith, Map.get-set i i v m)

pub add_amount-exact :
    (asset : Address) (amount : ℤ) (m : Map ℤ) {m' : Map ℤ}
    → add_amount asset amount m ≡ ok m'
    → Map.get_or asset (pos 0) m' ≡ amount +ℤ Map.get_or asset (pos 0) m
add_amount-exact asset amount m h = >>=-elim (amount +! Map.get_or asset (pos 0) m) _ h λ sum e1 h1.
    ap (λ x. Map.get_or asset (pos 0) x) (sym (ok-injective h1))
    ∙ get_or-set asset sum m
    ∙ +!-exact amount (Map.get_or asset (pos 0) m) e1

-- What `add_supply` gives: a positive amount more, in the reserve and for the user.
pub record IsSupplied (u : User) (r : Reserve) (amount : ℤ) (u' : User) (r' : Reserve)
    : Type 0 where
  pub positive : pos 0 <ℤ amount
  pub is_reserve :
      r' ≡ record r { state = record (r.state) { b_supply = r.state.b_supply +ℤ amount } }
  pub credited : get_supply u' r.config.index ≡ get_supply u r.config.index +ℤ amount

pub add_supply-IsSupplied :
    (e : Env) (l : Ledger) (u : User) (r : Reserve) (amount : ℤ) {l' : Ledger} {u' : User}
    {r' : Reserve}
    → add_supply e l u r amount ≡ ok (l', u', r')
    → IsSupplied u r amount u' r'
unfolding add_supply mint_supply
add_supply-IsSupplied e l u r amount h =
    panic_if-elim (leb_ℤ amount (pos 0)) _ _ h λ some_amount h1.
      >>=-elim (get_total_supply u r.config.index) _ h1 λ total e1 h2.
        >>=-elim (update_b_emissions e l u r total) _ h2 λ l₁ e2 h3.
          >>=-elim (get_supply u r.config.index +! amount) _ h3 λ balance e3 h4.
            >>=-elim (mint_supply r.state amount) _ h4 λ state' e4 h5.
              >>=-elim (r.state.b_supply +! amount) _ e4 λ b_supply e5 h6. record {
                positive = ground (arith, some_amount);
                is_reserve =
                    ap (λ (x : Ledger × User × Reserve). x.2) (sym (ok-injective h5))
                    ∙ ap (λ (d : ReserveData). record r { state = d }) (sym (ok-injective h6))
                    ∙ ap (λ x. record r { state = record (r.state) { b_supply = x } })
                        (+!-exact r.state.b_supply amount e5);
                credited =
                    ap (λ (x : Ledger × User × Reserve). get_supply x.1 r.config.index)
                      (sym (ok-injective h5))
                    ∙ get_or-set r.config.index balance u.positions.supply
                    ∙ +!-exact (get_supply u r.config.index) amount e3;
              }

-- What `add_liabilities` gives: a positive amount more, in the reserve and for the user.
pub record IsBorrowed (u : User) (r : Reserve) (amount : ℤ) (u' : User) (r' : Reserve)
    : Type 0 where
  pub positive : pos 0 <ℤ amount
  pub is_reserve :
      r' ≡ record r { state = record (r.state) { d_supply = r.state.d_supply +ℤ amount } }
  pub owed : get_liabilities u' r.config.index ≡ get_liabilities u r.config.index +ℤ amount

pub add_liabilities-IsBorrowed :
    (e : Env) (l : Ledger) (u : User) (r : Reserve) (amount : ℤ) {l' : Ledger} {u' : User}
    {r' : Reserve}
    → add_liabilities e l u r amount ≡ ok (l', u', r')
    → IsBorrowed u r amount u' r'
unfolding add_liabilities
add_liabilities-IsBorrowed e l u r amount h =
    panic_if-elim (leb_ℤ amount (pos 0)) _ _ h λ some_amount h1.
      >>=-elim (update_d_emissions e l u r (get_liabilities u r.config.index)) _ h1 λ l₁ e2 h3.
        >>=-elim (get_liabilities u r.config.index +! amount) _ h3 λ balance e3 h4.
          >>=-elim (r.state.d_supply +! amount) _ h4 λ d_supply e5 h5. record {
            positive = ground (arith, some_amount);
            is_reserve =
                ap (λ (x : Ledger × User × Reserve). x.2) (sym (ok-injective h5))
                ∙ ap (λ x. record r { state = record (r.state) { d_supply = x } })
                    (+!-exact r.state.d_supply amount e5);
            owed =
                ap (λ (x : Ledger × User × Reserve). get_liabilities x.1 r.config.index)
                  (sym (ok-injective h5))
                ∙ get_or-set r.config.index balance u.positions.liabilities
                ∙ +!-exact (get_liabilities u r.config.index) amount e3;
          }
