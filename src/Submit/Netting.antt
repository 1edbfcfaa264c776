-- ===== src/Submit/Netting.antt =====
-- The net balances of a transaction: `handle_transfer_with_allowance` of pool/src/pool/submit.rs.
use blend_contracts_v.Prelude.Map
use blend_contracts_v.Submit.{subtract_all, add_all, net_balances}
use blend_contracts_v.Prelude.{
  ok, ℤ, ◌-ℤ◌, pos, ◌≡◌, none, [], ◌∷◌, >>=-elim, ok-injective, ◌+!◌, ◌-!◌, check-ok, pos_part,
  neg_part, ◌+ℤ◌, eq_of_parts, int_laws, sym, ap, ◌∙◌, arith,
}
use blend_contracts_v.Prelude.Map.{Map}
use blend_contracts_v.Env.{Env, Address}
use blend_contracts_v.Actions.{Actions}

-- The entries of a map with distinct keys.
unfoldable pub IsDistinct : Map ℤ → Type 0
IsDistinct [] = Unit {0}
IsDistinct ((k, _) ∷ m) = (Map.get k m ≡ none) × IsDistinct m

sub_zero : (z : ℤ) → z -ℤ pos 0 ≡ z
sub_zero z = eq_of_parts _ _ (omega int_laws)

add_zero : (z : ℤ) → z +ℤ pos 0 ≡ z
add_zero z = eq_of_parts _ _ (omega int_laws)

subtract_all-get :
    (e : Env) (m net : Map ℤ) (token : Address) {net' : Map ℤ}
    → IsDistinct m
    → subtract_all e m net ≡ ok net'
    → Map.get_or token (pos 0) net' ≡ Map.get_or token (pos 0) net -ℤ Map.get_or token (pos 0) m
unfolding subtract_all IsDistinct
subtract_all-get e [] net token p h =
    ap (Map.get_or token (pos 0)) (sym (ok-injective h))
    ∙ sym (sub_zero (Map.get_or token (pos 0) net))
subtract_all-get e ((k, amount) ∷ m) net token p h =
    >>=-elim (Map.get_or k (pos 0) net -! amount) _ h λ balance e1 h1. ground (
      arith,
      subtract_all-get e m (Map.set k balance net) token p.1 h1,
      Map.get-set token k balance net,
      p.0,
      check-ok _ e1,
      sub_zero balance,
    )

add_all-get :
    (e : Env) (m net : Map ℤ) (token : Address) {net' : Map ℤ}
    → IsDistinct m
    → add_all e m net ≡ ok net'
    → Map.get_or token (pos 0) net' ≡ Map.get_or token (pos 0) net +ℤ Map.get_or token (pos 0) m
unfolding add_all IsDistinct
add_all-get e [] net token p h =
    ap (Map.get_or token (pos 0)) (sym (ok-injective h))
    ∙ sym (add_zero (Map.get_or token (pos 0) net))
add_all-get e ((k, amount) ∷ m) net token p h =
    >>=-elim (Map.get_or k (pos 0) net +! amount) _ h λ balance e1 h1. ground (
      arith,
      add_all-get e m (Map.set k balance net) token p.1 h1,
      Map.get-set token k balance net,
      p.0,
      check-ok _ e1,
      add_zero balance,
    )

-- Where neither side lists a token twice, the net balance of any token is what the pool owes less
-- what the spender owes.
pub net_balances-get :
    (e : Env) (actions : Actions) (token : Address) {net : Map ℤ}
    → IsDistinct actions.spender_transfer
    → IsDistinct actions.pool_transfer
    → net_balances e actions ≡ ok net
    → Map.get_or token (pos 0) net
      ≡ Map.get_or token (pos 0) actions.pool_transfer
        -ℤ Map.get_or token (pos 0) actions.spender_transfer
unfolding net_balances
net_balances-get e actions token p q h =
    >>=-elim (subtract_all e actions.spender_transfer []) _ h λ owed e1 h1.
      let a = subtract_all-get e actions.spender_transfer [] token p e1 in
      let b = add_all-get e actions.pool_transfer owed token q h1 in
      eq_of_parts _ _ (omega (int_laws, ap pos_part a, ap neg_part a, ap pos_part b, ap neg_part b))
