-- ===== src/PoolContract/Admin.antt =====
-- The handover of the admin: `propose_admin` and `accept_admin` of pool/src/contract.rs.
use mathlib.Core.Option.{some-injective}
use blend_contracts_v.Prelude.{
  ltb, Bool-cases, PoolError, or_panic, >>=-elim, panic_if-elim, or_panic-some, ok-injective, add_u,
  pool_error, ok, ◌+◌, ◌≤◌, ◌≡◌, refl, sym, ap, ◌∙◌, subst, inl, inr, Bool, true, not, some, arith,
}
use blend_contracts_v.Env.{Address, Env}
use blend_contracts_v.Storage.{Ledger, set_admin, get_admin}
use blend_contracts_v.PoolContract.{
  handle_pool, set_proposed_admin, get_proposed_admin, propose_admin, accept_admin, admin_only,
}

-- What a handover took: the words of both admins, within the ten days.
pub record IsHandover (e : Env) (auth : Address → Bool) (l : Ledger) (new : Address) (e' : Env)
    (auth' : Address → Bool) (l₁ l₂ : Ledger) : Type 0 where
  pub old : Address
  pub was_admin : l.admin ≡ some old
  pub proposed : auth old ≡ true
  pub accepted : auth' new ≡ true
  pub in_time : e'.sequence ≤ e.sequence + 172_800
  pub only_admin : l₂ ≡ set_admin l₁ new

-- Where an address is proposed as the admin and, from a ledger that has the same proposal,
-- whatever else it has, a proposed admin is accepted, the old admin authorized the proposal, the
-- new one the acceptance, at most 172,800 ledgers lie between them, and nothing but the admin
-- changes with the acceptance.
pub propose-accept_admin :
    (e e' : Env) (auth auth' : Address → Bool) (l : Ledger) (new : Address) {l' l₁ l₂ : Ledger}
    → handle_pool e auth l (propose_admin new) ≡ ok l'
    → l₁.proposed_admin ≡ l'.proposed_admin
    → handle_pool e' auth' l₁ accept_admin ≡ ok l₂
    → IsHandover e auth l new e' auth' l₁ l₂
unfolding handle_pool set_proposed_admin get_proposed_admin
propose-accept_admin e e' auth auth' l new {l'} {l₁} h same k =
    >>=-elim (admin_only e auth l) _ h λ done a1 h1. >>=-elim (get_admin l) _ a1 λ old a2 a3.
      >>=-elim (add_u 32 e.sequence 172_800) _ h1 λ expiry a4 h2.
        >>=-elim (or_panic (get_proposed_admin e' l₁) (pool_error PoolError.bad_request)) _ k
          λ proposed b1 k1. panic_if-elim (not (auth' proposed)) _ _ k1 λ signed k2.
            >>=-elim (get_admin l₁) _ k2 λ cur b2 k3.
              let entry : l₁.proposed_admin ≡ some (new, expiry) =
                same ∙ subst (λ x. x.proposed_admin ≡ some (new, expiry)) (ok-injective h2) refl in
              let found = or_panic-some (get_proposed_admin e' l₁) _ b1 in
              elim (Bool-cases (ltb expiry e'.sequence)) [
                | inl late ↦
                    let impossible = rw (entry, get_proposed_admin, late) at found in absurd (cc)
                | inr early ↦
                    let who : new ≡ proposed =
                      some-injective _ _ (rw (entry, get_proposed_admin, early) at found) in
                    record {
                      old = old;
                      was_admin = or_panic-some l.admin _ a2;
                      proposed = ground (arith, a3);
                      accepted = subst (λ x. auth' x ≡ true) (sym who) (ground (arith, signed));
                      in_time = ground (arith, early, a4);
                      only_admin = sym (ok-injective k3) ∙ ap (set_admin l₁) (sym who);
                    }
              ]
