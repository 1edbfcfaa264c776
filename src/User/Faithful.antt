-- ===== src/User/Faithful.antt =====
-- Changes of many positions are faithful to the pool's configuration and its oracle:
-- `rm_positions` and `add_positions` of pool/src/pool/user.rs.
use blend_contracts_v.Pool.Faithful.{
  IsFaithful, ◌after◌, same, load_reserve-IsFaithful, cache_reserve-IsFaithful,
}
use blend_contracts_v.Prelude.{
  Bool-cases, ok-injective, ok, ℤ, ltb_ℤ, pos, ◌≡◌, sym, ap, inl, inr, [], ◌∷◌, ◌>>=◌, >>=-elim,
  true,
}
use blend_contracts_v.Prelude.Map.{Map}
use blend_contracts_v.Env.{Env}
use blend_contracts_v.Storage.{Ledger}
use blend_contracts_v.Pool.{Pool, load_reserve, cache_reserve}
use blend_contracts_v.User.{
  User, apply_changes, Change, rm_positions, add_positions, remove_collateral, add_collateral,
  remove_liabilities, add_liabilities,
}

module _ (e : Env) where
  apply_changes-IsFaithful :
      (change : Change) (m : Map ℤ) (l : Ledger) (pool : Pool) (u : User) {l' : Ledger}
      {pool' : Pool} {u' : User}
      → apply_changes e change m l pool u ≡ ok (l', pool', u')
      → IsFaithful e pool pool'
  unfolding apply_changes
  apply_changes-IsFaithful change [] l pool u h =
      same e (ap (λ (x : Ledger × Pool × User). x.1) (sym (ok-injective h)))
  apply_changes-IsFaithful change ((asset, amount) ∷ m) l pool u h =
      elim (Bool-cases (ltb_ℤ (pos 0) amount)) [
        | inr none_left ↦ apply_changes-IsFaithful change m l pool u (rw none_left at h)
        | inl some_left ↦
            let h1 = rw some_left at h in
            >>=-elim
              (load_reserve e l pool asset true >>= λ (noted, reserve).
                change l u reserve amount >>= λ (l₁, u₁, r₁). ok (l₁, cache_reserve noted r₁, u₁))
              _ h1
              λ (l₁, pool₁, u₁) e1 h2.
                >>=-elim (load_reserve e l pool asset true) _ e1 λ (noted, reserve) e2 e3.
                  >>=-elim (change l u reserve amount) _ e3 λ (l₂, u₂, r₂) e4 e5.
                    apply_changes-IsFaithful change m l₁ pool₁ u₁ h2
                    after same e (ap (λ (x : Ledger × Pool × User). x.1) (sym (ok-injective e5)))
                    after cache_reserve-IsFaithful e noted r₂
                    after load_reserve-IsFaithful e l pool asset true e2
      ]

  module _ (collateral_amounts liability_amounts : Map ℤ) (l : Ledger) (pool : Pool) (u : User)
      {l' : Ledger} {pool' : Pool} {u' : User} where
    pub rm_positions-IsFaithful :
        rm_positions e collateral_amounts liability_amounts l pool u ≡ ok (l', pool', u')
        → IsFaithful e pool pool'
    unfolding rm_positions
    rm_positions-IsFaithful h =
        >>=-elim (apply_changes e (remove_collateral e) collateral_amounts l pool u) _ h
          λ (l₁, pool₁, u₁) e1 h1.
            apply_changes-IsFaithful (remove_liabilities e) liability_amounts l₁ pool₁ u₁ h1
            after apply_changes-IsFaithful (remove_collateral e) collateral_amounts l pool u e1

    pub add_positions-IsFaithful :
        add_positions e collateral_amounts liability_amounts l pool u ≡ ok (l', pool', u')
        → IsFaithful e pool pool'
    unfolding add_positions
    add_positions-IsFaithful h =
        >>=-elim (apply_changes e (add_collateral e) collateral_amounts l pool u) _ h
          λ (l₁, pool₁, u₁) e1 h1.
            apply_changes-IsFaithful (add_liabilities e) liability_amounts l₁ pool₁ u₁ h1
            after apply_changes-IsFaithful (add_collateral e) collateral_amounts l pool u e1
