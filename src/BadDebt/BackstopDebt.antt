-- ===== src/BadDebt/BackstopDebt.antt =====
-- Bad debt of the backstop: `check_and_handle_backstop_bad_debt` of pool/src/pool/bad_debt.rs. No entry
-- point of the pool reaches it in this version.
use blend_contracts_v.Prelude.{
  if◌then◌else◌, Result, ◌>>=◌, ok, ℤ, ltb_ℤ, pos, Bool, true, false, ◌&&◌, List, [], ◌∷◌,
}
use blend_contracts_v.Prelude.Map.{Map}
use blend_contracts_v.Env.{Address, Env}
use blend_contracts_v.Pool.{Pool, load_reserve, cache_reserve}
use blend_contracts_v.Storage.{Ledger, get_unchecked, get_res_list}
use blend_contracts_v.User.{User, has_liabilities, default_liabilities}
use blend_contracts_v.Status.{calc_pool_backstop_threshold}

module _ (e : Env) where
  -- The loop that defaults every debt.
  default_all : List Address → Map ℤ → Ledger → Pool → User → Result (Ledger × Pool × User)
  default_all reserve_list [] l pool u = ok (l, pool, u)
  default_all reserve_list ((index, amount) ∷ m) l pool u = do
    asset ← get_unchecked reserve_list index
    (noted, reserve) ← load_reserve e l pool asset true
    (l₁, u₁, r₁) ← default_liabilities e l u reserve amount
    default_all reserve_list m l₁ (cache_reserve noted r₁) u₁

  unfoldable pub check_and_handle_backstop_bad_debt :
      Ledger → Pool → Address → User → Result (Ledger × Pool × User × Bool)
  unfolding default_all
  check_and_handle_backstop_bad_debt l pool backstop_address u =
      if has_liabilities u
        && ltb_ℤ
            (calc_pool_backstop_threshold (e.pool_data backstop_address e.current_contract_address))
            (pos 0_0000003)
      then (do
        (l₁, pool₁, u₁) ← default_all (get_res_list l) u.positions.liabilities l pool u
        ok (l₁, pool₁, u₁, true))
      else ok (l, pool, u, false)
