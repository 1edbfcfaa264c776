-- ===== src/Config/Disable.antt =====
-- What a change that only disables a reserve leaves: `is_disable_only` and `initialize_reserve` of
-- pool/src/pool/config.rs.
use blend_contracts_v.Reserve
use blend_contracts_v.Reserve.{Reserve}
use blend_contracts_v.Config.Stored.{IsInitialized, some-injective}
use blend_contracts_v.Prelude.{
  subst, ℕ, ok, ◌≡◌, sym, true, false, none, some, arith, refl, ◌∙◌, Option,
}
use blend_contracts_v.Env.{Env, Address}
use blend_contracts_v.Config.{disables, is_disable_only, changes_rates}
use blend_contracts_v.Storage.{Ledger, ReserveConfig, PoolConfig, update, del_queued_reserve_set}

-- What a change that only disables a reserve leaves: the reserve was enabled, and of the ledger only
-- its queued entry is removed, its configuration disabled, and its data brought up to date.
pub record IsDisabled (e : Env) (l : Ledger) (config : PoolConfig) (asset : Address) (l' : Ledger)
    : Type 0 where
  pub old : ReserveConfig
  pub was_stored : l.res_config asset ≡ some old
  pub was_enabled : old.enabled ≡ true
  pub current : Reserve
  pub is_current : Reserve.load e l config asset ≡ ok current
  pub frame : l' ≡ record l {
    res_init = update l.res_init asset none;
    res_data = update l.res_data asset (some (current.state));
    res_config = update l.res_config asset (some (record old { enabled = false }));
  }

-- A configuration that only disables a reserve is the old one, disabled.
is_disable_only-exact :
    (old new : ReserveConfig) (i : ℕ)
    → i ≡ old.index
    → is_disable_only old new ≡ true
    → (old.enabled ≡ true) × (record new { index = i } ≡ record old { enabled = false })
unfolding is_disable_only
is_disable_only-exact old new i same_index h =
    let was_enabled : old.enabled ≡ true = ground (arith, h) in
    let enabled : new.enabled ≡ false = ground (arith, h) in
    let decimals : new.decimals ≡ old.decimals = ground (arith, h) in
    let c_factor : new.c_factor ≡ old.c_factor = ground (arith, h) in
    let l_factor : new.l_factor ≡ old.l_factor = ground (arith, h) in
    let util : new.util ≡ old.util = ground (arith, h) in
    let max_util : new.max_util ≡ old.max_util = ground (arith, h) in
    let r_base : new.r_base ≡ old.r_base = ground (arith, h) in
    let r_one : new.r_one ≡ old.r_one = ground (arith, h) in
    let r_two : new.r_two ≡ old.r_two = ground (arith, h) in
    let r_three : new.r_three ≡ old.r_three = ground (arith, h) in
    let reactivity : new.reactivity ≡ old.reactivity = ground (arith, h) in
    let supply_cap : new.supply_cap ≡ old.supply_cap = ground (arith, h) in
    let min_position : new.min_position ≡ old.min_position = ground (arith, h) in
    (
      was_enabled,
      λ j. record {
        index = same_index j;
        decimals = decimals j;
        c_factor = c_factor j;
        l_factor = l_factor j;
        util = util j;
        max_util = max_util j;
        r_base = r_base j;
        r_one = r_one j;
        r_two = r_two j;
        r_three = r_three j;
        reactivity = reactivity j;
        supply_cap = supply_cap j;
        min_position = min_position j;
        enabled = enabled j;
      },
    )

-- A disabled configuration has the same curve.
is_disable_only-curve :
    (old new : ReserveConfig) → is_disable_only old new ≡ true → changes_rates old new ≡ false
unfolding is_disable_only
is_disable_only-curve old new h = ground (arith, h)

disables-some :
    (o : Option ReserveConfig) (new : ReserveConfig)
    → disables o new ≡ true
    → (old : ReserveConfig) × (o ≡ some old) × (is_disable_only old new ≡ true)
disables-some none new h = cc
disables-some (some old) new h = (old, refl, h)

pub initialize_reserve-IsDisabled :
    (e : Env) (l : Ledger) (config : PoolConfig) (asset : Address) (new : ReserveConfig)
    {l' : Ledger} {index : ℕ}
    → l.pool_config ≡ some config
    → disables (l.res_config asset) new ≡ true
    → IsInitialized e (del_queued_reserve_set l asset) asset new l' index
    → IsDisabled e l config asset l'
unfolding Reserve.load
initialize_reserve-IsDisabled e l config asset new hp h s =
    let (old, found, only) = disables-some (l.res_config asset) new h in
    let u = s.updated old found in
    let (enabled, same) = is_disable_only-exact old new _ u.same_index only in
    record {
      old = old;
      was_stored = found;
      was_enabled = enabled;
      current = u.loaded;
      is_current =
          subst (λ c. Reserve.load e l c asset ≡ ok (u.loaded))
            (some-injective (sym u.pool_config ∙ hp)) u.is_loaded;
      frame = s.frame ∙ λ j. record l {
        res_list = u.same_list j;
        res_init = update l.res_init asset none;
        res_data =
            update l.res_data asset (some (u.same_state (is_disable_only-curve old new only) j));
        res_config = update l.res_config asset (some (same j));
      };
    }
