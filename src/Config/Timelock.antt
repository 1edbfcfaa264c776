-- ===== src/Config/Timelock.antt =====
-- The queue of reserve changes: pool/src/pool/config.rs.
use blend_contracts_v.Config.Disable.{IsDisabled, initialize_reserve-IsDisabled}
use blend_contracts_v.Config.Stored.{initialize_reserve-IsInitialized, some-injective}
use blend_contracts_v.Prelude.{
  List, ℕ, ltb, ◌==◌, >>=-elim, panic_if-elim, or_panic-some, ok-injective, ok, ◌+◌, ◌≤◌, ◌≡◌, sym,
  ◌≢◌, false, not, ◌&&◌, ◌||◌, none, some, arith, refl, ap, ◌∙◌, Option,
}
use blend_contracts_v.Env.{Env, Address, seconds_per_week}
use blend_contracts_v.Config.{
  execute_set_reserve, execute_queue_set_reserve, require_valid_reserve_metadata,
  is_invalid_metadata, disables, require_valid_change, unlock_time_of,
}
use blend_contracts_v.Storage.{
  Ledger, QueuedReserveInit, get_queued_reserve_set, ReserveConfig, set_queued_reserve_set,
  has_queued_reserve_set, PoolConfig, get_pool_config, is_some, update, ReserveData,
  del_queued_reserve_set,
}

-- A queued change that is carried out: it was queued, its time has come, its configuration is valid
-- and is the one stored, with the index that is returned; nothing but the asset's entries and the list of
-- reserves is written; and on a pool that runs it only disables the reserve.
pub record IsUnlocked (e : Env) (l : Ledger) (asset : Address) (l' : Ledger) (index : ℕ)
    : Type 0 where
  pub queued : QueuedReserveInit
  pub was_queued : l.res_init asset ≡ some queued
  pub unlocked : queued.unlock_time ≤ e.timestamp
  pub valid : is_invalid_metadata queued.new_config ≡ false
  pub config : PoolConfig
  pub pool_config : l.pool_config ≡ some config
  pub list : List Address
  pub state : ReserveData
  pub frame : l' ≡ record l {
    res_list = list;
    res_init = update l.res_init asset none;
    res_data = update l.res_data asset (some state);
    res_config = update l.res_config asset (some (record (queued.new_config) { index = index }));
  }
  pub disables_only : config.status ≢ 6 → IsDisabled e l config asset l'

-- A reserve change that is carried out was queued, its time has come and its configuration is
-- valid; afterwards the queued configuration is stored with the index that the call returns, the
-- queued entry is gone, and besides these only the asset's data and the list of reserves may
-- differ; unless the pool is in setup, the reserve was enabled, its stored configuration is now
-- the old one, disabled, its data is the one that loading it gives, and nothing else differs.
pub execute_set_reserve-IsUnlocked :
    (e : Env) (l : Ledger) (asset : Address) {l' : Ledger} {index : ℕ}
    → execute_set_reserve e l asset ≡ ok (l', index)
    → IsUnlocked e l asset l' index
unfolding execute_set_reserve require_valid_reserve_metadata
execute_set_reserve-IsUnlocked e l asset h =
    >>=-elim (get_queued_reserve_set l asset) _ h λ queued e1 h1.
      panic_if-elim (ltb e.timestamp queued.unlock_time) _ _ h1 λ late h2.
        panic_if-elim (is_invalid_metadata queued.new_config) _ _ h2 λ valid h3.
          >>=-elim (get_pool_config l) _ h3 λ config e2 h4.
            panic_if-elim
              (not (config.status == 6) && not (disables (l.res_config asset) queued.new_config)) _
              _ h4
              λ disabling h5.
                let s =
                  initialize_reserve-IsInitialized e (del_queued_reserve_set l asset) asset
                    queued.new_config h5 in
                let stored = or_panic-some _ _ e2 in
                record {
                  queued = queued;
                  was_queued = or_panic-some _ _ e1;
                  unlocked = ground (arith, late);
                  valid = valid;
                  config = config;
                  pool_config = stored;
                  list = s.list;
                  state = s.state;
                  frame = s.frame;
                  disables_only = λ x.
                      initialize_reserve-IsDisabled e l config asset queued.new_config stored
                        (ground (arith, disabling, x)) s;
                }

free_slot : (o : Option QueuedReserveInit) → is_some o ≡ false → o ≡ none
free_slot none h = refl
free_slot (some _) h = cc

update-same {ℓ} : {V : Type ℓ} (f : ℕ → V) (k : ℕ) (v : V) → update f k v k ≡ v
update-same f k v = ground arith

-- What queueing a change leaves: the entry, with the delay that the pool's status calls for.
pub record IsQueued (e : Env) (l : Ledger) (asset : Address) (metadata : ReserveConfig)
    (l' : Ledger) : Type 0 where
  pub unlock_time : ℕ
  pub frame :
      l'
      ≡ set_queued_reserve_set l (record { new_config = metadata; unlock_time = unlock_time }) asset
  pub was_free : l.res_init asset ≡ none
  pub config : PoolConfig
  pub pool_config : l.pool_config ≡ some config
  pub delay : config.status ≢ 6 → unlock_time ≡ e.timestamp + seconds_per_week
  pub valid : is_invalid_metadata metadata ≡ false

pub execute_queue_set_reserve-IsQueued :
    (e : Env) (l : Ledger) (asset : Address) (metadata : ReserveConfig) {l' : Ledger}
    → execute_queue_set_reserve e l asset metadata ≡ ok l'
    → IsQueued e l asset metadata l'
unfolding execute_queue_set_reserve require_valid_reserve_metadata
execute_queue_set_reserve-IsQueued e l asset metadata {l'} h =
    panic_if-elim (has_queued_reserve_set l asset) _ _ h λ free h1.
      panic_if-elim (is_invalid_metadata metadata) _ _ h1 λ valid h2.
        >>=-elim (get_pool_config l) _ h2 λ config e1 h3.
          panic_if-elim
            (config.status == 6 && disables (l.res_config asset) metadata
              || not (config.status == 6) && not (disables (l.res_config asset) metadata))
            _ _ h3
            λ allowed h4.
              >>=-elim (require_valid_change (l.res_config asset) metadata) _ h4 λ _ e2 h5.
                >>=-elim (unlock_time_of e config.status) _ h5 λ unlock_time e3 h6. record {
                  unlock_time = unlock_time;
                  frame = sym (ok-injective h6);
                  was_free = free_slot (l.res_init asset) free;
                  config = config;
                  pool_config = or_panic-some _ _ e1;
                  delay = λ x. ground (arith, e3, x);
                  valid = valid;
                }

-- A reserve change that is queued on a pool that is not in setup is carried out, while the queued
-- entry stays, at least seven days later, whatever else changes in the ledger.
pub queue-set_reserve-delay :
    (e e' : Env) (l : Ledger) (asset : Address) (metadata : ReserveConfig) (l₂ : Ledger)
    {l₁ l₃ : Ledger} {config : PoolConfig} {index : ℕ}
    → l.pool_config ≡ some config
    → config.status ≢ 6
    → execute_queue_set_reserve e l asset metadata ≡ ok l₁
    → l₂.res_init asset ≡ l₁.res_init asset
    → execute_set_reserve e' l₂ asset ≡ ok (l₃, index)
    → e.timestamp + seconds_per_week ≤ e'.timestamp
queue-set_reserve-delay e e' l asset metadata l₂ {l₁} hc running hq same hs =
    let q = execute_queue_set_reserve-IsQueued e l asset metadata hq in
    let s = execute_set_reserve-IsUnlocked e' l₂ asset hs in
    let entry = ap (λ (x : Ledger). x.res_init asset) q.frame ∙ update-same l.res_init asset _ in
    let found = some-injective (sym s.was_queued ∙ same ∙ entry) in
    let config = some-injective (sym q.pool_config ∙ hc) in
    omega (
      arith,
      q.delay (λ x. running (sym (ap (λ (c : PoolConfig). c.status) config) ∙ x)),
      ap (λ (i : QueuedReserveInit). i.unlock_time) found,
      s.unlocked,
    )
