-- ===== src/Config/Stored.antt =====
-- What the setup of a reserve stores: `initialize_reserve` of pool/src/pool/config.rs.
use blend_contracts_v.Pool
use blend_contracts_v.Reserve
use blend_contracts_v.Reserve.{Reserve}
use blend_contracts_v.Reserve.Identity.{load-identity}
use blend_contracts_v.Config.{
  initialize_reserve, update_reserve, add_reserve, changes_rates, initial_data,
  require_valid_reserve_metadata_changes,
}
use blend_contracts_v.Prelude.{
  ◌≢◌, ◌>>=◌, panic_if-elim, leb, ℕ, >>=-elim, or_panic-some, ok-injective, ok, ◌≡◌, sym, true,
  false, none, some, refl, ap, ◌∙◌, Bool, List, ◌++◌, [], ◌∷◌, if◌then◌else◌, Option-cases, inl,
  inr, subst,
}
use blend_contracts_v.Env.{Env, Address, scalar_7, max_reserves}
use blend_contracts_v.Pool.{Pool, load_reserve, note_store}
use blend_contracts_v.Storage.{
  Ledger, ReserveConfig, ReserveData, PoolConfig, get_pool_config, get_res_config, push_res_list,
  update, length, set_res_data, set_res_config, has_res, is_some,
}

-- The stored reserve after a change of its configuration: the list of reserves and the index stay, and
-- the data is the stored one, brought up to date, where the curve is not changed.
pub record IsUpdated (e : Env) (l : Ledger) (asset : Address) (old new : ReserveConfig)
    (list : List Address) (state : ReserveData) (index : ℕ) : Type 0 where
  pub same_list : list ≡ l.res_list
  pub same_index : index ≡ old.index
  pub config : PoolConfig
  pub pool_config : l.pool_config ≡ some config
  pub loaded : Reserve
  pub is_loaded : Reserve.load e l config asset ≡ ok loaded
  pub same_state : changes_rates old new ≡ false → state ≡ loaded.state

-- The only entries that the setup of a reserve writes: the asset's configuration and data, and the
-- list of reserves.
pub record IsInitialized (e : Env) (l : Ledger) (asset : Address) (new : ReserveConfig)
    (l' : Ledger) (index : ℕ) : Type 0 where
  pub list : List Address
  pub state : ReserveData
  pub frame : l' ≡ record l {
    res_list = list;
    res_data = update l.res_data asset (some state);
    res_config = update l.res_config asset (some (record new { index = index }));
  }
  pub updated :
      (old : ReserveConfig)
      → l.res_config asset ≡ some old
      → IsUpdated e l asset old new list state index

pub some-injective {ℓ} : {A : Type ℓ} {a b : A} → some a ≡ some b → a ≡ b
some-injective h = cc

if_true {ℓ} : {A : Type ℓ} {b : Bool} (x y : A) → b ≡ true → (if b then x else y) ≡ x
if_true x y h = rw h refl

if_false {ℓ} : {A : Type ℓ} {b : Bool} (x y : A) → b ≡ false → (if b then x else y) ≡ y
if_false x y h = rw h refl

-- A reserve whose rate modifier may be reset.
reset-asset :
    (b : Bool) (r : Reserve)
    → (if b then record r { state = record (r.state) { ir_mod = scalar_7 } } else r).asset ≡ r.asset
reset-asset true r = refl
reset-asset false r = refl

reset-state :
    (b : Bool) (r : Reserve)
    → b ≡ false
    → (if b then record r { state = record (r.state) { ir_mod = scalar_7 } } else r).state ≡ r.state
reset-state true r h = cc
reset-state false r h = refl

none≢some {ℓ} : {A : Type ℓ} {a : A} → none ≢ some a
none≢some h = cc

module _ (e : Env) (l : Ledger) (asset : Address) (new : ReserveConfig) where
  update_reserve-IsUpdated :
      (old : ReserveConfig) {l' : Ledger} {index : ℕ}
      → l.res_config asset ≡ some old
      → update_reserve e l asset new ≡ ok (l', index)
      → (state : ReserveData) × (l' ≡ set_res_data l asset state)
        × IsUpdated e l asset old new l.res_list state index
  unfolding update_reserve Pool.load load_reserve
  update_reserve-IsUpdated old {l'} {index} hc h = >>=-elim (Pool.load l) _ h λ pool e1 h1.
      >>=-elim (get_pool_config l) _ e1 λ config e2 e3.
        let stored : l.pool_config ≡ some (pool.config) =
          or_panic-some _ _ e2 ∙ ap (λ (x : Pool). some (x.config)) (ok-injective e3) in
        >>=-elim
          (Reserve.load e l pool.config asset >>= λ reserve.
            ok (note_store pool asset false, reserve))
          _ (rw (sym (ok-injective e3)) at h1)
          λ (noted, reserve) e4 h3.
            >>=-elim (Reserve.load e l pool.config asset) _ e4 λ loaded e5 h4.
              >>=-elim (get_res_config l asset) _ h3 λ current e6 h5.
                >>=-elim (require_valid_reserve_metadata_changes current new) _ h5 λ _ e7 h6.
                  let same : loaded ≡ reserve =
                    ap (λ (x : Pool × Reserve). x.1) (ok-injective h4) in
                  let is_loaded = e5 ∙ ap ok same in
                  let identity = load-identity e pool.config l asset old hc is_loaded in
                  let is_current : current ≡ old =
                    some-injective (sym (or_panic-some _ _ e6) ∙ hc) in
                  let conclude : (x : Reserve)
                      → x.asset ≡ reserve.asset
                      → (changes_rates old new ≡ false → x.state ≡ reserve.state)
                      → (Reserve.store l x, reserve.config.index) ≡ (l', index)
                      → (state : ReserveData) × (l' ≡ set_res_data l asset state)
                        × IsUpdated e l asset old new l.res_list state index =
                    λ x same_asset kept q. (
                      x.state,
                      ap (λ (y : Ledger × ℕ). y.0) (sym q)
                          ∙ ap (λ a. set_res_data l a x.state) (same_asset ∙ identity.0),
                      record {
                        same_list = refl;
                        same_index =
                            ap (λ (y : Ledger × ℕ). y.1) (sym q)
                            ∙ ap (λ (c : ReserveConfig). c.index) identity.1;
                        config = pool.config;
                        pool_config = stored;
                        loaded = reserve;
                        is_loaded = is_loaded;
                        same_state = kept;
                      },
                    ) in
                  conclude
                    (if changes_rates current new
                      then record reserve { state = record (reserve.state) { ir_mod = scalar_7 } }
                      else reserve)
                    (reset-asset (changes_rates current new) reserve)
                    (λ keeps.
                      reset-state (changes_rates current new) reserve
                        (ap (λ c. changes_rates c new) is_current ∙ keeps))
                    (ok-injective h6)

  pub initialize_reserve-IsInitialized :
      {l' : Ledger} {index : ℕ}
      → initialize_reserve e l asset new ≡ ok (l', index)
      → IsInitialized e l asset new l' index
  unfolding initialize_reserve add_reserve push_res_list
  initialize_reserve-IsInitialized {l'} {index} h =
      >>=-elim (if has_res l asset then update_reserve e l asset new else add_reserve e l asset) _ h
        λ (l₁, i) e1 h1. elim (Option-cases (l.res_config asset)) [
          | inr (old, found) ↦
              let (state, stored, updated) =
                update_reserve-IsUpdated old found (sym (if_true _ _ (ap is_some found)) ∙ e1) in
              subst (λ (a, b). IsInitialized e l asset new a b) (ok-injective h1)
                (record {
                  list = l.res_list;
                  state = state;
                  frame = ap (λ x. set_res_config x asset (record new { index = i })) stored;
                  updated = λ old' found'.
                      subst (λ c. IsUpdated e l asset c new l.res_list state i)
                        (some-injective (sym found ∙ found')) updated;
                })
          | inl missing ↦
              >>=-elim (push_res_list l asset) _ (sym (if_false _ _ (ap is_some missing)) ∙ e1)
                λ (l₂, j) e2 h2.
                  panic_if-elim (leb max_reserves (length l.res_list)) _ _ e2 λ room h3.
                    subst (λ (a, b). IsInitialized e l asset new a b) (ok-injective h1)
                      (record {
                        list = l.res_list ++ (asset ∷ []);
                        state = initial_data e;
                        frame =
                            ap (λ x. set_res_config x asset (record new { index = i }))
                              (ap (λ (y : Ledger × ℕ). y.0) (sym (ok-injective h2))
                                ∙ ap (λ (y : Ledger × ℕ). set_res_data y.0 asset (initial_data e))
                                    (sym (ok-injective h3)));
                        updated = λ old found. absurd (none≢some (sym missing ∙ found));
                      })
        ]
