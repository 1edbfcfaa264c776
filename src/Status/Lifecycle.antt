-- ===== src/Status/Lifecycle.antt =====
-- How a pool's status moves over the calls of a deployment: pool/src/pool/status.rs.
use blend_contracts_v.Prelude.{
  ℕ, ok, ℤ, ◌≤◌, ◌≡◌, ◌≢◌, Bool, some, ◌==◌, >>=-elim, panic_if-elim, ok-injective, refl, subst,
  arith, or_panic-some, trap, ◌≤ℤ◌, ◌<ℤ◌, pos, Bool-cases, inl, inr, or_panic, sym, ap, ◌∙◌, not,
  ◌&&◌, ◌||◌,
}
use blend_contracts_v.Storage.{Ledger, PoolConfig, set_pool_config, get_pool_config, get_backstop}
use blend_contracts_v.Env.{Env, Address, scalar_7}
use blend_contracts_v.Status.{
  updated_status, execute_update_pool_status, admin_status, execute_set_pool_status,
  calc_pool_backstop_threshold,
}

-- The ledger after a change of status only, to a status that is not setup.
pub record IsStatusChange (l l' : Ledger) (s : ℕ) : Type 0 where
  pub config : PoolConfig
  pub before : l.pool_config ≡ some config
  pub after : l' ≡ set_pool_config l (record config { status = s })
  pub known : s ≤ 5

module _ (e : Env) (l : Ledger) where
  -- The permissionless update changes only the status. It never runs on a pool that the admin has
  -- frozen or that is in setup, gives no admin status that was not there, and leaves no pool active
  -- while half of its backstop is queued for withdrawal.
  pub record IsUpdate (l' : Ledger) (s : ℕ) : Type 0 where
    pub change : IsStatusChange l l' s
    pub not_admin_frozen : change.config.status ≢ 4
    pub not_setup : change.config.status ≢ 6
    pub keeps_admin :
        (s ≡ 0 → change.config.status ≡ 0) × (s ≡ 2 → change.config.status ≡ 2) × (s ≢ 4)
    pub at_half :
        (b : Address)
        → l.backstop ≡ some b
        → pos 0_5000000 ≤ℤ (e.pool_data b e.current_contract_address).q4w_pct
        → 2 ≤ s

  updated_status_lem :
      (status : ℕ) (q4w : ℤ) (met : Bool) {s : ℕ}
      → updated_status status q4w met ≡ ok s
      → (s ≤ 5)
        × (status ≢ 6)
        × (s ≡ 0 → status ≡ 0)
        × (s ≡ 2 → status ≡ 2)
        × (s ≢ 4)
        × (pos 0_5000000 ≤ℤ q4w → 2 ≤ s)
  unfolding updated_status
  updated_status_lem status q4w met h = (
    ground arith,
    λ x. ground arith,
    λ x. ground arith,
    λ x. ground arith,
    λ x. ground arith,
    λ x. ground arith,
  )

  -- A permissionless update that returns changes only the status, to one of 0 to 5. It does not
  -- run on a pool that the admin froze or that is in setup, it gives admin active or admin on ice
  -- only to a pool that had that status and never admin frozen, and while half of the backstop is
  -- queued for withdrawal it leaves no pool active.
  pub execute_update_pool_status-IsUpdate :
      {l' : Ledger} {s : ℕ} → execute_update_pool_status e l ≡ ok (l', s) → IsUpdate l' s
  unfolding execute_update_pool_status
  execute_update_pool_status-IsUpdate h = >>=-elim (get_pool_config l) _ h λ config e1 h1.
      panic_if-elim (config.status == 4) _ _ h1 λ not_frozen h2.
        >>=-elim (get_backstop l) _ h2 λ backstop e2 h3.
          >>=-elim (updated_status config.status _ _) _ h3 λ s e3 h4.
            let facts = updated_status_lem config.status _ _ e3 in
            subst (λ (l', s). IsUpdate l' s) (ok-injective h4)
              (record {
                change = record {
                  config = config;
                  before = or_panic-some _ _ e1;
                  after = refl;
                  known = facts.0;
                };
                not_admin_frozen = λ x. ground arith;
                not_setup = λ x. ground arith;
                keeps_admin = (facts.2, facts.3, facts.4);
                at_half = λ b hb half. ground (arith, facts, or_panic-some l.backstop trap e2);
              })

  admin_status_lem :
      (p : ℕ) (threshold q4w : ℤ) {s : ℕ}
      → admin_status p threshold q4w ≡ ok s
      → (s ≡ p)
        × (p ≤ 3)
        × (p ≢ 1)
        × (q4w <ℤ pos 0_7500000)
        × (p ≡ 0 → (q4w <ℤ pos 0_5000000) × (scalar_7 ≤ℤ threshold))
  unfolding admin_status
  admin_status_lem p threshold q4w h = ground arith

  -- The admin's call changes only the status, to one of admin active, admin on ice, on ice and admin
  -- frozen, and only the last is possible on a frozen pool or at three quarters queued. A pool is
  -- made active only above the threshold, with less than half of its backstop queued.
  pub record IsAdminChange (l' : Ledger) (s : ℕ) : Type 0 where
    pub change : IsStatusChange l l' s
    pub not_derived : (s ≢ 1) × (s ≢ 5)
    pub thaw : s ≢ 4 → change.config.status ≢ 4
    pub backed :
        (b : Address)
        → l.backstop ≡ some b
        → s ≢ 4
        → ((e.pool_data b e.current_contract_address).q4w_pct <ℤ pos 0_7500000)
          × (s ≡ 0
              → ((e.pool_data b e.current_contract_address).q4w_pct <ℤ pos 0_5000000)
                × (scalar_7
                    ≤ℤ calc_pool_backstop_threshold (e.pool_data b e.current_contract_address)))

  frozen_by_admin :
      {l' : Ledger} (config : PoolConfig) (s : ℕ)
      → l.pool_config ≡ some config
      → s ≡ 4
      → set_pool_config l (record config { status = 4 }) ≡ l'
      → IsAdminChange l' s
  frozen_by_admin config s h is_4 same =
      subst (λ l'. IsAdminChange l' s) same
        (record {
          change = record {
            config = config;
            before = h;
            after = rw is_4 refl;
            known = ground arith;
          };
          not_derived = (λ x. ground arith, λ x. ground arith);
          thaw = λ x. absurd (x is_4);
          backed = λ b hb x. absurd (x is_4);
        })

  -- A call of the admin that returns changes only the status, to the one asked for, which is not
  -- one of the two that only an update gives. Any status but frozen needs a pool that the admin
  -- has not frozen and less than three quarters of the backstop queued, and active needs less than
  -- half queued and the threshold met.
  pub execute_set_pool_status-IsAdminChange :
      {l' : Ledger} (s : ℕ) → execute_set_pool_status e l s ≡ ok l' → IsAdminChange l' s
  unfolding execute_set_pool_status
  execute_set_pool_status-IsAdminChange s h = >>=-elim (get_pool_config l) _ h λ config e1 h1.
      elim (Bool-cases (s == 4)) [
        | inl is_4 ↦
            frozen_by_admin config s (or_panic-some _ _ e1) (ground arith)
              (ok-injective (rw is_4 at h1))
        | inr not_4 ↦
            let h2 = rw not_4 at h1 in
            panic_if-elim (config.status == 4) _ _ h2 λ thawed h2.
              panic_if-elim
                (config.status == 6
                  && (s == 0 || s == 2 || s == 3)
                  && not (e.decimals config.oracle == 7))
                _ _ h2
                λ known h3. >>=-elim (get_backstop l) _ h3 λ backstop e2 h4.
                  >>=-elim (admin_status s _ _) _ h4 λ s' e3 h5.
                    let facts = admin_status_lem s _ _ e3 in
                    subst (λ l'. IsAdminChange l' s) (ok-injective h5)
                      (record {
                        change = record {
                          config = config;
                          before = or_panic-some _ _ e1;
                          after =
                              ap (λ n. set_pool_config l (record config { status = n })) (facts.0);
                          known = omega (arith, facts.1);
                        };
                        not_derived = (facts.2, λ x. omega (arith, facts.1));
                        thaw = λ x. ground (arith, thawed);
                        backed = λ b hb x. ground (arith, facts, or_panic-some l.backstop trap e2);
                      })
      ]

-- One call of a deployment that changes the status, the backstop's state and the time being those of
-- the call's own environment.
pub data StatusCall (l l' : Ledger) : Type 0 where
  update : (e : Env) (s : ℕ) → execute_update_pool_status e l ≡ ok (l', s) → StatusCall l l'
  set : (e : Env) (s : ℕ) → execute_set_pool_status e l s ≡ ok l' → StatusCall l l'

pub data StatusCalls (l : Ledger) : Ledger → Type 0 where
  done : StatusCalls l l
  call : {l' l'' : Ledger} → StatusCalls l l' → StatusCall l' l'' → StatusCalls l l''

-- A pool that is past its setup, whose configuration is `config` but for the status.
pub record IsRunning (config : PoolConfig) (l l' : Ledger) : Type 0 where
  pub status : ℕ
  pub not_setup : status ≤ 5
  pub frame : l' ≡ set_pool_config l (record config { status = status })

change-IsRunning :
    {l l' l'' : Ledger} {config : PoolConfig} {s : ℕ}
    → IsRunning config l l'
    → IsStatusChange l' l'' s
    → IsRunning config l l''
change-IsRunning {l} {config = config} {s} r c =
    let same : c.config ≡ record config { status = r.status } =
      ok-injective
        (ap (λ o. or_panic o trap) (sym c.before ∙ ap (λ (x : Ledger). x.pool_config) r.frame)) in
    record {
      status = s;
      not_setup = c.known;
      frame =
          c.after
          ∙ ap (λ x. set_pool_config x (record (c.config) { status = s })) r.frame
          ∙ ap (λ x. set_pool_config l (record x { status = s })) same;
    }

-- Along any sequence of successful status calls by anyone, each in its own environment, a pool
-- whose status is not setup never returns to setup, and nothing in its ledger changes but the
-- status.
pub StatusCalls-IsRunning :
    {l l' : Ledger} (config : PoolConfig)
    → l.pool_config ≡ some config
    → config.status ≤ 5
    → StatusCalls l l'
    → IsRunning config l l'
StatusCalls-IsRunning {l} config h k done = record {
  status = config.status;
  not_setup = k;
  frame = ap (λ o. record l { pool_config = o }) h;
}
StatusCalls-IsRunning config h k (call before (update e s last)) =
    change-IsRunning (StatusCalls-IsRunning config h k before)
      (execute_update_pool_status-IsUpdate e _ last).change
StatusCalls-IsRunning config h k (call before (set e s last)) =
    change-IsRunning (StatusCalls-IsRunning config h k before)
      (execute_set_pool_status-IsAdminChange e _ s last).change
