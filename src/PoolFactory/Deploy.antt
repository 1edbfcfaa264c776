-- ===== src/PoolFactory/Deploy.antt =====
-- What the factory deploys: a creator's arguments that `deploy` takes are those that the constructor of
-- the repository's pool takes (pool-factory/src/pool_factory.rs and pool/src/pool/config.rs).
use blend_contracts_v.Prelude.{
  ℕ, Result, ok, NonNeg, ◌≤◌, ◌≡◌, ◌↔◌, Bool, true, false, none, some, [], ltb, Bool-cases, ltb_ℤ,
  pos, refl, ◌∙◌, inl, inr, arith, if◌then◌else◌, sym, ap,
}
use blend_contracts_v.Env.{Address}
use blend_contracts_v.Storage.{
  PoolConfig, set_blnd_token, Ledger, set_pool_config, set_backstop, update, set_name, set_admin,
}
use blend_contracts_v.PoolFactory.{
  Factory, FactoryEnv, PoolArgs, deploy, PoolInitMeta, deploy_v2, returns, bad_pool_args,
  set_deployed, deploy_from, with_meta, failed, host_trap,
}
use blend_contracts_v.PoolContract.{pool_constructor}
use blend_contracts_v.Config.{execute_initialize, require_valid_pool_config}

-- The ledger of a contract before its constructor runs.
abbrev pub no_ledger : Ledger
no_ledger = record {
  admin = none;
  proposed_admin = none;
  name = none;
  backstop = none;
  blnd_token = none;
  pool_config = none;
  res_list = [];
  res_config = λ _. none;
  res_init = λ _. none;
  res_data = λ _. none;
  emis_data = λ _. none;
  user_emis = λ _ _. none;
  pool_emis = [];
  positions = λ _. none;
  auctions = λ _ _. none;
  token_calls = [];
}

-- The constructor of the repository's pool, at the arguments that the factory passes.
abbrev pub pool_code : (Address → Bool) → PoolArgs → PoolInitMeta → Result Ledger
pool_code auth a meta =
    pool_constructor auth no_ledger a.admin a.name a.oracle a.backstop_take_rate a.max_positions
      a.min_collateral meta.backstop meta.blnd_id

-- The arguments in their bounds.
pub record IsInBounds (a : PoolArgs) : Type 0 where
  pub rate : a.backstop_take_rate ≡ 0
  pub two : 2 ≤ a.max_positions
  pub sixty : a.max_positions ≤ 60
  pub collateral : NonNeg a.min_collateral

pool_code-succeeds :
    (auth : Address → Bool) (a : PoolArgs) (meta : PoolInitMeta)
    → auth a.admin ≡ true
    → bad_pool_args a ≡ false
    → (l : Ledger) × (pool_code auth a meta ≡ ok l)
unfolding pool_constructor execute_initialize require_valid_pool_config
pool_code-succeeds auth a meta signed good =
    let rate : a.backstop_take_rate ≡ 0 = ground (arith, good) in
    let two : ltb a.max_positions 2 ≡ false = ground (arith, good) in
    let sixty : ltb 60 a.max_positions ≡ false = ground (arith, good) in
    let collateral : ltb_ℤ a.min_collateral (pos 0) ≡ false = ground (arith, good) in
    let config : PoolConfig = record {
      oracle = a.oracle;
      min_collateral = a.min_collateral;
      bstop_rate = a.backstop_take_rate;
      status = 6;
      max_positions = a.max_positions;
    } in
    (
      set_blnd_token
          (set_pool_config
            (set_backstop (set_name (set_admin no_ledger a.admin) a.name) meta.backstop) config)
          meta.blnd_id,
      rw (signed, rate, two, sixty, collateral) refl,
    )

deploy_v2-succeeds :
    (e : FactoryEnv) (f : Factory) (at : Address) (a : PoolArgs) (meta : PoolInitMeta) {l : Ledger}
    → e.vacant at ≡ true
    → e.constructor_of meta.pool_hash a meta ≡ ok l
    → (f' : Factory) × (deploy_v2 e f at a meta ≡ some f')
unfolding deploy_v2
deploy_v2-succeeds e f at a meta {l} vacant made =
    (record f { pools = update f.pools at (some l) }, rw (vacant, made) refl)

-- With the metadata there and the admin's word, a call runs the deployment.
deploy-deploy_from :
    (e : FactoryEnv) (auth : Address → Bool) (f : Factory) (a : PoolArgs) (salt : ℕ)
    (meta : PoolInitMeta)
    → f.pool_init_meta ≡ some meta
    → auth a.admin ≡ true
    → deploy e auth f a salt ≡ deploy_from e f a salt meta
unfolding deploy
deploy-deploy_from e auth f a salt meta hm signed =
    ap (λ c. if c then with_meta f.pool_init_meta (deploy_from e f a salt) else failed host_trap)
      signed
    ∙ ap (λ o. with_meta o (deploy_from e f a salt)) hm

deploy_from-placed :
    (e : FactoryEnv) (f : Factory) (a : PoolArgs) (salt : ℕ) (meta : PoolInitMeta) {f' : Factory}
    → bad_pool_args a ≡ false
    → deploy_v2 e f (e.pool_address salt a.admin) a meta ≡ some f'
    → deploy_from e f a salt meta
      ≡ returns (set_deployed f' (e.pool_address salt a.admin), e.pool_address salt a.admin)
unfolding deploy_from
deploy_from-placed e f a salt meta good placed = rw (good, placed) refl

deploy_from-good :
    (e : FactoryEnv) (f : Factory) (a : PoolArgs) (salt : ℕ) (meta : PoolInitMeta)
    {r : Factory × Address}
    → deploy_from e f a salt meta ≡ returns r
    → bad_pool_args a ≡ false
unfolding deploy_from
deploy_from-good e f a salt meta h = elim (Bool-cases (bad_pool_args a)) [
  | inl bad ↦ let impossible = rw bad at h in absurd (cc)
  | inr good ↦ good
]

-- Where the factory has its metadata, the creator authorized the call, no contract is at the new
-- address, and the code behind the hash is that of the repository's pool, a deployment goes
-- through just where the take rate is zero, there are from 2 to 60 positions and the minimal
-- collateral is not negative: the pool's own constructor refuses no arguments that the factory
-- lets pass.
pub deploy-succeeds :
    (e : FactoryEnv) (auth : Address → Bool) (f : Factory) (a : PoolArgs) (salt : ℕ)
    (meta : PoolInitMeta)
    → f.pool_init_meta ≡ some meta
    → auth a.admin ≡ true
    → e.vacant (e.pool_address salt a.admin) ≡ true
    → e.constructor_of meta.pool_hash a meta ≡ pool_code auth a meta
    → ((r : Factory × Address) × (deploy e auth f a salt ≡ returns r)) ↔ IsInBounds a
deploy-succeeds e auth f a salt meta hm signed vacant code =
    let runs = deploy-deploy_from e auth f a salt meta hm signed in
    (
      (λ (r, h).
          let good = deploy_from-good e f a salt meta (sym runs ∙ h) in
          record {
            rate = ground (arith, good);
            two = ground (arith, good);
            sixty = ground (arith, good);
            collateral = ground (arith, good);
          }),
      λ b.
          let good : bad_pool_args a ≡ false =
            ground (arith, b.rate, b.two, b.sixty, b.collateral) in
          let (l, made) = pool_code-succeeds auth a meta signed good in
          let (f', placed) =
            deploy_v2-succeeds e f (e.pool_address salt a.admin) a meta vacant (code ∙ made) in
          (_, runs ∙ deploy_from-placed e f a salt meta good placed),
    )
