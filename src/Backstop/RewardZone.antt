-- ===== src/Backstop/RewardZone.antt =====
-- The members of the reward zone: `add_to_reward_zone` and `remove_from_reward_zone` of
-- backstop/src/emissions/manager.rs.
use blend_contracts_v.Prelude.{
  ltb, ◌==◌, if◌then◌else◌, Bool-cases, >>=-elim, panic_if-elim, ok-injective, ok, leb_ℤ, ◌+◌, ◌≤◌,
  ◌<◌, ◌≡◌, refl, ap, subst, inl, inr, true, false, not, Option, none, some, List, [], ◌∷◌, arith,
}
use blend_contracts_v.Env.{Address, PoolBackstopData}
use blend_contracts_v.Backstop.Ledger.{
  BackstopEnv, BackstopLedger, get_reward_zone, get_pool_balance, set_reward_zone,
}
use blend_contracts_v.Backstop.Sheet.{distinct}
use blend_contracts_v.Backstop.Zone.{
  remove_pool, add_to_reward_zone, swap_in, remove_from_reward_zone, load_pool_backstop_data,
  require_distribute_run_recently,
}
use blend_contracts_v.Storage.{length}
use blend_contracts_v.Pool.{contains}
use blend_contracts_v.Backstop.{is_pool_above_threshold}

-- Nobody is in the zone twice, and it has at most thirty members.
pub record IsZone (zone : List Address) : Type 0 where
  pub unique : distinct zone ≡ true
  pub size : length zone ≤ 30

-- The zone loses one member, and keeps the others.
record IsRemoved (zone zone' : List Address) (pool : Address) : Type 0 where
  pub unique : distinct zone' ≡ true
  pub size : length zone ≡ length zone' + 1
  pub others : (a : Address) → contains zone a ≡ false → contains zone' a ≡ false

remove_pool-IsRemoved :
    (zone : List Address) (pool : Address) {zone' : List Address}
    → distinct zone ≡ true
    → remove_pool zone pool ≡ ok zone'
    → IsRemoved zone zone' pool
unfolding remove_pool distinct
remove_pool-IsRemoved [] pool d h = absurd (cc)
remove_pool-IsRemoved (p ∷ zone) pool {zone'} d h = elim (Bool-cases (contains zone p)) [
  | inl twice ↦ let impossible = rw twice at d in absurd (cc)
  | inr once ↦
      let rest = rw once at d in
      elim (Bool-cases (p == pool)) [
        | inl q ↦
            subst (λ x. IsRemoved (p ∷ zone) x pool) (ok-injective (rw q at h))
              (record { unique = rest; size = refl; others = λ a out. ground (arith, out) })
        | inr q ↦ >>=-elim (remove_pool zone pool) _ (rw q at h) λ tail e1 h1.
            let t = remove_pool-IsRemoved zone pool rest e1 in
            subst (λ x. IsRemoved (p ∷ zone) x pool) (ok-injective h1)
              (record {
                unique = rw (t.others p once, t.unique) refl;
                size = ap (λ n. n + 1) t.size;
                others = λ a out. elim (Bool-cases (a == p)) [
                  | inl same ↦ let impossible = rw same at out in absurd (cc)
                  | inr other ↦ rw (other, t.others a (rw other at out)) refl
                ];
              })
      ]
]

-- A change of the zone that goes through: a pool comes in, or one leaves.
pub data ZoneCall (l l' : BackstopLedger) : Type 0 where
  adds :
      (e : BackstopEnv) (to_add : Address) (to_remove : Option Address)
      → add_to_reward_zone e l to_add to_remove ≡ ok l'
      → ZoneCall l l'
  removes :
      (e : BackstopEnv) (to_remove : Address)
      → remove_from_reward_zone e l to_remove ≡ ok l'
      → ZoneCall l l'

joined-IsZone :
    (zone : List Address) (pool : Address)
    → contains zone pool ≡ false
    → distinct zone ≡ true
    → length zone < 30
    → IsZone (pool ∷ zone)
unfolding distinct
joined-IsZone zone pool out d room = record {
  unique = rw (out, d) refl;
  size = omega (arith, room);
}

swap_in-IsZone :
    (l : BackstopLedger) (zone : List Address) (to_add : Address) (to_remove : Option Address)
    (d : PoolBackstopData) {zone' : List Address}
    → contains zone to_add ≡ false
    → IsZone zone
    → swap_in l zone to_add to_remove d ≡ ok zone'
    → IsZone zone'
unfolding swap_in
swap_in-IsZone l zone to_add none d out z h = absurd (cc)
swap_in-IsZone l zone to_add (some to_remove) d out z h =
    panic_if-elim (leb_ℤ d.tokens (get_pool_balance l to_remove).tokens) _ _ h λ more h1.
      >>=-elim (remove_pool zone to_remove) _ h1 λ tail e1 h2.
        let t = remove_pool-IsRemoved zone to_remove z.unique e1 in
        subst IsZone (ok-injective h2)
          (joined-IsZone tail to_add (t.others to_add out) t.unique (omega (arith, t.size, z.size)))

-- A change of the reward zone that goes through, by a pool that comes in, with or without another
-- that leaves, or by a pool that leaves, keeps its members distinct and at most thirty.
pub ZoneCall-IsZone :
    {l l' : BackstopLedger}
    → ZoneCall l l'
    → IsZone (get_reward_zone l)
    → IsZone (get_reward_zone l')
unfolding add_to_reward_zone remove_from_reward_zone
ZoneCall-IsZone {l} {l'} (adds e to_add to_remove h) z =
    let zone = get_reward_zone l in
    panic_if-elim (contains zone to_add) _ _ h λ out h1.
      >>=-elim (load_pool_backstop_data e l to_add) _ h1 λ d e1 h2.
        panic_if-elim (not (is_pool_above_threshold d)) _ _ h2 λ above h3.
          >>=-elim (if ltb 0 (length zone) then require_distribute_run_recently e l else ok tt) _ h3
            λ recent e2 h4. elim (Bool-cases (ltb (length zone) 30)) [
              | inl room ↦
                  let stored : ok (set_reward_zone l (to_add ∷ zone)) ≡ ok l' = rw room at h4 in
                  subst (λ x. IsZone (get_reward_zone x)) (ok-injective stored)
                    (joined-IsZone zone to_add out z.unique (ground (arith, room)))
              | inr full ↦
                  >>=-elim (swap_in l zone to_add to_remove d) _ (rw full at h4) λ zone' e3 h5.
                    subst (λ x. IsZone (get_reward_zone x)) (ok-injective h5)
                      (swap_in-IsZone l zone to_add to_remove d out z e3)
            ]
ZoneCall-IsZone {l} (removes e to_remove h) z =
    >>=-elim (load_pool_backstop_data e l to_remove) _ h λ d e1 h1.
      panic_if-elim (is_pool_above_threshold d) _ _ h1 λ under h2.
        >>=-elim (require_distribute_run_recently e l) _ h2 λ recent e2 h3.
          >>=-elim (remove_pool (get_reward_zone l) to_remove) _ h3 λ zone e3 h4.
            let t = remove_pool-IsRemoved (get_reward_zone l) to_remove z.unique e3 in
            subst (λ x. IsZone (get_reward_zone x)) (ok-injective h4)
              (record { unique = t.unique; size = omega (arith, t.size, z.size) })
