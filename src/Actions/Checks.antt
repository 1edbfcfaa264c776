-- ===== src/Actions/Checks.antt =====
-- The assets whose utilization is noted to be checked: `do_check_max_util` of
-- pool/src/pool/actions.rs.
use blend_contracts_v.Actions.{Actions, do_check_max_util}
use blend_contracts_v.Prelude.{◌≡◌, true, List, [], ◌∷◌, ◌++◌, arith, Bool-cases, refl, inl, inr}
use blend_contracts_v.Pool.{contains}
use blend_contracts_v.Env.{Address}

contains-append : (xs : List Address) (a : Address) → contains (xs ++ (a ∷ [])) a ≡ true
contains-append [] a = ground arith
contains-append (x ∷ xs) a = ground (arith, contains-append xs a)

pub do_check_max_util-contains :
    (a : Actions) (asset : Address)
    → contains (do_check_max_util a asset).check_max_util asset ≡ true
do_check_max_util-contains a asset = elim (Bool-cases (contains a.check_max_util asset)) [
  | inl there ↦ rw there there
  | inr absent ↦ rw absent (contains-append a.check_max_util asset)
]

contains-append_keeps :
    (xs : List Address) (a b : Address) → contains xs b ≡ true → contains (xs ++ (a ∷ [])) b ≡ true
contains-append_keeps [] a b h = cc
contains-append_keeps (x ∷ xs) a b h = ground (arith, contains-append_keeps xs a b, h)

pub do_check_max_util-keeps :
    (t : Actions) (asset other : Address)
    → contains t.check_max_util other ≡ true
    → contains (do_check_max_util t asset).check_max_util other ≡ true
do_check_max_util-keeps t asset other h = elim (Bool-cases (contains t.check_max_util asset)) [
  | inl there ↦ rw there h
  | inr absent ↦ rw absent (contains-append_keeps t.check_max_util asset other h)
]

pub do_check_max_util-pool_transfer :
    (t : Actions) (asset : Address) → (do_check_max_util t asset).pool_transfer ≡ t.pool_transfer
do_check_max_util-pool_transfer t asset = elim (Bool-cases (contains t.check_max_util asset)) [
  | inl there ↦ rw there refl
  | inr absent ↦ rw absent refl
]
