-- ===== src/Pool/Balance.antt =====
-- reconcileBareMetalInstances against the instances that the server creates and deletes.
use bare_metal_operator.Prelude.{
  ℕ, ◌+◌, ◌<◌, String, true, not, ◌&&◌, Option, none, some, List, [], ◌∷◌, ◌++◌, ◌≡◌, refl, sym, ap,
  ◌∙◌, arith, ◌==◌, eq_iff, eq_refl, length, if◌then◌else◌,
}
use bare_metal_operator.Prelude.Dict.{insert, lookup-nil}
use bare_metal_operator.Profile.{Profile}
use bare_metal_operator.Api.Instance.{BareMetalInstance}
use bare_metal_operator.Pool.State.{Reconciler, State, Current, primitives}
use bare_metal_operator.Pool.Scale.{instances, reconcile_instances, update_status_host_sets}
use bare_metal_operator.Pool.Update.{group}
use bare_metal_operator.Pool.Slices.{instances-insert}
use bare_metal_operator.Pool.Grouping.{live, count-group}
use bare_metal_operator.Pool.Panics.{can_create}
use bare_metal_operator.Pool.Ledger.{
  IsLedger, listed_of, blanks, is_of, blanks-is_of, length-listed_of,
}
use bare_metal_operator.Pool.Scaling.{scale_all-IsBalanced}
use bare_metal_operator.Pool.Replicas.{
  asked, or_zero, IsOrder, ranged, Distinct-ranged, ranged_small, count-reconcile_instances,
}

-- The instances of a host type that are not being deleted.
abbrev pub living : String → List BareMetalInstance → List BareMetalInstance
living j [] = []
living j (o ∷ items) =
    let rest = living j items in if not o.deleting && o.spec.host_type == j then o ∷ rest else rest

append_empty : (xs : List BareMetalInstance) → xs ++ [] ≡ xs
append_empty [] = refl
append_empty (x ∷ xs) = ap (λ l. x ∷ l) (append_empty xs)

listed_of-snoc :
    (xs : List (Option BareMetalInstance)) (o : BareMetalInstance) (ys : List BareMetalInstance)
    → listed_of (xs ++ some o ∷ []) ++ ys ≡ listed_of xs ++ o ∷ ys
listed_of-snoc [] o ys = refl
listed_of-snoc (none ∷ xs) o ys = listed_of-snoc xs o ys
listed_of-snoc (some q ∷ xs) o ys = ap (λ l. q ∷ l) (listed_of-snoc xs o ys)

is_of-snoc :
    (t : String) (xs : List (Option BareMetalInstance)) (o : BareMetalInstance)
    → is_of t xs ≡ true
    → (o.spec.host_type == t) ≡ true
    → is_of t (xs ++ some o ∷ []) ≡ true
is_of-snoc t [] o h typed = ground (arith, typed)
is_of-snoc t (none ∷ xs) o h typed = absurd (ground (arith, h))
is_of-snoc t (some q ∷ xs) o h typed = ground (arith, is_of-snoc t xs o, h, typed)

listed_of-group_from :
    (j : String) (m : Current) (items : List BareMetalInstance)
    → listed_of (instances j (group m items)) ≡ listed_of (instances j m) ++ living j items
unfolding group
listed_of-group_from j m [] = sym (append_empty (listed_of (instances j m)))
listed_of-group_from j m (o ∷ items) =
    let t = o.spec.host_type in
    let grown = insert t (instances t m ++ some o ∷ []) m in
    ground (
      arith,
      listed_of-group_from j m items,
      listed_of-group_from j grown items,
      instances-insert t j (instances t m ++ some o ∷ []) m,
      listed_of-snoc (instances t m) o (living j items),
      eq_iff t j,
    )

is_of-group_from :
    (j : String) (m : Current) (items : List BareMetalInstance)
    → ((t : String) → is_of t (instances t m) ≡ true)
    → is_of j (instances j (group m items)) ≡ true
unfolding group
is_of-group_from j m [] whole = whole j
is_of-group_from j m (o ∷ items) whole =
    let t = o.spec.host_type in
    let xs = instances t m ++ some o ∷ [] in
    is_of-group_from j (if o.deleting then m else insert t xs m) items (λ i. ground (
      arith,
      instances-insert t i xs m,
      is_of-snoc t (instances t m) o (whole t) (eq_refl t),
      eq_iff t i,
      whole i,
    ))

listed_of-group :
    (j : String) (items : List BareMetalInstance)
    → listed_of (instances j (group [] items)) ≡ living j items
listed_of-group j items =
    rw (listed_of-group_from j [] items, lookup-nil {V = List (Option BareMetalInstance)} j) refl

is_of-group :
    (j : String) (items : List BareMetalInstance) → is_of j (instances j (group [] items)) ≡ true
is_of-group j items =
    is_of-group_from j [] items (λ t. rw (lookup-nil {V = List (Option BareMetalInstance)} t) refl)

module _ {W : Type 0} (r : Reconciler W) (order : IsOrder r) (created : String → W → ℕ)
    (gone : String → W → List BareMetalInstance) (ledger : IsLedger r.client created gone) where
  -- A reconcileBareMetalInstances that returns no error, on the grouping of a listing, creates and
  -- deletes what the spec asks for: with some of the listed instances of a host type that are not
  -- being deleted kept, the first ones, the others of them are just those that the server has
  -- deleted since, the last one first, and those kept and those that the server has created since
  -- are together exactly as many as the spec asks for, none for a type that it does not name. This
  -- is so for any way to count what the server has created and to list what it has deleted in
  -- which only an acknowledged creation and an acknowledged deletion count, a deleted instance
  -- that is not found counts as deleted, and the name of a new instance is not in use; where the
  -- replicas that the spec asks for fit an int32 and are not negative, the listed instances of
  -- each host type are fewer than 2^31, the spec has a profile if the instances are made for one,
  -- an owner reference leaves the host type, and the range over the map of desired counts visits
  -- each entry once.
  pub reconcile_instances_lem :
      (profile : Option Profile) (s : State W) (items : List BareMetalInstance)
      → s.current ≡ group [] items
      → ((j : String) → or_zero (asked j s.pool.spec.host_sets) < 2147483648)
      → ((j : String) → live j items < 2147483648)
      → can_create profile s.pool.spec.profile ≡ true
      → (reconcile_instances r profile s).0 ≡ none
      → (j : String)
      → (let after = (reconcile_instances r profile s).1.world in
          (kept : List BareMetalInstance) × (kept ++ gone j after
            ≡ living j items ++ gone j s.world)
          × (created j after + length kept
              ≡ created j s.world + or_zero (asked j s.pool.spec.host_sets)))
  unfolding reconcile_instances update_status_host_sets primitives
  reconcile_instances_lem profile s items grouped small few able silent j =
      let sets = s.pool.spec.host_sets in
      let before = instances j s.current in
      let left = instances j (reconcile_instances r profile s).1.current in
      let (listed, counted) =
        scale_all-IsBalanced r created gone ledger (ranged r order sets s.current) profile s
          (Distinct-ranged r order sets s.current) (ranged_small r order sets s.current small)
          (λ t n found. rw (grouped, count-group t items) (few t))
          (λ t n found. rw grouped (is_of-group t items)) able silent j in
      let grown : blanks before ≡ 0 = blanks-is_of j before (rw grouped (is_of-group j items)) in
      let ends =
        count-reconcile_instances r order profile s small
          (λ i. rw (grouped, count-group i items) (few i)) silent j in
      (
        listed_of left,
        listed ∙ ap (λ l. l ++ gone j s.world) (rw grouped (listed_of-group j items)),
        omega (arith, counted, grown, ends, length-listed_of left),
      )
