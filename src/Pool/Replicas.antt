-- ===== src/Pool/Replicas.antt =====
-- reconcileBareMetalInstances against the counts that the pool's spec asks for.
use bare_metal_operator.Prelude.{
  ℕ, ◌<◌, String, Option, none, some, List, [], ◌∷◌, ◌≡◌, refl, ◌∙◌, arith, ◌==◌, eq_iff, contains,
  if◌then◌else◌,
}
use bare_metal_operator.Prelude.Dict.{
  Dict, lookup, insert, keys, Distinct, or_else, lookup-insert, lookup-nil, contains-keys,
  Distinct-insert, Distinct-if,
}
use bare_metal_operator.Profile.{Profile, is_some}
use bare_metal_operator.Api.Pool.{BareMetalHostSet}
use bare_metal_operator.Pool.State.{Reconciler, State, Current, primitives}
use bare_metal_operator.Pool.Scale.{
  desired_replicas, with_unwanted, update_status_host_sets, reconcile_instances,
}
use bare_metal_operator.Pool.Counts.{count, wanted, count-scale_all}

-- The replicas that the spec gives a host type: those of its last entry for it.
abbrev pub asked : String → List BareMetalHostSet → Option ℕ
asked j [] = none
asked j (set ∷ sets) =
    let rest = asked j sets in or_else rest (if set.host_type == j then some set.replicas else none)

abbrev pub or_zero : Option ℕ → ℕ
or_zero none = 0
or_zero (some n) = n

lookup-desired_replicas :
    (j : String) (desired : Dict ℕ) (sets : List BareMetalHostSet)
    → lookup j (desired_replicas desired sets) ≡ or_else (asked j sets) (lookup j desired)
unfolding desired_replicas
lookup-desired_replicas j desired [] = refl
lookup-desired_replicas j desired (set ∷ sets) = ground (
  arith,
  lookup-desired_replicas j (insert set.host_type set.replicas desired) sets,
  lookup-insert set.host_type j set.replicas desired,
)

lookup-with_unwanted :
    (j : String) (desired : Dict ℕ) (types : List String)
    → lookup j (with_unwanted desired types)
      ≡ or_else (lookup j desired) (if contains types j then some 0 else none)
unfolding with_unwanted
lookup-with_unwanted j desired [] = ground arith
lookup-with_unwanted j desired (t ∷ types) = ground (
  arith,
  lookup-with_unwanted j desired types,
  lookup-with_unwanted j (insert t 0 desired) types,
  lookup-insert t j 0 desired,
  eq_iff t j,
)

Distinct-desired_replicas :
    (desired : Dict ℕ) (sets : List BareMetalHostSet)
    → Distinct desired
    → Distinct (desired_replicas desired sets)
unfolding desired_replicas
Distinct-desired_replicas desired [] d = d
Distinct-desired_replicas desired (set ∷ sets) d =
    Distinct-desired_replicas (insert set.host_type set.replicas desired) sets
      (Distinct-insert set.host_type set.replicas desired d)

Distinct-with_unwanted :
    (desired : Dict ℕ) (types : List String)
    → Distinct desired
    → Distinct (with_unwanted desired types)
unfolding with_unwanted
Distinct-with_unwanted desired [] d = d
Distinct-with_unwanted desired (t ∷ types) d =
    Distinct-with_unwanted (if is_some (lookup t desired) then desired else insert t 0 desired)
      types
      (Distinct-if (is_some (lookup t desired)) desired (insert t 0 desired) (λ q. d)
        (λ q. Distinct-insert t 0 desired d))

-- A range over a map visits each entry of the map once, in some order.
pub record IsOrder {W : Type 0} (r : Reconciler W) : Type 0 where
  pub same : (j : String) (m : Dict ℕ) → lookup j (r.client.range_order m) ≡ lookup j m
  pub once : (m : Dict ℕ) → Distinct m → Distinct (r.client.range_order m)

lookup-asked :
    (j : String) (sets : List BareMetalHostSet) (m : Current)
    → lookup j (with_unwanted (desired_replicas [] sets) (keys m))
      ≡ or_else (asked j sets) (if contains (keys m) j then some 0 else none)
lookup-asked j sets m = ground (
  arith,
  lookup-with_unwanted j (desired_replicas [] sets) (keys m),
  lookup-desired_replicas j [] sets,
  lookup-nil {V = ℕ} j,
)

module _ {W : Type 0} (r : Reconciler W) (order : IsOrder r) where
  -- The map that the loop ranges over.
  abbrev pub ranged : List BareMetalHostSet → Current → Dict ℕ
  ranged sets m = r.client.range_order (with_unwanted (desired_replicas [] sets) (keys m))

  pub Distinct-ranged : (sets : List BareMetalHostSet) (m : Current) → Distinct (ranged sets m)
  Distinct-ranged sets m = order.once (with_unwanted (desired_replicas [] sets) (keys m)) (
      Distinct-with_unwanted (desired_replicas [] sets) (keys m)
        (Distinct-desired_replicas [] sets tt))

  wanted-ranged :
      (j : String) (sets : List BareMetalHostSet) (m : Current)
      → wanted (ranged sets m) m j ≡ or_zero (asked j sets)
  wanted-ranged j sets m = ground (
    arith,
    order.same j (with_unwanted (desired_replicas [] sets) (keys m)),
    lookup-asked j sets m,
    contains-keys j m,
  )

  pub ranged_small :
      (sets : List BareMetalHostSet) (m : Current)
      → ((j : String) → or_zero (asked j sets) < 2147483648)
      → (j : String) (n : ℕ) → lookup j (ranged sets m) ≡ some n
      → n < 2147483648
  ranged_small sets m small j n found = ground (
    arith,
    order.same j (with_unwanted (desired_replicas [] sets) (keys m)),
    lookup-asked j sets m,
    small j,
  )

  -- Where the replicas that the spec asks for fit an int32 and the instances of each host type are
  -- fewer than 2^31, a reconcileBareMetalInstances that returns no error leaves for every host
  -- type exactly the number of instances that the spec asks for, and none of a type that the spec
  -- does not name, in whatever order the map of desired counts is ranged over.
  pub count-reconcile_instances :
      (profile : Option Profile) (s : State W)
      → ((j : String) → or_zero (asked j s.pool.spec.host_sets) < 2147483648)
      → ((j : String) → count j s.current < 2147483648)
      → (reconcile_instances r profile s).0 ≡ none
      → (j : String)
      → count j (reconcile_instances r profile s).1.current
        ≡ or_zero (asked j s.pool.spec.host_sets)
  unfolding reconcile_instances update_status_host_sets primitives
  count-reconcile_instances profile s small few h j =
      let sets = s.pool.spec.host_sets in
      count-scale_all r (ranged sets s.current) profile s (Distinct-ranged sets s.current)
        (ranged_small sets s.current small) few h j
      ∙ wanted-ranged j sets s.current
