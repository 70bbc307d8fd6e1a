-- ===== src/Pool/Panics.antt =====
-- Panics and reconcileBareMetalInstances: scaleDownBareMetalInstances takes the last of a slice by its
-- index, and reads what it finds there.
use bare_metal_operator.Prelude.{
  ℕ, zero, suc, ◌<◌, String, Bool, true, false, Option, none, some, List, [], ◌∷◌, ◌++◌, ◌≡◌, refl,
  ap, ◌∙◌, arith, ◌==◌, eq_iff, eq_refl, is_empty, if◌then◌else◌,
}
use bare_metal_operator.Prelude.Dict.{Dict, lookup, insert, Distinct, lookup-nil}
use bare_metal_operator.Prelude.Int.{sub32, wrap32_small, lt32_small}
use bare_metal_operator.Profile.{Profile}
use bare_metal_operator.Api.Instance.{BareMetalInstance}
use bare_metal_operator.Pool.State.{Reconciler, State, Current, primitives}
use bare_metal_operator.Pool.Create.{create_instance, own_instance, send_instance}
use bare_metal_operator.Pool.Scale.{
  instances, last?, drop_last, put_instances, failed_with, appended, scale_up, deleted, delete_last,
  scale_down_loop, scale_down, scale, scale_all, count32, reconcile_instances,
  update_status_host_sets,
}
use bare_metal_operator.Pool.Update.{group}
use bare_metal_operator.Pool.Slices.{
  instances-insert, instances-put_instances, length-is_empty, length-drop_last,
}
use bare_metal_operator.Pool.Counts.{count}
use bare_metal_operator.Pool.Specs.{scale-Keeps}
use bare_metal_operator.Api.Pool.{ProfileSpec}
use bare_metal_operator.Pool.Grouping.{live, count-group}
use bare_metal_operator.Pool.Replicas.{
  asked, or_zero, IsOrder, ranged, Distinct-ranged, ranged_small,
}

-- Is every instance of the slice one that was listed, and none one that was just created?
abbrev pub is_full : List (Option BareMetalInstance) → Bool
is_full [] = true
is_full (none ∷ xs) = false
is_full (some o ∷ xs) = is_full xs

pub is_full-drop_last :
    (xs : List (Option BareMetalInstance)) → is_full xs ≡ true → is_full (drop_last xs) ≡ true
unfolding drop_last
is_full-drop_last [] h = refl
is_full-drop_last (none ∷ xs) h = absurd (ground (arith, h))
is_full-drop_last (some o ∷ []) h = refl
is_full-drop_last (some o ∷ y ∷ xs) h = is_full-drop_last (y ∷ xs) h

-- The last of a full slice that is not empty is an instance.
pub last-is_full :
    (xs : List (Option BareMetalInstance))
    → is_full xs ≡ true
    → is_empty xs ≡ false
    → (o : BareMetalInstance) × (last? xs ≡ some (some o))
unfolding last?
last-is_full [] h full = absurd (ground (arith, full))
last-is_full (none ∷ xs) h full = absurd (ground (arith, h))
last-is_full (some o ∷ []) h full = (o, refl)
last-is_full (some o ∷ none ∷ xs) h full = absurd (ground (arith, h))
last-is_full (some o ∷ some q ∷ xs) h full = last-is_full (some q ∷ xs) h refl

is_full-snoc :
    (xs : List (Option BareMetalInstance)) (o : BareMetalInstance)
    → is_full xs ≡ true
    → is_full (xs ++ some o ∷ []) ≡ true
is_full-snoc [] o h = refl
is_full-snoc (none ∷ xs) o h = absurd (ground (arith, h))
is_full-snoc (some q ∷ xs) o h = is_full-snoc xs o h

-- A map that listAndGroup builds has full slices.
pub is_full-group_from :
    (j : String) (m : Current) (items : List BareMetalInstance)
    → ((t : String) → is_full (instances t m) ≡ true)
    → is_full (instances j (group m items)) ≡ true
unfolding group
is_full-group_from j m [] full = full j
is_full-group_from j m (o ∷ items) full =
    let t = o.spec.host_type in
    let grown = insert t (instances t m ++ some o ∷ []) m in
    is_full-group_from j (if o.deleting then m else grown) items (λ i. ground (
      arith,
      instances-insert t i (instances t m ++ some o ∷ []) m,
      is_full-snoc (instances t m) o (full t),
      full i,
    ))

-- Does the spec have the profile that an instance is made for, if there is one?
abbrev pub can_create : Option Profile → Option ProfileSpec → Bool
can_create none spec = true
can_create (some p) none = false
can_create (some p) (some spec) = true

module _ {W : Type 0} (r : Reconciler W) where
  pub create_instance_quiet :
      (t : String) (profile : Option Profile) (s : State W)
      → can_create profile s.pool.spec.profile ≡ true
      → ((create_instance r t profile s).1.panicked ≡ s.panicked)
        × ((create_instance r t profile s).1.current ≡ s.current)
        × ((create_instance r t profile s).1.pool ≡ s.pool)
  unfolding create_instance own_instance send_instance primitives
  create_instance_quiet t profile s able =
      (ground (arith, able), ground (arith, able), ground (arith, able))

  scale_up_quiet :
      (delta : ℕ) (t : String) (profile : Option Profile) (s : State W)
      → can_create profile s.pool.spec.profile ≡ true
      → (scale_up r delta t profile s).1.panicked ≡ s.panicked
  unfolding scale_up appended failed_with primitives
  scale_up_quiet zero t profile s able = refl
  scale_up_quiet (suc delta) t profile s able =
      let after_create = (create_instance r t profile s).1 in
      let grown = record after_create {
        current = insert t (instances t after_create.current ++ none ∷ []) after_create.current;
      } in
      let same = create_instance_quiet t profile s able in
      ground (
        arith,
        same,
        scale_up_quiet delta t profile grown
            (ap (λ p. can_create profile p.spec.profile) same.2 ∙ able),
      )

  pub create_instance-current :
      (t : String) (profile : Option Profile) (s : State W)
      → (create_instance r t profile s).1.current ≡ s.current
  unfolding create_instance own_instance send_instance primitives
  create_instance-current t profile s = ground arith

  -- Scaling up leaves the slices of the other host types.
  scale_up_others :
      (delta : ℕ) (t j : String) (profile : Option Profile) (s : State W)
      → (t == j) ≡ false
      → instances j (scale_up r delta t profile s).1.current ≡ instances j s.current
  unfolding scale_up appended failed_with primitives
  scale_up_others zero t j profile s other = refl
  scale_up_others (suc delta) t j profile s other =
      let after_create = (create_instance r t profile s).1 in
      let grown = record after_create {
        current = insert t (instances t after_create.current ++ none ∷ []) after_create.current;
      } in
      ground (
        arith,
        other,
        scale_up_others delta t j profile grown other,
        create_instance-current t profile s,
        instances-insert t j (instances t after_create.current ++ none ∷ []) after_create.current,
      )

  -- The last of a full slice that is not empty is deleted without a panic.
  delete_last_quiet :
      (xs : List (Option BareMetalInstance)) (s : State W)
      → is_full xs ≡ true
      → is_empty xs ≡ false
      → (delete_last r xs s).1.panicked ≡ s.panicked
  unfolding delete_last deleted primitives
  delete_last_quiet xs s full more = rw (last-is_full xs full more).1 refl

  pub delete_last-current :
      (xs : List (Option BareMetalInstance)) (s : State W)
      → (delete_last r xs s).1.current ≡ s.current
  unfolding delete_last deleted primitives
  delete_last-current xs s = ground arith

  -- Scaling a full slice down to a count of an int32 that is not negative does not panic.
  scale_down_loop_quiet :
      (fuel : ℕ) (t : String) (replicas : ℕ) (s : State W)
      → replicas < 2147483648
      → count t s.current < 2147483648
      → is_full (instances t s.current) ≡ true
      → (scale_down_loop r fuel t replicas s).1.panicked ≡ s.panicked
  unfolding scale_down_loop failed_with primitives
  scale_down_loop_quiet zero t replicas s hr hc full = refl
  scale_down_loop_quiet (suc fuel) t replicas s hr hc full =
      let xs = instances t s.current in
      let after_delete = (delete_last r xs s).1 in
      let shorter = record after_delete {
        current = put_instances t (drop_last xs) after_delete.current;
      } in
      ground (
        arith,
        wrap32_small (count t s.current),
        lt32_small replicas (count t s.current),
        length-is_empty xs,
        length-drop_last xs,
        is_full-drop_last xs full,
        delete_last_quiet xs s full,
        delete_last-current xs s,
        instances-put_instances t t (drop_last xs) s.current,
        eq_refl t,
        scale_down_loop_quiet fuel t replicas shorter hr,
      )

  scale_down_loop_others :
      (fuel : ℕ) (t j : String) (replicas : ℕ) (s : State W)
      → (t == j) ≡ false
      → instances j (scale_down_loop r fuel t replicas s).1.current ≡ instances j s.current
  unfolding scale_down_loop failed_with primitives
  scale_down_loop_others zero t j replicas s other = refl
  scale_down_loop_others (suc fuel) t j replicas s other =
      let after_delete = (delete_last r (instances t s.current) s).1 in
      let shorter = record after_delete {
        current = put_instances t (drop_last (instances t s.current)) s.current;
      } in
      ground (
        arith,
        other,
        delete_last-current (instances t s.current) s,
        instances-put_instances t j (drop_last (instances t s.current)) s.current,
        scale_down_loop_others fuel t j replicas shorter other,
      )

  scale_quiet :
      (t : String) (replicas : ℕ) (profile : Option Profile) (s : State W)
      → replicas < 2147483648
      → count t s.current < 2147483648
      → is_full (instances t s.current) ≡ true
      → can_create profile s.pool.spec.profile ≡ true
      → (scale r t replicas profile s).1.panicked ≡ s.panicked
  unfolding scale scale_down primitives
  scale_quiet t replicas profile s hr hc full able = ground (
    arith,
    scale_up_quiet (sub32 replicas (count32 t s.current)) t profile s able,
    scale_down_loop_quiet (suc (count t s.current)) t replicas s hr hc full,
  )

  pub scale_others :
      (t j : String) (replicas : ℕ) (profile : Option Profile) (s : State W)
      → (t == j) ≡ false
      → instances j (scale r t replicas profile s).1.current ≡ instances j s.current
  unfolding scale scale_down primitives
  scale_others t j replicas profile s other = ground (
    arith,
    other,
    scale_up_others (sub32 replicas (count32 t s.current)) t j profile s other,
    scale_down_loop_others (suc (count t s.current)) t j replicas s other,
  )

  scale_all_quiet :
      (desired : Dict ℕ) (profile : Option Profile) (s : State W)
      → Distinct desired
      → ((t : String) (n : ℕ) → lookup t desired ≡ some n → n < 2147483648)
      → ((t : String) (n : ℕ) → lookup t desired ≡ some n → count t s.current < 2147483648)
      → ((t : String) (n : ℕ) → lookup t desired ≡ some n → is_full (instances t s.current) ≡ true)
      → can_create profile s.pool.spec.profile ≡ true
      → (scale_all r desired profile s).1.panicked ≡ s.panicked
  unfolding scale_all lookup primitives
  scale_all_quiet [] profile s d small few full able = refl
  scale_all_quiet ((t, n) ∷ desired) profile s (fresh, d) small few full able =
      let here : lookup t ((t, n) ∷ desired) ≡ some n = ground (arith, eq_refl t) in
      let scaled = (scale r t n profile s).1 in
      let kept : (i : String) (k : ℕ)
          → lookup i desired ≡ some k
          → ((t == i) ≡ false) × (lookup i ((t, n) ∷ desired) ≡ some k) =
        λ i k found. ground (arith, fresh, eq_iff t i, found) in
      ground (
        arith,
        scale_quiet t n profile s (small t n here) (few t n here) (full t n here) able,
        scale_all_quiet desired profile scaled d (λ i k found. small i k (kept i k found).1)
            (λ i k found.
              rw (scale_others t i n profile s (kept i k found).0) (few i k (kept i k found).1))
            (λ i k found.
              rw (scale_others t i n profile s (kept i k found).0) (full i k (kept i k found).1))
            (ap (λ x. can_create profile x.profile)
                ((scale-Keeps r s.pool.spec t n profile).at s refl)
              ∙ able),
      )

module _ {W : Type 0} (r : Reconciler W) (order : IsOrder r) where
  pub panicked-reconcile_instances :
      (profile : Option Profile) (s : State W) (items : List BareMetalInstance)
      → s.current ≡ group [] items
      → ((j : String) → or_zero (asked j s.pool.spec.host_sets) < 2147483648)
      → ((j : String) → live j items < 2147483648)
      → can_create profile s.pool.spec.profile ≡ true
      → (reconcile_instances r profile s).1.panicked ≡ s.panicked
  unfolding reconcile_instances update_status_host_sets primitives
  panicked-reconcile_instances profile s items grouped small few able =
      let sets = s.pool.spec.host_sets in
      scale_all_quiet r (ranged r order sets s.current) profile s
        (Distinct-ranged r order sets s.current) (ranged_small r order sets s.current small)
        (λ t n found. rw (grouped, count-group t items) (few t))
        (λ t n found. rw grouped (
          is_full-group_from t [] items
            (λ j. ground (arith, lookup-nil {V = List (Option BareMetalInstance)} j))))
        able
