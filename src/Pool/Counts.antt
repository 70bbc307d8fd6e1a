-- ===== src/Pool/Counts.antt =====
-- The number of instances by host type, through scaling up and down.
use bare_metal_operator.Prelude.{
  ℕ, zero, suc, ◌+◌, ◌-◌, ◌<◌, String, false, Option, none, some, List, [], ◌∷◌, ◌++◌, ◌≡◌, refl,
  arith, ◌==◌, eq_iff, eq_refl, ltb, length, is_empty, if◌then◌else◌,
}
use bare_metal_operator.Prelude.Dict.{Dict, lookup, insert, Distinct}
use bare_metal_operator.Prelude.Int.{sub32, wrap32_small, lt32_small, sub32_small, sub32_negative}
use bare_metal_operator.Profile.{Profile}
use bare_metal_operator.Api.Instance.{BareMetalInstance}
use bare_metal_operator.Pool.State.{Reconciler, State, Current, primitives}
use bare_metal_operator.Pool.Create.{create_instance, own_instance, send_instance}
use bare_metal_operator.Pool.Scale.{
  instances, drop_last, put_instances, failed_with, appended, scale_up, deleted, delete_last,
  scale_down_loop, scale_down, scale, scale_all, count32,
}
use bare_metal_operator.Pool.Slices.{
  instances-insert, instances-put_instances, length-drop_last, is_empty-length, length-is_empty,
  length-snoc,
}

-- How many instances of a host type the map holds.
abbrev pub count : String → Current → ℕ
count j m = length (instances j m)

-- The count that a map of desired counts leaves: its own, or the count as it is.
abbrev pub wanted : Dict ℕ → Current → String → ℕ
wanted desired m j = elim (lookup j desired) [ some n ↦ n | none ↦ count j m ]

abbrev at_most : ℕ → ℕ → ℕ
at_most n c = if ltb n c then n else c

module _ {W : Type 0} (r : Reconciler W) where
  create_instance-current :
      (t : String) (profile : Option Profile) (s : State W)
      → (create_instance r t profile s).1.current ≡ s.current
  unfolding create_instance own_instance send_instance primitives
  create_instance-current t profile s = ground arith

  count-scale_up :
      (delta : ℕ) (t j : String) (profile : Option Profile) (s : State W)
      → (scale_up r delta t profile s).0 ≡ none
      → count j (scale_up r delta t profile s).1.current
        ≡ (if t == j then count j s.current + delta else count j s.current)
  unfolding scale_up appended failed_with primitives
  count-scale_up zero t j profile s h = ground arith
  count-scale_up (suc delta) t j profile s h =
      let after_create = (create_instance r t profile s).1 in
      let grown = record after_create {
        current = insert t (instances t after_create.current ++ none ∷ []) after_create.current;
      } in
      ground (
        arith,
        create_instance-current t profile s,
        count-scale_up delta t j profile grown,
        instances-insert t j (instances t s.current ++ none ∷ []) s.current,
        length-snoc (instances t s.current) none,
        eq_iff t j,
      )

  -- The slice of a host type after its last instance is dropped.
  pub count-dropped :
      (t j : String) (m : Current)
      → is_empty (instances t m) ≡ false
      → count j (put_instances t (drop_last (instances t m)) m)
        ≡ (if t == j then count j m - 1 else count j m)
  count-dropped t j m h = ground (
    arith,
    eq_iff t j,
    instances-put_instances t j (drop_last (instances t m)) m,
    length-drop_last (instances t m) h,
  )

  pub delete_last-current :
      (xs : List (Option BareMetalInstance)) (s : State W)
      → (delete_last r xs s).1.current ≡ s.current
  unfolding delete_last deleted primitives
  delete_last-current xs s = ground arith

  count-scale_down_loop :
      (fuel : ℕ) (t j : String) (replicas : ℕ) (s : State W)
      → replicas < 2147483648
      → count t s.current < 2147483648
      → count t s.current < fuel
      → (scale_down_loop r fuel t replicas s).0 ≡ none
      → count j (scale_down_loop r fuel t replicas s).1.current
        ≡ (if t == j then at_most replicas (count j s.current) else count j s.current)
  unfolding scale_down_loop failed_with primitives
  count-scale_down_loop zero t j replicas s hr hc hf h = absurd (omega (arith, hf))
  count-scale_down_loop (suc fuel) t j replicas s hr hc hf h =
      let after_delete = (delete_last r (instances t s.current) s).1 in
      let shorter = record after_delete {
        current = put_instances t (drop_last (instances t s.current)) after_delete.current;
      } in
      ground (
        arith,
        wrap32_small (count t s.current),
        lt32_small replicas (count t s.current),
        delete_last-current (instances t s.current) s,
        length-is_empty (instances t s.current),
        is_empty-length (drop_last (instances t s.current)),
        length-drop_last (instances t s.current),
        count-dropped t j s.current,
        count-dropped t t s.current,
        count-scale_down_loop fuel t j replicas shorter hr,
        eq_iff t j,
        eq_refl t,
      )

  count-scale :
      (t j : String) (replicas : ℕ) (profile : Option Profile) (s : State W)
      → replicas < 2147483648
      → count t s.current < 2147483648
      → (scale r t replicas profile s).0 ≡ none
      → count j (scale r t replicas profile s).1.current
        ≡ (if t == j then replicas else count j s.current)
  unfolding scale scale_down primitives
  count-scale t j replicas profile s hr hc h = ground (
    arith,
    wrap32_small (count t s.current),
    sub32_small replicas (count t s.current),
    sub32_negative replicas (count t s.current),
    count-scale_up (sub32 replicas (count32 t s.current)) t j profile s,
    count-scale_down_loop (suc (count t s.current)) t j replicas s hr hc,
    eq_iff t j,
  )

  pub count-scale_all :
      (desired : Dict ℕ) (profile : Option Profile) (s : State W)
      → Distinct desired
      → ((t : String) (n : ℕ) → lookup t desired ≡ some n → n < 2147483648)
      → ((t : String) → count t s.current < 2147483648)
      → (scale_all r desired profile s).0 ≡ none
      → (j : String)
      → count j (scale_all r desired profile s).1.current ≡ wanted desired s.current j
  unfolding scale_all lookup primitives
  count-scale_all [] profile s d small few h j = refl
  count-scale_all ((t, n) ∷ desired) profile s (fresh, d) small few h j =
      let n_small = small t n (ground (arith, eq_refl t)) in
      let scaled = (scale r t n profile s).1 in
      let e = (scale r t n profile s).0 in
      let counted = λ (i : String) (q : e ≡ none). count-scale t i n profile s n_small (few t) q in
      let rest = λ (q : e ≡ none) (none_left : (scale_all r desired profile scaled).0 ≡ none).
        count-scale_all desired profile scaled d
          (λ i k found. small i k (ground (arith, fresh, eq_iff t i)))
          (λ i. ground (arith, counted i q, few i, n_small)) none_left j in
      ground (arith, fresh, eq_iff t j, counted j, rest)
