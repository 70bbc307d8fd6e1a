-- ===== src/Pool/Ending.antt =====
-- The fuel of the loop of scaleDownBareMetalInstances.
use bare_metal_operator.Prelude.{
  List, [], ◌∷◌, ℕ, zero, suc, ◌+◌, ◌<◌, String, false, ◌≡◌, refl, arith, eq_refl, is_empty, inl,
  inr, Bool-cases, Option-cases,
}
use bare_metal_operator.Prelude.Int.{lt32}
use bare_metal_operator.Shared.{ignore_not_found}
use bare_metal_operator.Pool.State.{Reconciler, State, primitives}
use bare_metal_operator.Pool.Scale.{
  instances, drop_last, put_instances, delete_last, scale_down_loop, scale_down, count32,
}
use bare_metal_operator.Pool.Slices.{instances-put_instances, length-drop_last}
use bare_metal_operator.Pool.Counts.{count}

is_empty-drop_last :
    {A : Type 0} (xs : List A) → is_empty (drop_last xs) ≡ false → is_empty xs ≡ false
unfolding drop_last
is_empty-drop_last [] h = h
is_empty-drop_last (x ∷ xs) h = refl

module _ {W : Type 0} (r : Reconciler W) where
  -- The state in which the next round starts.
  abbrev shorter : String → State W → State W
  shorter t s = record (delete_last r (instances t s.current) s).1 {
    current = put_instances t (drop_last (instances t s.current)) s.current;
  }

  count-shorter :
      (fuel : ℕ) (t : String) (s : State W)
      → is_empty (drop_last (instances t s.current)) ≡ false
      → count t s.current < suc fuel
      → count t (shorter t s).current < fuel
  count-shorter fuel t s more h =
      let full = is_empty-drop_last (instances t s.current) more in
      ground (
        arith,
        length-drop_last (instances t s.current) full,
        instances-put_instances t t (drop_last (instances t s.current)) s.current,
        eq_refl t,
        h,
      )

  -- Fuel above the number of instances makes no difference.
  scale_down_loop_more :
      (fuel more : ℕ) (t : String) (replicas : ℕ) (s : State W)
      → count t s.current < fuel
      → count t s.current < more
      → scale_down_loop r fuel t replicas s ≡ scale_down_loop r more t replicas s
  unfolding scale_down_loop primitives
  scale_down_loop_more zero more t replicas s hf hm = absurd (omega (arith, hf))
  scale_down_loop_more (suc fuel) zero t replicas s hf hm = absurd (omega (arith, hm))
  scale_down_loop_more (suc fuel) (suc more) t replicas s hf hm =
      let xs = instances t s.current in
      elim (Bool-cases (lt32 replicas (count32 t s.current))) [
        | inr few ↦ rw few refl
        | inl many ↦ elim (Option-cases (ignore_not_found (delete_last r xs s).0)) [
          | inr (e, refused) ↦ rw (many, refused) refl
          | inl gone ↦ elim (Bool-cases (is_empty (drop_last xs))) [
            | inl empty ↦ rw (many, gone, empty) refl
            | inr rest ↦
                rw (many, gone, rest)
                  (scale_down_loop_more fuel more t replicas (shorter t s)
                    (count-shorter fuel t s rest hf) (count-shorter more t s rest hm))
          ]
        ]
      ]

  -- The loop of scaleDownBareMetalInstances ends by itself: whatever the API server answers, and
  -- for any count that is asked for, negative ones included, it leads to the same result and state
  -- with any greater number of rounds than it is given; it is given one more than the slice has
  -- instances.
  pub scale_down_ends :
      (extra : ℕ) (t : String) (replicas : ℕ) (s : State W)
      → scale_down r t replicas s ≡ scale_down_loop r (suc (count t s.current) + extra) t replicas s
  unfolding scale_down primitives
  scale_down_ends extra t replicas s =
      scale_down_loop_more (suc (count t s.current)) (suc (count t s.current) + extra) t replicas s
        (omega arith) (omega arith)
