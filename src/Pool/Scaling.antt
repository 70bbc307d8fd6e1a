-- ===== src/Pool/Scaling.antt =====
-- scaleUpBareMetalInstances, scaleDownBareMetalInstances and the loop over the desired counts, against
-- the instances that the server creates and deletes.
use bare_metal_operator.Prelude.{
  ℕ, zero, suc, ◌<◌, String, true, false, Option, none, some, List, [], ◌∷◌, ◌++◌, ◌≡◌, refl, ap,
  ◌∙◌, arith, ◌==◌, eq_iff, eq_refl, is_empty, inl, inr, Bool-cases, Option-cases,
}
use bare_metal_operator.Prelude.Dict.{Dict, insert, lookup, Distinct}
use bare_metal_operator.Prelude.Int.{
  lt32, sub32, is_positive32, is_negative32, wrap32_small, lt32_small,
}
use bare_metal_operator.Shared.{ignore_not_found}
use bare_metal_operator.Profile.{Profile}
use bare_metal_operator.Api.Instance.{BareMetalInstance}
use bare_metal_operator.Pool.State.{Reconciler, State, primitives}
use bare_metal_operator.Pool.Create.{create_instance}
use bare_metal_operator.Pool.Scale.{
  instances, drop_last, put_instances, delete_last, failed_with, appended, scale_up,
  scale_down_loop, scale_down, scale, scale_all, count32,
}
use bare_metal_operator.Pool.Panics.{can_create, create_instance_quiet, scale_others}
use bare_metal_operator.Pool.Counts.{count}
use bare_metal_operator.Pool.Specs.{scale-Keeps}
use bare_metal_operator.Pool.Slices.{instances-put_instances, length-is_empty, length-drop_last}
use bare_metal_operator.Pool.Ledger.{
  IsLedger, IsBalanced, IsBalanced-trans, is_of, last-is_of, created-grown, gone-dropped,
}

module _ {W : Type 0} (r : Reconciler W) (created : String → W → ℕ)
    (gone : String → W → List BareMetalInstance) (ledger : IsLedger r.client created gone) where
  scale_up-IsBalanced :
      (delta : ℕ) (t j : String) (profile : Option Profile) (s : State W)
      → can_create profile s.pool.spec.profile ≡ true
      → (scale_up r delta t profile s).0 ≡ none
      → IsBalanced r created gone ledger j s (scale_up r delta t profile s).1
  unfolding scale_up appended failed_with primitives
  scale_up-IsBalanced zero t j profile s able silent = (refl, refl)
  scale_up-IsBalanced (suc delta) t j profile s able silent =
      let after_create = (create_instance r t profile s).1 in
      let grown = record after_create {
        current = insert t (instances t after_create.current ++ none ∷ []) after_create.current;
      } in
      let kept = (create_instance_quiet r t profile s able).2 in
      elim (Option-cases (create_instance r t profile s).0) [
        | inl made ↦ rw made (
            IsBalanced-trans r created gone ledger j s grown (scale_up r delta t profile grown).1
              (created-grown r created gone ledger t j profile s able made)
              (scale_up-IsBalanced delta t j profile grown
                (ap (λ p. can_create profile p.spec.profile) kept ∙ able) (rw made at silent)))
        | inr (e, refused) ↦ absurd (ground (arith, rw refused at silent))
      ]

  scale_down_loop-IsBalanced :
      (fuel : ℕ) (t j : String) (replicas : ℕ) (s : State W)
      → replicas < 2147483648
      → count t s.current < 2147483648
      → is_of t (instances t s.current) ≡ true
      → (scale_down_loop r fuel t replicas s).0 ≡ none
      → IsBalanced r created gone ledger j s (scale_down_loop r fuel t replicas s).1
  unfolding scale_down_loop failed_with primitives
  scale_down_loop-IsBalanced zero t j replicas s hr hc whole silent = (refl, refl)
  scale_down_loop-IsBalanced (suc fuel) t j replicas s hr hc whole silent =
      let xs = instances t s.current in
      let after_delete = (delete_last r xs s).1 in
      let shorter = record after_delete { current = put_instances t (drop_last xs) s.current } in
      let put = instances-put_instances t t (drop_last xs) s.current in
      let dropped = length-drop_last xs in
      elim (Bool-cases (lt32 replicas (count32 t s.current))) [
        | inl more ↦
            let filled : is_empty xs ≡ false = ground (
              arith,
              length-is_empty xs,
              wrap32_small (count t s.current),
              lt32_small replicas (count t s.current),
              more,
              hr,
              hc,
            ) in
            let (o, last, typed, left, rest) = last-is_of t xs whole filled in
            elim (Option-cases (ignore_not_found (delete_last r xs s).0)) [
              | inl removed ↦
                  let step = gone-dropped r created gone ledger t j s whole filled removed in
                  elim (Bool-cases (is_empty (drop_last xs))) [
                    | inl all ↦ rw (more, removed, all) step
                    | inr some_left ↦
                        rw (more, removed, some_left)
                          (IsBalanced-trans r created gone ledger j s shorter
                            (scale_down_loop r fuel t replicas shorter).1 step
                            (scale_down_loop-IsBalanced fuel t j replicas shorter hr
                              (ground (arith, put, eq_refl t, dropped filled, hc))
                              (ground (arith, put, eq_refl t, rest))
                              (rw (more, removed, some_left) at silent)))
                  ]
              | inr (e, refused) ↦ absurd (ground (arith, rw (more, refused) at silent))
            ]
        | inr done ↦ rw done (refl, refl)
      ]

  scale-IsBalanced :
      (t j : String) (replicas : ℕ) (profile : Option Profile) (s : State W)
      → replicas < 2147483648
      → count t s.current < 2147483648
      → is_of t (instances t s.current) ≡ true
      → can_create profile s.pool.spec.profile ≡ true
      → (scale r t replicas profile s).0 ≡ none
      → IsBalanced r created gone ledger j s (scale r t replicas profile s).1
  unfolding scale scale_down primitives
  scale-IsBalanced t j replicas profile s hr hc whole able silent =
      let delta = sub32 replicas (count32 t s.current) in
      elim (Bool-cases (is_positive32 delta)) [
        | inl up ↦ rw up (scale_up-IsBalanced delta t j profile s able (rw up at silent))
        | inr not_up ↦ elim (Bool-cases (is_negative32 delta)) [
          | inl down ↦
              rw (not_up, down)
                (scale_down_loop-IsBalanced (suc (count t s.current)) t j replicas s hr hc whole
                  (rw (not_up, down) at silent))
          | inr level ↦ rw (not_up, level) (refl, refl)
        ]
      ]

  pub scale_all-IsBalanced :
      (desired : Dict ℕ) (profile : Option Profile) (s : State W)
      → Distinct desired
      → ((t : String) (n : ℕ) → lookup t desired ≡ some n → n < 2147483648)
      → ((t : String) (n : ℕ) → lookup t desired ≡ some n → count t s.current < 2147483648)
      → ((t : String) (n : ℕ) → lookup t desired ≡ some n → is_of t (instances t s.current) ≡ true)
      → can_create profile s.pool.spec.profile ≡ true
      → (scale_all r desired profile s).0 ≡ none
      → (j : String) → IsBalanced r created gone ledger j s (scale_all r desired profile s).1
  unfolding scale_all lookup primitives
  scale_all-IsBalanced [] profile s d small few whole able silent j = (refl, refl)
  scale_all-IsBalanced ((t, n) ∷ desired) profile s (fresh, d) small few whole able silent j =
      let here : lookup t ((t, n) ∷ desired) ≡ some n = ground (arith, eq_refl t) in
      let scaled = (scale r t n profile s).1 in
      let kept : (i : String) (k : ℕ)
          → lookup i desired ≡ some k
          → ((t == i) ≡ false) × (lookup i ((t, n) ∷ desired) ≡ some k) =
        λ i k found. ground (arith, fresh, eq_iff t i, found) in
      elim (Option-cases (scale r t n profile s).0) [
        | inl quiet ↦ rw quiet (
            IsBalanced-trans r created gone ledger j s scaled (scale_all r desired profile scaled).1
              (scale-IsBalanced t j n profile s (small t n here) (few t n here) (whole t n here)
                able quiet)
              (scale_all-IsBalanced desired profile scaled d
                (λ i k found. small i k (kept i k found).1)
                (λ i k found.
                  rw (scale_others r t i n profile s (kept i k found).0)
                    (few i k (kept i k found).1))
                (λ i k found.
                  rw (scale_others r t i n profile s (kept i k found).0)
                    (whole i k (kept i k found).1))
                (ap (λ x. can_create profile x.profile)
                    ((scale-Keeps r s.pool.spec t n profile).at s refl)
                  ∙ able)
                (rw quiet at silent) j))
        | inr (e, refused) ↦ absurd (ground (arith, rw refused at silent))
      ]
