-- ===== src/Pool/Specs.antt =====
-- The spec of the pool through reconcileBareMetalInstances of
-- internal/controller/baremetalpool_controller.go.
use bare_metal_operator.Prelude.{
  ℕ, zero, suc, String, Option, none, some, List, [], ◌∷◌, ◌≡◌, is_empty,
}
use bare_metal_operator.Prelude.Dict.{Dict}
use bare_metal_operator.Prelude.Int.{lt32}
use bare_metal_operator.Shared.{Error}
use bare_metal_operator.Effect.{
  Keeps, Keeps-bind, Keeps-pure, Keeps-on_error, Keeps-if, keeps_rules,
}
use bare_metal_operator.Profile.{Profile}
use bare_metal_operator.Api.Instance.{BareMetalInstance}
use bare_metal_operator.Api.Pool
use bare_metal_operator.Api.Pool.{BareMetalPool, BareMetalPoolSpec}
use bare_metal_operator.Pool.State.{
  Reconciler, State, Current, Call, pool, change, current, put_current, panic, perform, act, fail,
  set_phase, set_ready_condition,
}
use bare_metal_operator.Pool.Create.{create_instance, own_instance, send_instance}
use bare_metal_operator.Pool.Scale.{
  instances, drop_last, failed_with, appended, scale_up, deleted, delete_last, count32,
  scale_down_loop, scale_down, scale, scale_all, reconcile_instances, update_status_host_sets,
}

module _ {W : Type 0} (r : Reconciler W) (spec : BareMetalPoolSpec) where
  abbrev pub HasSpec : State W → Type 0
  HasSpec s = s.pool.spec ≡ spec

  change-Keeps :
      (f : BareMetalPool → BareMetalPool)
      → ((p : BareMetalPool) → (f p).spec ≡ p.spec)
      → Keeps HasSpec (change f)
  unfolding change
  change-Keeps f same = record { at = λ s h. rw (same s.pool) h }

  fail-Keeps : (message : String) → Keeps HasSpec (fail r message)
  unfolding fail set_phase set_ready_condition Pool.set_status_condition
  fail-Keeps message = search (keeps_rules, change-Keeps) depth 9

  pool-Keeps : Keeps HasSpec pool
  unfolding pool
  pool-Keeps = record { at = λ s h. h }

  current-Keeps : Keeps HasSpec current
  unfolding current
  current-Keeps = record { at = λ s h. h }

  put_current-Keeps : (m : Current) → Keeps HasSpec (put_current m)
  unfolding put_current
  put_current-Keeps m = record { at = λ s h. h }

  panic-Keeps : Keeps HasSpec panic
  unfolding panic
  panic-Keeps = record { at = λ s h. h }

  perform-Keeps : {A : Type 0} (c : Call) (f : W → A × W) → Keeps HasSpec (perform c f)
  unfolding perform
  perform-Keeps c f = record { at = λ s h. h }

  act-Keeps : {A : Type 0} (f : W → A × W) → Keeps HasSpec (act f)
  unfolding act
  act-Keeps f = record { at = λ s h. h }

  ruleset calls = (
    keeps_rules, fail-Keeps, pool-Keeps, current-Keeps, put_current-Keeps, panic-Keeps,
    perform-Keeps, act-Keeps,
  )

  create_instance-Keeps :
      (t : String) (profile : Option Profile) → Keeps HasSpec (create_instance r t profile)
  unfolding create_instance own_instance send_instance
  create_instance-Keeps t profile = search calls depth 12

  failed_with-Keeps : (message : String) (e : Error) → Keeps HasSpec (failed_with r message e)
  unfolding failed_with
  failed_with-Keeps message e = search calls depth 9

  appended-Keeps : (t : String) → Keeps HasSpec (appended r t)
  unfolding appended
  appended-Keeps t = search calls depth 9

  scale_up-Keeps :
      (delta : ℕ) (t : String) (profile : Option Profile)
      → Keeps HasSpec (scale_up r delta t profile)
  unfolding scale_up
  scale_up-Keeps zero t profile = Keeps-pure none
  scale_up-Keeps (suc delta) t profile = Keeps-bind _ _ (create_instance-Keeps t profile) (λ e.
      Keeps-on_error _ _ _ (failed_with-Keeps _)
        (Keeps-bind _ _ (appended-Keeps t) (λ u. scale_up-Keeps delta t profile)))

  deleted-Keeps : (o : Option BareMetalInstance) → Keeps HasSpec (deleted r o)
  unfolding deleted
  deleted-Keeps none = search calls depth 9
  deleted-Keeps (some o) = search calls depth 9

  delete_last-Keeps : (xs : List (Option BareMetalInstance)) → Keeps HasSpec (delete_last r xs)
  unfolding delete_last
  delete_last-Keeps xs = search (calls, deleted-Keeps) depth 9

  scale_down_loop-Keeps :
      (fuel : ℕ) (t : String) (replicas : ℕ) → Keeps HasSpec (scale_down_loop r fuel t replicas)
  unfolding scale_down_loop
  scale_down_loop-Keeps zero t replicas = Keeps-pure none
  scale_down_loop-Keeps (suc fuel) t replicas = Keeps-bind _ _ current-Keeps (λ m.
      Keeps-if (lt32 replicas (count32 t m)) _ _
        (λ many. Keeps-bind _ _ (delete_last-Keeps (instances t m)) (λ e.
          Keeps-on_error _ _ _ (failed_with-Keeps _) (
            Keeps-bind _ _ (put_current-Keeps _) (λ u.
              Keeps-if (is_empty (drop_last (instances t m))) _ _ (λ empty. Keeps-pure none)
                (λ rest. scale_down_loop-Keeps fuel t replicas)))))
        (λ few. Keeps-pure none))

  pub scale-Keeps :
      (t : String) (replicas : ℕ) (profile : Option Profile)
      → Keeps HasSpec (scale r t replicas profile)
  unfolding scale scale_down
  scale-Keeps t replicas profile = search (calls, scale_up-Keeps, scale_down_loop-Keeps) depth 12

  scale_all-Keeps :
      (desired : Dict ℕ) (profile : Option Profile) → Keeps HasSpec (scale_all r desired profile)
  unfolding scale_all
  scale_all-Keeps [] profile = Keeps-pure none
  scale_all-Keeps ((t, n) ∷ desired) profile =
      Keeps-bind _ _ (scale-Keeps t n profile)
        (λ e. Keeps-on_error _ _ _ (λ x. Keeps-pure _) (scale_all-Keeps desired profile))

  pub reconcile_instances-Keeps :
      (profile : Option Profile) → Keeps HasSpec (reconcile_instances r profile)
  unfolding reconcile_instances update_status_host_sets
  reconcile_instances-Keeps profile = search (calls, change-Keeps, scale_all-Keeps) depth 15
