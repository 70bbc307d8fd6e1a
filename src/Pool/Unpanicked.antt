-- ===== src/Pool/Unpanicked.antt =====
-- Panics and the handlers of a pool: handleUpdate, handleDeletion and Reconcile of
-- internal/controller/baremetalpool_controller.go.
use bare_metal_operator.Prelude.{
  ◌<◌, String, Bool, false, Option, some, List, [], ◌∷◌, ◌≡◌, refl, ◌∙◌, arith, inl, inr, true,
  none, Bool-cases, Option-cases, if◌then◌else◌,
}
use bare_metal_operator.Shared.{
  Error, Outcome, bare_metal_pool_finalizer, done, CtrlResult, Res-cases,
}
use bare_metal_operator.Effect.{
  M, ◌>>=◌, pure, on_error, on_option, Keeps, Keeps-bind, Keeps-pure, Keeps-on_error, Keeps-if,
  keeps_rules,
}
use bare_metal_operator.Profile.{Profile, is_some}
use bare_metal_operator.Provisioning.{
  Lifecycle, returns, acts, stores_jobs, fails, succeeds, checks, flushes,
}
use bare_metal_operator.Api.Instance.{BareMetalInstance}
use bare_metal_operator.Api.Pool
use bare_metal_operator.Api.Pool.{BareMetalPool, BareMetalPoolStatus, ProfileSpec}
use bare_metal_operator.Pool.State.{Reconciler, State, change, act, list_instances, primitives}
use bare_metal_operator.Pool.Scale.{reconcile_instances}
use bare_metal_operator.Pool.Provision.{
  run_lifecycle, reconcile_provisioning, reconcile_deprovisioning,
}
use bare_metal_operator.Pool.Update.{
  put_finalizer, checked_profile, named_profile, validate_profile, ensure_finalizer, list_and_group,
  not_ready, all_done, check_ready, provision_then_check, after_instances, with_profile, versioned,
  handle_update, group,
}
use bare_metal_operator.Pool.Delete.{
  delete_instances, release, deprovisioned, teardown, finish_deletion, delete_listed,
  handle_deletion,
}
use bare_metal_operator.Pool.Reconcile.{write_status, reconcile_pool, reconcile}
use bare_metal_operator.Pool.Replicas.{IsOrder}
use bare_metal_operator.Pool.Grouping.{live}
use bare_metal_operator.Pool.Panics.{can_create, panicked-reconcile_instances}
use bare_metal_operator.Pool.Specs.{reconcile_instances-Keeps}
use bare_metal_operator.Pool.Calm.{
  IsBounded, IsCalm, calls, change-Keeps, perform-Keeps, fail-Keeps, list_instances-Keeps,
}

module _ {W : Type 0} (r : Reconciler W) (bounded : IsBounded r.client) where
  ruleset steps = (calls, change-Keeps)

  run_lifecycle-Keeps : (l : Lifecycle W) → Keeps IsCalm (run_lifecycle r l)
  unfolding run_lifecycle
  run_lifecycle-Keeps (returns result e) = search calls depth 9
  run_lifecycle-Keeps (acts f next) =
      Keeps-bind _ _ (search calls) (λ w. run_lifecycle-Keeps (next w))
  run_lifecycle-Keeps (stores_jobs jobs next) =
      Keeps-bind _ _ (change-Keeps r bounded _ (λ p. refl)) (λ u. run_lifecycle-Keeps next)
  run_lifecycle-Keeps (fails message next) =
      Keeps-bind _ _ (search calls) (λ u. run_lifecycle-Keeps next)
  run_lifecycle-Keeps (succeeds next) = run_lifecycle-Keeps next
  run_lifecycle-Keeps (checks next) =
      Keeps-bind _ _ (search calls)
        (λ p. Keeps-bind _ _ (search calls) (λ b. run_lifecycle-Keeps (next b)))
  run_lifecycle-Keeps (flushes next) =
      Keeps-bind _ _ (search calls) (λ e. run_lifecycle-Keeps (next e))

  reconcile_provisioning-Keeps :
      (template : String) → Keeps IsCalm (reconcile_provisioning r template)
  unfolding reconcile_provisioning
  reconcile_provisioning-Keeps template = search (steps, run_lifecycle-Keeps) depth 12

  check_ready-Keeps : Keeps IsCalm (check_ready r)
  unfolding check_ready not_ready all_done
  check_ready-Keeps = search steps depth 12

  after_instances-Keeps : (profile : Option Profile) → Keeps IsCalm (after_instances r profile)
  unfolding after_instances provision_then_check
  after_instances-Keeps profile =
      search (steps, reconcile_provisioning-Keeps, check_ready-Keeps) depth 12

  validate_profile-Keeps : Keeps IsCalm (validate_profile r)
  unfolding validate_profile named_profile checked_profile
  validate_profile-Keeps = search steps depth 15

  ensure_finalizer-Keeps : Keeps IsCalm (ensure_finalizer r)
  unfolding ensure_finalizer put_finalizer
  ensure_finalizer-Keeps = search steps depth 15

  delete_instances-Keeps :
      (items : List BareMetalInstance) → Keeps IsCalm (delete_instances r items)
  unfolding delete_instances
  delete_instances-Keeps [] = search steps
  delete_instances-Keeps (o ∷ items) =
      let rest = delete_instances-Keeps items in
      Keeps-if o.deleting _ _ (λ gone. rest)
        (λ live.
          Keeps-bind _ _ (perform-Keeps r bounded _ _)
            (λ e. Keeps-on_error _ _ _ (λ x. Keeps-pure _) rest))

  release-Keeps : Keeps IsCalm (release r)
  unfolding release
  release-Keeps = search steps depth 12

  deprovision-Keeps : (template : String) → Keeps IsCalm (reconcile_deprovisioning r template)
  unfolding reconcile_deprovisioning
  deprovision-Keeps template = search steps depth 12

  deprovisioned-Keeps : (d : CtrlResult × Bool × Option Error) → Keeps IsCalm (deprovisioned r d)
  unfolding deprovisioned
  deprovisioned-Keeps d = search (steps, release-Keeps) depth 12

  teardown-Keeps : (p : Profile) → Keeps IsCalm (teardown r p)
  unfolding teardown
  teardown-Keeps p = search (steps, deprovision-Keeps, deprovisioned-Keeps, release-Keeps) depth 12

  finish_deletion-Keeps : Keeps IsCalm (finish_deletion r)
  unfolding finish_deletion
  finish_deletion-Keeps = search (steps, release-Keeps, teardown-Keeps) depth 12

  delete_listed-Keeps : (items : List BareMetalInstance) → Keeps IsCalm (delete_listed r items)
  unfolding delete_listed
  delete_listed-Keeps items = search (steps, delete_instances-Keeps, finish_deletion-Keeps) depth 12

  handle_deletion-Keeps : Keeps IsCalm (handle_deletion r)
  unfolding handle_deletion
  handle_deletion-Keeps = search (steps, delete_listed-Keeps) depth 12

  initialize-spec : (p : BareMetalPool) → (Pool.initialize_status_conditions r.kube p).spec ≡ p.spec
  unfolding Pool.initialize_status_conditions Pool.initialize_status_condition
      Pool.set_status_condition
  initialize-spec p = ground arith

  initialize-Keeps : Keeps {S = State W} IsCalm (change (Pool.initialize_status_conditions r.kube))
  initialize-Keeps = change-Keeps r bounded _ initialize-spec

  write_status-Keeps :
      (old : BareMetalPoolStatus) (outcome : Outcome) → Keeps IsCalm (write_status r old outcome)
  unfolding write_status
  write_status-Keeps old outcome = search steps depth 12

  able-spec :
      (profile : Option Profile) (before behind : Option ProfileSpec)
      → is_some behind ≡ is_some before
      → can_create profile before ≡ true
      → can_create profile behind ≡ true
  able-spec profile before behind same able = ground (arith, same, able)

  -- The update of the finalizer leaves the profile where it is.
  able-ensure_finalizer :
      (profile : Option Profile) (s : State W)
      → can_create profile s.pool.spec.profile ≡ true
      → (ensure_finalizer r s).0 ≡ none
      → can_create profile (ensure_finalizer r s).1.pool.spec.profile ≡ true
  unfolding ensure_finalizer put_finalizer primitives
  able-ensure_finalizer profile s able silent =
      let (added, fs) = r.kube.add_finalizer s.pool.finalizers bare_metal_pool_finalizer in
      let sent = record s.pool { finalizers = fs } in
      elim (Bool-cases added) [
        | inl new ↦ elim (Res-cases (r.client.update sent s.world).0) [
          | inl (p, answered) ↦
              rw (new, answered)
                (able-spec profile s.pool.spec.profile p.spec.profile
                  (bounded.profile_lem sent s.world p answered) able)
          | inr (e, refused) ↦ absurd (ground (arith, rw (new, refused) at silent))
        ]
        | inr old ↦ rw old able
      ]

  -- A profile that was found valid is one that the spec names.
  able-validate_profile :
      (profile : Option Profile) (s : State W)
      → (validate_profile r s).0 ≡ some profile
      → can_create profile (validate_profile r s).1.pool.spec.profile ≡ true
  unfolding validate_profile named_profile checked_profile primitives
  able-validate_profile profile s valid = ground (arith, valid)

  -- The listing that is grouped fits, and its instances are all there.
  module _ (order : IsOrder r) where
    scaled-IsCalm :
        (profile : Option Profile) (s : State W) (items : List BareMetalInstance)
        → IsCalm s
        → ((j : String) → live j items < 2147483648)
        → can_create profile s.pool.spec.profile ≡ true
        → IsCalm (reconcile_instances r profile (record s { current = group [] items })).1
    scaled-IsCalm profile s items h few able =
        let grouped = record s { current = group [] items } in
        record {
          calm =
              panicked-reconcile_instances r order profile grouped items refl h.small few able
              ∙ h.calm;
          small = λ j.
              rw ((reconcile_instances-Keeps r s.pool.spec profile).at grouped refl) (h.small j);
        }

    -- The listing, and the scaling of what it groups.
    grouped-IsCalm :
        (profile : Option Profile) (rest : Option Error → M (State W) Outcome) (s : State W)
        → ((e : Option Error) → Keeps IsCalm (rest e))
        → IsCalm s
        → can_create profile s.pool.spec.profile ≡ true
        → IsCalm
            ((do
              f ← list_and_group r
              on_error f (λ x. pure (done, some x)) (do g ← reconcile_instances r profile; rest g))
              s).1
    unfolding list_and_group list_instances primitives
    grouped-IsCalm profile rest s keeps h able =
        elim (Res-cases (r.client.list_instances s.pool.namespace s.pool.uid s.world).0) [
          | inl (items, answered) ↦ rw answered (
              (keeps _).at _ (
                scaled-IsCalm profile (list_instances r s).1 items
                  ((list_instances-Keeps r bounded).at s h)
                  (bounded.list_lem s.pool.namespace s.pool.uid s.world items answered) able))
          | inr (e, failed) ↦ rw failed (
              (fail-Keeps r bounded "Failed to list BareMetalInstance CRs").at
                (list_instances r s).1 ((list_instances-Keeps r bounded).at s h))
        ]

    with_profile-IsCalm :
        (profile : Option Profile) (s : State W)
        → IsCalm s
        → can_create profile s.pool.spec.profile ≡ true
        → IsCalm (with_profile r profile s).1
    unfolding with_profile ◌>>=◌
    with_profile-IsCalm profile s h able =
        let ensured = ensure_finalizer-Keeps.at s h in
        elim (Option-cases (ensure_finalizer r s).0) [
          | inl silent ↦ rw silent (
              grouped-IsCalm profile _ (ensure_finalizer r s).1
                (λ g.
                  Keeps-on_error g (λ x. pure (done, some x)) _ (λ x. Keeps-pure _)
                    (after_instances-Keeps profile))
                ensured (able-ensure_finalizer profile s able silent))
          | inr (e, failed) ↦ rw failed ensured
        ]

    profiled-Keeps :
        Keeps IsCalm
          (do answer ← validate_profile r; on_option answer (pure (done, none)) (with_profile r))
    unfolding ◌>>=◌
    profiled-Keeps = record {
      at = λ s h.
          let validated = validate_profile-Keeps.at s h in
          elim (Option-cases (validate_profile r s).0) [
            | inl rejected ↦ rw rejected validated
            | inr (profile, valid) ↦ rw valid (
                with_profile-IsCalm profile (validate_profile r s).1 validated
                  (able-validate_profile profile s valid))
          ];
    }

    handle_update-Keeps : Keeps IsCalm (handle_update r)
    unfolding handle_update versioned
    handle_update-Keeps = search (steps, initialize-Keeps, profiled-Keeps) depth 15

    handled-Keeps :
        (p : BareMetalPool)
        → Keeps IsCalm (do
          outcome ← (if p.deleting then handle_deletion r else handle_update r)
          write_status r p.status outcome)
    handled-Keeps p =
        search (keeps_rules, handle_deletion-Keeps, handle_update-Keeps, write_status-Keeps) depth 9

    -- No reconcile of a pool, in a process that has not panicked before, panics, whatever the API
    -- server and the libraries answer: scaling down never takes the last of an empty slice, nor
    -- deletes one of the entries that scaling up left empty, and no instance is made with a
    -- profile for a pool whose spec has none. The replicas of a pool that is read fit an int32 and
    -- are not negative, and those of a pool that a write is answered with do so where the pool
    -- that was sent did; an update is answered with a pool that has a profile exactly where the
    -- pool that was sent has one; the instances of each host type in a listing are fewer than
    -- 2^31; and the range over the map of desired counts visits each entry once.
    pub panicked-reconcile :
        (name : String) (s : State W) → s.panicked ≡ false → (reconcile r name s).1.panicked ≡ false
    unfolding reconcile reconcile_pool act change ◌>>=◌
    panicked-reconcile name s calm = elim (Res-cases (r.client.get name s.world).0) [
      | inl (p, answered) ↦
          rw answered
            ((handled-Keeps p).at _
              (record { calm = calm; small = bounded.get_lem name s.world p answered })).calm
      | inr (e, failed) ↦ rw failed calm
    ]
