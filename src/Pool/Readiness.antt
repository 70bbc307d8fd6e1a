-- ===== src/Pool/Readiness.antt =====
-- checkBareMetalInstancesReady of a pool, and the profile that handleUpdate does not accept.
use bare_metal_operator.Prelude.{
  String, true, false, none, some, List, [], ◌∷◌, ◌≡◌, refl, ap, ◌∙◌, arith, All, if◌then◌else◌,
  ◌↔◌, inl, inr, Option-cases, Bool-cases,
}
use bare_metal_operator.Shared.{ok, done}
use bare_metal_operator.Profile
use bare_metal_operator.Profile.{Profile, validate_parameters, is_some}
use bare_metal_operator.Api.Instance.{BareMetalInstance, Phase}
use bare_metal_operator.Api.Pool
use bare_metal_operator.Api.Pool.{
  set_status_condition, initialize_status_conditions, initialize_status_condition, BareMetalPool,
  ProfileSpec, PoolPhase, ready, failed, progressing,
}
use bare_metal_operator.Pool.State.{Reconciler, State, primitives}
use bare_metal_operator.Pool.Update.{
  all_ready, not_ready, all_done, check_ready, checked_profile, named_profile, validate_profile,
  versioned, handle_update, put_version, start_phase,
}

-- An instance that is not being deleted is Ready.
abbrev pub IsServing : BareMetalInstance → Type 0
IsServing o = o.deleting ≡ false → o.status.phase ≡ Phase.ready

all_ready_to : (items : List BareMetalInstance) → all_ready items ≡ true → All IsServing items
unfolding all_ready
all_ready_to [] h = tt
all_ready_to (o ∷ items) h = ((λ live. ground arith), all_ready_to items (ground arith))

all_ready_from : (items : List BareMetalInstance) → All IsServing items → all_ready items ≡ true
unfolding all_ready
all_ready_from [] h = refl
all_ready_from (o ∷ items) (serves, h) = ground (arith, serves, all_ready_from items h)

-- Phase Failed, with the calls and the finalizers as they were.
abbrev pub IsLeftFailed : {W : Type 0} → State W → State W → Type 0
IsLeftFailed s' s =
    (s'.pool.status.phase ≡ failed)
    × (s'.calls ≡ s.calls)
    × (s'.pool.finalizers ≡ s.pool.finalizers)

module _ {W : Type 0} (r : Reconciler W) where
  check_ready_phase :
      (s : State W) (items : List BareMetalInstance)
      → (r.client.list_instances s.pool.namespace s.pool.uid s.world).0 ≡ ok items
      → (check_ready r s).1.pool.status.phase ≡ (if all_ready items then ready else progressing)
  unfolding check_ready all_done not_ready set_status_condition primitives
  check_ready_phase s items h = elim (Bool-cases (all_ready items)) [
    | inl q ↦ rw (h, q) refl
    | inr q ↦ rw (h, q) refl
  ]

  -- Where the instances of the pool can be listed, checkBareMetalInstancesReady makes the pool
  -- Ready if and only if each listed instance that is not being deleted is Ready.
  pub check_ready-IsServing :
      (s : State W) (items : List BareMetalInstance)
      → (r.client.list_instances s.pool.namespace s.pool.uid s.world).0 ≡ ok items
      → ((check_ready r s).1.pool.status.phase ≡ ready) ↔ All IsServing items
  check_ready-IsServing s items h = (
    (λ is_now_ready.
        all_ready_to items (ground (arith, check_ready_phase s items h, is_now_ready))),
    (λ serving. ground (arith, check_ready_phase s items h, all_ready_from items serving)),
  )

  -- The registry's profile of that name, if any, does not accept the parameters.
  abbrev pub Refuses : ProfileSpec → Type 0
  Refuses spec =
      (p : Profile)
      → Profile.get r.profiles spec.name ≡ some p
      → validate_parameters r.formats p spec.template_parameters ≡ false

  validate_profile_rejected :
      (s : State W) (spec : ProfileSpec)
      → s.pool.spec.profile ≡ some spec
      → Refuses spec
      → ((validate_profile r s).0 ≡ none) × IsLeftFailed (validate_profile r s).1 s
  unfolding validate_profile named_profile checked_profile set_status_condition primitives
  validate_profile_rejected s spec named refuses =
      rw named (elim (Option-cases (Profile.get r.profiles spec.name)) [
        | inl found ↦ rw found (refl, (refl, refl, refl))
        | inr (p, found) ↦ rw (found, refuses p found) (refl, (refl, refl, refl))
      ])

  versioned_rejected :
      (version : String) (s : State W) (spec : ProfileSpec)
      → s.pool.spec.profile ≡ some spec
      → Refuses spec
      → ((versioned r version s).0 ≡ (done, none)) × IsLeftFailed (versioned r version s).1 s
  unfolding versioned primitives
  versioned_rejected version s spec named refuses =
      let s1 = record s { pool = put_version version s.pool } in
      let (answer, left) = validate_profile_rejected s1 spec named refuses in rw answer (refl, left)

  initialize_keeps :
      (p : BareMetalPool)
      → ((initialize_status_conditions r.kube p).spec ≡ p.spec)
        × ((initialize_status_conditions r.kube p).finalizers ≡ p.finalizers)
  unfolding initialize_status_conditions initialize_status_condition set_status_condition
  initialize_keeps p = ground arith

  -- A pool whose spec names a profile that the registry does not have, or whose parameters the
  -- profile does not accept, becomes Failed without an error or a requeue, no call is made to any
  -- server, and its finalizers are as they were; a provider is configured and the configuration
  -- version can be computed.
  pub handle_update_rejected :
      (s : State W) (spec : ProfileSpec) (version : String)
      → s.pool.spec.profile ≡ some spec
      → r.has_provider ≡ true
      → r.provisioning.compute_desired_config_version s.pool.spec ≡ ok version
      → Refuses spec
      → ((handle_update r s).0 ≡ (done, none)) × IsLeftFailed (handle_update r s).1 s
  unfolding handle_update primitives
  handle_update_rejected s spec version named provided computed refuses =
      let p = initialize_status_conditions r.kube s.pool in
      let started = record s { pool = Pool.set_phase (start_phase p.status.phase) p } in
      let (same_spec, same_finalizers) = initialize_keeps s.pool in
      let still_named = ap (λ x. x.profile) same_spec ∙ named in
      let has_profile = ap is_some still_named in
      let still_computed = ap r.provisioning.compute_desired_config_version same_spec ∙ computed in
      let (answer, (is_failed, calls, finalizers)) =
        versioned_rejected version started spec still_named refuses in
      simp (has_profile, provided, still_computed)
        (answer, (is_failed, calls, finalizers ∙ same_finalizers))
