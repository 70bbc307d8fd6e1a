-- ===== src/Pool/Update.antt =====
-- handleUpdate of a pool: the profile, the finalizer, the instances, the provisioning job, and the
-- readiness of the instances.
use bare_metal_operator.Prelude.{
  String, Bool, true, false, not, ◌&&◌, Option, none, some, List, [], ◌∷◌, ◌++◌, if◌then◌else◌,
}
use bare_metal_operator.Prelude.Dict.{insert}
use bare_metal_operator.Shared.{
  Error, Outcome, done, after, is_zero, runs_template, bare_metal_pool_finalizer,
}
use bare_metal_operator.Effect.{◌>>=◌, ◌>>◌, pure, on_error, on_res, on_option}
use bare_metal_operator.Kube.{status_true, status_false}
use bare_metal_operator.Profile
use bare_metal_operator.Profile.{Profile, is_some, validate_parameters}
use bare_metal_operator.Api.Instance.{BareMetalInstance, Phase}
use bare_metal_operator.Api.Pool
use bare_metal_operator.Api.Pool.{
  BareMetalPool, ProfileSpec, PoolPhase, unset, progressing, ready, bare_metal_pool_reason_ready,
  bare_metal_pool_reason_progressing,
}
use bare_metal_operator.Pool.State.{
  Reconciler, Handler, Current, pool, change, put_current, update, set_phase, set_ready_condition,
  fail, list_instances,
}
use bare_metal_operator.Pool.Scale.{instances, reconcile_instances}
use bare_metal_operator.Pool.Provision.{reconcile_provisioning}

-- An empty phase becomes Progressing.
abbrev pub start_phase : PoolPhase → PoolPhase
start_phase unset = progressing
start_phase phase = phase

abbrev pub put_version : String → BareMetalPool → BareMetalPool
put_version version p = record p { status = record p.status { desired_config_version = version } }

-- The loop that groups the listed instances; one that is being deleted is passed over.
unfoldable pub group : Current → List BareMetalInstance → Current
group m [] = m
group m (o ∷ items) =
    group
      (if o.deleting
        then m
        else insert o.spec.host_type (instances o.spec.host_type m ++ some o ∷ []) m)
      items

abbrev pub is_ready : Phase → Bool
is_ready Phase.ready = true
is_ready _ = false

-- The loop of checkBareMetalInstancesReady.
unfoldable pub all_ready : List BareMetalInstance → Bool
all_ready [] = true
all_ready (o ∷ items) =
    if o.deleting then all_ready items else is_ready o.status.phase && all_ready items

abbrev pub pool_template : Option Profile → String
pool_template none = ""
pool_template (some p) = p.bare_metal_pool_template

module _ {W : Type 0} (r : Reconciler W) where
  abbrev pub rejected : String → Handler W (Option (Option Profile))
  rejected message = do fail r message; pure none

  unfoldable pub checked_profile : ProfileSpec → Profile → Handler W (Option (Option Profile))
  checked_profile spec p =
      if validate_parameters r.formats p spec.template_parameters
      then pure (some (some p))
      else rejected "TemplateParameters do not match the profile's expected parameters"

  unfoldable pub named_profile : ProfileSpec → Handler W (Option (Option Profile))
  named_profile spec =
      on_option (Profile.get r.profiles spec.name) (rejected "Profile does not exist")
        (checked_profile spec)

  -- `none` is "not ok".
  unfoldable pub validate_profile : Handler W (Option (Option Profile))
  validate_profile = do p ← pool; on_option p.spec.profile (pure (some none)) named_profile

  unfoldable pub put_finalizer : List String → BareMetalPool → BareMetalPool
  put_finalizer fs p = record p { finalizers = fs }

  unfoldable pub ensure_finalizer : Handler W (Option Error)
  ensure_finalizer = do
    p ← pool
    change (put_finalizer (r.kube.add_finalizer p.finalizers bare_metal_pool_finalizer).1)
    if (r.kube.add_finalizer p.finalizers bare_metal_pool_finalizer).0
        then (do
          e ← update r
          on_error e (λ x. do fail r "Failed to add finalizer"; pure (some x)) (pure none))
        else pure none

  unfoldable pub list_and_group : Handler W (Option Error)
  list_and_group = do
    answer ← list_instances r
    on_res answer (λ e. do fail r "Failed to list BareMetalInstance CRs"; pure (some e))
        (λ items. do put_current (group [] items); pure none)

  unfoldable pub not_ready : Handler W Outcome
  not_ready = do
    set_phase r progressing
    set_ready_condition r status_false
        "Not all BareMetalInstances have finished their provisioning templates"
        bare_metal_pool_reason_progressing
    pure (after r.host_ready_poll_interval, none)

  unfoldable pub all_done : Handler W Outcome
  all_done = do
    set_phase r ready
    set_ready_condition r status_true "Successfully reconciled host leases"
        bare_metal_pool_reason_ready
    pure (done, none)

  -- checkBareMetalInstancesReady, and the end of handleUpdate.
  unfoldable pub check_ready : Handler W Outcome
  check_ready = do
    answer ← list_instances r
    on_res answer (λ e. do fail r "Failed to list BareMetalInstance CRs"; pure (done, some e))
        (λ items. if all_ready items then all_done else not_ready)

  unfoldable pub provision_then_check : String → Handler W Outcome
  provision_then_check template = do
    outcome ← reconcile_provisioning r template
    on_error outcome.1 (λ e. pure outcome) (if is_zero outcome.0 then check_ready else pure outcome)

  unfoldable pub after_instances : Option Profile → Handler W Outcome
  after_instances profile =
      if runs_template (pool_template profile) && r.has_provider
      then provision_then_check (pool_template profile)
      else check_ready

  unfoldable pub with_profile : Option Profile → Handler W Outcome
  with_profile profile = do
    e ← ensure_finalizer
    on_error e (λ x. pure (done, some x))
        (do
          f ← list_and_group
          on_error f (λ x. pure (done, some x))
              (do
                g ← reconcile_instances r profile
                on_error g (λ x. pure (done, some x)) (after_instances profile)))

  unfoldable pub versioned : String → Handler W Outcome
  versioned version = do
    change (put_version version)
    answer ← validate_profile
    on_option answer (pure (done, none)) with_profile

  unfoldable pub handle_update : Handler W Outcome
  handle_update = do
    change (Pool.initialize_status_conditions r.kube)
    p ← pool
    set_phase r (start_phase p.status.phase)
    if is_some p.spec.profile && not r.has_provider
        then (do fail r "Provisioning provider not configured"; pure (done, none))
        else on_res (r.provisioning.compute_desired_config_version p.spec)
            (λ e. do fail r "Failed to compute desired config version"; pure (done, some e))
            versioned
