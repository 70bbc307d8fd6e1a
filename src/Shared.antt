-- ===== src/Shared.antt =====
-- internal/shared/shared.go, the constants of internal/controller/*_names.go, Go's errors as
-- values, and the result of a reconcile (ctrl.Result of controller-runtime).
use bare_metal_operator.Prelude.{
  String, Bool, true, false, ◌&&◌, not, Option, none, some, ◌==◌, if◌then◌else◌, ◌≡◌, ◌⊎◌, inl, inr,
  refl,
}
use bare_metal_operator.Prelude.Int.{ℤ, pos, int_eq, is_positive}

abbrev pub osac_prefix : String
osac_prefix = "osac.openshift.io"

abbrev pub osac_noop_template : String
osac_noop_template = "noop"

abbrev pub osac_bare_metal_pool_id_label : String
osac_bare_metal_pool_id_label = "bareMetalPoolId"

abbrev pub osac_default_managed_by_value : String
osac_default_managed_by_value = "baremetal"

abbrev pub osac_default_provision_state_value : String
osac_default_provision_state_value = "available"

abbrev pub bare_metal_instance_inventory_finalizer : String
bare_metal_instance_inventory_finalizer = "osac.openshift.io/inventory"

abbrev pub bare_metal_instance_management_finalizer : String
bare_metal_instance_management_finalizer = "osac.openshift.io/baremetalinstance"

abbrev pub bare_metal_pool_finalizer : String
bare_metal_pool_finalizer = "osac.openshift.io/bare-metal-pool"

abbrev pub bare_metal_pool_label_key : String
bare_metal_pool_label_key = "osac.openshift.io/bare-metal-pool-id"

abbrev pub host_type_label_key : String
host_type_label_key = "osac.openshift.io/host-type"

abbrev pub bare_metal_pool_template_id_annotation_key : String
bare_metal_pool_template_id_annotation_key = "osac.openshift.io/templateID"

-- time.Duration in nanoseconds.
abbrev pub Duration : Type 0
Duration = ℤ

abbrev pub default_no_free_hosts_poll_interval_duration : Duration
default_no_free_hosts_poll_interval_duration = pos 30000000000

abbrev pub default_try_lock_fail_poll_interval_duration : Duration
default_try_lock_fail_poll_interval_duration = pos 1000000000

abbrev pub default_management_recheck_interval_duration : Duration
default_management_recheck_interval_duration = pos 10000000000

abbrev pub default_host_ready_poll_interval_duration : Duration
default_host_ready_poll_interval_duration = pos 10000000000

abbrev pub default_host_deletion_poll_interval_duration : Duration
default_host_deletion_poll_interval_duration = pos 5000000000

-- The errors of the Kubernetes API server and of Ironic that the program tells apart; all others
-- are `failure`, with their text.
pub data ApiError : Type 0 where
  not_found already_exists conflict unauthorized : ApiError
  unable_to_reauthenticate error_after_reauthentication : ApiError
  failure : String → ApiError

-- errors.New and fmt.Errorf without %w are `new`; fmt.Errorf with %w is `wrap`, with the text in
-- front. `transitioning` is management.ErrTransitioning.
pub data Error : Type 0 where
  new : String → Error
  wrap : String → Error → Error
  transitioning : Error
  api : ApiError → Error

-- errors.Is(err, management.ErrTransitioning)
abbrev pub is_transitioning_error : Error → Bool
is_transitioning_error (new text) = false
is_transitioning_error (wrap text e) = is_transitioning_error e
is_transitioning_error transitioning = true
is_transitioning_error (api e) = false

-- The API error that an error wraps, which the predicates of the two clients look for.
abbrev pub api_error : Error → Option ApiError
api_error (new text) = none
api_error (wrap text e) = api_error e
api_error transitioning = none
api_error (api e) = some e

abbrev is_api_not_found : Option ApiError → Bool
is_api_not_found (some not_found) = true
is_api_not_found _ = false

abbrev is_api_already_exists : Option ApiError → Bool
is_api_already_exists (some already_exists) = true
is_api_already_exists _ = false

-- client.IgnoreNotFound
abbrev pub ignore_not_found : Option Error → Option Error
ignore_not_found none = none
ignore_not_found (some e) = if is_api_not_found (api_error e) then none else some e

-- client.IgnoreAlreadyExists
abbrev pub ignore_already_exists : Option Error → Option Error
ignore_already_exists none = none
ignore_already_exists (some e) = if is_api_already_exists (api_error e) then none else some e

-- A Go pair (value, error): the value counts only where the error is nil.
pub data Res (A : Type 0) : Type 0 where
  ok : A → Res A
  err : Error → Res A

abbrev pub error_of : {A : Type 0} → Res A → Option Error
error_of (ok a) = none
error_of (err e) = some e

pub Res-cases : {A : Type 0} (x : Res A) → ((a : A) × (x ≡ ok a)) ⊎ ((e : Error) × (x ≡ err e))
Res-cases (ok a) = inl (a, refl)
Res-cases (err e) = inr (e, refl)

-- ctrl.Result
pub record CtrlResult : Type 0 where
  pub requeue : Bool
  pub requeue_after : Duration

abbrev pub done : CtrlResult
done = record { requeue = false; requeue_after = pos 0 }

abbrev pub after : Duration → CtrlResult
after d = record { requeue = false; requeue_after = d }

abbrev pub is_zero : CtrlResult → Bool
is_zero r = not r.requeue && int_eq r.requeue_after (pos 0)

-- What a handler returns: (ctrl.Result, error).
abbrev pub Outcome : Type 0
Outcome = CtrlResult × Option Error

-- The poll intervals of the constructors: a value that is not positive gives the default.
abbrev pub or_default : Duration → Duration → Duration
or_default d default = if is_positive d then d else default

-- A template that is named and is not the no-op one.
abbrev pub runs_template : String → Bool
runs_template template = not (template == "") && not (template == osac_noop_template)
