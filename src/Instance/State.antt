-- ===== src/Instance/State.antt =====
-- The reconciler of bare metal instances, the state of one reconcile, and its calls.
use bare_metal_operator.Prelude.{
  String, Bool, true, Option, none, some, List, ◌∷◌, ◌<>◌, if◌then◌else◌,
}
use bare_metal_operator.Prelude.Dict.{Dict}
use bare_metal_operator.Shared.{
  Error, new, wrap, transitioning, api, ApiError, Res, ok, err, Duration, or_default, error_of,
  default_no_free_hosts_poll_interval_duration, default_try_lock_fail_poll_interval_duration,
  default_management_recheck_interval_duration,
}
use bare_metal_operator.Effect.{M, ◌>>=◌}
use bare_metal_operator.Kube.{Kube, ConditionStatus}
use bare_metal_operator.Lock
use bare_metal_operator.Lock.{HostLocks}
use bare_metal_operator.Api.Instance
use bare_metal_operator.Api.Instance.{
  BareMetalInstance, BareMetalInstanceSpec, BareMetalInstanceStatus, Phase,
}
use bare_metal_operator.Inventory
use bare_metal_operator.Inventory.{Host}
use bare_metal_operator.Management
use bare_metal_operator.Management.{PowerState, PowerStatus}
use bare_metal_operator.Provisioning.{Provisioning}

-- The anonymous struct of reconcileProvisioning: what a new version depends on.
pub record VersionInput : Type 0 where
  pub host_type : String
  pub external_host_id : String
  pub external_host_name : String
  pub host_class : String
  pub network_class : String
  pub host_selector : Dict String
  pub inventory_labels : Dict String
  pub inventory_persistent_labels : Dict String
  pub template_id : String
  pub template_parameters : String

-- client.Client on instances. A write that succeeds returns the object as the server answers it,
-- which the client library decodes into the object in memory.
pub record ObjectClient (W : Type 0) : Type 0 where
  pub get : String → W → Res BareMetalInstance × W
  pub update : BareMetalInstance → W → Res BareMetalInstance × W
  pub update_status : BareMetalInstance → W → Res BareMetalInstance × W
  -- equality.Semantic.DeepEqual
  pub same_status : BareMetalInstanceStatus → BareMetalInstanceStatus → Bool
  -- the text of an error of the client libraries
  pub error_text : ApiError → String

-- BareMetalInstanceReconciler. `has_provider` is `ProvisioningProvider != nil`.
pub record Reconciler (W : Type 0) : Type 0 where
  pub kube : Kube
  pub client : ObjectClient W
  pub inventory : Inventory.Client W
  pub management : Management.Client W
  pub has_provider : Bool
  pub provisioning : Provisioning W BareMetalInstance VersionInput
  pub no_free_hosts_poll_interval : Duration
  pub try_lock_fail_poll_interval : Duration
  pub management_recheck_interval : Duration
  pub provision_poll_interval : Duration

-- NewBareMetalInstanceReconciler
unfoldable pub new_reconciler : {W : Type 0} → Reconciler W → Reconciler W
new_reconciler r = record r {
  no_free_hosts_poll_interval =
      or_default r.no_free_hosts_poll_interval default_no_free_hosts_poll_interval_duration;
  try_lock_fail_poll_interval =
      or_default r.try_lock_fail_poll_interval default_try_lock_fail_poll_interval_duration;
  management_recheck_interval =
      or_default r.management_recheck_interval default_management_recheck_interval_duration;
  provision_poll_interval =
      or_default r.provision_poll_interval r.provisioning.default_status_poll_interval;
}

-- The calls that a reconcile makes, for the statements about them.
pub data Call : Type 0 where
  updates updates_status : BareMetalInstance → Call
  finds : Dict String → Call
  assigns : String → String → Dict String → Call
  unassigns : String → List String → Call
  locked refused unlocked : String → Call
  reads_power : String → Call
  sets_power : String → PowerState → Call
  restarts checks_restart : String → Call
  provisions deprovisions : BareMetalInstance → Call

-- The object in memory, the calls so far (newest first), the table of host locks, whether the
-- process has panicked, and the world behind the clients.
pub record State (W : Type 0) : Type 0 where
  pub object : BareMetalInstance
  pub calls : List Call
  pub locks : HostLocks
  pub panicked : Bool
  pub world : W

abbrev pub Handler : Type 0 → Type 0 → Type 0
Handler W A = M (State W) A

abbrev stored : Res BareMetalInstance → BareMetalInstance → BareMetalInstance
stored (ok o) old = o
stored (err e) old = old

module _ {W : Type 0} where
  unfoldable pub object : Handler W BareMetalInstance
  object s = (s.object, s)

  -- A change of the object in memory.
  unfoldable pub change : (BareMetalInstance → BareMetalInstance) → Handler W (Unit {0})
  change f s = (tt, record s { object = f s.object })

  unfoldable pub perform : {A : Type 0} → Call → (W → A × W) → Handler W A
  perform c f s = let (a, w) = f s.world in (a, record s { calls = c ∷ s.calls; world = w })

  unfoldable pub try_lock : String → Handler W Bool
  unfolding Lock.try_lock
  try_lock host s =
      let (got, locks) = Lock.try_lock host s.locks in
      (
        got,
        record s { calls = (if got then locked host else refused host) ∷ s.calls; locks = locks },
      )

  abbrev after_unlock : String → State W → Option HostLocks → State W
  after_unlock host s none = record s { calls = unlocked host ∷ s.calls; panicked = true }
  after_unlock host s (some locks) = record s { calls = unlocked host ∷ s.calls; locks = locks }

  unfoldable pub unlock : String → Handler W (Unit {0})
  unfolding Lock.unlock
  unlock host s = (tt, after_unlock host s (Lock.unlock host s.locks))

  -- A write, and the object as the answer leaves it.
  unfoldable pub store : Res BareMetalInstance → Handler W (Option Error)
  store answer s = (error_of answer, record s { object = stored answer s.object })

module _ {W : Type 0} (r : Reconciler W) where
  -- r.Update(ctx, bareMetalInstance)
  unfoldable pub update : Handler W (Option Error)
  update = do o ← object; answer ← perform (updates o) (r.client.update o); store answer

  -- r.Status().Update(ctx, bareMetalInstance)
  unfoldable pub update_status : Handler W (Option Error)
  update_status = do
    o ← object
    answer ← perform (updates_status o) (r.client.update_status o)
    store answer

  unfoldable pub set_condition : String → ConditionStatus → String → String → Handler W (Unit {0})
  set_condition kind status reason message =
      change (Instance.set_status_condition r.kube kind status reason message)

  unfoldable pub set_phase : Phase → Handler W (Unit {0})
  set_phase phase = change (Instance.set_phase phase)

  abbrev put_finalizers : List String → BareMetalInstance → BareMetalInstance
  put_finalizers fs o = record o { finalizers = fs }

  -- controllerutil.AddFinalizer and RemoveFinalizer
  unfoldable pub add_finalizer : String → Handler W Bool
  add_finalizer f s =
      let (changed, fs) = r.kube.add_finalizer s.object.finalizers f in
      (changed, record s { object = put_finalizers fs s.object })

  unfoldable pub remove_finalizer : String → Handler W Bool
  remove_finalizer f s =
      let (changed, fs) = r.kube.remove_finalizer s.object.finalizers f in
      (changed, record s { object = put_finalizers fs s.object })

  -- An error's text, as fmt's %v prints it.
  unfoldable pub error_text : Error → String
  error_text (new text) = text
  error_text (wrap text e) = text <> ": " <> error_text e
  error_text transitioning = "power state transition already in progress"
  error_text (api e) = r.client.error_text e

-- To unfold this is to unfold the ways to build a handler, and all primitive ones.
unfoldable pub primitives : Unit {0}
unfolding ◌>>=◌ object change perform try_lock unlock store update update_status set_condition
    set_phase add_finalizer remove_finalizer
primitives = tt
