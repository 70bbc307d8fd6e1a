-- ===== src/Pool/State.antt =====
-- The reconciler of bare metal pools, the state of one reconcile, and its calls.
use bare_metal_operator.Prelude.{ℕ, zero, suc, String, Bool, true, Option, List, ◌∷◌}
use bare_metal_operator.Prelude.Dict.{Dict}
use bare_metal_operator.Shared.{
  Error, Res, ok, err, error_of, Duration, or_default, default_host_ready_poll_interval_duration,
  default_host_deletion_poll_interval_duration,
}
use bare_metal_operator.Effect.{M, ◌>>=◌, ◌>>◌}
use bare_metal_operator.Kube.{Kube, ConditionStatus, status_false}
use bare_metal_operator.Profile.{Registry, Formats}
use bare_metal_operator.Api.Instance.{BareMetalInstance}
use bare_metal_operator.Api.Pool
use bare_metal_operator.Api.Pool.{
  BareMetalPool, BareMetalPoolSpec, BareMetalPoolStatus, PoolPhase, failed,
  bare_metal_pool_condition_type_ready, bare_metal_pool_reason_failed,
}
use bare_metal_operator.Provisioning.{Provisioning}

-- client.Client on pools and on the instances of a pool, with what the program takes from the
-- environment: random names, and the order in which a range over a map goes.
pub record PoolClient (W : Type 0) : Type 0 where
  pub get : String → W → Res BareMetalPool × W
  pub update : BareMetalPool → W → Res BareMetalPool × W
  pub update_status : BareMetalPool → W → Res BareMetalPool × W
  -- by namespace and by the pool's UID in the label
  pub list_instances : String → String → W → Res (List BareMetalInstance) × W
  pub delete_instance : BareMetalInstance → W → Option Error × W
  pub create_instance : BareMetalInstance → W → Option Error × W
  -- controllerutil.SetControllerReference
  pub set_controller_reference : BareMetalPool → BareMetalInstance → Res BareMetalInstance
  -- rand.String(5)
  pub random_suffix : W → String × W
  pub range_order : Dict ℕ → Dict ℕ
  pub same_status : BareMetalPoolStatus → BareMetalPoolStatus → Bool

-- BareMetalPoolReconciler, with the registry of profiles.
pub record Reconciler (W : Type 0) : Type 0 where
  pub kube : Kube
  pub client : PoolClient W
  pub profiles : Registry
  pub formats : Formats
  pub has_provider : Bool
  pub provisioning : Provisioning W BareMetalPool BareMetalPoolSpec
  pub host_ready_poll_interval : Duration
  pub host_deletion_poll_interval : Duration
  pub provision_job_poll_interval : Duration
  pub max_job_history : ℕ

abbrev pub or_default_count : ℕ → ℕ → ℕ
or_default_count zero default = default
or_default_count (suc n) default = suc n

-- NewBareMetalPoolReconciler; a negative job history is 0 here, and gives the default too.
unfoldable pub new_reconciler : {W : Type 0} → Reconciler W → Reconciler W
new_reconciler r = record r {
  host_ready_poll_interval =
      or_default r.host_ready_poll_interval default_host_ready_poll_interval_duration;
  host_deletion_poll_interval =
      or_default r.host_deletion_poll_interval default_host_deletion_poll_interval_duration;
  provision_job_poll_interval =
      or_default r.provision_job_poll_interval r.provisioning.default_status_poll_interval;
  max_job_history = or_default_count r.max_job_history r.provisioning.default_max_job_history;
}

pub data Call : Type 0 where
  updates updates_status : BareMetalPool → Call
  lists : Call
  creates deletes : BareMetalInstance → Call
  provisions deprovisions : BareMetalPool → Call

-- The pool's instances by host type: a created one stands as nil, `none`.
abbrev pub Current : Type 0
Current = Dict (List (Option BareMetalInstance))

-- The pool in memory, the map of its instances, the calls (newest first), whether the process has
-- panicked, and the world.
pub record State (W : Type 0) : Type 0 where
  pub pool : BareMetalPool
  pub current : Current
  pub calls : List Call
  pub panicked : Bool
  pub world : W

abbrev pub Handler : Type 0 → Type 0 → Type 0
Handler W A = M (State W) A

abbrev stored : Res BareMetalPool → BareMetalPool → BareMetalPool
stored (ok p) old = p
stored (err e) old = old

module _ {W : Type 0} where
  unfoldable pub pool : Handler W BareMetalPool
  pool s = (s.pool, s)

  unfoldable pub change : (BareMetalPool → BareMetalPool) → Handler W (Unit {0})
  change f s = (tt, record s { pool = f s.pool })

  unfoldable pub current : Handler W Current
  current s = (s.current, s)

  unfoldable pub put_current : Current → Handler W (Unit {0})
  put_current m s = (tt, record s { current = m })

  unfoldable pub panic : Handler W (Unit {0})
  panic s = (tt, record s { panicked = true })

  unfoldable pub perform : {A : Type 0} → Call → (W → A × W) → Handler W A
  perform c f s = let (a, w) = f s.world in (a, record s { calls = c ∷ s.calls; world = w })

  -- A call that is no request to a server.
  unfoldable pub act : {A : Type 0} → (W → A × W) → Handler W A
  act f s = let (a, w) = f s.world in (a, record s { world = w })

  unfoldable pub store : Res BareMetalPool → Handler W (Option Error)
  store answer s = (error_of answer, record s { pool = stored answer s.pool })

module _ {W : Type 0} (r : Reconciler W) where
  unfoldable pub update : Handler W (Option Error)
  update = do p ← pool; answer ← perform (updates p) (r.client.update p); store answer

  unfoldable pub update_status : Handler W (Option Error)
  update_status = do
    p ← pool
    answer ← perform (updates_status p) (r.client.update_status p)
    store answer

  unfoldable pub set_phase : PoolPhase → Handler W (Unit {0})
  set_phase phase = change (Pool.set_phase phase)

  unfoldable pub set_ready_condition : ConditionStatus → String → String → Handler W (Unit {0})
  set_ready_condition status message reason =
      change (
        Pool.set_status_condition r.kube bare_metal_pool_condition_type_ready status message reason)

  -- Phase Failed, with a message.
  unfoldable pub fail : String → Handler W (Unit {0})
  fail message = do
    set_phase failed
    set_ready_condition status_false message bare_metal_pool_reason_failed

  -- r.List, for the instances of the pool
  unfoldable pub list_instances : Handler W (Res (List BareMetalInstance))
  list_instances = do p ← pool; perform lists (r.client.list_instances p.namespace p.uid)

-- To unfold this is to unfold the ways to build a handler, and all primitive ones.
unfoldable pub primitives : Unit {0}
unfolding ◌>>=◌ pool change current put_current panic perform act store update update_status
    set_phase set_ready_condition fail list_instances
primitives = tt
