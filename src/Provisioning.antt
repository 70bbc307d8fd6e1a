-- ===== src/Provisioning.antt =====
-- What the controllers use of osac-operator's package `provisioning`, which is not part of the
-- repository. A run of its lifecycle is a tree of what it does in turn: it acts on the world, it
-- stores the job list, it calls back, and at the end it returns.
use bare_metal_operator.Prelude.{String, Bool, Option, List, ℕ}
use bare_metal_operator.Shared.{Error, Res, CtrlResult, Duration}
use bare_metal_operator.Kube.{JobStatus}

pub data Lifecycle (W : Type 0) : Type 0 where
  returns : CtrlResult → Option Error → Lifecycle W
  acts : (W → W) → (W → Lifecycle W) → Lifecycle W
  stores_jobs : List JobStatus → Lifecycle W → Lifecycle W
  -- PollCallbacks.OnFailed and OnSuccess
  fails : String → Lifecycle W → Lifecycle W
  succeeds : Lifecycle W → Lifecycle W
  -- the callback that asks the API server for a job that has not ended
  checks : (Bool → Lifecycle W) → Lifecycle W
  -- the callback that writes the status
  flushes : (Option Error → Lifecycle W) → Lifecycle W

-- What RunDeprovisioningLifecycle leaves and returns.
pub record Deprovision : Type 0 where
  pub jobs : List JobStatus
  pub result : CtrlResult
  pub done : Bool
  pub error : Option Error

-- `O` is the object, `V` what its configuration version is computed from.
pub record Provisioning (W O V : Type 0) : Type 0 where
  pub compute_desired_config_version : V → Res String
  pub run_provisioning_lifecycle : O → List JobStatus → String → ℕ → Duration → Lifecycle W
  pub run_deprovisioning_lifecycle : O → List JobStatus → ℕ → Duration → W → Deprovision × W
  pub check_non_terminal_provision_job : O → W → Bool × W
  pub default_max_job_history : ℕ
  pub default_status_poll_interval : Duration
