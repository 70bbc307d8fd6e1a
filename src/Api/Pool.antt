-- ===== src/Api/Pool.antt =====
-- api/v1alpha1/baremetalpool_types.go and baremetalpool_conditions.go.
use bare_metal_operator.Prelude.{String, ℕ, Bool, Option, none, some, List}
use bare_metal_operator.Prelude.Dict.{Dict}
use bare_metal_operator.Prelude.Int.{ℤ}
use bare_metal_operator.Kube.{Kube, Condition, ConditionStatus, status_false, JobStatus}

pub data PoolPhase : Type 0 where
  unset progressing failed ready deleting : PoolPhase

abbrev pub bare_metal_pool_condition_type_ready : String
bare_metal_pool_condition_type_ready = "Ready"

abbrev pub bare_metal_pool_reason_ready : String
bare_metal_pool_reason_ready = "Ready"

abbrev pub bare_metal_pool_reason_progressing : String
bare_metal_pool_reason_progressing = "Progressing"

abbrev pub bare_metal_pool_reason_failed : String
bare_metal_pool_reason_failed = "Failed"

abbrev pub bare_metal_pool_reason_deleting : String
bare_metal_pool_reason_deleting = "Deleting"

-- `replicas` is an int32, by its bit pattern.
pub record BareMetalHostSet : Type 0 where
  pub host_type : String
  pub replicas : ℕ

pub record ProfileSpec : Type 0 where
  pub name : String
  pub template_parameters : String

pub record BareMetalPoolSpec : Type 0 where
  pub host_sets : List BareMetalHostSet
  pub profile : Option ProfileSpec

pub record BareMetalPoolStatus : Type 0 where
  pub phase : PoolPhase
  pub host_sets : List BareMetalHostSet
  pub jobs : List JobStatus
  pub desired_config_version : String
  pub conditions : List Condition

pub record BareMetalPool : Type 0 where
  pub name : String
  pub namespace : String
  pub uid : String
  pub generation : ℤ
  pub annotations : Dict String
  pub deleting : Bool
  pub finalizers : List String
  pub spec : BareMetalPoolSpec
  pub status : BareMetalPoolStatus

module _ (k : Kube) where
  unfoldable pub set_status_condition :
      String → ConditionStatus → String → String → BareMetalPool → BareMetalPool
  set_status_condition condition_type status message reason p = record p {
    status = record p.status {
      conditions = k.set_condition p.status.conditions (record {
        kind = condition_type;
        status = status;
        observed_generation = p.generation;
        reason = reason;
        message = message;
      });
    };
  }

  unfoldable pub initialize_status_condition :
      String → ConditionStatus → String → BareMetalPool → BareMetalPool
  unfolding set_status_condition
  initialize_status_condition condition_type status reason p =
      elim (k.find_condition p.status.conditions condition_type) [
        | some c ↦ p
        | none ↦ set_status_condition condition_type status "Initialized" reason p
      ]

  unfoldable pub initialize_status_conditions : BareMetalPool → BareMetalPool
  unfolding initialize_status_condition
  initialize_status_conditions =
      initialize_status_condition bare_metal_pool_condition_type_ready status_false
        bare_metal_pool_reason_progressing

abbrev pub set_phase : PoolPhase → BareMetalPool → BareMetalPool
set_phase phase p = record p { status = record p.status { phase = phase } }
