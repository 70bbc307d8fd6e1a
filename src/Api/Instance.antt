-- ===== src/Api/Instance.antt =====
-- api/v1alpha1/baremetalinstance_types.go and baremetalinstance_conditions.go. Of the object's
-- metadata the fields that the program reads or writes are kept; a deletion timestamp is the
-- Boolean `deleting`.
use bare_metal_operator.Prelude.{
  String, Bool, true, false, ◌&&◌, Option, none, some, List, [], ◌∷◌, ◌==◌, if◌then◌else◌,
}
use bare_metal_operator.Prelude.Dict.{Dict}
use bare_metal_operator.Prelude.Int.{ℤ, pos}
use bare_metal_operator.Kube.{
  Kube, Condition, ConditionStatus, status_true, OwnerReference, JobStatus,
}

-- The values that the resource's schema admits.
pub data RunStrategy : Type 0 where
  unspecified always halted : RunStrategy

abbrev pub same_strategy : RunStrategy → RunStrategy → Bool
same_strategy unspecified unspecified = true
same_strategy always always = true
same_strategy halted halted = true
same_strategy _ _ = false

pub data Phase : Type 0 where
  unset allocating progressing ready failed deleting : Phase

abbrev pub host_condition_allocated : String
host_condition_allocated = "Allocated"

abbrev pub host_condition_power_synced : String
host_condition_power_synced = "PowerSynced"

abbrev pub host_condition_provision_template_complete : String
host_condition_provision_template_complete = "ProvisionTemplateComplete"

abbrev pub host_condition_deprovision_template_complete : String
host_condition_deprovision_template_complete = "DeprovisionTemplateComplete"

abbrev pub host_condition_reason_progressing : String
host_condition_reason_progressing = "Progressing"

abbrev pub host_condition_reason_template_failed : String
host_condition_reason_template_failed = "TemplateFailed"

abbrev pub host_condition_reason_power_on : String
host_condition_reason_power_on = "PowerOn"

abbrev pub host_condition_reason_power_off : String
host_condition_reason_power_off = "PowerOff"

abbrev pub host_condition_reason_ironic_api_failure : String
host_condition_reason_ironic_api_failure = "IronicAPIFailure"

abbrev pub host_condition_reason_power_sync_failed : String
host_condition_reason_power_sync_failed = "PowerSyncFailed"

pub record BareMetalInstanceSpec : Type 0 where
  pub host_type : String
  pub external_host_id : String
  pub external_host_name : String
  pub host_class : String
  pub network_class : String
  pub host_selector : Dict String
  pub inventory_labels : Dict String
  pub inventory_persistent_labels : Dict String
  pub template_id : String
  pub template_parameters : String
  pub run_strategy : RunStrategy
  pub restart_trigger : ℤ

pub record BareMetalInstanceStatus : Type 0 where
  pub phase : Phase
  pub jobs : List JobStatus
  pub conditions : List Condition
  pub desired_config_version : String
  pub run_strategy : RunStrategy
  pub restart_trigger : ℤ

pub record BareMetalInstance : Type 0 where
  pub name : String
  pub namespace : String
  pub uid : String
  pub labels : Dict String
  pub deleting : Bool
  pub finalizers : List String
  pub owner_references : List OwnerReference
  pub spec : BareMetalInstanceSpec
  pub status : BareMetalInstanceStatus

abbrev is_controller : Option Bool → Bool
is_controller none = false
is_controller (some b) = b

module _ (k : Kube) where
  -- The reference that GetPoolID looks for: the controller, and a BareMetalPool of this group.
  abbrev pub is_pool_reference : OwnerReference → Bool
  is_pool_reference ref =
      is_controller ref.controller
      && (k.contains_text ref.api_version "osac.openshift.io" && ref.kind == "BareMetalPool")

  unfoldable pub pool_id_of : List OwnerReference → Option String
  pool_id_of [] = none
  pool_id_of (ref ∷ refs) = if is_pool_reference ref then some ref.uid else pool_id_of refs

  unfoldable pub get_pool_id : BareMetalInstance → Option String
  unfolding pool_id_of
  get_pool_id o = pool_id_of o.owner_references

  unfoldable pub set_status_condition :
      String → ConditionStatus → String → String → BareMetalInstance → BareMetalInstance
  set_status_condition condition_type status reason message o = record o {
    status = record o.status {
      conditions = k.set_condition o.status.conditions (record {
        kind = condition_type;
        status = status;
        observed_generation = pos 0;
        reason = reason;
        message = message;
      });
    };
  }

  unfoldable pub get_status_condition : String → BareMetalInstance → Option Condition
  get_status_condition condition_type o = k.find_condition o.status.conditions condition_type

  abbrev is_true : ConditionStatus → Bool
  is_true status_true = true
  is_true _ = false

  abbrev condition_is_true : Option Condition → Bool
  condition_is_true none = false
  condition_is_true (some c) = is_true c.status

  unfoldable pub is_status_condition_true : String → BareMetalInstance → Bool
  unfolding get_status_condition
  is_status_condition_true condition_type o =
      condition_is_true (get_status_condition condition_type o)

abbrev pub set_phase : Phase → BareMetalInstance → BareMetalInstance
set_phase p o = record o { status = record o.status { phase = p } }
