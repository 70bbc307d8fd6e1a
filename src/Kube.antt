-- ===== src/Kube.antt =====
-- What the controllers use of the Kubernetes libraries, which are not under the repository's
-- roof: conditions (apimeta), finalizers (controllerutil) and the lists of strings of an object.
-- Each is an operation of the record `Kube`; `IsLawful` states what their documentation promises.
use bare_metal_operator.Prelude.{
  String, Bool, true, false, Option, some, List, ◌≡◌, ◌==◌, if◌then◌else◌,
}
use bare_metal_operator.Prelude.Int.{ℤ}

pub data ConditionStatus : Type 0 where
  status_true status_false status_unknown : ConditionStatus

-- metav1.Condition without LastTransitionTime, which the program neither sets nor reads.
pub record Condition : Type 0 where
  pub kind : String
  pub status : ConditionStatus
  pub observed_generation : ℤ
  pub reason : String
  pub message : String

pub record OwnerReference : Type 0 where
  pub api_version : String
  pub kind : String
  pub uid : String
  pub controller : Option Bool

-- opv1alpha1.JobStatus in its serialised form: the program hands jobs over and reads none.
abbrev pub JobStatus : Type 0
JobStatus = String

pub record Kube : Type 0 where
  pub set_condition : List Condition → Condition → List Condition
  pub find_condition : List Condition → String → Option Condition
  pub contains_finalizer : List String → String → Bool
  pub add_finalizer : List String → String → Bool × List String
  pub remove_finalizer : List String → String → Bool × List String
  -- strings.Contains
  pub contains_text : String → String → Bool

pub record IsLawful (k : Kube) : Type 0 where
  pub find-set :
      (cs : List Condition) (c : Condition) (kind : String)
      → k.find_condition (k.set_condition cs c) kind
        ≡ (if c.kind == kind then some c else k.find_condition cs kind)
  pub add_finalizer_lem :
      (fs : List String) (f g : String)
      → ((k.add_finalizer fs f).0 ≡ (if k.contains_finalizer fs f then false else true))
        × (k.contains_finalizer (k.add_finalizer fs f).1 g
            ≡ (if f == g then true else k.contains_finalizer fs g))
  pub remove_finalizer_lem :
      (fs : List String) (f g : String)
      → ((k.remove_finalizer fs f).0 ≡ k.contains_finalizer fs f)
        × (k.contains_finalizer (k.remove_finalizer fs f).1 g
            ≡ (if f == g then false else k.contains_finalizer fs g))
