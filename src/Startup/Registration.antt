-- ===== src/Startup/Registration.antt =====
-- SetupWithManager of both controllers: what each asks the manager to watch, and how.
use bare_metal_operator.Prelude.{String, Bool, true, false, Option, none, some}
use bare_metal_operator.Prelude.Int.{ℤ}

-- predicate.Funcs: which events of an owned object lead to a reconcile of its owner.
pub record Funcs : Type 0 where
  pub create_func : Bool
  pub update_func : Bool
  pub delete_func : Bool

-- What ctrl.NewControllerManagedBy is told: the kind that is reconciled, the kind that it owns with
-- the predicates, and the greatest number of concurrent reconciles, where one is given.
pub record Registration : Type 0 where
  pub name : String
  pub kind : String
  pub owned : Option (String × Funcs)
  pub max_concurrent_reconciles : Option ℤ

-- The pool controller follows the deletion of an instance that a pool owns, and nothing else of it.
abbrev pub pool_registration : Registration
pool_registration = record {
  name = "baremetalpool";
  kind = "BareMetalPool";
  owned = some (
    "BareMetalInstance",
    record { create_func = false; update_func = false; delete_func = true },
  );
  max_concurrent_reconciles = none;
}

abbrev pub instance_registration : ℤ → Registration
instance_registration limit = record {
  name = "baremetalinstance";
  kind = "BareMetalInstance";
  owned = none;
  max_concurrent_reconciles = some limit;
}
