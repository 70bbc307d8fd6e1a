-- ===== src/Pool/Tests.antt =====
-- The theorems on pools at a sample pool that asks for two hosts of a type and none of another.
use bare_metal_operator.Prelude.{
  ℕ, ◌+◌, ◌++◌, ◌==◌, length, if◌then◌else◌, ◌<◌, String, true, false, none, some, List, [], ◌∷◌,
  ◌≡◌, refl, sym, ap, subst, arith, ◌↔◌, All,
}
use bare_metal_operator.Prelude.Dict.{lookup, insert, keys}
use bare_metal_operator.Prelude.Int.{pos}
use bare_metal_operator.Shared.{Res, ok, err, done, after}
use bare_metal_operator.Profile
use bare_metal_operator.Profile.{Profile, is_some, validate_parameters}
use bare_metal_operator.Api.Instance.{BareMetalInstance, unspecified, Phase}
use bare_metal_operator.Api.Pool.{BareMetalPool, unset, ready, set_status_condition}
use bare_metal_operator.Pool.State.{Reconciler, State, lists, deletes, primitives}
use bare_metal_operator.Pool.Create.{create_instance, own_instance, send_instance}
use bare_metal_operator.Pool.Scale.{
  desired_replicas, with_unwanted, scale, scale_up, scale_down, scale_down_loop, scale_all,
  appended, deleted, delete_last, drop_last, last?, update_status_host_sets, reconcile_instances,
}
use bare_metal_operator.Pool.Update.{check_ready, handle_update, group}
use bare_metal_operator.Pool.Delete.{delete_instances, delete_listed, handle_deletion}
use bare_metal_operator.Pool.Ending
use bare_metal_operator.Pool.Balance
use bare_metal_operator.Pool.Ledger.{IsLedger}
use bare_metal_operator.Pool.Replicas.{IsOrder, asked, or_zero}
use bare_metal_operator.Pool.Readiness
use bare_metal_operator.Pool.Readiness.{IsServing, IsLeftFailed}
use bare_metal_operator.Pool.Reconcile.{reconcile}
use bare_metal_operator.Pool.Grouping.{live}
use bare_metal_operator.Pool.Calm.{IsSmall, IsBounded}
use bare_metal_operator.Pool.Unpanicked.{panicked-reconcile}
use bare_metal_operator.Pool.Teardown
use bare_metal_operator.Pool.Teardown.{deletions}
use bare_metal_operator.Samples.{kube, formats, profile, provisioning}

abbrev instance_of : String → BareMetalInstance
instance_of host_type = record {
  name = "node";
  namespace = "default";
  uid = "uid-1";
  labels = [];
  deleting = false;
  finalizers = [];
  owner_references = [];
  spec = record {
    host_type = host_type;
    external_host_id = "";
    external_host_name = "";
    host_class = "";
    network_class = "";
    host_selector = [];
    inventory_labels = [];
    inventory_persistent_labels = [];
    template_id = "noop";
    template_parameters = "";
    run_strategy = unspecified;
    restart_trigger = pos 0;
  };
  status = record {
    phase = Phase.ready;
    jobs = [];
    conditions = [];
    desired_config_version = "";
    run_strategy = unspecified;
    restart_trigger = pos 0;
  };
}

abbrev pool : BareMetalPool
pool = record {
  name = "pool";
  namespace = "default";
  uid = "uid-2";
  generation = pos 1;
  annotations = [];
  deleting = false;
  finalizers = "osac.openshift.io/bare-metal-pool" ∷ [];
  spec = record {
    host_sets = record { host_type = "fc430"; replicas = 2 } ∷ [];
    profile = some (record { name = "rhel"; template_parameters = "disk: big" });
  };
  status = record {
    phase = unset;
    host_sets = [];
    jobs = [];
    desired_config_version = "";
    conditions = [];
  };
}

abbrev listed : List BareMetalInstance
listed = instance_of "fc430" ∷ record (instance_of "lenovo") { deleting = true } ∷ []

abbrev of_type : String → List BareMetalInstance → List BareMetalInstance
of_type j [] = []
of_type j (o ∷ xs) = let rest = of_type j xs in if o.spec.host_type == j then o ∷ rest else rest

abbrev reconciler : Reconciler (Unit {0})
reconciler = record {
  kube = kube;
  client = record {
    get = λ name w. (ok pool, w);
    update = λ p w. (ok p, w);
    update_status = λ p w. (ok p, w);
    list_instances = λ namespace uid w. (ok listed, w);
    delete_instance = λ o w. (none, w);
    create_instance = λ o w. (none, w);
    set_controller_reference = λ p o. ok o;
    random_suffix = λ w. ("x2z9a", w);
    range_order = λ m. m;
    same_status = λ a b. false;
  };
  profiles = ("rhel", profile) ∷ [];
  formats = formats;
  has_provider = true;
  provisioning = provisioning;
  host_ready_poll_interval = pos 10;
  host_deletion_poll_interval = pos 10;
  provision_job_poll_interval = pos 30;
  max_job_history = 10;
}

reconciler-IsOrder : IsOrder reconciler
reconciler-IsOrder = record { same = λ j m. refl; once = λ m d. d }

-- One instance of a type that is asked for, and one of a type that is not.
abbrev state : State (Unit {0})
state = record {
  pool = pool;
  current =
      ("fc430", some (instance_of "fc430") ∷ [])
      ∷ ("lenovo", some (instance_of "lenovo") ∷ [])
      ∷ [];
  calls = [];
  panicked = false;
  world = tt;
}

-- A server that keeps what it has created and what it has deleted.
pub record Tally : Type 0 where
  pub made : List BareMetalInstance
  pub removed : List BareMetalInstance

abbrev made_of : String → Tally → ℕ
made_of j w = length (of_type j w.made)

abbrev removed_of : String → Tally → List BareMetalInstance
removed_of j w = of_type j w.removed

abbrev tallied : Reconciler Tally
tallied = record {
  kube = kube;
  client = record {
    get = λ name w. (ok pool, w);
    update = λ p w. (ok p, w);
    update_status = λ p w. (ok p, w);
    list_instances = λ namespace uid w. (ok listed, w);
    delete_instance = λ o w. (none, record w { removed = o ∷ w.removed });
    create_instance = λ o w. (none, record w { made = o ∷ w.made });
    set_controller_reference = λ p o. ok o;
    random_suffix = λ w. ("x2z9a", w);
    range_order = λ m. m;
    same_status = λ a b. false;
  };
  profiles = ("rhel", profile) ∷ [];
  formats = formats;
  has_provider = true;
  provisioning = provisioning;
  host_ready_poll_interval = pos 10;
  host_deletion_poll_interval = pos 10;
  provision_job_poll_interval = pos 30;
  max_job_history = 10;
}

tallied-IsOrder : IsOrder tallied
tallied-IsOrder = record { same = λ j m. refl; once = λ m d. d }

abbrev given : BareMetalInstance → Res BareMetalInstance → String
given o (ok q) = q.spec.host_type
given o (err e) = o.spec.host_type

owner_typed : (o q : BareMetalInstance) → ok o ≡ ok q → q.spec.host_type ≡ o.spec.host_type
owner_typed o q owned = sym (ap (given o) owned)

tallied-IsLedger : IsLedger tallied.client made_of removed_of
tallied-IsLedger = record {
  suffixes = λ j w. (refl, refl);
  refers = λ p o q owned. owner_typed o q owned;
  fresh = λ o w acknowledged. refl;
  creates = λ o w j made. (ground arith, refl);
  deletes = λ o w j gone. (refl, refl);
}

-- One instance of a type that is asked for, and two of a type that is not.
abbrev crowd : List BareMetalInstance
crowd = instance_of "fc430" ∷ instance_of "lenovo" ∷ instance_of "lenovo" ∷ []

abbrev tallied_state : State Tally
tallied_state = record {
  pool = pool;
  current = group [] crowd;
  calls = [];
  panicked = false;
  world = record { made = []; removed = [] };
}

few : (j : String) → live j crowd < 2147483648
few j = ground arith

small : (j : String) → or_zero (asked j pool.spec.host_sets) < 2147483648
small j = ground arith

reconcile_instances_runs : (reconcile_instances tallied (some profile) tallied_state).0 ≡ none
unfolding reconcile_instances scale_all scale scale_up scale_down scale_down_loop appended deleted
    delete_last drop_last last? create_instance own_instance send_instance desired_replicas
    with_unwanted update_status_host_sets lookup insert keys group primitives
reconcile_instances_runs = refl

reconcile_instances_example :
    (kept : List BareMetalInstance) × (kept
        ++ removed_of "fc430" (reconcile_instances tallied (some profile) tallied_state).1.world
      ≡ instance_of "fc430" ∷ [])
    × (made_of "fc430" (reconcile_instances tallied (some profile) tallied_state).1.world
          + length kept
        ≡ 2)
reconcile_instances_example =
    Balance.reconcile_instances_lem tallied tallied-IsOrder made_of removed_of tallied-IsLedger
      (some profile) tallied_state crowd refl small few refl reconcile_instances_runs "fc430"

check_ready-IsServing_example :
    ((check_ready reconciler state).1.pool.status.phase ≡ ready) ↔ All IsServing listed
check_ready-IsServing_example = Readiness.check_ready-IsServing reconciler state listed refl

found_refused :
    (p : Profile)
    → Profile.get reconciler.profiles "rhel" ≡ some p
    → validate_parameters formats p "disk: big" ≡ false
unfolding Profile.get lookup validate_parameters
found_refused p found = ground (arith, found)

handle_update_rejected_example :
    ((handle_update reconciler state).0 ≡ (done, none))
    × IsLeftFailed (handle_update reconciler state).1 state
unfolding Profile.get lookup validate_parameters
handle_update_rejected_example =
    Readiness.handle_update_rejected reconciler state
      (record { name = "rhel"; template_parameters = "disk: big" }) "v1" refl refl refl
      found_refused

handle_deletion_keeps_example :
    (handle_deletion reconciler state).1.pool.finalizers ≡ pool.finalizers
handle_deletion_keeps_example = Teardown.handle_deletion_keeps reconciler state listed refl refl

handle_deletion_waits_example :
    ((handle_deletion reconciler state).1.calls ≡ deletes (instance_of "fc430") ∷ lists ∷ [])
    × ((handle_deletion reconciler state).0.0 ≡ after (pos 10))
unfolding handle_deletion delete_listed delete_instances set_status_condition primitives
handle_deletion_waits_example =
    Teardown.handle_deletion_waits reconciler state listed refl refl refl

-- Two instances of a type that is not asked for any more.
abbrev crowded : State (Unit {0})
crowded = record state {
  current = ("lenovo", some (instance_of "lenovo") ∷ some (instance_of "lenovo") ∷ []) ∷ [];
}

scale_down_ends_example :
    scale_down reconciler "lenovo" 0 crowded ≡ scale_down_loop reconciler 10 "lenovo" 0 crowded
unfolding lookup
scale_down_ends_example = Ending.scale_down_ends reconciler 7 "lenovo" 0 crowded

-- What an answer holds.
abbrev items_of : Res (List BareMetalInstance) → List BareMetalInstance
items_of (ok items) = items
items_of (err e) = []

few_listed : (j : String) → live j listed < 2147483648
few_listed j = ground arith

abbrev answered : Res BareMetalPool → BareMetalPool
answered (ok p) = p
answered (err e) = pool

reconciler-IsBounded : IsBounded reconciler.client
reconciler-IsBounded = record {
  get_lem = λ name w p found. subst IsSmall (ap answered found) small;
  update_lem = λ o w p fits found. subst IsSmall (ap answered found) fits;
  update_status_lem = λ o w p fits found. subst IsSmall (ap answered found) fits;
  profile_lem = λ o w p found. ap (λ x. is_some (answered x).spec.profile) (sym found);
  list_lem = λ namespace uid w items found.
      subst (λ xs. (j : String) → live j xs < 2147483648) (ap items_of found) few_listed;
}

panicked-reconcile_example : (reconcile reconciler "pool" state).1.panicked ≡ false
panicked-reconcile_example =
    panicked-reconcile reconciler reconciler-IsBounded reconciler-IsOrder "pool" state refl
