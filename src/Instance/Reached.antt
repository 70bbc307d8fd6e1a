-- ===== src/Instance/Reached.antt =====
-- The allocation and the deletion of an instance, at an inventory with one host and an API server
-- that holds the instance.
use bare_metal_operator.Prelude.{
  String, Bool, true, false, Option, none, some, [], ◌∷◌, ◌≡◌, refl, arith, ◌==◌, eq_iff,
  if◌then◌else◌,
}
use bare_metal_operator.Shared.{
  Error, new, Res, ok, err, done, bare_metal_instance_management_finalizer,
}
use bare_metal_operator.Lock.{is_locked}
use bare_metal_operator.Api.Instance.{BareMetalInstance}
use bare_metal_operator.Inventory
use bare_metal_operator.Inventory.{Host}
use bare_metal_operator.Inventory.Contract.{
  Owners, IsInventory, Assigns, Unassigns, given, taken, failed, freed, kept, is_open,
}
use bare_metal_operator.Instance.State.{Reconciler, State}
use bare_metal_operator.Instance.Allocate.{combined_labels}
use bare_metal_operator.Instance.Reconcile.{reconcile}
use bare_metal_operator.Instance.Delete.{handle_deletion}
use bare_metal_operator.Instance.Finalizers.{has_inventory_finalizer}
use bare_metal_operator.Instance.Served.{IsStore, IsApart}
use bare_metal_operator.Instance.Granting.{IsAllocated}
use bare_metal_operator.Instance.Liveness.{reconcile-IsAllocated}
use bare_metal_operator.Instance.Releasing.{
  IsAccepting, handle_deletion-released, has_management_finalizer,
}
use bare_metal_operator.Instance.Samples.{instance, reconciler_over}
use bare_metal_operator.Samples.{kube-IsLawful}

-- The instance at the API server, and the owner of the host at the backend.
record Site : Type 0 where
  instance : BareMetalInstance
  owner : Option String

abbrev host : Host
host = record {
  bare_metal_pool_id = "";
  bare_metal_instance_id = "";
  inventory_host_id = "host-1";
  name = "rack-1";
  host_type = "fc430";
  host_class = "metal3";
  network_class = "flat";
  provision_state = "available";
  managed_by = "baremetal";
}

abbrev owners : Site → Owners
owners w j = if j == "host-1" then w.owner else none

-- The answer of an assignment, by whether it is for the host, and whether the host is open.
abbrev assigned : String → Bool → Bool → Site → Res (Option Host) × Site
assigned uid false b w = (err (new "no such host"), w)
assigned uid true false w = (ok none, w)
assigned uid true true w = (ok (some host), record w { owner = some uid })

abbrev unassigned : Bool → Site → Option Error × Site
unassigned false w = (some (new "no such host"), w)
unassigned true w = (none, record w { owner = none })

abbrev inventory : Inventory.Client Site
inventory = record {
  find_free_host = λ m w. (if is_open "" w.owner then ok (some host) else ok none, w);
  assign_host = λ id uid m w. assigned uid (id == "host-1") (is_open uid w.owner) w;
  unassign_host = λ id labels w. unassigned (id == "host-1") w;
}

assigned-Assigns :
    (id uid : String) (named opened : Bool) (w : Site)
    → (id == "host-1") ≡ named
    → is_open uid w.owner ≡ opened
    → Assigns id uid
        (owners w)
        (owners (assigned uid named opened w).1)
        (assigned uid named opened w).0
assigned-Assigns id uid false opened w h o = failed (new "no such host") (λ j. refl)
assigned-Assigns id uid true false w h o = taken (rw h o) (λ j. refl)
assigned-Assigns id uid true true w h o =
    given host (rw h o) (λ j. rw ((eq_iff id "host-1").0 h) (ground arith))

unassigned-Unassigns :
    (id : String) (named : Bool) (w : Site)
    → (id == "host-1") ≡ named
    → Unassigns id (owners w) (owners (unassigned named w).1) (unassigned named w).0
unassigned-Unassigns id false w h = kept (new "no such host") (λ j. refl)
unassigned-Unassigns id true w h = freed (λ j. rw ((eq_iff id "host-1").0 h) (ground arith))

inventory-IsInventory : IsInventory inventory (λ m. true) owners
inventory-IsInventory = record {
  finds = λ m w j. refl;
  assigns =
      λ id uid m w a. assigned-Assigns id uid (id == "host-1") (is_open uid w.owner) w refl refl;
  unassigns = λ id labels w. unassigned-Unassigns id (id == "host-1") w refl;
}

abbrev server : Reconciler Site
server = record (reconciler_over inventory) {
  client = record {
    get = λ name w. (ok w.instance, w);
    update = λ o w.
        let stored = record o { status = w.instance.status } in
        (ok stored, record w { instance = stored });
    update_status = λ o w.
        let stored = record w.instance { status = o.status } in
        (ok stored, record w { instance = stored });
    same_status = λ a b. false;
    error_text = λ e. "";
  };
}

server-IsStore : IsStore server.client (λ w. w.instance)
server-IsStore = record {
  gets = λ name w. refl;
  writes = λ o w. (refl, refl);
  writes_status = λ o w. (refl, refl);
  compares = λ a b same. absurd (ground (arith, same));
}

inventory-IsApart : IsApart inventory (λ w. w.instance)
inventory-IsApart = record {
  finds = λ m w. refl;
  assigns = λ id uid m w. ground arith;
  unassigns = λ id labels w. ground arith;
}

server-IsAccepting : IsAccepting server.client
server-IsAccepting = record { writes = λ o w. (w.instance.status, refl) }

-- An instance that is new, one that is deleted, and the state of a reconcile.
abbrev new_instance : BareMetalInstance
new_instance = record instance {
  finalizers = [];
  spec = record instance.spec { external_host_id = ""; host_class = "" };
}

abbrev deleted_instance : BareMetalInstance
deleted_instance = record instance {
  deleting = true;
  finalizers = bare_metal_instance_management_finalizer ∷ instance.finalizers;
}

abbrev state_of : BareMetalInstance → Option String → State Site
state_of o owner = record {
  object = o;
  calls = [];
  locks = [];
  panicked = false;
  world = record { instance = o; owner = owner };
}

assign_vacant :
    (uid : String) (w : Site)
    → owners w "host-1" ≡ none
    → (answer : Option Host) × ((assigned uid true (is_open uid w.owner) w).0 ≡ ok answer)
assign_vacant uid w vacant = (some host, rw vacant refl)

-- After two reconciles, and after three.
abbrev before : State Site
before =
    let once = λ (s : State Site). (reconcile server "node" s).1 in
    once (once (state_of new_instance none))

abbrev last : State Site
last = (reconcile server "node" before).1

reconcile-IsAllocated_example :
    (x : Host) × ((inventory.assign_host "host-1" "uid-1"
        (combined_labels server new_instance)
        before.world).0
      ≡ ok (some x))
    × IsAllocated server "host-1" x last.world.instance
    × (owners last.world "host-1" ≡ some "uid-1")
unfolding is_locked
reconcile-IsAllocated_example =
    reconcile-IsAllocated server kube-IsLawful (λ w. w.instance) server-IsStore inventory-IsApart
      (λ m. true) owners inventory-IsInventory (λ o w j. refl) (λ o w j. refl) "node" "host-1"
      (state_of new_instance none) refl refl refl refl refl refl refl refl refl
      (λ w vacant. (host, ground (arith, vacant), refl)) (assign_vacant "uid-1")

handle_deletion-released_example :
    let run = handle_deletion server (state_of deleted_instance (some "uid-1")) in
    (run.0 ≡ (done, none))
    × (has_inventory_finalizer server run.1.object ≡ false)
    × (has_management_finalizer server run.1.object ≡ false)
    × (owners run.1.world "host-1" ≡ none)
unfolding is_locked
handle_deletion-released_example =
    handle_deletion-released server kube-IsLawful server-IsAccepting (λ m. true) owners
      inventory-IsInventory (λ o w j. refl) (state_of deleted_instance (some "uid-1")) refl refl
      refl refl (λ w. refl)
