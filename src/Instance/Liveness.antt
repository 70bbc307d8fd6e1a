-- ===== src/Instance/Liveness.antt =====
-- Three reconciles of an instance without a host: the finalizer, the host, and the assignment.
use bare_metal_operator.Prelude.{
  String, Bool, true, false, not, ◌&&◌, Option, none, some, ◌≡◌, refl, ap, ◌∙◌, ◌==◌, subst,
}
use bare_metal_operator.Prelude.Dict.{Dict}
use bare_metal_operator.Shared.{ok, runs_template}
use bare_metal_operator.Kube.{IsLawful}
use bare_metal_operator.Lock.{is_locked}
use bare_metal_operator.Api.Instance.{BareMetalInstance, BareMetalInstanceSpec}
use bare_metal_operator.Inventory.{Host}
use bare_metal_operator.Inventory.Contract.{
  Owners, Same, IsInventory, Assigns-given, Assigns-vacant,
}
use bare_metal_operator.Instance.State.{Reconciler, State}
use bare_metal_operator.Instance.Allocate.{match_expressions, combined_labels}
use bare_metal_operator.Instance.Reconcile.{reconcile}
use bare_metal_operator.Instance.Finalizers.{has_inventory_finalizer}
use bare_metal_operator.Instance.Served.{IsStore, IsApart}
use bare_metal_operator.Instance.Progress.{IsStage}
use bare_metal_operator.Instance.Allocation.{
  IsStage-finalizer, locks-finalizer, world-finalizer, IsStage-found, locks-found, world-found,
}
use bare_metal_operator.Instance.Granting.{IsAllocated, IsAllocated-granted, world-granted}

module _ {W : Type 0} (r : Reconciler W) (lawful : IsLawful r.kube) (held : W → BareMetalInstance)
    (store : IsStore r.client held) (apart : IsApart r.inventory held)
    (accepts : Dict String → Bool) (owners : W → Owners)
    (inventory : IsInventory r.inventory accepts owners)
    (quiet : (o : BareMetalInstance) (w : W) → Same (owners w) (owners (r.client.update o w).1))
    (quiet_status : (o : BareMetalInstance) (w : W)
      → Same (owners w) (owners (r.client.update_status o w).1)) where
  -- The state after a number of reconciles is written out: each takes the state of the one before.
  abbrev once : String → State W → State W
  once name s = (reconcile r name s).1

  module _ (o : BareMetalInstance) (name host_id : String) (alive : o.deleting ≡ false)
      (runnable : (runs_template o.spec.template_id && not r.has_provider) ≡ false)
      (unclassed : (o.spec.host_class == "") ≡ true)
      (accepted : accepts (combined_labels r o) ≡ true) (named : (host_id == "") ≡ false)
      (search_lem : (w : W)
        → owners w host_id ≡ none
        → (host : Host) × ((r.inventory.find_free_host (match_expressions o) w).0 ≡ ok (some host))
          × (host.inventory_host_id ≡ host_id))
      (assign_lem : (w : W)
        → owners w host_id ≡ none
        → (answer : Option Host) × ((r.inventory.assign_host host_id o.uid
              (combined_labels r o)
              w).0
            ≡ ok answer)) where
    -- What the reconcile of a state leads to: the host is the one that the inventory answers its
    -- assignment with.
    abbrev Reached : State W → Type 0
    Reached s =
        (host : Host) × ((r.inventory.assign_host host_id o.uid (combined_labels r o) s.world).0
          ≡ ok (some host))
        × IsAllocated r host_id host (held (once name s).world)
        × (owners (once name s).world host_id ≡ some o.uid)

    vacant-given :
        (w : W)
        → owners w host_id ≡ none
        → (host : Host) × ((r.inventory.assign_host host_id o.uid (combined_labels r o) w).0
            ≡ ok (some host))
    vacant-given w vacant =
        Assigns-vacant host_id o.uid (owners w) _ _ (assign_lem w vacant).0
          (inventory.assigns host_id o.uid (combined_labels r o) w accepted) (assign_lem w vacant).1
          (rw vacant refl)

    once-granted :
        (s : State W)
        → IsStage r o host_id true (held s.world)
        → is_locked host_id s.locks ≡ false
        → owners s.world host_id ≡ none
        → Reached s
    once-granted s stage free vacant =
        let (host, answered) = vacant-given s.world vacant in
        (
          host,
          answered,
          IsAllocated-granted r lawful held store apart o alive runnable unclassed name host_id s
              host named free stage answered,
          world-granted r lawful held store apart o alive runnable unclassed name host_id s host
              named free stage answered (λ w. owners w host_id ≡ some o.uid)
              (λ x w h. quiet x w host_id ∙ h) (λ x w h. quiet_status x w host_id ∙ h)
              (Assigns-given host_id o.uid (owners s.world) _ _ host
                (inventory.assigns host_id o.uid (combined_labels r o) s.world accepted) answered),
        )

    once-found :
        (s : State W)
        → IsStage r o "" true (held s.world)
        → is_locked host_id s.locks ≡ false
        → owners s.world host_id ≡ none
        → Reached (once name s)
    once-found s stage free vacant =
        let (host, found, same) = search_lem s.world vacant in
        once-granted (once name s)
          (subst (λ x. IsStage r o x true (held (once name s).world)) same
            (IsStage-found r lawful held store apart o alive runnable unclassed name s host stage
              found))
          (ap (is_locked host_id) (
              locks-found r lawful held store apart o alive runnable unclassed name s host stage
                found)
            ∙ free)
          (world-found r lawful held store apart o alive runnable unclassed name s host stage found
            (λ w. owners w host_id ≡ none) (λ x w h. quiet x w host_id ∙ h)
            (λ x w h. quiet_status x w host_id ∙ h) (λ m w h. inventory.finds m w host_id ∙ h)
            vacant)

  -- Three reconciles allocate a host to an instance that has neither host nor class, is not being
  -- deleted and lacks the inventory finalizer: the inventory answered the assignment in the third
  -- of them with a host, and the instance that the API server then holds names the host that was
  -- found and carries the host class and the network class of the host answered, its phase is
  -- progressing and its condition Allocated is true, and the inventory has the instance as the
  -- owner of the host. This is so with an API server that accepts every write and holds the status
  -- as a subresource, and an inventory that fulfils the contract and does not write the instance,
  -- where the lock of the host is free, the host has no owner at first, a search finds it and an
  -- assignment of it returns no error while it has none, and a template, if one is to be run, has
  -- a provider. The host's id is not empty, the labels of the assignment leave the backend's mark
  -- of the owner alone, the writes of the instance change no owner, and finalizers and conditions
  -- behave as documented.
  pub reconcile-IsAllocated :
      (name host_id : String) (s : State W)
      → (held s.world).deleting ≡ false
      → (runs_template (held s.world).spec.template_id && not r.has_provider) ≡ false
      → ((held s.world).spec.host_class == "") ≡ true
      → (held s.world).spec.external_host_id ≡ ""
      → has_inventory_finalizer r (held s.world) ≡ false
      → accepts (combined_labels r (held s.world)) ≡ true
      → (host_id == "") ≡ false
      → is_locked host_id s.locks ≡ false
      → owners s.world host_id ≡ none
      → ((w : W)
          → owners w host_id ≡ none
          → (host : Host) × ((r.inventory.find_free_host (match_expressions (held s.world)) w).0
              ≡ ok (some host))
            × (host.inventory_host_id ≡ host_id))
      → ((w : W)
          → owners w host_id ≡ none
          → (answer : Option Host) × (r.inventory.assign_host host_id
                (held s.world).uid
                (combined_labels r (held s.world))
                w).0
              ≡ ok answer)
      → let before = once name (once name s) in
        let last = once name before in
        (host : Host) × ((r.inventory.assign_host host_id
            (held s.world).uid
            (combined_labels r (held s.world))
            before.world).0
          ≡ ok (some host))
        × IsAllocated r host_id host (held last.world)
        × (owners last.world host_id ≡ some (held s.world).uid)
  reconcile-IsAllocated name host_id s alive runnable unclassed bare unfinalized accepted named free
        vacant search_lem assign_lem =
      let o = held s.world in
      let first : IsStage r o "" false o = record {
        uid = refl;
        deleting = refl;
        owners = refl;
        spec =
            ap {A = String} {B = BareMetalInstanceSpec}
              (λ x. record o.spec { external_host_id = x }) bare;
        finalizer = unfinalized;
      } in
      once-found o name host_id alive runnable unclassed accepted named search_lem assign_lem
        (once name s)
        (IsStage-finalizer r lawful held store apart o alive runnable unclassed name s first)
        (ap (is_locked host_id)
            (locks-finalizer r lawful held store apart o alive runnable unclassed name s first)
          ∙ free)
        (world-finalizer r lawful held store apart o alive runnable unclassed
          (λ w. owners w host_id ≡ none) (λ x w h. quiet x w host_id ∙ h)
          (λ x w h. quiet_status x w host_id ∙ h) name s first vacant)
