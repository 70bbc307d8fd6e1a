-- ===== src/Instance/Tenure.antt =====
-- Runs of reconcileInventory, of any instances and in any order, and the owner of a host.
use bare_metal_operator.Prelude.{String, Bool, true, false, some, ◌≡◌, ◌==◌}
use bare_metal_operator.Prelude.Dict.{Dict}
use bare_metal_operator.Api.Instance.{BareMetalInstance}
use bare_metal_operator.Inventory.Contract.{Owners, Same, IsInventory}
use bare_metal_operator.Instance.State.{Reconciler, State}
use bare_metal_operator.Instance.Allocate.{reconcile_inventory, combined_labels}
use bare_metal_operator.Instance.Owners.{owners-reconcile_inventory}

-- From one world to another by runs of instances other than the owner, each with any object, locks
-- and calls of its own, and with labels that the backend accepts.
pub data Others {W : Type 0} (r : Reconciler W) (accepts : Dict String → Bool) (owner : String)
    : W → W → Type 0 where
  rests : (w : W) → Others r accepts owner w w
  runs :
      (w : W) (s : State W)
      → accepts (combined_labels r s.object) ≡ true
      → (owner == s.object.uid) ≡ false
      → Others r accepts owner w s.world
      → Others r accepts owner w (reconcile_inventory r s).1.world

module _ {W : Type 0} (r : Reconciler W) (accepts : Dict String → Bool) (owners : W → Owners)
    (lawful : IsInventory r.inventory accepts owners)
    (quiet : (o : BareMetalInstance) (w : W)
      → Same (owners w) (owners (r.client.update o w).1)) where
  -- With an inventory that fulfils the contract, whatever it and the API server answer: the host
  -- that an instance owns stays its own through any sequence of runs of reconcileInventory by
  -- other instances, interleaved in any order and each with any object, locks and calls. The
  -- labels of their assignments leave the backend's mark of the owner alone, and a write of an
  -- instance changes no owner.
  pub owners-Others :
      (owner host_id : String) (w v : W)
      → Others r accepts owner w v
      → owners w host_id ≡ some owner
      → owners v host_id ≡ some owner
  owners-Others owner host_id w _ (rests _) owned = owned
  owners-Others owner host_id w _ (runs _ s accepted other before) owned =
      owners-reconcile_inventory r accepts owners lawful quiet s host_id owner accepted other
        (owners-Others owner host_id w s.world before owned)
