-- ===== src/OpenStack/Owners.antt =====
-- Who owns a node: the text under the label of the instance, if it is not empty. And what the
-- inventory relies on in the Ironic server.
use bare_metal_operator.Prelude.{
  String, false, Option, none, some, List, ◌≡◌, refl, ap, ◌⊎◌, ◌==◌, eq_iff, inl, inr, Bool-cases,
  if◌then◌else◌,
}
use bare_metal_operator.Prelude.Dict.{lookup}
use bare_metal_operator.Shared.{Error, Res, ok, err}
use bare_metal_operator.Inventory.Contract.{Owners, Same, put_owner}
use bare_metal_operator.OpenStack.{Extra, Node, UpdateOperation, Pages, last, broken, page, Ironic}
use bare_metal_operator.OpenStack.Inventory.{bare_metal_instance_id_label, label_map, text_value}
use bare_metal_operator.OpenStack.Patch.{patch}

-- An empty text is no owner.
abbrev pub nonempty : Option String → Option String
nonempty none = none
nonempty (some s) = if s == "" then none else some s

abbrev pub label_owner : Extra → Option String
label_owner e = nonempty (text_value (lookup bare_metal_instance_id_label (label_map e)))

abbrev pub owner_of : Res Node → Option String
owner_of (ok node) = label_owner node.osac_labels
owner_of (err e) = none

module _ {W : Type 0} (held : String → W → Res Node) where
  abbrev pub owners : W → Owners
  owners w id = owner_of (held id w)

  abbrev pub Unchanged : W → W → Type 0
  Unchanged v w = (id : String) → held id w ≡ held id v

  pub owners-Unchanged : (v w : W) → Unchanged v w → Same (owners v) (owners w)
  owners-Unchanged v w same id = ap owner_of (same id)

  -- To fetch the pages of a listing changes no node.
  abbrev pub IsCalm : Pages W → Type 0
  IsCalm last = Unit
  IsCalm (broken e) = Unit
  IsCalm (page nodes fetch next) = ((w : W) → Unchanged w (fetch w)) × ((w : W) → IsCalm (next w))

-- A patch of the node with that id was applied, as RFC 6902 reads its operations.
pub record IsPatched {W : Type 0} (held : String → W → Res Node) (id : String)
    (ops : List UpdateOperation) (v w : W) : Type 0 where
  pub before : Node
  pub behind : Node
  pub found : held id v ≡ ok before
  pub stored : held id w ≡ ok behind
  pub patched : patch ops before.osac_labels ≡ some behind.osac_labels
  pub others : (j : String) → (j == id) ≡ false → held j w ≡ held j v

-- The server, with the ids of nodes as keys: reads change no node, but may fail; an update applies
-- the whole patch to one node or nothing of it, and one that fails may come through.
pub record IsIronic {C W : Type 0} (ironic : Ironic C W) (held : String → W → Res Node)
    : Type 0 where
  pub lists :
      (c : C) (class state : String) (w : W)
      → IsCalm held (ironic.list c class state w).0
        × Unchanged held w (ironic.list c class state w).1
  pub shuffles : (nodes : List Node) (w : W) → Unchanged held w (ironic.shuffle nodes w).1
  pub reads :
      (c : C) (id : String) (w : W)
      → (((e : Error) × ((ironic.get c id w).0 ≡ err e))
          ⊎ ((node : Node) × ((ironic.get c id w).0 ≡ ok node) × (held id w ≡ ok node)))
        × Unchanged held w (ironic.get c id w).1
  pub updates :
      (c : C) (id : String) (ops : List UpdateOperation) (w : W)
      → ((e : Error) × ((ironic.update c id ops w).0 ≡ err e)
          × Unchanged held w (ironic.update c id ops w).1)
        ⊎ IsPatched held id ops w (ironic.update c id ops w).1
  pub logs_in : (w : W) → Unchanged held w (ironic.new_service_client w).1

module _ {W : Type 0} (held : String → W → Res Node) where
  pub owners-IsPatched :
      (id : String) (ops : List UpdateOperation) (v w : W) (owner : Option String)
      → (write : IsPatched held id ops v w) → label_owner write.behind.osac_labels ≡ owner
      → Same (put_owner id owner (owners held v)) (owners held w)
  owners-IsPatched id ops v w owner write owned j = elim (Bool-cases (j == id)) [
    | inl here ↦ rw (here, (eq_iff j id).0 here, write.stored) owned
    | inr away ↦ rw (away, write.others j away) refl
  ]

  -- Nothing changes for a node that had that owner, or none, before.
  pub owners-kept :
      (id : String) (ops : List UpdateOperation) (v w : W)
      → (write : IsPatched held id ops v w)
      → label_owner write.behind.osac_labels ≡ label_owner write.before.osac_labels
      → Same (owners held v) (owners held w)
  owners-kept id ops v w write same j = elim (Bool-cases (j == id)) [
    | inl here ↦ rw ((eq_iff j id).0 here, write.stored, write.found) same
    | inr away ↦ rw (write.others j away) refl
  ]
