-- ===== src/OpenStack/Inventory.antt =====
-- internal/inventory/openstack.go: FindFreeHost, AssignHost and UnassignHost.
use bare_metal_operator.Prelude.{
  String, Bool, true, false, not, ◌&&◌, Option, none, some, List, [], ◌∷◌, ◌==◌, ◌<>◌, contains,
  if◌then◌else◌,
}
use bare_metal_operator.Prelude.Dict.{Dict, lookup, index}
use bare_metal_operator.Shared.{
  Error, new, Res, ok, err, error_of, osac_bare_metal_pool_id_label, osac_default_managed_by_value,
  osac_default_provision_state_value,
}
use bare_metal_operator.Effect.{M, ◌>>=◌, pure, on_res, on_option}
use bare_metal_operator.Inventory
use bare_metal_operator.Inventory.{Host}
use bare_metal_operator.Profile.{is_some}
use bare_metal_operator.OpenStack.{
  Value, text, Extra, missing, labels, Node, UpdateOperation, add, add_map, remove, Pages, last,
  broken, page, Ironic, Session,
}
use bare_metal_operator.OpenStack.Pointer.{escape_json_pointer_token}
use bare_metal_operator.OpenStack.Reconnect.{request, retrying}

abbrev pub bare_metal_instance_id_label : String
bare_metal_instance_id_label = "bareMetalInstanceId"

abbrev pub managed_by_label : String
managed_by_label = "managedBy"

-- OpenStackClient, but for the client in use, which is in the session.
pub record OpenStackClient (C W : Type 0) : Type 0 where
  pub ironic : Ironic C W
  pub host_class : String
  pub network_class : String

abbrev pub text_value : Option Value → Option String
text_value (some (text s)) = some s
text_value _ = none

-- The map of the labels; a value of another kind counts as none.
abbrev pub label_map : Extra → Dict Value
label_map (labels m) = m
label_map _ = []

-- getNestedLabel: `none` is "not found".
unfoldable pub get_nested_label : Node → String → Option String
get_nested_label node key = text_value (lookup key (label_map node.osac_labels))

abbrev pub or_empty : Option String → String
or_empty none = ""
or_empty (some s) = s

abbrev or_text : String → String → String
or_text default s = if s == "" then default else s

abbrev or_default_manager : Option String → String
or_default_manager none = osac_default_managed_by_value
or_default_manager (some s) = s

abbrev pub label_path : String → String
label_path key = "/extra/osac_labels/" <> escape_json_pointer_token key

-- `_, ok := node.Extra["osac_labels"]`
abbrev pub has_labels : Extra → Bool
has_labels missing = false
has_labels _ = true

-- The operations for the labels of an assignment.
unfoldable pub add_labels : Dict String → List UpdateOperation
add_labels [] = []
add_labels ((key, value) ∷ m) = add (label_path key) (text value) ∷ add_labels m

unfoldable pub assignment : String → Dict String → List UpdateOperation
unfolding add_labels
assignment instance_id m =
    add (label_path bare_metal_instance_id_label) (text instance_id) ∷ add_labels m

-- The loop that drops labels that were seen before.
unfoldable pub unseen : List String → List String → List String
unseen seen [] = []
unseen seen (key ∷ keys) =
    let again = unseen seen keys in
    let fresh = unseen (key ∷ seen) keys in if contains seen key then again else key ∷ fresh

unfoldable pub labels_to_remove : List String → List String
unfolding unseen
labels_to_remove keys =
    bare_metal_instance_id_label ∷ unseen (bare_metal_instance_id_label ∷ []) keys

-- Only the labels that the node has are removed.
unfoldable pub removals : Dict Value → List String → List UpdateOperation
removals existing [] = []
removals existing (key ∷ keys) =
    let rest = removals existing keys in
    if is_some (lookup key existing) then remove (label_path key) ∷ rest else rest

module _ {C W : Type 0} (m : OpenStackClient C W) where
  abbrev pub SessionHandler : Type 0 → Type 0
  SessionHandler A = M (Session C W) A

  abbrev found_host : Node → Host
  found_host node = record {
    bare_metal_pool_id = or_empty (get_nested_label node osac_bare_metal_pool_id_label);
    bare_metal_instance_id = or_empty (get_nested_label node bare_metal_instance_id_label);
    inventory_host_id = node.uuid;
    name = node.name;
    host_type = node.resource_class;
    host_class = m.host_class;
    network_class = m.network_class;
    provision_state = node.provision_state;
    managed_by =
        or_text osac_default_managed_by_value (or_empty (get_nested_label node managed_by_label));
  }

  -- The tests of the loop over the nodes of a page.
  unfoldable pub is_free : Dict String → Node → Bool
  is_free match_expressions node =
      or_empty (get_nested_label node bare_metal_instance_id_label) == ""
      && or_text osac_default_managed_by_value (or_empty (get_nested_label node managed_by_label))
        == or_text osac_default_managed_by_value (index match_expressions "managedBy")

  unfoldable pub first_free : Dict String → List Node → Option Host
  first_free match_expressions [] = none
  first_free match_expressions (node ∷ nodes) =
      let rest = first_free match_expressions nodes in
      if is_free match_expressions node then some (found_host node) else rest

  -- EachPage, with its callback: a page without a free host leads to the next.
  unfoldable pub each_page : Dict String → Pages W → M W (Res (Option Host))
  each_page match_expressions last = pure (ok none)
  each_page match_expressions (broken e) = pure (err e)
  each_page match_expressions (page nodes fetch next) = λ w.
      let (shuffled, v) = m.ironic.shuffle nodes w in
      let rest = each_page match_expressions (next v) (fetch v) in
      on_option (first_free match_expressions shuffled) (λ u. rest) (λ h. pure (ok (some h))) v

  unfoldable pub find_once : Dict String → SessionHandler (Res (Option Host))
  find_once match_expressions = request (λ c w.
      let (pages, v) =
        m.ironic.list c (index match_expressions "hostType")
          (or_text osac_default_provision_state_value (index match_expressions "provisionState"))
          w in
      each_page match_expressions pages v)

  unfoldable pub find_free_host : Dict String → SessionHandler (Res (Option Host))
  find_free_host match_expressions =
      retrying m.ironic "find free host" (find_once match_expressions)

  -- The host of a node that was just assigned.
  abbrev pub assigned_host : String → Node → Host
  assigned_host instance_id node = record {
    bare_metal_pool_id = or_empty (get_nested_label node osac_bare_metal_pool_id_label);
    bare_metal_instance_id = instance_id;
    inventory_host_id = node.uuid;
    name = node.name;
    host_type = node.resource_class;
    host_class = m.host_class;
    network_class = m.network_class;
    provision_state = node.provision_state;
    managed_by = or_default_manager (get_nested_label node managed_by_label);
  }

  -- ok && current != "" && current != bareMetalInstanceID
  abbrev pub is_taken : String → Option String → Bool
  is_taken instance_id none = false
  is_taken instance_id (some s) = not (s == "") && not (s == instance_id)

  unfoldable pub write_labels : String → String → Dict String → SessionHandler (Res (Option Host))
  write_labels host_id instance_id added = do
    answer ← request (λ c. m.ironic.update c host_id (assignment instance_id added))
    on_res answer (λ e. pure (err e)) (λ node. pure (ok (some (assigned_host instance_id node))))

  unfoldable pub ensure_labels : String → Node → SessionHandler (Option Error)
  ensure_labels host_id node = if has_labels node.osac_labels then pure none else do
    answer ← request (λ c. m.ironic.update c host_id (add_map "/extra/osac_labels" ∷ []))
    pure (error_of answer)

  unfoldable pub claim : String → String → Dict String → Node → SessionHandler (Res (Option Host))
  claim host_id instance_id added node =
      if is_taken instance_id (get_nested_label node bare_metal_instance_id_label)
      then pure (ok none)
      else do
        e ← ensure_labels host_id node
        on_option e (write_labels host_id instance_id added) (λ x. pure (err x))

  unfoldable pub assign_once : String → String → Dict String → SessionHandler (Res (Option Host))
  assign_once host_id instance_id added =
      if host_id == ""
      then pure (err (new "invalid input: inventoryHostID is empty"))
      else if instance_id == ""
      then pure (err (new "invalid input: bareMetalInstanceID is empty"))
      else do
        answer ← request (λ c. m.ironic.get c host_id)
        on_res answer (λ e. pure (err e)) (claim host_id instance_id added)

  unfoldable pub assign_host : String → String → Dict String → SessionHandler (Res (Option Host))
  assign_host host_id instance_id added =
      retrying m.ironic ("assign host " <> host_id) (assign_once host_id instance_id added)

  abbrev no_value : Res Node → Res (Unit {0})
  no_value (ok node) = ok tt
  no_value (err e) = err e

  unfoldable pub drop_labels : String → List UpdateOperation → SessionHandler (Res (Unit {0}))
  drop_labels host_id [] = pure (ok tt)
  drop_labels host_id (op ∷ ops) = do
    answer ← request (λ c. m.ironic.update c host_id (op ∷ ops))
    pure (no_value answer)

  unfoldable pub unassign_once : String → List String → SessionHandler (Res (Unit {0}))
  unassign_once host_id keys = do
    answer ← request (λ c. m.ironic.get c host_id)
    on_res answer (λ e. pure (err e))
        (λ node.
          drop_labels host_id (removals (label_map node.osac_labels) (labels_to_remove keys)))

  unfoldable pub unassign_host : String → List String → SessionHandler (Option Error)
  unassign_host host_id keys = do
    answer ← retrying m.ironic ("unassign host " <> host_id) (unassign_once host_id keys)
    pure (error_of answer)

  -- The client as the controller sees it.
  abbrev pub inventory_client : Inventory.Client (Session C W)
  inventory_client = record {
    find_free_host = find_free_host;
    assign_host = assign_host;
    unassign_host = unassign_host;
  }
