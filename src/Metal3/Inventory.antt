-- ===== src/Metal3/Inventory.antt =====
-- internal/inventory/metal3.go: FindFreeHost, AssignHost and UnassignHost.
use bare_metal_operator.Prelude.{
  String, Bool, false, not, ◌&&◌, Option, none, some, List, [], ◌∷◌, ◌==◌, ◌<>◌, if◌then◌else◌,
}
use bare_metal_operator.Prelude.Dict.{Dict, insert, erase, index}
use bare_metal_operator.Shared.{Error, new, wrap, Res, ok, err, osac_default_managed_by_value}
use bare_metal_operator.Effect.{M, ◌>>=◌, pure, on_res}
use bare_metal_operator.Inventory
use bare_metal_operator.Inventory.{Host}
use bare_metal_operator.Profile.{is_some}
use bare_metal_operator.Metal3.{ObjectReference, BareMetalHost, Server}
use bare_metal_operator.Metal3.HostId.{parse_host_id, host_id_of}

abbrev pub metal3_label_prefix : String
metal3_label_prefix = "osac.openshift.io/"

abbrev pub metal3_host_type_label : String
metal3_host_type_label = "osac.openshift.io/host-type"

abbrev pub metal3_managed_by_label : String
metal3_managed_by_label = "osac.openshift.io/managed-by"

abbrev pub metal3_pool_id_label : String
metal3_pool_id_label = "osac.openshift.io/pool-id"

-- Metal3Client
pub record Metal3Client (W : Type 0) : Type 0 where
  pub server : Server W
  pub namespace : String
  pub host_class : String
  pub network_class : String

abbrev pub or_managed : String → String
or_managed text = if text == "" then osac_default_managed_by_value else text

abbrev pub consumer_name : Option ObjectReference → String
consumer_name none = ""
consumer_name (some ref) = ref.name

-- bmhToHost
unfoldable pub bmh_to_host : BareMetalHost → String → String → Host
bmh_to_host b host_class network_class = record {
  bare_metal_pool_id = index b.labels metal3_pool_id_label;
  bare_metal_instance_id = consumer_name b.consumer_ref;
  inventory_host_id = host_id_of b.namespace b.name;
  name = b.name;
  host_type = index b.labels metal3_host_type_label;
  host_class = host_class;
  network_class = network_class;
  provision_state = b.provisioning_state;
  managed_by = or_managed (index b.labels metal3_managed_by_label);
}

-- The labels that the listing asks for.
unfoldable pub match_labels : Dict String → Dict String
match_labels match_expressions =
    if index match_expressions "hostType" == ""
    then []
    else (metal3_host_type_label, index match_expressions "hostType") ∷ []

-- The labels of an assignment and of its undoing, under the prefix.
unfoldable pub put_labels : Dict String → Dict String → Dict String
put_labels labels [] = labels
put_labels labels ((key, value) ∷ added) =
    put_labels (insert (metal3_label_prefix <> key) value labels) added

unfoldable pub drop_labels : Dict String → List String → Dict String
drop_labels labels [] = labels
drop_labels labels (key ∷ removed) = drop_labels (erase (metal3_label_prefix <> key) labels) removed

abbrev pub claimed_by : String → Dict String → BareMetalHost → BareMetalHost
claimed_by instance_id labels b = record b {
  labels = put_labels b.labels labels;
  consumer_ref = some (record {
    api_version = "osac.openshift.io/v1alpha1";
    kind = "BareMetalInstance";
    name = instance_id;
  });
}

abbrev pub freed : List String → BareMetalHost → BareMetalHost
freed labels b = record b { labels = drop_labels b.labels labels; consumer_ref = none }

-- bmh.Spec.ConsumerRef != nil && bmh.Spec.ConsumerRef.Name != bareMetalInstanceID
abbrev pub is_taken : String → Option ObjectReference → Bool
is_taken instance_id none = false
is_taken instance_id (some ref) = not (ref.name == instance_id)

module _ {W : Type 0} (m : Metal3Client W) where
  -- The loop over the listed hosts: may this one be given away?
  unfoldable pub is_candidate : String → BareMetalHost → Bool
  is_candidate managed_by b =
      b.operational_status == m.server.operational_status_ok
      && (b.provisioning_state == m.server.state_available
          && (not (is_some b.consumer_ref)
              && or_managed (index b.labels metal3_managed_by_label) == managed_by))

  unfoldable pub candidates : String → List BareMetalHost → List BareMetalHost
  candidates managed_by [] = []
  candidates managed_by (b ∷ items) =
      let rest = candidates managed_by items in if is_candidate managed_by b then b ∷ rest else rest

  abbrev pub first_host : List BareMetalHost → Option Host
  first_host [] = none
  first_host (b ∷ items) = some (bmh_to_host b m.host_class m.network_class)

  -- An empty list of candidates is not shuffled.
  unfoldable pub choose : List BareMetalHost → M W (Res (Option Host))
  choose [] = pure (ok none)
  choose (b ∷ items) = do shuffled ← m.server.shuffle (b ∷ items); pure (ok (first_host shuffled))

  unfoldable pub find_free_host : Dict String → M W (Res (Option Host))
  find_free_host match_expressions = do
    answer ← m.server.list m.namespace (match_labels match_expressions)
    on_res answer (λ e. pure (err (wrap "failed to list BareMetalHosts" e)))
        (λ items. choose (candidates (or_managed (index match_expressions "managedBy")) items))

  unfoldable pub claim : String → String → Dict String → BareMetalHost → M W (Res (Option Host))
  claim host_id instance_id labels b =
      if is_taken instance_id b.consumer_ref then pure (ok none) else do
        answer ← m.server.update (claimed_by instance_id labels b)
        on_res answer (λ e. pure (err (wrap ("failed to assign BareMetalHost " <> host_id) e)))
            (λ stored. pure (ok (some (bmh_to_host stored m.host_class m.network_class))))

  unfoldable pub assign_host : String → String → Dict String → M W (Res (Option Host))
  assign_host host_id instance_id labels =
      if host_id == ""
      then pure (err (new "invalid input: inventoryHostID is empty"))
      else if instance_id == ""
      then pure (err (new "invalid input: bareMetalInstanceID is empty"))
      else on_res (parse_host_id host_id) (λ e. pure (err e))
          (λ parts. do
            answer ← m.server.get parts.0 parts.1
            on_res answer (λ e. pure (err (wrap ("failed to get BareMetalHost " <> host_id) e)))
                (claim host_id instance_id labels))

  unfoldable pub release : String → List String → BareMetalHost → M W (Option Error)
  release host_id labels b = do
    answer ← m.server.update (freed labels b)
    on_res answer (λ e. pure (some (wrap ("failed to unassign BareMetalHost " <> host_id) e)))
        (λ stored. pure none)

  unfoldable pub unassign_host : String → List String → M W (Option Error)
  unassign_host host_id labels =
      on_res (parse_host_id host_id) (λ e. pure (some e))
        (λ parts. do
          answer ← m.server.get parts.0 parts.1
          on_res answer (λ e. pure (some (wrap ("failed to get BareMetalHost " <> host_id) e)))
              (release host_id labels))

  -- The client as the controller sees it.
  abbrev pub inventory_client : Inventory.Client W
  inventory_client = record {
    find_free_host = find_free_host;
    assign_host = assign_host;
    unassign_host = unassign_host;
  }
