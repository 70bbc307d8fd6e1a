-- ===== src/Instance/Samples.antt =====
-- A sample instance whose host is assigned, and a reconciler.
use bare_metal_operator.Prelude.{true, false, none, some, [], ◌∷◌}
use bare_metal_operator.Prelude.Int.{pos}
use bare_metal_operator.Shared.{ok, bare_metal_instance_inventory_finalizer}
use bare_metal_operator.Api.Instance.{BareMetalInstance, unspecified, always, progressing}
use bare_metal_operator.Inventory
use bare_metal_operator.Inventory.{Host}
use bare_metal_operator.Management.{power_on}
use bare_metal_operator.Instance.State.{Reconciler}
use bare_metal_operator.Samples.{kube, provisioning}

abbrev pub instance : BareMetalInstance
instance = record {
  name = "node";
  namespace = "default";
  uid = "uid-1";
  labels = [];
  deleting = false;
  finalizers = bare_metal_instance_inventory_finalizer ∷ [];
  owner_references = [];
  spec = record {
    host_type = "fc430";
    external_host_id = "host-1";
    external_host_name = "rack-1";
    host_class = "metal3";
    network_class = "flat";
    host_selector = [];
    inventory_labels = ("os", "rhel") ∷ ("site", "a") ∷ [];
    inventory_persistent_labels = ("os", "rhcos") ∷ [];
    template_id = "noop";
    template_parameters = "";
    run_strategy = always;
    restart_trigger = pos 2;
  };
  status = record {
    phase = progressing;
    jobs = [];
    conditions = [];
    desired_config_version = "";
    run_strategy = unspecified;
    restart_trigger = pos 1;
  };
}

-- Servers that answer every call with success, around an inventory.
abbrev pub reconciler_over : {W : Type 0} → Inventory.Client W → Reconciler W
reconciler_over inventory = record {
  kube = kube;
  client = record {
    get = λ name w. (ok instance, w);
    update = λ o w. (ok o, w);
    update_status = λ o w. (ok o, w);
    same_status = λ a b. false;
    error_text = λ e. "";
  };
  inventory = inventory;
  management = record {
    get_power_state = λ h w. (ok (some (record { state = power_on; is_transitioning = false })), w);
    set_power_state = λ h p w. (none, w);
    trigger_restart = λ h w. (none, w);
    is_restart_complete = λ h w. (ok true, w);
  };
  has_provider = true;
  provisioning = provisioning;
  no_free_hosts_poll_interval = pos 30;
  try_lock_fail_poll_interval = pos 1;
  management_recheck_interval = pos 10;
  provision_poll_interval = pos 30;
}
