-- ===== src/Pool/Create.antt =====
-- createBareMetalInstanceCR: the instance that the pool asks for.
use bare_metal_operator.Prelude.{
  String, false, Option, none, some, [], ◌∷◌, ◌==◌, ◌<>◌, if◌then◌else◌,
}
use bare_metal_operator.Prelude.Dict.{Dict}
use bare_metal_operator.Prelude.Int.{pos}
use bare_metal_operator.Shared.{
  Error, ignore_already_exists, osac_noop_template, osac_default_managed_by_value,
  osac_default_provision_state_value, bare_metal_pool_label_key, host_type_label_key,
}
use bare_metal_operator.Effect.{◌>>=◌, ◌>>◌, pure, on_res, on_option}
use bare_metal_operator.Profile.{Profile}
use bare_metal_operator.Api.Instance.{BareMetalInstance, unspecified, unset}
use bare_metal_operator.Api.Pool.{BareMetalPool, ProfileSpec}
use bare_metal_operator.Pool.State.{Reconciler, Handler, creates, pool, perform, act, panic}

abbrev host_template_of : Option Profile → String
host_template_of none = osac_noop_template
host_template_of (some p) = if p.host_template == "" then osac_noop_template else p.host_template

-- The parameters for an instance with a profile are read from the pool's spec: `none` is the panic
-- of a spec without a profile.
abbrev pub parameters_of : Option Profile → Option ProfileSpec → Option String
parameters_of none spec = some ""
parameters_of (some p) none = none
parameters_of (some p) (some spec) = some spec.template_parameters

abbrev selector_of : Option Profile → Dict String
selector_of none =
    ("managedBy", osac_default_managed_by_value)
    ∷ ("provisionState", osac_default_provision_state_value)
    ∷ []
selector_of (some p) = p.host_selector

abbrev labels_of : Option Profile → Dict String
labels_of none = []
labels_of (some p) = p.labels

abbrev persistent_labels_of : Option Profile → Dict String
persistent_labels_of none = []
persistent_labels_of (some p) = p.persistent_labels

unfoldable pub new_instance :
    BareMetalPool → String → Option Profile → String → String → BareMetalInstance
new_instance p host_type profile parameters suffix = record {
  name = p.name <> "-host-" <> suffix;
  namespace = p.namespace;
  uid = "";
  labels = (bare_metal_pool_label_key, p.uid) ∷ (host_type_label_key, host_type) ∷ [];
  deleting = false;
  finalizers = [];
  owner_references = [];
  spec = record {
    host_type = host_type;
    external_host_id = "";
    external_host_name = "";
    host_class = "";
    network_class = "";
    host_selector = selector_of profile;
    inventory_labels = labels_of profile;
    inventory_persistent_labels = persistent_labels_of profile;
    template_id = host_template_of profile;
    template_parameters = parameters;
    run_strategy = unspecified;
    restart_trigger = pos 0;
  };
  status = record {
    phase = unset;
    jobs = [];
    conditions = [];
    desired_config_version = "";
    run_strategy = unspecified;
    restart_trigger = pos 0;
  };
}

module _ {W : Type 0} (r : Reconciler W) where
  unfoldable pub send_instance : BareMetalInstance → Handler W (Option Error)
  send_instance o = do
    e ← perform (creates o) (r.client.create_instance o)
    pure (ignore_already_exists e)

  unfoldable pub own_instance : String → Option Profile → String → String → Handler W (Option Error)
  own_instance host_type profile suffix parameters = do
    p ← pool
    on_res
        (r.client.set_controller_reference p (new_instance p host_type profile parameters suffix))
        (λ e. pure (some e)) send_instance

  unfoldable pub create_instance : String → Option Profile → Handler W (Option Error)
  create_instance host_type profile = do
    p ← pool
    suffix ← act r.client.random_suffix
    on_option (parameters_of profile p.spec.profile) (do panic; pure none)
        (own_instance host_type profile suffix)
