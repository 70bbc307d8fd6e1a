-- ===== src/Startup/Tests.antt =====
-- The theorems on the start of the program at an environment whose variables are all minus five.
use bare_metal_operator.Prelude.{true, false, none, some, [], ◌∷◌, refl, ◌<>◌}
use bare_metal_operator.Prelude.Int.{pos, negsuc}
use bare_metal_operator.Shared.{api, not_found, ok, err}
use bare_metal_operator.Samples.{kube, formats, profile, provisioning}
use bare_metal_operator.Inventory
use bare_metal_operator.Pool
use bare_metal_operator.Instance
use bare_metal_operator.Instance.Samples.{reconciler_over}
use bare_metal_operator.Startup.{System}
use bare_metal_operator.Startup.Setup.{
  Program, Parts, setup_bare_metal_pool_controller, load_profile_config, load, instance_reconciler,
  instance_settings, on_world, pool_reconciler, pool_settings, register_instances, register_pools,
  setup_bare_metal_instance_controller, with_inventory, with_inventory_config, with_management,
}
use bare_metal_operator.Startup.Intervals.{IsSound, setup-IsSound}
use bare_metal_operator.Startup.Options.{
  Flags, default_flags, manager_options, server_options, tls_options,
}
use bare_metal_operator.Startup.Entry
use bare_metal_operator.Startup.Entry.{
  Libraries, Launch, main, watch, attempt, call, launch, manage, provision, has_aap,
  set_up_controllers, on_program, add_checks, add_watcher, provider_config, run_manager,
}
use bare_metal_operator.Startup.Environment.{
  string_with_default, value_or_default, is_valid, bool_with_default, duration_with_default,
  int_with_default,
}
use bare_metal_operator.Startup.Backends.{new_inventory_client, new_management_client}
use bare_metal_operator.Prelude.Dict
use bare_metal_operator.Effect.{◌>>=◌}
use bare_metal_operator.Profile
use bare_metal_operator.Profile.{check_labels, check_profile, load_profiles}
use bare_metal_operator.Startup.Leading.{IsServing}
use bare_metal_operator.Startup.Serving.{main-IsServing}
use bare_metal_operator.Startup.Guarded.{AllGuarded, main-AllGuarded}

abbrev system : System
system = record {
  getenv = λ name. "-5";
  read_file = λ path. ok "";
  is_not_exist = λ e. false;
  atoi = λ text. ok (negsuc 4);
  parse_bool = λ text. ok true;
  parse_duration = λ text. ok (negsuc 4);
}

abbrev pool : Pool.State.Reconciler (Unit {0})
pool = record {
  kube = kube;
  client = record {
    get = λ name w. (err (api not_found), w);
    update = λ o w. (ok o, w);
    update_status = λ o w. (ok o, w);
    list_instances = λ namespace uid w. (ok [], w);
    delete_instance = λ o w. (none, w);
    create_instance = λ o w. (none, w);
    set_controller_reference = λ o instance. ok instance;
    random_suffix = λ w. ("x2z9a", w);
    range_order = λ m. m;
    same_status = λ a b. false;
  };
  profiles = [];
  formats = formats;
  has_provider = true;
  provisioning = provisioning;
  host_ready_poll_interval = pos 0;
  host_deletion_poll_interval = pos 0;
  provision_job_poll_interval = pos 0;
  max_job_history = 0;
}

abbrev inventory : Inventory.Client (Unit {0})
inventory = record {
  find_free_host = λ m w. (ok none, w);
  assign_host = λ h uid m w. (ok none, w);
  unassign_host = λ h labels w. (none, w);
}

abbrev instance : Instance.State.Reconciler (Unit {0})
instance = reconciler_over inventory

abbrev parts : Parts (Unit {0}) (Unit {0})
parts = record {
  system = system;
  formats = formats;
  unmarshal_profiles = λ text. ok (profile ∷ []);
  unmarshal_inventory = λ text.
      ok
        (record { name = "i"; kind = "metal3"; options = []; host_class = ""; network_class = "" });
  unmarshal_management = λ text. ok (record { name = "m"; kind = "metal3"; options = [] });
  inventory_clients = ("metal3", λ config w. (ok (some inventory), w)) ∷ [];
  management_clients = ("metal3", λ config w. (ok (some instance.management), w)) ∷ [];
  pool = pool;
  instance = instance;
  setup_with_manager = λ registration w. (none, w);
}

abbrev start : Program (Unit {0})
start = record { profiles = []; pools = none; instances = none; world = tt }

setup-IsSound_example :
    IsSound (setup_bare_metal_pool_controller parts start).1
    × IsSound (setup_bare_metal_instance_controller parts start).1
setup-IsSound_example =
    setup-IsSound parts refl refl refl start (record { pools = refl; instances = refl })

-- Libraries that answer every call with success, and a command line without flags.
abbrev libraries : Libraries (Unit {0})
libraries = record {
  join = λ directory name. directory <> "/" <> name;
  new_cert_watcher = λ watcher w. (none, w);
  new_manager = λ options w. (none, w);
  new_provider = λ config w. (none, w);
  add = λ watcher w. (none, w);
  add_healthz_check = λ name w. (none, w);
  add_readyz_check = λ name w. (none, w);
  start = λ w. (none, w);
}

abbrev launch_start : Launch (Unit {0})
launch_start = record { program = start; events = [] }

abbrev flags : Flags
flags = record default_flags { webhook_cert_path = "/etc/webhook" }

main-IsServing_example : IsServing true (main libraries parts flags launch_start).1
unfolding main watch attempt call launch manage provision has_aap set_up_controllers on_program
    add_checks add_watcher provider_config run_manager Entry.start ◌>>=◌ string_with_default
    value_or_default is_valid bool_with_default duration_with_default int_with_default
    setup_bare_metal_pool_controller load_profile_config load instance_reconciler instance_settings
    on_world pool_reconciler pool_settings register_instances register_pools
    setup_bare_metal_instance_controller with_inventory with_inventory_config with_management
    manager_options server_options tls_options Instance.State.new_reconciler
    Pool.State.new_reconciler Dict.insert Dict.lookup check_labels check_profile Profile.get
    load_profiles new_inventory_client new_management_client
main-IsServing_example = main-IsServing libraries parts flags launch_start refl refl

main-AllGuarded_example : AllGuarded flags "-5" (main libraries parts flags launch_start).1.events
main-AllGuarded_example = main-AllGuarded libraries parts flags launch_start tt
