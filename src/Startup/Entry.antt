-- ===== src/Startup/Entry.antt =====
-- main of cmd/main.go, from the parsed flags to the manager's run. `os.Exit(1)` is an ending.
use bare_metal_operator.Prelude.{
  String, Bool, true, false, not, ◌&&◌, Option, none, some, List, ◌∷◌, ◌==◌, if◌then◌else◌,
}
use bare_metal_operator.Shared.{Error}
use bare_metal_operator.Effect.{M, ◌>>=◌, pure, on_error, on_option}
use bare_metal_operator.Startup.Environment.{string_with_default, bool_with_default}
use bare_metal_operator.Startup.Options.{Flags, CertWatcher, ManagerOptions, manager_options}
use bare_metal_operator.Startup.Setup.{
  Program, Parts, setup_bare_metal_pool_controller, setup_bare_metal_instance_controller,
}

-- aap.NewClient and provisioning.ProviderConfig
pub record ProviderConfig : Type 0 where
  pub aap_url : String
  pub aap_token : String
  pub insecure_skip_verify : Bool
  pub template_prefix : String

-- What main calls, and the libraries that answer. A kubeconfig that is missing
-- (ctrl.GetConfigOrDie) is an error of `new_manager`.
pub record Libraries (W : Type 0) : Type 0 where
  pub join : String → String → String
  pub new_cert_watcher : CertWatcher → W → Option Error × W
  pub new_manager : ManagerOptions → W → Option Error × W
  pub new_provider : ProviderConfig → W → Option Error × W
  pub add : CertWatcher → W → Option Error × W
  pub add_healthz_check : String → W → Option Error × W
  pub add_readyz_check : String → W → Option Error × W
  pub start : W → Option Error × W

-- The calls of main, for the statements about them.
pub data Event : Type 0 where
  watches adds : CertWatcher → Event
  manages : ManagerOptions → Event
  provides : ProviderConfig → Event
  adds_healthz adds_readyz : String → Event
  starts : Event

-- How main ends: it returns, or it exits with code 1.
pub data Ending : Type 0 where
  returned exited : Ending

-- The program's variables, and the calls so far (newest first).
pub record Launch (W : Type 0) : Type 0 where
  pub program : Program W
  pub events : List Event

abbrev pub Main : Type 0 → Type 0 → Type 0
Main W A = M (Launch W) A

module _ {J W : Type 0} (l : Libraries W) (p : Parts J W) where
  unfoldable pub on_program : {A : Type 0} → M (Program W) A → Main W A
  on_program f s = let (a, program) = f s.program in (a, record s { program = program })

  unfoldable pub call : Event → (W → Option Error × W) → Main W (Option Error)
  call event f s =
      let (e, w) = f s.program.world in
      (e, record { program = record s.program { world = w }; events = event ∷ s.events })

  -- A call whose error ends the program.
  unfoldable pub attempt : Event → (W → Option Error × W) → Main W Ending → Main W Ending
  attempt event f next = do e ← call event f; on_error e (λ _. pure exited) next

  unfoldable pub start : Main W Ending
  start = attempt starts l.start (pure returned)

  unfoldable pub add_checks : Main W Ending
  add_checks =
      attempt (adds_healthz "healthz") (l.add_healthz_check "healthz")
        (attempt (adds_readyz "readyz") (l.add_readyz_check "readyz") start)

  unfoldable pub add_watcher : Option CertWatcher → Main W Ending → Main W Ending
  add_watcher watcher next = on_option watcher next (λ w. attempt (adds w) (l.add w) next)

  unfoldable pub run_manager : Option CertWatcher → Option CertWatcher → Main W Ending
  run_manager webhook metrics = add_watcher metrics (add_watcher webhook add_checks)

  -- The provider that both controllers are given.
  abbrev pub with_provider : Bool → Parts J W
  with_provider provider = record p {
    pool = record p.pool { has_provider = provider };
    instance = record p.instance { has_provider = provider };
  }

  unfoldable pub set_up_controllers : Bool → Main W Ending → Main W Ending
  set_up_controllers provider next = do
    e ← on_program (setup_bare_metal_pool_controller (with_provider provider))
    on_error e (λ _. pure exited)
        (do
          e ← on_program (setup_bare_metal_instance_controller (with_provider provider))
          on_error e (λ _. pure exited) next)

  unfoldable pub provider_config : ProviderConfig
  provider_config = record {
    aap_url = string_with_default p.system "OSAC_AAP_URL" "";
    aap_token = string_with_default p.system "OSAC_AAP_TOKEN" "";
    insecure_skip_verify = bool_with_default p.system "OSAC_AAP_INSECURE_SKIP_VERIFY" false;
    template_prefix = string_with_default p.system "OSAC_AAP_TEMPLATE_PREFIX" "osac";
  }

  unfoldable pub has_aap : Bool
  unfolding provider_config
  has_aap = not (provider_config.aap_url == "") && not (provider_config.aap_token == "")

  -- Without a URL or a token there is no provider.
  unfoldable pub provision : (Bool → Main W Ending) → Main W Ending
  provision next =
      if has_aap
      then attempt (provides provider_config) (l.new_provider provider_config) (next true)
      else next false

  -- A certificate is watched where its directory is given.
  unfoldable pub watch :
      String → String → String → (Option CertWatcher → Main W Ending) → Main W Ending
  watch path name key next =
      let watcher : CertWatcher = record { cert = l.join path name; key = l.join path key } in
      if path == ""
      then next none
      else attempt (watches watcher) (l.new_cert_watcher watcher) (next (some watcher))

  unfoldable pub manage : ManagerOptions → Main W Ending → Main W Ending
  manage options next = attempt (manages options) (l.new_manager options) next

  unfoldable pub launch : Flags → Option CertWatcher → Option CertWatcher → Main W Ending
  launch flags webhook metrics =
      let namespace = p.system.getenv "OSAC_BARE_METAL_FULFILLMENT_NAMESPACE" in
      if namespace == ""
      then pure exited
      else manage (manager_options flags webhook metrics namespace)
          (provision (λ provider. set_up_controllers provider (run_manager webhook metrics)))

  unfoldable pub main : Flags → Main W Ending
  main flags =
      watch flags.webhook_cert_path flags.webhook_cert_name flags.webhook_cert_key (λ webhook.
        watch flags.metrics_cert_path flags.metrics_cert_name flags.metrics_cert_key
          (λ metrics. launch flags webhook metrics))
