-- ===== src/Startup/Guarded.antt =====
-- The options that main of cmd/main.go gives its manager: HTTP/2, certificates and namespaces.
use bare_metal_operator.Prelude.{
  String, Bool, true, false, Option, none, some, List, [], ◌∷◌, ◌≡◌, refl, ◌==◌, inl, inr,
  Bool-cases, if◌then◌else◌,
}
use bare_metal_operator.Prelude.Dict.{lookup}
use bare_metal_operator.Shared.{Error}
use bare_metal_operator.Effect.{M, Keeps, Keeps-bind, Keeps-pure, Keeps-on_error, keeps_rules}
use bare_metal_operator.Startup.Options.{
  Flags, CertWatcher, TlsConfig, apply_option, apply_options, tls_options, server_options,
  ManagerOptions, manager_options,
}
use bare_metal_operator.Startup.Setup.{Program, Parts}
use bare_metal_operator.Startup.Entry.{
  Libraries, Event, watches, manages, Ending, exited, Launch, Main, has_aap, on_program, call,
  attempt, start, add_checks, add_watcher, run_manager, set_up_controllers, provision, watch,
  manage, launch, main,
}

-- The protocols and the certificate that a server's TLS configuration ends with.
abbrev protos_of : Flags → List String → List String
protos_of flags protos = if flags.enable_http2 then protos else "http/1.1" ∷ []

server_options_lem :
    (flags : Flags) (watcher : Option CertWatcher) (c : TlsConfig)
    → (apply_options (server_options flags watcher) c).next_protos ≡ protos_of flags c.next_protos
unfolding server_options tls_options apply_options apply_option
server_options_lem flags none c = elim (Bool-cases flags.enable_http2) [
  | inl on ↦ rw on refl
  | inr off ↦ rw off refl
]
server_options_lem flags (some watcher) c = elim (Bool-cases flags.enable_http2) [
  | inl on ↦ rw on refl
  | inr off ↦ rw off refl
]

-- Both servers speak the protocols of the flag, a metrics server that is served securely is
-- filtered, and the cache holds the objects of one namespace, which has a name.
pub record IsGuarded (flags : Flags) (namespace : String) (options : ManagerOptions) : Type 0 where
  pub metrics :
      (c : TlsConfig)
      → (apply_options options.metrics.tls_options c).next_protos ≡ protos_of flags c.next_protos
  pub webhook :
      (c : TlsConfig)
      → (apply_options options.webhook_tls_options c).next_protos ≡ protos_of flags c.next_protos
  pub filtered : options.metrics.is_filtered ≡ options.metrics.secure_serving
  pub pools : lookup "BareMetalPool" options.cache ≡ some (namespace ∷ [])
  pub instances : lookup "BareMetalInstance" options.cache ≡ some (namespace ∷ [])
  pub named : (namespace == "") ≡ false

manager_options-IsGuarded :
    (flags : Flags) (webhook metrics : Option CertWatcher) (namespace : String)
    → (namespace == "") ≡ false
    → IsGuarded flags namespace (manager_options flags webhook metrics namespace)
unfolding manager_options lookup
manager_options-IsGuarded flags webhook metrics namespace named = record {
  metrics = server_options_lem flags metrics;
  webhook = server_options_lem flags webhook;
  filtered = refl;
  pools = refl;
  instances = refl;
  named = named;
}

-- Every manager that is made in these calls is guarded.
abbrev pub AllGuarded : Flags → String → List Event → Type 0
AllGuarded flags namespace [] = Unit
AllGuarded flags namespace (manages options ∷ es) =
    IsGuarded flags namespace options × AllGuarded flags namespace es
AllGuarded flags namespace (_ ∷ es) = AllGuarded flags namespace es

module _ {J W : Type 0} (l : Libraries W) (p : Parts J W) (flags : Flags) (namespace : String) where
  abbrev Guards : Launch W → Type 0
  Guards s = AllGuarded flags namespace s.events

  on_program-Keeps : {A : Type 0} (f : M (Program W) A) → Keeps Guards (on_program l p f)
  unfolding on_program
  on_program-Keeps f = record { at = λ s h. h }

  call-Keeps :
      (event : Event) (f : W → Option Error × W)
      → ((es : List Event)
          → AllGuarded flags namespace es
          → AllGuarded flags namespace (event ∷ es))
      → Keeps Guards (call l p event f)
  unfolding call
  call-Keeps event f adding = record { at = λ s h. adding s.events h }

  attempt-Keeps :
      (event : Event) (f : W → Option Error × W) (next : Main W Ending)
      → ((es : List Event)
          → AllGuarded flags namespace es
          → AllGuarded flags namespace (event ∷ es))
      → Keeps Guards next
      → Keeps Guards (attempt l p event f next)
  unfolding attempt
  attempt-Keeps event f next adding keeps =
      Keeps-bind _ _ (call-Keeps event f adding)
        (λ e. Keeps-on_error e _ _ (λ x. Keeps-pure _) keeps)

  ruleset steps = (keeps_rules, on_program-Keeps, attempt-Keeps)

  run_manager-Keeps :
      (webhook metrics : Option CertWatcher) → Keeps Guards (run_manager l p webhook metrics)
  unfolding run_manager add_watcher add_checks start
  run_manager-Keeps webhook metrics = search steps depth 15

  set_up_controllers-Keeps :
      (provider : Bool) (next : Main W Ending)
      → Keeps Guards next
      → Keeps Guards (set_up_controllers l p provider next)
  unfolding set_up_controllers
  set_up_controllers-Keeps provider next keeps = Keeps-bind _ _ (on_program-Keeps _) (λ e.
      Keeps-on_error e _ _ (λ x. Keeps-pure _)
        (Keeps-bind _ _ (on_program-Keeps _) (λ e. Keeps-on_error e _ _ (λ x. Keeps-pure _) keeps)))

  provision-Keeps :
      (next : Bool → Main W Ending)
      → ((provider : Bool) → Keeps Guards (next provider))
      → Keeps Guards (provision l p next)
  unfolding provision
  provision-Keeps next keeps = elim (Bool-cases (has_aap l p)) [
    | inl given ↦ rw given (attempt-Keeps _ _ _ (λ es h. h) (keeps true))
    | inr missing ↦ rw missing (keeps false)
  ]

  watch-Keeps :
      (path name key : String) (next : Option CertWatcher → Main W Ending)
      → ((watcher : Option CertWatcher) → Keeps Guards (next watcher))
      → Keeps Guards (watch l p path name key next)
  unfolding watch
  watch-Keeps path name key next keeps = elim (Bool-cases (path == "")) [
    | inl missing ↦ rw missing (keeps none)
    | inr given ↦ rw given (attempt-Keeps (watches _) _ _ (λ es h. h) (keeps _))
  ]

module _ {J W : Type 0} (l : Libraries W) (p : Parts J W) (flags : Flags) where
  abbrev namespace : String
  namespace = p.system.getenv "OSAC_BARE_METAL_FULFILLMENT_NAMESPACE"

  launch-Keeps :
      (webhook metrics : Option CertWatcher)
      → Keeps (Guards l p flags namespace) (launch l p flags webhook metrics)
  unfolding launch manage
  launch-Keeps webhook metrics = elim (Bool-cases (namespace == "")) [
    | inl missing ↦ rw missing (Keeps-pure exited)
    | inr named ↦ rw named (
        attempt-Keeps l p flags namespace (manages _) _ _
          (λ es h. (manager_options-IsGuarded flags webhook metrics namespace named, h))
          (provision-Keeps l p flags namespace _ (λ provider.
            set_up_controllers-Keeps l p flags namespace provider _
              (run_manager-Keeps l p flags namespace webhook metrics))))
  ]

  -- Every manager that main makes, where those made before were so, has a cache of pools and of
  -- instances in the one namespace that the environment names, which is not empty; its metrics
  -- server is filtered exactly when it is served securely; and its metrics and webhook servers,
  -- whatever TLS configuration they start from and whether or not they watch a certificate, speak
  -- HTTP/1.1 alone unless the flag enables HTTP/2, which leaves their protocols as they were.
  pub main-AllGuarded :
      (s : Launch W)
      → AllGuarded flags namespace s.events
      → AllGuarded flags namespace (main l p flags s).1.events
  unfolding main
  main-AllGuarded s guarded =
      (watch-Keeps l p flags namespace flags.webhook_cert_path flags.webhook_cert_name
          flags.webhook_cert_key _
          (λ webhook.
            watch-Keeps l p flags namespace flags.metrics_cert_path flags.metrics_cert_name
              flags.metrics_cert_key _ (λ metrics. launch-Keeps webhook metrics))).at
        s guarded
