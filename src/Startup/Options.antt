-- ===== src/Startup/Options.antt =====
-- The flags of main in cmd/main.go, and the options of the manager that they lead to.
use bare_metal_operator.Prelude.{
  String, Bool, true, false, not, Option, none, some, List, [], ◌∷◌, ◌++◌, if◌then◌else◌,
}
use bare_metal_operator.Prelude.Dict.{Dict}

pub record Flags : Type 0 where
  pub metrics_addr : String
  pub probe_addr : String
  pub enable_leader_election : Bool
  pub secure_metrics : Bool
  pub webhook_cert_path : String
  pub webhook_cert_name : String
  pub webhook_cert_key : String
  pub metrics_cert_path : String
  pub metrics_cert_name : String
  pub metrics_cert_key : String
  pub enable_http2 : Bool

-- The flags of a command line without any.
abbrev pub default_flags : Flags
default_flags = record {
  metrics_addr = "0";
  probe_addr = ":8081";
  enable_leader_election = false;
  secure_metrics = true;
  webhook_cert_path = "";
  webhook_cert_name = "tls.crt";
  webhook_cert_key = "tls.key";
  metrics_cert_path = "";
  metrics_cert_name = "tls.crt";
  metrics_cert_key = "tls.key";
  enable_http2 = false;
}

-- A certificate watcher: the files of the certificate and of its key.
pub record CertWatcher : Type 0 where
  pub cert : String
  pub key : String

-- What the program sets of a *tls.Config.
pub record TlsConfig : Type 0 where
  pub next_protos : List String
  pub get_certificate : Option CertWatcher

-- A function on a *tls.Config: disableHTTP2, or the one that sets GetCertificate.
pub data TlsOption : Type 0 where
  disable_http2 : TlsOption
  watches_certificate : CertWatcher → TlsOption

unfoldable pub apply_option : TlsOption → TlsConfig → TlsConfig
apply_option disable_http2 c = record c { next_protos = "http/1.1" ∷ [] }
apply_option (watches_certificate watcher) c = record c { get_certificate = some watcher }

-- The servers apply the options in their order.
unfoldable pub apply_options : List TlsOption → TlsConfig → TlsConfig
apply_options [] c = c
apply_options (option ∷ options) c = apply_options options (apply_option option c)

unfoldable pub tls_options : Flags → List TlsOption
tls_options flags = if not flags.enable_http2 then disable_http2 ∷ [] else []

abbrev watched : Option CertWatcher → List TlsOption
watched none = []
watched (some watcher) = watches_certificate watcher ∷ []

-- The options of one server: those of the flags, and its certificate. The slice of the flags has no
-- room left, so that the appends of the two servers do not share it.
unfoldable pub server_options : Flags → Option CertWatcher → List TlsOption
server_options flags watcher = tls_options flags ++ watched watcher

-- metricsserver.Options. `is_filtered` is a FilterProvider that is set.
pub record MetricsOptions : Type 0 where
  pub bind_address : String
  pub secure_serving : Bool
  pub tls_options : List TlsOption
  pub is_filtered : Bool

-- ctrl.Options, with the namespaces of the cache by kind.
pub record ManagerOptions : Type 0 where
  pub metrics : MetricsOptions
  pub webhook_tls_options : List TlsOption
  pub health_probe_bind_address : String
  pub leader_election : Bool
  pub leader_election_id : String
  pub cache : Dict (List String)

unfoldable pub manager_options :
    Flags → Option CertWatcher → Option CertWatcher → String → ManagerOptions
manager_options flags webhook metrics namespace = record {
  metrics = record {
    bind_address = flags.metrics_addr;
    secure_serving = flags.secure_metrics;
    tls_options = server_options flags metrics;
    is_filtered = flags.secure_metrics;
  };
  webhook_tls_options = server_options flags webhook;
  health_probe_bind_address = flags.probe_addr;
  leader_election = flags.enable_leader_election;
  leader_election_id = "89c2406a.openshift.io";
  cache = ("BareMetalPool", namespace ∷ []) ∷ ("BareMetalInstance", namespace ∷ []) ∷ [];
}
