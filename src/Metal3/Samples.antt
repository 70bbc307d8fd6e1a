-- ===== src/Metal3/Samples.antt =====
-- A Metal3 server that holds one host, and the inventory on it.
use bare_metal_operator.Prelude.{
  inl, inr, Bool-cases, eq_refl, String, true, false, Option, none, some, [], ◌∷◌, ◌≡◌, refl, arith,
  eq_iff, if◌then◌else◌,
}
use bare_metal_operator.Prelude.Dict.{insert}
use bare_metal_operator.Shared.{Error, api, not_found, Res, ok, err}
use bare_metal_operator.Metal3.{BareMetalHost, Server, IsServer, is_host}
use bare_metal_operator.Metal3.Inventory
use bare_metal_operator.Metal3.Inventory.{
  bmh_to_host, claim, assign_host, unassign_host, release, freed, claimed_by, find_free_host,
  candidates, is_candidate, choose,
}
use bare_metal_operator.Metal3.Ownership.{Unchanged, Stores, IsExact}
use bare_metal_operator.Prelude.{◌⊎◌}

abbrev pub host : BareMetalHost
host = record {
  namespace = "metal";
  name = "node-1";
  labels = [];
  annotations = [];
  consumer_ref = none;
  online = false;
  powered_on = false;
  operational_status = "OK";
  provisioning_state = "available";
}

abbrev pub held : String → String → BareMetalHost → Res BareMetalHost
held namespace name w = if is_host namespace name w then ok w else err (api not_found)

abbrev stored : BareMetalHost → BareMetalHost → Res BareMetalHost × BareMetalHost
stored b w = if is_host b.namespace b.name w then (ok b, b) else (err (api not_found), w)

abbrev patched : BareMetalHost → BareMetalHost → Option Error × BareMetalHost
patched b w = if is_host b.namespace b.name w then (none, b) else (some (api not_found), w)

abbrev pub server : Server BareMetalHost
server = record {
  list = λ namespace labels w. (ok (w ∷ []), w);
  get = λ namespace name w. (held namespace name w, w);
  update = stored;
  patch_online = λ b on w. patched (record b { online = on }) w;
  patch_annotation =
      λ b key value w. patched (record b { annotations = insert key value b.annotations }) w;
  shuffle = λ items w. (items, w);
  operational_status_ok = "OK";
  state_available = "available";
  reboot_annotation = "reboot.metal3.io";
}

stored-writes :
    (b s w : BareMetalHost)
    → (stored b w).0 ≡ ok s
    → (s ≡ b) × (held b.namespace b.name (stored b w).1 ≡ ok b)
stored-writes b s w h = elim (Bool-cases (is_host b.namespace b.name w)) [
  | inl here ↦
      (ground (arith, rw here at h), rw here (ground (arith, eq_refl b.namespace, eq_refl b.name)))
  | inr away ↦ absurd (ground (arith, rw away at h))
]

patched-holds :
    (b w : BareMetalHost) → (patched b w).0 ≡ none → held b.namespace b.name (patched b w).1 ≡ ok b
patched-holds b w h = elim (Bool-cases (is_host b.namespace b.name w)) [
  | inl here ↦ rw here (ground (arith, eq_refl b.namespace, eq_refl b.name))
  | inr away ↦ absurd (ground (arith, rw away at h))
]

pub server-IsServer : IsServer server held
server-IsServer = record {
  reads = λ namespace name w. refl;
  keyed =
      λ namespace name w b h. ground (arith, h, eq_iff w.namespace namespace, eq_iff w.name name);
  writes = stored-writes;
  sets_online = λ b on w found h. patched-holds (record b { online = on }) w h;
  annotates = λ b key value w found h.
      patched-holds (record b { annotations = insert key value b.annotations }) w h;
}

abbrev pub inventory : Inventory.Metal3Client BareMetalHost
inventory = record {
  server = server;
  namespace = "metal";
  host_class = "metal3";
  network_class = "flat";
}

stored-Stores :
    (b w : BareMetalHost) → is_host b.namespace b.name w ≡ true → Stores held b w (stored b w).1
stored-Stores b w here namespace name = rw here (
    ground (
      arith,
      here,
      eq_iff w.namespace b.namespace,
      eq_iff w.name b.name,
      eq_iff b.namespace namespace,
      eq_iff b.name name,
      eq_iff w.namespace namespace,
      eq_iff w.name name,
    ))

stored-updates :
    (b w : BareMetalHost)
    → ((e : Error) × ((stored b w).0 ≡ err e) × Unchanged held w (stored b w).1)
      ⊎ Stores held b w (stored b w).1
stored-updates b w = elim (Bool-cases (is_host b.namespace b.name w)) [
  | inl here ↦ inr (stored-Stores b w here)
  | inr away ↦ inl (api not_found, rw away refl, rw away (λ namespace name. refl))
]

pub server-IsExact : IsExact server held
server-IsExact = record {
  lists = λ namespace labels w ns name. refl;
  shuffles = λ items w ns name. refl;
  updates = stored-updates;
}
