-- ===== src/Metal3/Free.antt =====
-- FindFreeHost of the Metal3 inventory: which host it chooses.
use mathlib.Core.List.{Memᴰ}
use mathlib.Core.List.Memᴰ.{head, tail, not-nil}
use bare_metal_operator.Prelude.{
  String, true, none, some, List, [], ◌∷◌, ◌≡◌, refl, sym, subst, eq_iff, arith, inl, inr,
  Bool-cases,
}
use bare_metal_operator.Prelude.Dict.{Dict, index}
use bare_metal_operator.Shared.{ok}
use bare_metal_operator.Effect.{◌>>=◌}
use bare_metal_operator.Inventory.{Host}
use bare_metal_operator.Metal3.{BareMetalHost}
use bare_metal_operator.Metal3.Inventory.{
  Metal3Client, bmh_to_host, match_labels, or_managed, first_host, metal3_managed_by_label,
  is_candidate, candidates, choose, find_free_host,
}

module _ {W : Type 0} (m : Metal3Client W) where
  -- A host that may be given away to who asks for a manager.
  pub record IsFree (managed_by : String) (b : BareMetalHost) : Type 0 where
    pub healthy : b.operational_status ≡ m.server.operational_status_ok
    pub available : b.provisioning_state ≡ m.server.state_available
    pub unclaimed : b.consumer_ref ≡ none
    pub managed : or_managed (index b.labels metal3_managed_by_label) ≡ managed_by

  is_candidate-IsFree :
      (managed_by : String) (b : BareMetalHost)
      → is_candidate m managed_by b ≡ true
      → IsFree managed_by b
  unfolding is_candidate
  is_candidate-IsFree managed_by b h = record {
    healthy = ground (arith, h, eq_iff b.operational_status m.server.operational_status_ok);
    available = ground (arith, h, eq_iff b.provisioning_state m.server.state_available);
    unclaimed = ground (arith, h);
    managed =
        ground (arith, h, eq_iff (or_managed (index b.labels metal3_managed_by_label)) managed_by);
  }

  cons-IsFree :
      (managed_by : String) (c : BareMetalHost) (xs items : List BareMetalHost) (b : BareMetalHost)
      → IsFree managed_by c
      → (Memᴰ b xs → Memᴰ b items × IsFree managed_by b)
      → Memᴰ b (c ∷ xs)
      → Memᴰ b (c ∷ items) × IsFree managed_by b
  cons-IsFree managed_by c xs items b free rest (head same) =
      (head same, subst (IsFree managed_by) (sym same) free)
  cons-IsFree managed_by c xs items b free rest (tail y) =
      let (among, is_free) = rest y in (tail among, is_free)

  candidates-IsFree :
      (managed_by : String) (items : List BareMetalHost) (b : BareMetalHost)
      → Memᴰ b (candidates m managed_by items)
      → Memᴰ b items × IsFree managed_by b
  unfolding candidates
  candidates-IsFree managed_by [] b x = absurd (not-nil x)
  candidates-IsFree managed_by (c ∷ items) b x = elim (Bool-cases (is_candidate m managed_by c)) [
    | inl fits ↦
        cons-IsFree managed_by c (candidates m managed_by items) items b
          (is_candidate-IsFree managed_by c fits) (candidates-IsFree managed_by items b)
          (rw fits at x)
    | inr unfit ↦
        let (among, is_free) = candidates-IsFree managed_by items b (rw unfit at x) in
        (tail among, is_free)
  ]

  picked :
      (items : List BareMetalHost) (host : Host)
      → first_host m items ≡ some host
      → (b : BareMetalHost) × Memᴰ b items × (host ≡ bmh_to_host b m.host_class m.network_class)
  picked [] host h = absurd (ground arith)
  picked (b ∷ items) host h = (b, head refl, ground (arith, h))

  choose-picked :
      (items : List BareMetalHost) (w : W) (host : Host)
      → (choose m items w).0 ≡ ok (some host)
      → first_host m (m.server.shuffle items w).0 ≡ some host
  unfolding choose ◌>>=◌
  choose-picked [] w host h = absurd (ground (arith, h))
  choose-picked (b ∷ items) w host h = ground (arith, h)

  -- Where the shuffle keeps to the elements that it is given, the host that FindFreeHost returns
  -- is one of the listed ones: it is healthy, available, without a consumer, and under the manager
  -- that was asked for, or the default one.
  pub find_free_host-IsFree :
      (match_expressions : Dict String) (w : W) (items : List BareMetalHost) (host : Host)
      → ((xs : List BareMetalHost) (v : W) (b : BareMetalHost)
          → Memᴰ b (m.server.shuffle xs v).0
          → Memᴰ b xs)
      → (m.server.list m.namespace (match_labels match_expressions) w).0 ≡ ok items
      → (find_free_host m match_expressions w).0 ≡ ok (some host)
      → (b : BareMetalHost) × Memᴰ b items
        × IsFree (or_managed (index match_expressions "managedBy")) b
        × (host ≡ bmh_to_host b m.host_class m.network_class)
  unfolding find_free_host ◌>>=◌
  find_free_host-IsFree match_expressions w items host shuffles listed h =
      let managed_by = or_managed (index match_expressions "managedBy") in
      let free = candidates m managed_by items in
      let v = (m.server.list m.namespace (match_labels match_expressions) w).1 in
      let (b, among, same) =
        picked (m.server.shuffle free v).0 host (choose-picked free v host (rw listed at h)) in
      let (in_list, is_free) = candidates-IsFree managed_by items b (shuffles free v b among) in
      (b, in_list, is_free, same)
