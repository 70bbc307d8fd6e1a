-- ===== src/Metal3/Refinement.antt =====
-- The Metal3 inventory, as an implementation of the contract of the inventories.
use bare_metal_operator.Prelude.{
  true, String, Option, List, [], ◌∷◌, ◌≡◌, refl, ◌∙◌, ◌⊎◌, ◌==◌, inl, inr, Bool-cases,
}
use bare_metal_operator.Prelude.Dict.{Dict, index}
use bare_metal_operator.Shared.{Error, Res, ok, err, Res-cases}
use bare_metal_operator.Effect.{◌>>=◌}
use bare_metal_operator.Inventory.{Host}
use bare_metal_operator.Inventory.Contract.{
  Same, Assigns, given, taken, failed, written, Unassigns, freed, kept, cleared, IsInventory,
}
use bare_metal_operator.Metal3.{BareMetalHost, IsServer}
use bare_metal_operator.Metal3.HostId.{parse_host_id}
use bare_metal_operator.Metal3.Inventory
use bare_metal_operator.Metal3.Inventory.{
  Metal3Client, match_labels, or_managed, claimed_by, is_taken, bmh_to_host, choose, candidates,
  find_free_host, claim, assign_host, release, unassign_host, inventory_client,
}
use bare_metal_operator.Metal3.Ownership.{
  owners, Unchanged, IsExact, is_open-is_taken, owners-Unchanged, owners-Stores,
}

module _ {W : Type 0} (m : Metal3Client W) (held : String → String → W → Res BareMetalHost)
    (lawful : IsServer m.server held) (exact : IsExact m.server held) where
  abbrev Assigned : String → String → W → Res (Option Host) × W → Type 0
  Assigned host_id instance_id w result =
      Assigns host_id instance_id (owners held w) (owners held result.1) result.0

  claim-Assigns :
      (host_id instance_id : String) (labels : Dict String) (b : BareMetalHost) (w : W)
      → parse_host_id host_id ≡ ok (b.namespace, b.name)
      → held b.namespace b.name w ≡ ok b
      → Assigned host_id instance_id w (claim m host_id instance_id labels b w)
  unfolding claim ◌>>=◌
  claim-Assigns host_id instance_id labels b w named found =
      elim (Bool-cases (is_taken instance_id b.consumer_ref)) [
        | inl closed ↦ rw closed (
            taken (rw (named, found, is_open-is_taken instance_id b.consumer_ref) (rw closed refl))
              (λ j. refl))
        | inr vacant ↦ elim (exact.updates (claimed_by instance_id labels b) w) [
          | inl (e, refused, same) ↦
              rw (vacant, refused) (failed _ (owners-Unchanged held _ _ same))
          | inr stores ↦ elim (Res-cases (m.server.update (claimed_by instance_id labels b) w).0) [
            | inl (stored, accepted) ↦
                rw (vacant, accepted)
                  (given _
                    (rw (named, found, is_open-is_taken instance_id b.consumer_ref)
                      (rw vacant refl))
                    (owners-Stores held host_id (claimed_by instance_id labels b) _ _ named stores))
            | inr (e, refused) ↦
                rw (vacant, refused)
                  (written _
                    (rw (named, found, is_open-is_taken instance_id b.consumer_ref)
                      (rw vacant refl))
                    (owners-Stores held host_id (claimed_by instance_id labels b) _ _ named stores))
          ]
        ]
      ]

  -- What the server holds under the two parts of a host id.
  held-cases :
      (host_id : String) (w : W)
      → ((e : Error) × (parse_host_id host_id ≡ err e))
        ⊎ ((parts : String × String) × (parse_host_id host_id ≡ ok parts)
            × (((e : Error) × (held parts.0 parts.1 w ≡ err e))
                ⊎ ((b : BareMetalHost) × (held parts.0 parts.1 w ≡ ok b)
                    × (parse_host_id host_id ≡ ok (b.namespace, b.name))
                    × (held b.namespace b.name w ≡ ok b))))
  held-cases host_id w = elim (Res-cases (parse_host_id host_id)) [
    | inr bad ↦ inl bad
    | inl (parts, parsed) ↦ elim (Res-cases (held parts.0 parts.1 w)) [
      | inr absent ↦ inr (parts, parsed, inl absent)
      | inl (b, found) ↦
          let keys = lawful.keyed parts.0 parts.1 w b found in
          inr (
            parts,
            parsed,
            inr (b, found, rw (keys.0, keys.1) parsed, (λ i. held (keys.0 i) (keys.1 i) w) ∙ found),
          )
    ]
  ]

  assign_host-Assigns :
      (host_id instance_id : String) (labels : Dict String) (w : W)
      → Assigned host_id instance_id w (assign_host m host_id instance_id labels w)
  unfolding assign_host ◌>>=◌
  assign_host-Assigns host_id instance_id labels w = elim (Bool-cases (host_id == "")) [
    | inl empty ↦ rw empty (failed _ (λ j. refl))
    | inr nonempty ↦ elim (Bool-cases (instance_id == "")) [
      | inl unnamed ↦ rw (nonempty, unnamed) (failed _ (λ j. refl))
      | inr instance ↦ elim (held-cases host_id w) [
        | inl (e, bad) ↦ rw (nonempty, instance, bad) (failed _ (λ j. refl))
        | inr (parts, parsed, inl (e, absent)) ↦
            rw (nonempty, instance, parsed, lawful.reads parts.0 parts.1 w, absent)
              (failed _ (λ j. refl))
        | inr (parts, parsed, inr (b, found, named, there)) ↦
            rw (nonempty, instance, parsed, lawful.reads parts.0 parts.1 w, found)
              (claim-Assigns host_id instance_id labels b w named there)
      ]
    ]
  ]

  abbrev Unassigned : String → W → Option Error × W → Type 0
  Unassigned host_id w result = Unassigns host_id (owners held w) (owners held result.1) result.0

  release-Unassigns :
      (host_id : String) (labels : List String) (b : BareMetalHost) (w : W)
      → parse_host_id host_id ≡ ok (b.namespace, b.name)
      → Unassigned host_id w (release m host_id labels b w)
  unfolding release ◌>>=◌
  release-Unassigns host_id labels b w named = elim (exact.updates (Inventory.freed labels b) w) [
    | inl (e, refused, same) ↦ rw refused (kept _ (owners-Unchanged held _ _ same))
    | inr stores ↦ elim (Res-cases (m.server.update (Inventory.freed labels b) w).0) [
      | inl (stored, accepted) ↦
          rw accepted
            (freed (owners-Stores held host_id (Inventory.freed labels b) _ _ named stores))
      | inr (e, refused) ↦
          rw refused
            (cleared _ (owners-Stores held host_id (Inventory.freed labels b) _ _ named stores))
    ]
  ]

  unassign_host-Unassigns :
      (host_id : String) (labels : List String) (w : W)
      → Unassigned host_id w (unassign_host m host_id labels w)
  unfolding unassign_host ◌>>=◌
  unassign_host-Unassigns host_id labels w = elim (held-cases host_id w) [
    | inl (e, bad) ↦ rw bad (kept _ (λ j. refl))
    | inr (parts, parsed, inl (e, absent)) ↦
        rw (parsed, lawful.reads parts.0 parts.1 w, absent) (kept _ (λ j. refl))
    | inr (parts, parsed, inr (b, found, named, there)) ↦
        rw (parsed, lawful.reads parts.0 parts.1 w, found)
          (release-Unassigns host_id labels b w named)
  ]

  choose-Unchanged : (items : List BareMetalHost) (w : W) → Unchanged held w (choose m items w).1
  unfolding choose ◌>>=◌
  choose-Unchanged [] w = λ namespace name. refl
  choose-Unchanged (b ∷ items) w = exact.shuffles (b ∷ items) w

  find_free_host-Same :
      (match_expressions : Dict String) (w : W)
      → Same (owners held w) (owners held (find_free_host m match_expressions w).1)
  unfolding find_free_host ◌>>=◌
  find_free_host-Same match_expressions w =
      let listed = m.server.list m.namespace (match_labels match_expressions) w in
      elim (Res-cases listed.0) [
        | inl (items, found) ↦
            let free = candidates m (or_managed (index match_expressions "managedBy")) items in
            rw found (λ j.
              owners-Unchanged held _ _ (choose-Unchanged free listed.1) j
              ∙ owners-Unchanged held _ _
                  (exact.lists m.namespace (match_labels match_expressions) w) j)
        | inr (e, refused) ↦
            rw refused (
              owners-Unchanged held _ _
                (exact.lists m.namespace (match_labels match_expressions) w))
      ]

  -- The Metal3 inventory fulfils the contract of the inventories, for any labels, where the API
  -- server keeps what it is sent and changes one object at most: AssignHost gives a host, or
  -- writes one and then fails, only where no other instance owns it, and answers with no host
  -- exactly where another does; an UnassignHost without an error leaves no owner; FindFreeHost
  -- changes no owner; all other hosts keep theirs. The owner is the name in the consumer
  -- reference.
  pub metal3-IsInventory : IsInventory (inventory_client m) (λ labels. true) (owners held)
  metal3-IsInventory = record {
    finds = find_free_host-Same;
    assigns =
        λ host_id instance_id labels w accepted. assign_host-Assigns host_id instance_id labels w;
    unassigns = unassign_host-Unassigns;
  }
