-- ===== src/Metal3/Claims.antt =====
-- AssignHost and UnassignHost of the Metal3 inventory, on a server that keeps what it is sent.
use bare_metal_operator.Prelude.{
  ◌<>◌, inl, inr, Bool-cases, String, Bool, true, false, none, some, List, [], ◌∷◌, if◌then◌else◌,
  ◌≡◌, refl, ◌∙◌, arith, ◌==◌,
}
use bare_metal_operator.Prelude.Dict.{Dict, lookup, erase, lookup-erase}
use bare_metal_operator.Shared.{Error, Res, ok, err, wrap, Res-cases}
use bare_metal_operator.Effect.{◌>>=◌}
use bare_metal_operator.Inventory.{Host}
use bare_metal_operator.Metal3.{BareMetalHost, IsServer}
use bare_metal_operator.Metal3.HostId.{parse_host_id}
use bare_metal_operator.Metal3.Inventory.{
  Metal3Client, claimed_by, freed, drop_labels, is_taken, bmh_to_host, claim, assign_host, release,
  unassign_host,
}

module _ {W : Type 0} (m : Metal3Client W) (held : String → String → W → Res BareMetalHost)
    (lawful : IsServer m.server held) where
  -- The host id names a host that the server holds.
  pub record Names (host_id : String) (b : BareMetalHost) (w : W) : Type 0 where
    pub nonempty : (host_id == "") ≡ false
    pub parsed : parse_host_id host_id ≡ ok (b.namespace, b.name)
    pub found : held b.namespace b.name w ≡ ok b

  assign_host-claim :
      (host_id instance_id : String) (labels : Dict String) (b : BareMetalHost) (w : W)
      → Names host_id b w
      → (instance_id == "") ≡ false
      → assign_host m host_id instance_id labels w ≡ claim m host_id instance_id labels b w
  unfolding assign_host ◌>>=◌
  assign_host-claim host_id instance_id labels b w names named =
      rw (names.nonempty, named, names.parsed, lawful.reads b.namespace b.name w, names.found) refl

  -- An AssignHost of a host that another instance holds is answered with no host, without an error,
  -- and changes nothing.
  assign_host_taken :
      (host_id instance_id : String) (labels : Dict String) (b : BareMetalHost) (w : W)
      → Names host_id b w
      → (instance_id == "") ≡ false
      → is_taken instance_id b.consumer_ref ≡ true
      → assign_host m host_id instance_id labels w ≡ (ok none, w)
  unfolding claim ◌>>=◌
  assign_host_taken host_id instance_id labels b w names named taken =
      assign_host-claim host_id instance_id labels b w names named ∙ rw taken refl

  claim_refused :
      (host_id instance_id : String) (labels : Dict String) (b : BareMetalHost) (w : W) (e : Error)
      → is_taken instance_id b.consumer_ref ≡ false
      → (m.server.update (claimed_by instance_id labels b) w).0 ≡ err e
      → (claim m host_id instance_id labels b w).0
        ≡ err (wrap ("failed to assign BareMetalHost " <> host_id) e)
  unfolding claim ◌>>=◌
  claim_refused host_id instance_id labels b w e free refused = rw (free, refused) refl

  claim_stored :
      (host_id instance_id : String) (labels : Dict String) (b stored : BareMetalHost) (w : W)
      → is_taken instance_id b.consumer_ref ≡ false
      → (m.server.update (claimed_by instance_id labels b) w).0 ≡ ok stored
      → claim m host_id instance_id labels b w ≡ (
        ok (some (bmh_to_host stored m.host_class m.network_class)),
        (m.server.update (claimed_by instance_id labels b) w).1,
      )
  unfolding claim ◌>>=◌
  claim_stored host_id instance_id labels b stored w free written = rw (free, written) refl

  claim_taken :
      (host_id instance_id : String) (labels : Dict String) (b : BareMetalHost) (w : W)
      → is_taken instance_id b.consumer_ref ≡ true
      → (claim m host_id instance_id labels b w).0 ≡ ok none
  unfolding claim ◌>>=◌
  claim_taken host_id instance_id labels b w taken = rw taken refl

  -- A claim that returns a host leaves it with the instance.
  claim-held :
      (host_id instance_id : String) (labels : Dict String) (b : BareMetalHost) (w : W)
      (host : Host)
      → (claim m host_id instance_id labels b w).0 ≡ ok (some host)
      → held b.namespace b.name (claim m host_id instance_id labels b w).1
        ≡ ok (claimed_by instance_id labels b)
  claim-held host_id instance_id labels b w host h =
      elim (Bool-cases (is_taken instance_id b.consumer_ref)) [
        | inl taken ↦ absurd (ground (arith, claim_taken host_id instance_id labels b w taken, h))
        | inr free ↦ elim (Res-cases (m.server.update (claimed_by instance_id labels b) w).0) [
          | inl (stored, written) ↦
              rw (claim_stored host_id instance_id labels b stored w free written)
                (lawful.writes (claimed_by instance_id labels b) stored w written).1
          | inr (e, refused) ↦
              absurd
                (ground (arith, claim_refused host_id instance_id labels b w e free refused, h))
        ]
      ]

  -- Of a Metal3 server that behaves as documented: a host that an instance was given by AssignHost
  -- stays its own: an AssignHost for any other instance that comes next is answered with no host,
  -- without an error, and changes nothing.
  pub assign_host_exclusive :
      (host_id first second : String) (labels more : Dict String) (b : BareMetalHost) (w : W)
      (host : Host)
      → Names host_id b w
      → (first == "") ≡ false
      → (second == "") ≡ false
      → (first == second) ≡ false
      → (assign_host m host_id first labels w).0 ≡ ok (some host)
      → assign_host m host_id second more (assign_host m host_id first labels w).1
        ≡ (ok none, (assign_host m host_id first labels w).1)
  assign_host_exclusive host_id first second labels more b w host names named other differ given =
      let assigned = assign_host-claim host_id first labels b w names named in
      rw assigned (
        assign_host_taken host_id second more (claimed_by first labels b)
          (claim m host_id first labels b w).1
          (record {
            nonempty = names.nonempty;
            parsed = names.parsed;
            found = claim-held host_id first labels b w host (rw assigned at given);
          })
          other (ground (arith, differ)))

  unassign_host-release :
      (host_id : String) (labels : List String) (b : BareMetalHost) (w : W)
      → Names host_id b w
      → unassign_host m host_id labels w ≡ release m host_id labels b w
  unfolding unassign_host ◌>>=◌
  unassign_host-release host_id labels b w names =
      rw (names.parsed, lawful.reads b.namespace b.name w, names.found) refl

  release-held :
      (host_id : String) (labels : List String) (b : BareMetalHost) (w : W)
      → (release m host_id labels b w).0 ≡ none
      → held b.namespace b.name (release m host_id labels b w).1 ≡ ok (freed labels b)
  unfolding release ◌>>=◌
  release-held host_id labels b w h = elim (Res-cases (m.server.update (freed labels b) w).0) [
    | inl (stored, written) ↦ rw written (lawful.writes (freed labels b) stored w written).1
    | inr (e, refused) ↦ absurd (ground (arith, rw refused at h))
  ]

  -- Is it one of the given keys, under the prefix of the operator's labels?
  abbrev pub is_removed : String → List String → Bool
  is_removed j [] = false
  is_removed j (key ∷ removed) =
      let rest = is_removed j removed in if "osac.openshift.io/" <> key == j then true else rest

  lookup-drop_labels :
      (j : String) (labels : Dict String) (removed : List String)
      → lookup j (drop_labels labels removed)
        ≡ (if is_removed j removed then none else lookup j labels)
  unfolding drop_labels
  lookup-drop_labels j labels [] = refl
  lookup-drop_labels j labels (key ∷ removed) = ground (
    arith,
    lookup-drop_labels j (erase ("osac.openshift.io/" <> key) labels) removed,
    lookup-erase ("osac.openshift.io/" <> key) j labels,
  )

  -- A host without a consumer and without the labels under the given keys, and otherwise as it was.
  pub record IsFreed (removed : List String) (b c : BareMetalHost) : Type 0 where
    pub consumer : c.consumer_ref ≡ none
    pub labels :
        (j : String)
        → lookup j c.labels ≡ (if is_removed j removed then none else lookup j b.labels)
    pub others : record c { labels = b.labels; consumer_ref = b.consumer_ref } ≡ b

  -- Of a Metal3 server that behaves as documented: an UnassignHost that returns no error leaves
  -- the host without a consumer, without the labels of the keys that it was given under the
  -- operator's prefix, with every other label as it was, and otherwise as it was.
  pub unassign_host_frees :
      (host_id : String) (removed : List String) (b : BareMetalHost) (w : W)
      → Names host_id b w
      → (unassign_host m host_id removed w).0 ≡ none
      → (c : BareMetalHost) × (held b.namespace b.name (unassign_host m host_id removed w).1 ≡ ok c)
        × IsFreed removed b c
  unassign_host_frees host_id removed b w names h =
      let released = unassign_host-release host_id removed b w names in
      (
        freed removed b,
        rw released (release-held host_id removed b w (rw released at h)),
        record {
          consumer = refl;
          labels = λ j. lookup-drop_labels j b.labels removed;
          others = refl;
        },
      )
