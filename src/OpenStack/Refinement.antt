-- ===== src/OpenStack/Refinement.antt =====
-- The OpenStack inventory, as an implementation of the contract of the inventories: one attempt of
-- an assignment and of an unassignment.
use bare_metal_operator.Prelude.{
  String, true, false, not, Option, none, some, [], ◌∷◌, ◌≡◌, refl, ◌∙◌, sym, ap, arith, ◌==◌,
  eq_iff, inl, inr, Bool-cases, Option-cases,
}
use bare_metal_operator.Prelude.Dict.{Dict, lookup}
use bare_metal_operator.Shared.{Res, ok, Res-cases}
use bare_metal_operator.Effect.{◌>>=◌}
use bare_metal_operator.Inventory.{Host}
use bare_metal_operator.Inventory.Contract.{Same, is_open, Assigns, given, taken, failed, written}
use bare_metal_operator.Inventory.Attempts.{Assigns-before}
use bare_metal_operator.OpenStack.{Extra, missing, labels, unreadable, Node, Session, add_map}
use bare_metal_operator.OpenStack.Reconnect.{request}
use bare_metal_operator.OpenStack.Inventory.{
  OpenStackClient, bare_metal_instance_id_label, get_nested_label, is_taken, assignment, has_labels,
  write_labels, ensure_labels, claim, assign_once,
}
use bare_metal_operator.OpenStack.Patch.{patch, lookup-assignment}
use bare_metal_operator.OpenStack.Owners.{
  nonempty, label_owner, owner_of, owners, owners-Unchanged, IsIronic, owners-IsPatched,
  owners-kept,
}

module _ {C W : Type 0} (m : OpenStackClient C W) (held : String → W → Res Node)
    (lawful : IsIronic m.ironic held) where
  abbrev pub Assigned : String → String → Session C W → Res (Option Host) × Session C W → Type 0
  Assigned host_id instance_id s result =
      Assigns host_id instance_id (owners held s.world) (owners held result.1.world) result.0

  is_open-is_taken :
      (instance_id : String) (current : Option String)
      → is_open instance_id (nonempty current) ≡ not (is_taken m instance_id current)
  is_open-is_taken instance_id none = refl
  is_open-is_taken instance_id (some s) =
      ground (arith, eq_iff s "", eq_iff s instance_id, eq_iff instance_id "")

  -- The owner that a written assignment leaves.
  label_owner-assignment :
      (instance_id : String) (added : Dict String) (before behind : Extra)
      → (instance_id == "") ≡ false
      → lookup bare_metal_instance_id_label added ≡ none
      → patch (assignment instance_id added) before ≡ some behind
      → label_owner behind ≡ some instance_id
  label_owner-assignment instance_id added before behind named fresh done =
      rw (lookup-assignment instance_id added before behind fresh done, named) refl

  write_labels-Assigns :
      (host_id instance_id : String) (added : Dict String) (s : Session C W)
      → (instance_id == "") ≡ false
      → lookup bare_metal_instance_id_label added ≡ none
      → is_open instance_id (owners held s.world host_id) ≡ true
      → Assigned host_id instance_id s (write_labels m host_id instance_id added s)
  unfolding write_labels request ◌>>=◌
  write_labels-Assigns host_id instance_id added s named fresh vacant =
      let ops = assignment instance_id added in
      let answer = m.ironic.update s.client host_id ops s.world in
      elim (lawful.updates s.client host_id ops s.world) [
        | inl (e, refused, same) ↦ rw refused (failed _ (owners-Unchanged held _ _ same))
        | inr write ↦
            let put = owners-IsPatched held host_id ops s.world answer.1 (some instance_id) write (
              label_owner-assignment instance_id added write.before.osac_labels
                write.behind.osac_labels named fresh write.patched) in
            elim (Res-cases answer.0) [
              | inl (node, accepted) ↦ rw accepted (given _ vacant put)
              | inr (e, refused) ↦ rw refused (written _ vacant put)
            ]
      ]

  label_owner-add_map :
      (before behind : Extra)
      → patch (add_map "/extra/osac_labels" ∷ []) before ≡ some behind
      → label_owner behind ≡ none
  unfolding patch lookup
  label_owner-add_map before behind done =
      let same : labels [] ≡ behind = ground (arith, done) in ap label_owner (sym same)

  label_owner-has_labels : (e : Extra) → has_labels e ≡ false → label_owner e ≡ none
  unfolding lookup
  label_owner-has_labels missing bare = refl
  label_owner-has_labels (labels d) bare = absurd (ground (arith, bare))
  label_owner-has_labels (unreadable x) bare = refl

  ensure_labels-Same :
      (host_id : String) (node : Node) (s : Session C W)
      → held host_id s.world ≡ ok node
      → Same (owners held s.world) (owners held (ensure_labels m host_id node s).1.world)
  unfolding ensure_labels request ◌>>=◌
  ensure_labels-Same host_id node s found = elim (Bool-cases (has_labels node.osac_labels)) [
    | inl there ↦ rw there (λ j. refl)
    | inr bare ↦
        let ops = add_map "/extra/osac_labels" ∷ [] in
        elim (lawful.updates s.client host_id ops s.world) [
          | inl (e, refused, same) ↦ rw bare (owners-Unchanged held _ _ same)
          | inr write ↦
              let empty =
                label_owner-add_map write.before.osac_labels write.behind.osac_labels
                  write.patched in
              let same_node = ap owner_of (sym write.found ∙ found) in
              rw bare (
                owners-kept held host_id ops _ _ write
                  (empty ∙ sym (same_node ∙ label_owner-has_labels node.osac_labels bare)))
        ]
  ]

  owners-found :
      (host_id : String) (node : Node) (s : Session C W)
      → held host_id s.world ≡ ok node
      → (instance_id : String)
      → is_open instance_id (owners held s.world host_id)
        ≡ not (is_taken m instance_id (get_nested_label node bare_metal_instance_id_label))
  unfolding get_nested_label
  owners-found host_id node s found instance_id =
      ap (λ x. is_open instance_id (owner_of x)) found
      ∙ is_open-is_taken instance_id (get_nested_label node bare_metal_instance_id_label)

  claim-Assigns :
      (host_id instance_id : String) (added : Dict String) (node : Node) (s : Session C W)
      → (instance_id == "") ≡ false
      → lookup bare_metal_instance_id_label added ≡ none
      → held host_id s.world ≡ ok node
      → Assigned host_id instance_id s (claim m host_id instance_id added node s)
  unfolding claim ◌>>=◌
  claim-Assigns host_id instance_id added node s named fresh found =
      let current = get_nested_label node bare_metal_instance_id_label in
      let ensured = ensure_labels m host_id node s in
      let before = owners-found host_id node s found instance_id in
      let same = ensure_labels-Same host_id node s found in
      elim (Bool-cases (is_taken m instance_id current)) [
        | inl closed ↦ rw closed (taken (before ∙ rw closed refl) (λ j. refl))
        | inr vacant ↦ elim (Option-cases ensured.0) [
          | inl ready ↦
              rw (vacant, ready)
                (Assigns-before host_id instance_id _ _ _ _ same (
                  write_labels-Assigns host_id instance_id added ensured.1 named fresh
                    (ap (is_open instance_id) (same host_id) ∙ (before ∙ rw vacant refl))))
          | inr (e, refused) ↦ rw (vacant, refused) (failed _ same)
        ]
      ]

  -- One attempt of an assignment.
  pub assign_once-Assigns :
      (host_id instance_id : String) (added : Dict String) (s : Session C W)
      → lookup bare_metal_instance_id_label added ≡ none
      → Assigned host_id instance_id s (assign_once m host_id instance_id added s)
  unfolding assign_once request ◌>>=◌
  assign_once-Assigns host_id instance_id added s fresh = elim (Bool-cases (host_id == "")) [
    | inl empty ↦ rw empty (failed _ (λ j. refl))
    | inr full ↦ elim (Bool-cases (instance_id == "")) [
      | inl unnamed ↦ rw (full, unnamed) (failed _ (λ j. refl))
      | inr named ↦
          let (answer, same) = lawful.reads s.client host_id s.world in
          elim answer [
            | inl (e, lost) ↦ rw (full, named, lost) (failed _ (owners-Unchanged held _ _ same))
            | inr (node, got, found) ↦
                rw (full, named, got)
                  (Assigns-before host_id instance_id _ _ _ _ (owners-Unchanged held _ _ same) (
                    claim-Assigns host_id instance_id added node
                      (record s { world = (m.ironic.get s.client host_id s.world).1 }) named fresh
                      (same host_id ∙ found)))
          ]
    ]
  ]
