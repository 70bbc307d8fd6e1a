-- ===== src/OpenStack/Release.antt =====
-- One attempt of an unassignment and of a search in the OpenStack inventory.
use bare_metal_operator.Prelude.{
  String, none, some, List, [], ◌∷◌, ◌≡◌, refl, ◌∙◌, sym, ap, arith, ◌==◌, eq_iff, inl, inr,
  Bool-cases, Option-cases,
}
use bare_metal_operator.Prelude.Dict.{Dict, lookup}
use bare_metal_operator.Shared.{Res, ok, error_of, Res-cases}
use bare_metal_operator.Effect.{◌>>=◌}
use bare_metal_operator.Inventory.Contract.{Same, Unassigns, freed, kept, cleared}
use bare_metal_operator.Inventory.Attempts.{Unassigns-before}
use bare_metal_operator.OpenStack.{
  Extra, missing, labels, unreadable, Node, UpdateOperation, Pages, last, broken, page, Session,
}
use bare_metal_operator.OpenStack.Reconnect.{request}
use bare_metal_operator.OpenStack.Inventory.{
  OpenStackClient, label_map, first_free, each_page, find_once, drop_labels, labels_to_remove,
  removals, unassign_once,
}
use bare_metal_operator.OpenStack.Patch.{patch, patch-nil, lookup-unassignment}
use bare_metal_operator.OpenStack.Owners.{
  label_owner, owner_of, owners, Unchanged, owners-Unchanged, IsCalm, IsIronic, owners-IsPatched,
}

-- A removal of labels that are not there sends nothing.
removals-nil : (keys : List String) → removals [] keys ≡ []
unfolding removals lookup
removals-nil [] = refl
removals-nil (key ∷ keys) = removals-nil keys

no_owner : (e : Extra) (keys : List String) → label_map e ≡ [] → label_owner e ≡ none
unfolding lookup
no_owner missing keys bare = refl
no_owner (labels d) keys bare = rw bare refl
no_owner (unreadable s) keys bare = refl

clears-bare :
    (e behind : Extra) (keys : List String)
    → label_map e ≡ []
    → patch (removals (label_map e) (labels_to_remove keys)) e ≡ some behind
    → label_owner behind ≡ none
clears-bare e behind keys bare done =
    let nothing : patch [] e ≡ some behind =
      rw (bare, removals-nil (labels_to_remove keys)) at done in
    let same : e ≡ behind = ground (arith, patch-nil e, nothing) in
    ap label_owner (sym same) ∙ no_owner e keys bare

-- The patch of an unassignment leaves no owner, also where there is nothing to remove.
label_owner-removals :
    (e behind : Extra) (keys : List String)
    → patch (removals (label_map e) (labels_to_remove keys)) e ≡ some behind
    → label_owner behind ≡ none
label_owner-removals missing behind keys done = clears-bare missing behind keys refl done
label_owner-removals (unreadable s) behind keys done =
    clears-bare (unreadable s) behind keys refl done
label_owner-removals (labels d) behind keys done = rw (lookup-unassignment keys d behind done) refl

module _ {C W : Type 0} (m : OpenStackClient C W) (held : String → W → Res Node)
    (lawful : IsIronic m.ironic held) where
  abbrev Unassigned : String → Session C W → Res (Unit {0}) × Session C W → Type 0
  Unassigned host_id s result =
      Unassigns host_id (owners held s.world) (owners held result.1.world) (error_of result.0)

  drop_labels-Unassigns :
      (host_id : String) (ops : List UpdateOperation) (node : Node) (s : Session C W)
      → held host_id s.world ≡ ok node
      → ((behind : Extra) → patch ops node.osac_labels ≡ some behind → label_owner behind ≡ none)
      → Unassigned host_id s (drop_labels m host_id ops s)
  unfolding drop_labels request ◌>>=◌
  drop_labels-Unassigns host_id [] node s found clears =
      let bare = ap owner_of found ∙ clears node.osac_labels (patch-nil node.osac_labels) in
      freed (λ j. elim (Bool-cases (j == host_id)) [
        | inl here ↦ rw (here, (eq_iff j host_id).0 here) bare
        | inr away ↦ rw away refl
      ])
  drop_labels-Unassigns host_id (op ∷ ops) node s found clears =
      let answer = m.ironic.update s.client host_id (op ∷ ops) s.world in
      elim (lawful.updates s.client host_id (op ∷ ops) s.world) [
        | inl (e, refused, same) ↦ rw refused (kept _ (owners-Unchanged held _ _ same))
        | inr write ↦
            let before : write.before ≡ node = ground (arith, write.found, found) in
            let bare =
              clears write.behind.osac_labels
                (ap (λ n. patch (op ∷ ops) n.osac_labels) (sym before) ∙ write.patched) in
            let put = owners-IsPatched held host_id (op ∷ ops) s.world answer.1 none write bare in
            elim (Res-cases answer.0) [
              | inl (n, accepted) ↦ rw accepted (freed put)
              | inr (e, refused) ↦ rw refused (cleared _ put)
            ]
      ]

  pub unassign_once-Unassigns :
      (host_id : String) (keys : List String) (s : Session C W)
      → Unassigned host_id s (unassign_once m host_id keys s)
  unfolding unassign_once request ◌>>=◌
  unassign_once-Unassigns host_id keys s =
      let (answer, same) = lawful.reads s.client host_id s.world in
      elim answer [
        | inl (e, lost) ↦ rw lost (kept _ (owners-Unchanged held _ _ same))
        | inr (node, got, found) ↦ rw got (
            Unassigns-before host_id _ _ _ _ (owners-Unchanged held _ _ same) (
              drop_labels-Unassigns host_id
                (removals (label_map node.osac_labels) (labels_to_remove keys)) node
                (record s { world = (m.ironic.get s.client host_id s.world).1 })
                (same host_id ∙ found)
                (λ behind. label_owner-removals node.osac_labels behind keys)))
      ]

  each_page-Unchanged :
      (match_expressions : Dict String) (pages : Pages W) (w : W)
      → IsCalm held pages
      → Unchanged held w (each_page m match_expressions pages w).1
  unfolding each_page ◌>>=◌
  each_page-Unchanged match_expressions last w calm = λ id. refl
  each_page-Unchanged match_expressions (broken e) w calm = λ id. refl
  each_page-Unchanged match_expressions (page nodes fetch next) w calm =
      let (shuffled, v) = m.ironic.shuffle nodes w in
      let rest = each_page-Unchanged match_expressions (next v) (fetch v) (calm.1 v) in
      elim (Option-cases (first_free m match_expressions shuffled)) [
        | inl full ↦ rw full (λ id. rest id ∙ (calm.0 v id ∙ lawful.shuffles nodes w id))
        | inr (h, free) ↦ rw free (lawful.shuffles nodes w)
      ]

  pub find_once-Same :
      (match_expressions : Dict String) (s : Session C W)
      → Same (owners held s.world) (owners held (find_once m match_expressions s).1.world)
  unfolding find_once request ◌>>=◌
  find_once-Same match_expressions s = owners-Unchanged held _ _ (λ id.
      each_page-Unchanged match_expressions _ _ (lawful.lists s.client _ _ s.world).0 id
      ∙ (lawful.lists s.client _ _ s.world).1 id)
