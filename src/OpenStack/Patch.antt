-- ===== src/OpenStack/Patch.antt =====
-- What the JSON patches (RFC 6902) that internal/inventory/openstack.go sends make of the labels of
-- a node.
use bare_metal_operator.Prelude.{
  ap, String, true, false, Option, none, some, List, [], ◌∷◌, ◌≡◌, refl, ◌∙◌, sym, arith, ◌==◌, inl,
  inr, Bool-cases, if◌then◌else◌,
}
use bare_metal_operator.Prelude.Dict.{Dict, lookup, insert, erase, lookup-insert, lookup-erase}
use bare_metal_operator.Profile.{is_some}
use bare_metal_operator.OpenStack.{
  Value, text, Extra, missing, labels, unreadable, UpdateOperation, add, add_map, remove,
}
use bare_metal_operator.Metal3.HostId.{has_slash}
use bare_metal_operator.OpenStack.Pointer.{
  escape_json_pointer_token, unescape, escape_json_pointer_token_lem, strip_prefix,
  strip_prefix-append,
}
use bare_metal_operator.OpenStack.Inventory.{
  label_path, label_map, add_labels, assignment, removals, labels_to_remove, unseen,
  bare_metal_instance_id_label,
}

-- The key of the label that the rest of a path names.
abbrev pub key_of : Option String → Option String
key_of none = none
key_of (some token) = if has_slash token then none else some (unescape token)

abbrev pub label_key : String → Option String
label_key path = key_of (strip_prefix "/extra/osac_labels/" path)

abbrev put_label : Option String → Value → Extra → Option Extra
put_label (some key) value (labels m) = some (labels (insert key value m))
put_label _ value e = none

abbrev drop_label : Option String → Extra → Option Extra
drop_label (some key) (labels m) =
    if is_some (lookup key m) then some (labels (erase key m)) else none
drop_label _ e = none

-- One operation; the server refuses it where there is `none`.
abbrev pub apply : UpdateOperation → Extra → Option Extra
apply (add path value) e = put_label (label_key path) value e
apply (add_map path) e = if path == "/extra/osac_labels" then some (labels []) else none
apply (remove path) e = drop_label (label_key path) e

abbrev and_then : Option Extra → (Extra → Option Extra) → Option Extra
and_then none f = none
and_then (some e) f = f e

unfoldable pub patch : List UpdateOperation → Extra → Option Extra
patch [] e = some e
patch (op ∷ ops) e = and_then (apply op e) (patch ops)

label_key-label_path : (key : String) → label_key (label_path key) ≡ some key
label_key-label_path key =
    let token = escape_json_pointer_token key in
    let (readable, flat) = escape_json_pointer_token_lem key in
    rw (strip_prefix-append "/extra/osac_labels/" token, flat, readable) refl

patch-add :
    (key : String) (value : Value) (ops : List UpdateOperation) (m : Dict Value)
    → patch (add (label_path key) value ∷ ops) (labels m) ≡ patch ops (labels (insert key value m))
unfolding patch
patch-add key value ops m = rw (label_key-label_path key) refl

patch-remove :
    (key : String) (ops : List UpdateOperation) (m : Dict Value)
    → is_some (lookup key m) ≡ true
    → patch (remove (label_path key) ∷ ops) (labels m) ≡ patch ops (labels (erase key m))
unfolding patch
patch-remove key ops m there = rw (label_key-label_path key, there) refl

pub patch-nil : (e : Extra) → patch [] e ≡ some e
unfolding patch
patch-nil e = refl

patched : (m : Dict Value) (e : Extra) → patch [] (labels m) ≡ some e → labels m ≡ e
patched m e done = ground (arith, patch-nil (labels m), done)

patch-missing :
    (value : Value) (ops : List UpdateOperation)
    → patch (add (label_path bare_metal_instance_id_label) value ∷ ops) missing ≡ none
unfolding patch
patch-missing value ops = rw (label_key-label_path bare_metal_instance_id_label) refl

patch-unreadable :
    (value : Value) (ops : List UpdateOperation) (s : String)
    → patch (add (label_path bare_metal_instance_id_label) value ∷ ops) (unreadable s) ≡ none
unfolding patch
patch-unreadable value ops s = rw (label_key-label_path bare_metal_instance_id_label) refl

patch-absent :
    (key : String) (ops : List UpdateOperation) (m : Dict Value)
    → is_some (lookup key m) ≡ false
    → patch (remove (label_path key) ∷ ops) (labels m) ≡ none
unfolding patch
patch-absent key ops m absent = rw (label_key-label_path key, absent) refl

-- Labels under other keys leave a label alone.
lookup-add_labels :
    (key : String) (added : Dict String) (m : Dict Value) (e : Extra)
    → lookup key added ≡ none
    → patch (add_labels added) (labels m) ≡ some e
    → lookup key (label_map e) ≡ lookup key m
unfolding add_labels lookup
lookup-add_labels key [] m e fresh done =
    ap (λ x. lookup key (label_map x)) (sym (patched m e done))
lookup-add_labels key ((k, v) ∷ added) m e fresh done =
    let later : lookup key added ≡ none = ground (arith, fresh) in
    let away : (k == key) ≡ false = ground (arith, fresh) in
    lookup-add_labels key added (insert k (text v) m) e later
      (sym (patch-add k (text v) (add_labels added) m) ∙ done)
    ∙ (lookup-insert k key (text v) m ∙ rw away refl)

-- Once an assignment is written, the label of the instance holds its uid.
pub lookup-assignment :
    (instance_id : String) (added : Dict String) (before behind : Extra)
    → lookup bare_metal_instance_id_label added ≡ none
    → patch (assignment instance_id added) before ≡ some behind
    → lookup bare_metal_instance_id_label (label_map behind) ≡ some (text instance_id)
unfolding assignment
lookup-assignment instance_id added missing behind fresh done =
    absurd (ground (arith, sym (patch-missing (text instance_id) (add_labels added)) ∙ done))
lookup-assignment instance_id added (unreadable s) behind fresh done =
    absurd (ground (arith, sym (patch-unreadable (text instance_id) (add_labels added) s) ∙ done))
lookup-assignment instance_id added (labels m) behind fresh done =
    let id = bare_metal_instance_id_label in
    lookup-add_labels id added (insert id (text instance_id) m) behind fresh
      (sym (patch-add id (text instance_id) (add_labels added) m) ∙ done)
    ∙ lookup-insert id id (text instance_id) m

removals-cons :
    (existing : Dict Value) (k : String) (keys : List String)
    → removals existing (k ∷ keys) ≡ (
        if is_some (lookup k existing)
        then remove (label_path k) ∷ removals existing keys
        else removals existing keys)
unfolding removals
removals-cons existing k keys = refl

-- A removal that is accepted, and the rest of the patch.
removed :
    (k : String) (ops : List UpdateOperation) (m : Dict Value) (e : Extra)
    → patch (remove (label_path k) ∷ ops) (labels m) ≡ some e
    → patch ops (labels (erase k m)) ≡ some e
removed k ops m e done = elim (Bool-cases (is_some (lookup k m))) [
  | inl there ↦ sym (patch-remove k ops m there) ∙ done
  | inr absent ↦ absurd (ground (arith, sym (patch-absent k ops m absent) ∙ done))
]

-- A label that is not there stays away through removals.
lookup-removals :
    (key : String) (existing : Dict Value) (keys : List String) (m : Dict Value) (e : Extra)
    → lookup key m ≡ none
    → patch (removals existing keys) (labels m) ≡ some e
    → lookup key (label_map e) ≡ none
unfolding removals
lookup-removals key existing [] m e away done =
    ap (λ x. lookup key (label_map x)) (sym (patched m e done)) ∙ away
lookup-removals key existing (k ∷ keys) m e away done =
    let gone : lookup key (erase k m) ≡ none = ground (arith, lookup-erase k key m, away) in
    let ops = removals-cons existing k keys in
    elim (Bool-cases (is_some (lookup k existing))) [
      | inl there ↦
          lookup-removals key existing keys (erase k m) e gone
            (removed k (removals existing keys) m e (rw there at (rw ops at done)))
      | inr absent ↦ lookup-removals key existing keys m e away (rw absent at (rw ops at done))
    ]

-- Once the removals of an unassignment are written, the label of the instance is gone.
pub lookup-unassignment :
    (keys : List String) (m : Dict Value) (behind : Extra)
    → patch (removals m (labels_to_remove keys)) (labels m) ≡ some behind
    → lookup bare_metal_instance_id_label (label_map behind) ≡ none
unfolding labels_to_remove
lookup-unassignment keys m behind done =
    let id = bare_metal_instance_id_label in
    let rest = unseen (id ∷ []) keys in
    let ops = removals-cons m id rest in
    elim (Bool-cases (is_some (lookup id m))) [
      | inl there ↦
          let gone : lookup id (erase id m) ≡ none = lookup-erase id id m in
          lookup-removals id m rest (erase id m) behind gone
            (removed id (removals m rest) m behind (rw there at (rw ops at done)))
      | inr absent ↦
          let gone : lookup id m ≡ none = ground (arith, absent) in
          lookup-removals id m rest m behind gone (rw absent at (rw ops at done))
    ]
