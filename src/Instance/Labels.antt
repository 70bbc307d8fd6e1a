-- ===== src/Instance/Labels.antt =====
-- What a free host must match, and the labels that an assignment sets and an unassignment removes.
use bare_metal_operator.Prelude.{
  String, true, false, ◌||◌, Option, none, some, List, [], ◌∷◌, ◌++◌, ◌≡◌, ◌⊎◌, inl, refl, arith,
  ◌==◌, eq_iff, contains, if◌then◌else◌,
}
use bare_metal_operator.Prelude.Dict.{
  Dict, lookup, insert, copy, keys, index, or_else, Distinct, lookup-nil, lookup-insert,
  lookup-copy, lookup-keys,
}
use bare_metal_operator.Shared.{
  osac_default_managed_by_value, osac_default_provision_state_value, osac_bare_metal_pool_id_label,
}
use bare_metal_operator.Api.Instance.{BareMetalInstance, get_pool_id}
use bare_metal_operator.Instance.State.{Reconciler}
use bare_metal_operator.Instance.Allocate.{
  with_default, with_pool_id, match_expressions, combined_labels,
}
use bare_metal_operator.Instance.Delete.{pool_label, labels_to_remove}

abbrev pub text_or : String → String → String
text_or text default = if text == "" then default else text

lookup-with_default :
    (key default k : String) (m : Dict String)
    → lookup k (with_default key default m)
      ≡ (if key == k then some (text_or (index m key) default) else lookup k m)
lookup-with_default key default k m =
    ground (arith, lookup-insert key k default m, eq_iff key k, eq_iff (index m key) "")

-- Every entry of the match expressions: the host type is that of the instance, whatever the
-- selector says; "managedBy" and "provisionState" are those of the selector, or the defaults where
-- it has none or an empty one; every other key is as in the selector.
lookup-match_expressions :
    (o : BareMetalInstance) (k : String)
    → lookup k (match_expressions o) ≡ (
        if k == "hostType"
        then some o.spec.host_type
        else if k == "managedBy"
        then some (text_or (index o.spec.host_selector "managedBy") osac_default_managed_by_value)
        else if k == "provisionState"
        then some (
            text_or
              (index o.spec.host_selector "provisionState")
              osac_default_provision_state_value)
        else lookup k o.spec.host_selector)
unfolding match_expressions
lookup-match_expressions o k =
    let m0 : Dict String = insert "hostType" o.spec.host_type o.spec.host_selector in
    let m1 : Dict String = with_default "managedBy" osac_default_managed_by_value m0 in
    ground (
      arith,
      lookup-with_default "provisionState" osac_default_provision_state_value k m1,
      lookup-with_default "managedBy" osac_default_managed_by_value k m0,
      lookup-with_default "managedBy" osac_default_managed_by_value "provisionState" m0,
      lookup-insert "hostType" k o.spec.host_type o.spec.host_selector,
      lookup-insert "hostType" "managedBy" o.spec.host_type o.spec.host_selector,
      lookup-insert "hostType" "provisionState" o.spec.host_type o.spec.host_selector,
      eq_iff k "hostType",
      eq_iff "hostType" k,
      eq_iff k "managedBy",
      eq_iff "managedBy" k,
      eq_iff k "provisionState",
      eq_iff "provisionState" k,
      eq_iff "hostType" "managedBy",
      eq_iff "hostType" "provisionState",
      eq_iff "managedBy" "provisionState",
    )

module _ {W : Type 0} (r : Reconciler W) where
  abbrev pub pool_label_of : Option String → String → Option String
  pool_label_of none k = none
  pool_label_of (some pool) k = if osac_bare_metal_pool_id_label == k then some pool else none

  lookup-with_pool_id :
      (k : String) (m : Dict String) (pool : Option String)
      → lookup k (with_pool_id pool m) ≡ or_else (pool_label_of pool k) (lookup k m)
  lookup-with_pool_id k m none = refl
  lookup-with_pool_id k m (some p) =
      ground (arith, lookup-insert osac_bare_metal_pool_id_label k p m)

  -- The labels of an assignment hold the pool's id for an instance that a pool owns, then the
  -- persistent labels, then the others; the keys of the two label maps are distinct, as in any
  -- map.
  pub lookup-combined_labels :
      (o : BareMetalInstance) (k : String)
      → Distinct o.spec.inventory_labels
      → Distinct o.spec.inventory_persistent_labels
      → lookup k (combined_labels r o)
        ≡ or_else (pool_label_of (get_pool_id r.kube o) k) (
            or_else
              (lookup k o.spec.inventory_persistent_labels)
              (lookup k o.spec.inventory_labels))
  unfolding combined_labels
  lookup-combined_labels o k di dp =
      let first : Dict String = copy [] o.spec.inventory_labels in
      ground (
        arith,
        lookup-copy k first o.spec.inventory_persistent_labels dp,
        lookup-copy k [] o.spec.inventory_labels di,
        lookup-nil {V = String} k,
        lookup-with_pool_id k (copy first o.spec.inventory_persistent_labels)
            (get_pool_id r.kube o),
      )

  contains-append :
      (xs ys : List String) (k : String) → contains (xs ++ ys) k ≡ (contains xs k || contains ys k)
  contains-append [] ys k = refl
  contains-append (x ∷ xs) ys k = ground (arith, contains-append xs ys k)

  contains-pool_label :
      (pool : Option String) (k : String)
      → (pool_label_of pool k ≡ none) ⊎ (contains (pool_label pool) k ≡ true)
  contains-pool_label none k = inl refl
  contains-pool_label (some p) k = ground arith

  -- Whatever label an assignment sets, an unassignment removes, unless it is persistent; the keys
  -- of the two label maps are distinct, as in any map.
  pub labels_to_remove_complete :
      (o : BareMetalInstance) (k v : String)
      → Distinct o.spec.inventory_labels
      → Distinct o.spec.inventory_persistent_labels
      → lookup k (combined_labels r o) ≡ some v
      → lookup k o.spec.inventory_persistent_labels ≡ none
      → contains (labels_to_remove r.kube o) k ≡ true
  unfolding labels_to_remove
  labels_to_remove_complete o k v di dp set loose = ground (
    arith,
    lookup-combined_labels o k di dp,
    contains-append (keys o.spec.inventory_labels) (pool_label (get_pool_id r.kube o)) k,
    contains-pool_label (get_pool_id r.kube o) k,
    lookup-keys k o.spec.inventory_labels v,
  )

  no_pool_label :
      (pool : Option String) (k : String)
      → (osac_bare_metal_pool_id_label == k) ≡ false
      → pool_label_of pool k ≡ none
  no_pool_label none k h = refl
  no_pool_label (some p) k h = ground arith

  -- A key other than the pool's that stands in both label maps is assigned with its persistent
  -- value, and is removed all the same: the unassignment drops a persistent label.
  pub persistent_label_removed :
      (o : BareMetalInstance) (k v w : String)
      → Distinct o.spec.inventory_labels
      → Distinct o.spec.inventory_persistent_labels
      → (osac_bare_metal_pool_id_label == k) ≡ false
      → lookup k o.spec.inventory_persistent_labels ≡ some v
      → lookup k o.spec.inventory_labels ≡ some w
      → (lookup k (combined_labels r o) ≡ some v) × (contains (labels_to_remove r.kube o) k ≡ true)
  unfolding labels_to_remove
  persistent_label_removed o k v w di dp other persistent loose = (
    ground (arith, lookup-combined_labels o k di dp, no_pool_label (get_pool_id r.kube o) k other),
    ground (
      arith,
      contains-append (keys o.spec.inventory_labels) (pool_label (get_pool_id r.kube o)) k,
      lookup-keys k o.spec.inventory_labels w loose,
    ),
  )
