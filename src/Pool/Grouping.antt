-- ===== src/Pool/Grouping.antt =====
-- The map that listAndGroup builds, against a count of the listing.
use bare_metal_operator.Prelude.{
  ℕ, suc, ◌+◌, String, not, ◌&&◌, Option, some, List, [], ◌∷◌, ◌++◌, ◌≡◌, arith, ◌==◌, eq_iff,
  if◌then◌else◌,
}
use bare_metal_operator.Prelude.Dict.{insert, lookup-nil}
use bare_metal_operator.Api.Instance.{BareMetalInstance}
use bare_metal_operator.Pool.State.{Current}
use bare_metal_operator.Pool.Scale.{instances}
use bare_metal_operator.Pool.Update.{group}
use bare_metal_operator.Pool.Slices.{instances-insert, length-snoc}
use bare_metal_operator.Pool.Counts.{count}

-- How many of the instances are of a host type and not being deleted.
abbrev pub live : String → List BareMetalInstance → ℕ
live j [] = 0
live j (o ∷ items) =
    let rest = live j items in if not o.deleting && o.spec.host_type == j then suc rest else rest

count-group_from :
    (j : String) (m : Current) (items : List BareMetalInstance)
    → count j (group m items) ≡ count j m + live j items
unfolding group
count-group_from j m [] = ground arith
count-group_from j m (o ∷ items) =
    let t = o.spec.host_type in
    let grown = insert t (instances t m ++ some o ∷ []) m in
    ground (
      arith,
      count-group_from j m items,
      count-group_from j grown items,
      instances-insert t j (instances t m ++ some o ∷ []) m,
      length-snoc (instances t m) (some o),
      eq_iff t j,
    )

-- The grouping of a listing holds for each host type as many instances as the listing has of that
-- type that are not being deleted.
pub count-group :
    (j : String) (items : List BareMetalInstance) → count j (group [] items) ≡ live j items
count-group j items =
    ground (arith, count-group_from j [] items, lookup-nil {V = List (Option BareMetalInstance)} j)
