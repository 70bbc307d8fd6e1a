-- ===== src/Metal3/HostId.antt =====
-- ParseHostID of internal/inventory/metal3.go: strings.SplitN(hostID, "/", 2) by the characters of
-- the text.
use Prim.Native.String.{String, [], ◌∷◌, ◌++◌}
use Prim.Native.Char.{Char, code}
use mathlib.Core.Path.{◌≡◌, refl, sym}
use mathlib.Core.Bool.{Bool, true, false, ◌||◌}
use mathlib.Core.Option.{Option, none, some}
use native.Mathlib.Omega.{arith}
use text.Mathlib.Text.{◌==◌}
use bare_metal_operator.Prelude.Text.{append-nil, append-cons, eqb-code}
use bare_metal_operator.Prelude.{eqb, inl, inr, Bool-cases, if◌then◌else◌}
use bare_metal_operator.Shared.{new, Res, ok, err}

abbrev pub is_slash : Char → Bool
is_slash c = eqb (code c) 47

abbrev put_first : Char → Option (String × String) → Option (String × String)
put_first c none = none
put_first c (some (before, behind)) = some (c ∷ before, behind)

-- The two parts around the first slash, if there is one.
unfoldable pub split_once : String → Option (String × String)
split_once [] = none
split_once (c ∷ s) =
    let rest = split_once s in if is_slash c then some ("", s) else put_first c rest

-- The quotes that %q puts around the id are left out of the text.
abbrev checked_parts : String → Option (String × String) → Res (String × String)
checked_parts host_id none =
    err (new ("invalid host ID " ++ host_id ++ ": expected namespace/name format"))
checked_parts host_id (some (namespace, name)) =
    if namespace == "" || name == ""
    then err (new ("invalid host ID " ++ host_id ++ ": expected namespace/name format"))
    else ok (namespace, name)

unfoldable pub parse_host_id : String → Res (String × String)
parse_host_id host_id = checked_parts host_id (split_once host_id)

unfoldable pub has_slash : String → Bool
has_slash [] = false
has_slash (c ∷ s) = is_slash c || has_slash s

-- fmt.Sprintf("%s/%s", namespace, name)
abbrev pub host_id_of : String → String → String
host_id_of namespace name = namespace ++ ("/" ++ name)

slash-append : (name : String) → "/" ++ name ≡ "/" ∷ name
slash-append name = rw (append-cons "/" [] name, append-nil name) refl

split_once-host_id_of :
    (namespace name : String)
    → has_slash namespace ≡ false
    → split_once (host_id_of namespace name) ≡ some (namespace, name)
unfolding split_once has_slash
split_once-host_id_of [] name h = rw (append-nil ("/" ++ name), slash-append name) refl
split_once-host_id_of (c ∷ s) name h =
    rw (append-cons c s ("/" ++ name)) (ground (arith, split_once-host_id_of s name, h))

-- A host id that is built from a namespace without a slash and a name, neither of them empty, is
-- parsed back to the two.
pub parse_host_id-host_id_of :
    (namespace name : String)
    → has_slash namespace ≡ false
    → (namespace == "") ≡ false
    → (name == "") ≡ false
    → parse_host_id (host_id_of namespace name) ≡ ok (namespace, name)
unfolding parse_host_id
parse_host_id-host_id_of namespace name slashless named_space named =
    rw (split_once-host_id_of namespace name slashless) (ground (arith, named_space, named))

put_first-some :
    (c : Char) (p : Option (String × String)) (before behind : String)
    → put_first c p ≡ some (before, behind)
    → (rest : String) × (before ≡ c ∷ rest) × (p ≡ some (rest, behind))
put_first-some c none before behind h = absurd (ground (arith, h))
put_first-some c (some (rest, tail)) before behind h = (rest, ground (arith, h), ground (arith, h))

split_once-slash : (c : Char) (s : String) → is_slash c ≡ true → split_once (c ∷ s) ≡ some ("", s)
unfolding split_once
split_once-slash c s slash = rw slash refl

split_once-plain :
    (c : Char) (s : String) → is_slash c ≡ false → split_once (c ∷ s) ≡ put_first c (split_once s)
unfolding split_once
split_once-plain c s plain = rw plain refl

split_once-nil : split_once [] ≡ none
unfolding split_once
split_once-nil = refl

-- The two parts with the slash between them are the text.
split_once-joins :
    (s before behind : String) → split_once s ≡ some (before, behind) → s ≡ host_id_of before behind
split_once-joins [] before behind h = absurd (ground (arith, h, split_once-nil))
split_once-joins (c ∷ s) before behind h = elim (Bool-cases (is_slash c)) [
  | inl slash ↦
      let parts = rw (split_once-slash c s slash) at h in
      let is_before : "" ≡ before = ground (arith, parts) in
      let is_behind : s ≡ behind = ground (arith, parts) in
      rw
        (
          sym is_before,
          append-nil ("/" ++ behind),
          slash-append behind,
          eqb-code c "/" slash,
          is_behind,
        )
        refl
  | inr plain ↦
      let (rest, is_before, split) =
        put_first-some c (split_once s) before behind (rw (split_once-plain c s plain) at h) in
      rw (is_before, append-cons c rest ("/" ++ behind))
        (λ i. c ∷ split_once-joins s rest behind split i)
]

checked_parts-ok :
    (host_id : String) (p : Option (String × String)) (namespace name : String)
    → checked_parts host_id p ≡ ok (namespace, name)
    → p ≡ some (namespace, name)
checked_parts-ok host_id none namespace name h = absurd (ground (arith, h))
checked_parts-ok host_id (some (before, behind)) namespace name h = ground (arith, h)

parse_host_id-split :
    (host_id namespace name : String)
    → parse_host_id host_id ≡ ok (namespace, name)
    → split_once host_id ≡ some (namespace, name)
unfolding parse_host_id
parse_host_id-split host_id namespace name h =
    checked_parts-ok host_id (split_once host_id) namespace name h

-- A host id that is parsed is the one that its parts make: two that give the same parts are one.
pub parse_host_id-joins :
    (host_id namespace name : String)
    → parse_host_id host_id ≡ ok (namespace, name)
    → host_id ≡ host_id_of namespace name
parse_host_id-joins host_id namespace name h =
    split_once-joins host_id namespace name (parse_host_id-split host_id namespace name h)
