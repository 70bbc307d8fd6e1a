-- ===== src/OpenStack/Pointer.antt =====
-- escapeJSONPointerToken of internal/inventory/openstack.go, and the tokens that RFC 6901 reads.
use Prim.Native.String.{String, [], ◌∷◌, ◌++◌}
use Prim.Native.Char.{Char, code}
use mathlib.Core.Path.{◌≡◌, refl, sym}
use mathlib.Core.Bool.{true, false, ◌||◌, ◌&&◌}
use mathlib.Core.Option.{Option, none, some}
use native.Mathlib.Omega.{arith}
use bare_metal_operator.Prelude.Text.{append-nil, append-cons, eqb-code}
use bare_metal_operator.Prelude.{ℕ, eqb, inl, inr, Bool-cases, if◌then◌else◌}
use bare_metal_operator.Metal3.HostId.{has_slash}

-- strings.ReplaceAll of one character, by its number.
unfoldable pub replace_all : ℕ → String → String → String
replace_all old new [] = []
replace_all old new (c ∷ s) =
    let rest = replace_all old new s in if eqb (code c) old then new ++ rest else c ∷ rest

unfoldable pub escape_json_pointer_token : String → String
unfolding replace_all
escape_json_pointer_token s = replace_all 47 "~1" (replace_all 126 "~0" s)

-- The token's escapes, read back: "~1" is a slash and "~0" a tilde.
unfoldable pub unescape : String → String
unescape [] = []
unescape (c ∷ []) = c ∷ []
unescape (c ∷ d ∷ s) =
    let rest = unescape s in
    let other = unescape (d ∷ s) in
    if eqb (code c) 126 && eqb (code d) 48
    then "~" ∷ rest
    else if eqb (code c) 126 && eqb (code d) 49
    then "/" ∷ rest
    else c ∷ other

two-append : (c d : Char) (t : String) → (c ∷ d ∷ []) ++ t ≡ c ∷ d ∷ t
two-append c d t = rw (append-cons c (d ∷ []) t, append-cons d [] t, append-nil t) refl

-- The three kinds of character, as a token writes them.
escape-tilde :
    (c : Char) (s : String)
    → eqb (code c) 126 ≡ true
    → escape_json_pointer_token (c ∷ s) ≡ "~" ∷ "0" ∷ escape_json_pointer_token s
unfolding escape_json_pointer_token replace_all
escape-tilde c s tilde = rw (tilde, two-append "~" "0" (replace_all 126 "~0" s)) refl

escape-slash :
    (c : Char) (s : String)
    → eqb (code c) 126 ≡ false
    → eqb (code c) 47 ≡ true
    → escape_json_pointer_token (c ∷ s) ≡ "~" ∷ "1" ∷ escape_json_pointer_token s
unfolding escape_json_pointer_token replace_all
escape-slash c s plain slash =
    rw (plain, replace_all)
      (rw (slash, two-append "~" "1" (replace_all 47 "~1" (replace_all 126 "~0" s))) refl)

escape-plain :
    (c : Char) (s : String)
    → eqb (code c) 126 ≡ false
    → eqb (code c) 47 ≡ false
    → escape_json_pointer_token (c ∷ s) ≡ c ∷ escape_json_pointer_token s
unfolding escape_json_pointer_token replace_all
escape-plain c s plain flat = rw (plain, replace_all) (rw flat refl)

unescape-plain :
    (c : Char) (s : String) → eqb (code c) 126 ≡ false → unescape (c ∷ s) ≡ c ∷ unescape s
unfolding unescape
unescape-plain c [] plain = refl
unescape-plain c (d ∷ s) plain = rw plain refl

unescape-tilde : (t : String) → unescape ("~" ∷ "0" ∷ t) ≡ "~" ∷ unescape t
unfolding unescape
unescape-tilde t = refl

unescape-slash : (t : String) → unescape ("~" ∷ "1" ∷ t) ≡ "/" ∷ unescape t
unfolding unescape
unescape-slash t = refl

has_slash-cons : (c : Char) (t : String) → has_slash (c ∷ t) ≡ (eqb (code c) 47 || has_slash t)
unfolding has_slash
has_slash-cons c t = refl

unescape-escape : (s : String) → unescape (escape_json_pointer_token s) ≡ s
unescape-escape [] =
    unfold escape_json_pointer_token in unfold replace_all in unfold unescape in refl
unescape-escape (c ∷ s) = elim (Bool-cases (eqb (code c) 126)) [
  | inl tilde ↦
      rw
        (
          escape-tilde c s tilde,
          unescape-tilde (escape_json_pointer_token s),
          unescape-escape s,
          sym (eqb-code c "~" tilde),
        )
        refl
  | inr plain ↦ elim (Bool-cases (eqb (code c) 47)) [
    | inl slash ↦
        rw
          (
            escape-slash c s plain slash,
            unescape-slash (escape_json_pointer_token s),
            unescape-escape s,
            sym (eqb-code c "/" slash),
          )
          refl
    | inr flat ↦
        rw
          (
            escape-plain c s plain flat,
            unescape-plain c (escape_json_pointer_token s) plain,
            unescape-escape s,
          )
          refl
  ]
]

has_slash-escape : (s : String) → has_slash (escape_json_pointer_token s) ≡ false
has_slash-escape [] =
    unfold escape_json_pointer_token in unfold replace_all in unfold has_slash in refl
has_slash-escape (c ∷ s) =
    let e = escape_json_pointer_token s in
    elim (Bool-cases (eqb (code c) 126)) [
      | inl tilde ↦
          rw (escape-tilde c s tilde, has_slash-cons "~" ("0" ∷ e), has_slash-cons "0" e)
            (has_slash-escape s)
      | inr plain ↦ elim (Bool-cases (eqb (code c) 47)) [
        | inl slash ↦
            rw (escape-slash c s plain slash, has_slash-cons "~" ("1" ∷ e), has_slash-cons "1" e)
              (has_slash-escape s)
        | inr flat ↦ rw (escape-plain c s plain flat, has_slash-cons c e, flat) (has_slash-escape s)
      ]
    ]

-- An escaped token of a JSON pointer has no slash, and is read back as RFC 6901 reads it to the
-- text that was escaped.
pub escape_json_pointer_token_lem :
    (s : String)
    → (unescape (escape_json_pointer_token s) ≡ s)
      × (has_slash (escape_json_pointer_token s) ≡ false)
escape_json_pointer_token_lem s = (unescape-escape s, has_slash-escape s)

-- The rest of a text behind a prefix of it.
unfoldable pub strip_prefix : String → String → Option String
strip_prefix [] s = some s
strip_prefix (c ∷ p) [] = none
strip_prefix (c ∷ p) (d ∷ s) =
    let rest = strip_prefix p s in if eqb (code c) (code d) then rest else none

strip_prefix-cons :
    (c d : Char) (p s : String)
    → strip_prefix (c ∷ p) (d ∷ s) ≡ (if eqb (code c) (code d) then strip_prefix p s else none)
unfolding strip_prefix
strip_prefix-cons c d p s = refl

pub strip_prefix-append : (p s : String) → strip_prefix p (p ++ s) ≡ some s
strip_prefix-append [] s = rw (append-nil s) (unfold strip_prefix in refl)
strip_prefix-append (c ∷ p) s =
    let here : eqb (code c) (code c) ≡ true = ground arith in
    rw (append-cons c p s, strip_prefix-cons c c p (p ++ s), here) (strip_prefix-append p s)
