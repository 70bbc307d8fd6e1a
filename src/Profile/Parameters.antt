-- ===== src/Profile/Parameters.antt =====
-- ValidateParameters against the description of the two lists of keys.
use bare_metal_operator.Prelude.{
  String, true, false, ◌||◌, some, List, [], ◌∷◌, ◌++◌, ◌≡◌, refl, ◌↔◌, ◌⊎◌, arith, ◌==◌, eq_iff,
  eq_refl, contains,
}
use bare_metal_operator.Prelude.Dict.{Dict, lookup, keys}
use bare_metal_operator.Profile.{
  Profile, Formats, is_some, all_present, all_allowed, validate_parameters,
}

-- Every expected key is given, and every key that is given is expected or optional.
pub record Accepts (p : Profile) (params : Dict String) : Type 0 where
  pub given :
      (k : String)
      → contains p.expected_template_parameters k ≡ true
      → is_some (lookup k params) ≡ true
  pub known :
      (k : String)
      → is_some (lookup k params) ≡ true
      → (contains p.expected_template_parameters k ≡ true)
        ⊎ (contains p.optional_template_parameters k ≡ true)

contains-append :
    (xs ys : List String) (k : String) → contains (xs ++ ys) k ≡ (contains xs k || contains ys k)
contains-append [] ys k = refl
contains-append (x ∷ xs) ys k = ground (arith, contains-append xs ys k)

is_some-lookup : (k : String) (m : Dict String) → is_some (lookup k m) ≡ contains (keys m) k
unfolding lookup keys
is_some-lookup k [] = refl
is_some-lookup k ((j, v) ∷ m) = ground (arith, is_some-lookup k m)

module _ (f : Formats) where
  all_present_sound :
      (expected : List String) (params : Dict String)
      → all_present f expected params ≡ true
      → (k : String) → contains expected k ≡ true
      → is_some (lookup k params) ≡ true
  all_present_sound [] params h k c = absurd (ground arith)
  all_present_sound (x ∷ expected) params h k c =
      ground (arith, eq_iff x k, all_present_sound expected params (ground arith) k)

  all_present_complete :
      (expected : List String) (params : Dict String)
      → ((k : String) → contains expected k ≡ true → is_some (lookup k params) ≡ true)
      → all_present f expected params ≡ true
  all_present_complete [] params h = refl
  all_present_complete (x ∷ expected) params h =
      ground
        (arith, h x, eq_refl x, all_present_complete expected params (λ k c. h k (ground arith)))

  all_allowed_sound :
      (allowed provided : List String)
      → all_allowed f allowed provided ≡ true
      → (k : String) → contains provided k ≡ true
      → contains allowed k ≡ true
  all_allowed_sound allowed [] h k c = absurd (ground arith)
  all_allowed_sound allowed (x ∷ provided) h k c =
      ground (arith, eq_iff x k, all_allowed_sound allowed provided (ground arith) k)

  all_allowed_complete :
      (allowed provided : List String)
      → ((k : String) → contains provided k ≡ true → contains allowed k ≡ true)
      → all_allowed f allowed provided ≡ true
  all_allowed_complete allowed [] h = refl
  all_allowed_complete allowed (x ∷ provided) h =
      ground
        (arith, h x, eq_refl x, all_allowed_complete allowed provided (λ k c. h k (ground arith)))

  -- A text that is not empty and parses is accepted exactly when it gives every expected key and
  -- no key that is neither expected nor optional.
  pub validate_parameters_iff :
      (p : Profile) (text : String) (params : Dict String)
      → (text == "") ≡ false
      → f.unmarshal text ≡ some params
      → (validate_parameters f p text ≡ true) ↔ Accepts p params
  unfolding validate_parameters
  validate_parameters_iff p text params nonempty parsed = (
    λ h. record {
      given = all_present_sound _ params (ground arith);
      known = λ k s. ground (
        arith,
        is_some-lookup k params,
        contains-append p.expected_template_parameters p.optional_template_parameters k,
        all_allowed_sound (p.expected_template_parameters ++ p.optional_template_parameters)
            (keys params) (ground arith) k,
      );
    },
    λ a. ground (
      arith,
      all_present_complete p.expected_template_parameters params a.given,
      all_allowed_complete (p.expected_template_parameters ++ p.optional_template_parameters)
          (keys params)
          (λ k c. ground (
            arith,
            is_some-lookup k params,
            contains-append p.expected_template_parameters p.optional_template_parameters k,
            a.known k,
          )),
    ),
  )
