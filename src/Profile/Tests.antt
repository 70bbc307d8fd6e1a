-- ===== src/Profile/Tests.antt =====
-- The theorems on profiles at the sample profile.
use bare_metal_operator.Prelude.{true, some, [], ◌∷◌, ◌≡◌, refl, ◌↔◌, All, arith}
use bare_metal_operator.Prelude.Dict.{lookup, insert}
use bare_metal_operator.Profile.{
  Profile, Registry, get, validate_parameters, load_profiles, check_profile, check_labels,
}
use bare_metal_operator.Profile.Parameters.{Accepts, validate_parameters_iff}
use bare_metal_operator.Profile.Registry.{IsValid, load_profiles-IsValid, get-load_profiles_new}
use bare_metal_operator.Samples.{formats, profile}

abbrev other_profile : Profile
other_profile = record profile { name = "fedora" }

abbrev registry : Registry
registry = ("rhel", profile) ∷ []

empty-IsValid : IsValid formats []
unfolding get lookup
empty-IsValid = record { at = λ k p h. absurd (ground arith) }

validate_parameters_iff_example :
    (validate_parameters formats profile "image: rhel" ≡ true)
    ↔ Accepts profile (("image", "rhel") ∷ [])
validate_parameters_iff_example =
    validate_parameters_iff formats profile "image: rhel" (("image", "rhel") ∷ []) refl refl

load_profiles-IsValid_example :
    IsValid formats (load_profiles formats [] (profile ∷ other_profile ∷ profile ∷ [])).1
load_profiles-IsValid_example =
    load_profiles-IsValid formats (profile ∷ other_profile ∷ profile ∷ []) [] empty-IsValid

get-load_profiles_new_example :
    All
      (λ p. get (load_profiles formats registry (other_profile ∷ [])).1 p.name ≡ some p)
      (other_profile ∷ [])
unfolding load_profiles check_profile check_labels get lookup insert
get-load_profiles_new_example = get-load_profiles_new formats (other_profile ∷ []) registry refl
