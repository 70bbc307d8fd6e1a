-- ===== src/Profile.antt =====
-- internal/profile/profile.go: the registry of profiles and the check of template parameters.
pub mod Parameters
pub mod Registry
mod Tests
use bare_metal_operator.Prelude.{
  String, Bool, true, false, ◌&&◌, ◌||◌, not, Option, none, some, List, [], ◌∷◌, ◌++◌, ◌<>◌, ◌==◌,
  is_empty, contains, if◌then◌else◌,
}
use bare_metal_operator.Prelude.Dict.{Dict, lookup, insert, keys}
use bare_metal_operator.Shared.{Error, new}

pub record Profile : Type 0 where
  pub name : String
  pub host_selector : Dict String
  pub expected_template_parameters : List String
  pub optional_template_parameters : List String
  pub bare_metal_pool_template : String
  pub host_template : String
  pub labels : Dict String
  pub persistent_labels : Dict String

abbrev pub Registry : Type 0
Registry = Dict Profile

-- k8s.io/apimachinery's label rules and sigs.k8s.io/yaml. The values of the parsed map are never
-- read, so they stay text.
pub record Formats : Type 0 where
  pub is_qualified_name : String → Bool
  pub is_valid_label_value : String → Bool
  pub unmarshal : String → Option (Dict String)

-- registeredProfiles[name]
unfoldable pub get : Registry → String → Option Profile
unfolding lookup
get registry name = lookup name registry

abbrev pub is_some {ℓ} : {A : Type ℓ} → Option A → Bool
is_some none = false
is_some (some a) = true

module _ (f : Formats) where
  -- One of the two label loops; `kind` is its word in the error's text, which ends with the
  -- messages of the validation library in the program and before them here.
  unfoldable pub check_labels : String → String → Dict String → Option Error
  check_labels kind name [] = none
  check_labels kind name ((key, value) ∷ labels) =
      if not (f.is_qualified_name key)
      then some (new ("invalid " <> kind <> " key '" <> key <> "' in profile '" <> name <> "'"))
      else if not (f.is_valid_label_value value)
      then some (
          new (
            "invalid " <> kind <> " value '" <> value <> "' for key '" <> key <> "' in profile '"
            <> name <> "'"))
      else check_labels kind name labels

  -- The body of the loop of LoadProfiles, up to the write.
  unfoldable pub check_profile : Registry → Profile → Option Error
  unfolding get
  check_profile registry profile =
      if profile.name == ""
      then some (new "profile missing required 'name' field")
      else if is_some (get registry profile.name)
      then some (new ("duplicate profile name: " <> profile.name))
      else elim (check_labels "label" profile.name profile.labels) [
        | some e ↦ some e
        | none ↦ check_labels "persistent label" profile.name profile.persistent_labels
      ]

  -- What was registered before an error stays registered.
  unfoldable pub load_profiles : Registry → List Profile → Option Error × Registry
  load_profiles registry [] = (none, registry)
  load_profiles registry (profile ∷ profiles) = elim (check_profile registry profile) [
    | some e ↦ (some e, registry)
    | none ↦ load_profiles (insert profile.name profile registry) profiles
  ]

  -- The two loops of ValidateParameters.
  abbrev pub all_present : List String → Dict String → Bool
  all_present [] params = true
  all_present (key ∷ expected) params = is_some (lookup key params) && all_present expected params

  abbrev pub all_allowed : List String → List String → Bool
  all_allowed allowed [] = true
  all_allowed allowed (key ∷ provided) = contains allowed key && all_allowed allowed provided

  abbrev check_parameters : Profile → Option (Dict String) → Bool
  check_parameters p none = false
  check_parameters p (some params) =
      all_present p.expected_template_parameters params
      && all_allowed (p.expected_template_parameters ++ p.optional_template_parameters)
          (keys params)

  unfoldable pub validate_parameters : Profile → String → Bool
  validate_parameters p template_parameters =
      if template_parameters == ""
      then is_empty p.expected_template_parameters
      else check_parameters p (f.unmarshal template_parameters)
