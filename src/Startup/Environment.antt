-- ===== src/Startup/Environment.antt =====
-- GetEnvWithDefault of internal/helpers/getenvwithdefault.go. What the variable's text is read as
-- depends on the type of the default: the text itself, an int, a bool or a
-- duration.
use bare_metal_operator.Prelude.{String, Bool, true, ◌&&◌, List, [], ◌∷◌, ◌==◌, if◌then◌else◌}
use bare_metal_operator.Prelude.Int.{ℤ}
use bare_metal_operator.Shared.{Res, ok, err, Duration}
use bare_metal_operator.Startup.{System}

module _ {A : Type 0} where
  -- The loop over the validators.
  unfoldable pub is_valid : List (A → Bool) → A → Bool
  is_valid [] value = true
  is_valid (test ∷ tests) value = test value && is_valid tests value

  abbrev pub validated : List (A → Bool) → A → Res A → A
  validated tests default (err e) = default
  validated tests default (ok value) = if is_valid tests value then value else default

  unfoldable pub value_or_default : (String → Res A) → List (A → Bool) → A → String → A
  value_or_default parse tests default text =
      if text == "" then default else validated tests default (parse text)

module _ (system : System) where
  unfoldable pub string_with_default : String → String → String
  string_with_default name default = value_or_default ok [] default (system.getenv name)

  unfoldable pub int_with_default : String → ℤ → List (ℤ → Bool) → ℤ
  int_with_default name default tests =
      value_or_default system.atoi tests default (system.getenv name)

  unfoldable pub duration_with_default : String → Duration → Duration
  duration_with_default name default =
      value_or_default system.parse_duration [] default (system.getenv name)

  unfoldable pub bool_with_default : String → Bool → Bool
  bool_with_default name default =
      value_or_default system.parse_bool [] default (system.getenv name)
