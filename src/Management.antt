-- ===== src/Management.antt =====
-- internal/management/client.go: what the instance controller asks of a management backend.
use bare_metal_operator.Prelude.{String, Bool, true, false, Option, ◌==◌, if◌then◌else◌}
use bare_metal_operator.Shared.{Error, Res}

-- A Go string with two named values.
pub data PowerState : Type 0 where
  power_on power_off : PowerState
  other : String → PowerState

abbrev pub is_on : PowerState → Bool
is_on power_on = true
is_on _ = false

-- The conversion PowerState(text).
unfoldable pub power_state_of : String → PowerState
power_state_of text =
    if text == "power on" then power_on else if text == "power off" then power_off else other text

pub record PowerStatus : Type 0 where
  pub state : PowerState
  pub is_transitioning : Bool

pub record Client (W : Type 0) : Type 0 where
  pub get_power_state : String → W → Res (Option PowerStatus) × W
  pub set_power_state : String → PowerState → W → Option Error × W
  pub trigger_restart : String → W → Option Error × W
  pub is_restart_complete : String → W → Res Bool × W
