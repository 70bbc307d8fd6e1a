-- ===== src/Startup.antt =====
-- cmd/main.go, internal/helpers/getenvwithdefault.go and the constructors of the clients: how the
-- program starts: its flags, its two controllers, and its manager.
pub mod Environment
pub mod Backends
pub mod Clouds
pub mod Registration
pub mod Options
pub mod Setup
pub mod Intervals
pub mod Entry
pub mod Launch
pub mod Leading
pub mod Serving
pub mod Guarded
mod Tests
use bare_metal_operator.Prelude.{String, Bool}
use bare_metal_operator.Prelude.Int.{ℤ}
use bare_metal_operator.Shared.{Error, Res, Duration}

-- os and strconv.
pub record System : Type 0 where
  pub getenv : String → String
  pub read_file : String → Res String
  pub is_not_exist : Error → Bool
  pub atoi : String → Res ℤ
  pub parse_bool : String → Res Bool
  pub parse_duration : String → Res Duration
