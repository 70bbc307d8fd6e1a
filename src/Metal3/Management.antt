-- ===== src/Metal3/Management.antt =====
-- internal/management/metal3.go: the power state of a Metal3 host, and its restart.
use bare_metal_operator.Prelude.{
  String, Bool, true, false, not, bool_eq, Option, none, some, ◌==◌, ◌<>◌, if◌then◌else◌,
}
use bare_metal_operator.Prelude.Dict.{lookup}
use bare_metal_operator.Shared.{Error, new, wrap, transitioning, Res, ok, err}
use bare_metal_operator.Effect.{M, ◌>>=◌, pure, on_res, on_option}
use bare_metal_operator.Management.{PowerState, power_on, power_off, other, PowerStatus}
use bare_metal_operator.Profile.{is_some}
use bare_metal_operator.Metal3.{BareMetalHost, Server}
use bare_metal_operator.Metal3.HostId.{parse_host_id}

-- management.Metal3Client
pub record Metal3Client (W : Type 0) : Type 0 where
  pub server : Server W
  pub namespace : String

-- The desired value of spec.online, if the target is one of the two power states.
abbrev pub desired_online : PowerState → Option Bool
desired_online power_on = some true
desired_online power_off = some false
desired_online (other text) = none

abbrev pub text_of : PowerState → String
text_of power_on = "power on"
text_of power_off = "power off"
text_of (other text) = text

-- bmh.Spec.Online != bmh.Status.PoweredOn
abbrev pub is_moving : BareMetalHost → Bool
is_moving b = not (bool_eq b.online b.powered_on)

unfoldable pub power_status_of : BareMetalHost → PowerStatus
power_status_of b = record {
  state = if b.powered_on then power_on else power_off;
  is_transitioning = is_moving b;
}

abbrev on_failure : String → Option Error → Option Error
on_failure text none = none
on_failure text (some e) = some (wrap text e)

module _ {W : Type 0} (m : Metal3Client W) where
  unfoldable pub get_bmh : String → M W (Res BareMetalHost)
  get_bmh host_id =
      on_res (parse_host_id host_id) (λ e. pure (err e))
        (λ parts.
          if parts.0 == m.namespace
          then (do
            answer ← m.server.get parts.0 parts.1
            on_res answer (λ e. pure (err (wrap ("failed to get BareMetalHost " <> host_id) e)))
                (λ b. pure (ok b)))
          else pure (
              err (
                new (
                  "host " <> host_id <> " is outside configured metal3 namespace "
                  <> m.namespace))))

  unfoldable pub get_power_state : String → M W (Res (Option PowerStatus))
  get_power_state host_id = do
    answer ← get_bmh host_id
    on_res answer (λ e. pure (err e)) (λ b. pure (ok (some (power_status_of b))))

  unfoldable pub patch_online : String → BareMetalHost → Bool → M W (Option Error)
  patch_online host_id b desired = if bool_eq b.online desired then pure none else do
    e ← m.server.patch_online b desired
    pure (on_failure ("failed to set power state on node " <> host_id) e)

  unfoldable pub move_to : String → PowerState → BareMetalHost → M W (Option Error)
  move_to host_id target b =
      if is_moving b
      then pure (some (wrap ("node " <> host_id) transitioning))
      else on_option (desired_online target)
          (pure
            (some (new ("node " <> host_id <> ": invalid target power state " <> text_of target))))
          (patch_online host_id b)

  unfoldable pub set_power_state : String → PowerState → M W (Option Error)
  set_power_state host_id target = do
    answer ← get_bmh host_id
    on_res answer (λ e. pure (some e)) (move_to host_id target)

  -- Does the host carry the annotation of a restart?
  abbrev pub is_rebooting : BareMetalHost → Bool
  is_rebooting b = is_some (lookup m.server.reboot_annotation b.annotations)

  unfoldable pub reboot : String → BareMetalHost → M W (Option Error)
  reboot host_id b =
      if is_rebooting b then pure (some (wrap ("host " <> host_id) transitioning)) else do
        e ← m.server.patch_annotation b m.server.reboot_annotation ""
        pure (on_failure ("failed to trigger restart for host " <> host_id) e)

  unfoldable pub trigger_restart : String → M W (Option Error)
  trigger_restart host_id = do
    answer ← get_bmh host_id
    on_res answer (λ e. pure (some e)) (reboot host_id)

  unfoldable pub is_restart_complete : String → M W (Res Bool)
  is_restart_complete host_id = do
    answer ← get_bmh host_id
    on_res answer (λ e. pure (err e)) (λ b. pure (ok (not (is_rebooting b))))
