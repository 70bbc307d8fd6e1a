-- ===== src/Metal3/Reboots.antt =====
-- The operations of the Metal3 management backend, seen through its own reads.
use bare_metal_operator.Prelude.{
  String, Bool, true, false, not, bool_eq, none, some, ◌≡◌, refl, ap, inl, inr, Bool-cases, ◌∙◌,
  arith, ◌==◌, ◌<>◌, eq_refl,
}
use bare_metal_operator.Prelude.Dict.{insert, lookup-insert}
use bare_metal_operator.Shared.{wrap, transitioning, Res, ok}
use bare_metal_operator.Effect.{◌>>=◌}
use bare_metal_operator.Management.{PowerState, power_on, power_off}
use bare_metal_operator.Metal3.{BareMetalHost, IsServer}
use bare_metal_operator.Metal3.HostId.{parse_host_id}
use bare_metal_operator.Metal3.Management.{
  Metal3Client, desired_online, is_moving, power_status_of, get_bmh, get_power_state, patch_online,
  move_to, set_power_state, is_rebooting, reboot, trigger_restart, is_restart_complete,
}

module _ {W : Type 0} (m : Metal3Client W) (held : String → String → W → Res BareMetalHost)
    (lawful : IsServer m.server held) where
  -- The host id names a host of the client's namespace that the server holds.
  pub record Names (host_id : String) (b : BareMetalHost) (w : W) : Type 0 where
    pub parsed : parse_host_id host_id ≡ ok (b.namespace, b.name)
    pub inside : (b.namespace == m.namespace) ≡ true
    pub found : held b.namespace b.name w ≡ ok b

  get_bmh-found :
      (host_id : String) (b : BareMetalHost) (w : W)
      → Names host_id b w
      → get_bmh m host_id w ≡ (ok b, w)
  unfolding get_bmh ◌>>=◌
  get_bmh-found host_id b w names =
      rw (names.parsed, names.inside, lawful.reads b.namespace b.name w, names.found) refl

  patch_online-held :
      (host_id : String) (b : BareMetalHost) (on : Bool) (w : W)
      → held b.namespace b.name w ≡ ok b
      → (patch_online m host_id b on w).0 ≡ none
      → held b.namespace b.name (patch_online m host_id b on w).1 ≡ ok (record b { online = on })
  unfolding patch_online ◌>>=◌
  patch_online-held host_id b on w found h = ground (arith, found, lawful.sets_online b on w found)

  set_power_state-move_to :
      (host_id : String) (target : PowerState) (b : BareMetalHost) (w : W)
      → Names host_id b w
      → set_power_state m host_id target w ≡ move_to m host_id target b w
  unfolding set_power_state ◌>>=◌
  set_power_state-move_to host_id target b w names = rw (get_bmh-found host_id b w names) refl

  move_to-patch_online :
      (host_id : String) (target : PowerState) (on : Bool) (b : BareMetalHost) (w : W)
      → is_moving b ≡ false
      → desired_online target ≡ some on
      → move_to m host_id target b w ≡ patch_online m host_id b on w
  unfolding move_to ◌>>=◌
  move_to-patch_online host_id target on b w still wants = rw (still, wants) refl

  get_power_state-found :
      (host_id : String) (b : BareMetalHost) (w : W)
      → Names host_id b w
      → (get_power_state m host_id w).0 ≡ ok (some (power_status_of b))
  unfolding get_power_state ◌>>=◌
  get_power_state-found host_id b w names = rw (get_bmh-found host_id b w names) refl

  -- The power state that a host which is powered on, or off, is in.
  abbrev pub powered : Bool → PowerState
  powered true = power_on
  powered false = power_off

  desired_online-powered : (on : Bool) → desired_online (powered on) ≡ some on
  desired_online-powered true = refl
  desired_online-powered false = refl

  power_status_of-powered :
      (b : BareMetalHost) (on : Bool)
      → power_status_of (record b { online = on })
        ≡ record { state = powered b.powered_on; is_transitioning = not (bool_eq on b.powered_on) }
  unfolding power_status_of
  power_status_of-powered b on = elim (Bool-cases b.powered_on) [
    | inl here ↦ rw here refl
    | inr away ↦ rw away refl
  ]

  -- Of a Metal3 server that behaves as documented: after a SetPowerState to on or off that returns
  -- no error, of a host that the server holds with its online as it is powered, GetPowerState
  -- answers with the state that the host is in, and as in transition exactly if that is not the
  -- one that was asked for; and the server holds the host with its online as was asked, and
  -- otherwise as it was.
  pub get_power_state-set_power_state :
      (host_id : String) (on : Bool) (b : BareMetalHost) (w : W)
      → Names host_id b w
      → (b.online ≡ b.powered_on)
      → (set_power_state m host_id (powered on) w).0 ≡ none
      → let next = (set_power_state m host_id (powered on) w).1 in
        ((get_power_state m host_id next).0
          ≡ ok (
              some (record {
                state = powered b.powered_on;
                is_transitioning = not (bool_eq on b.powered_on);
              })))
        × (held b.namespace b.name next ≡ ok (record b { online = on }))
  get_power_state-set_power_state host_id on b w names still h =
      let rest : is_moving b ≡ false = rw still (ground arith) in
      let patched =
        set_power_state-move_to host_id (powered on) b w names
        ∙ move_to-patch_online host_id (powered on) on b w rest (desired_online-powered on) in
      let found = patch_online-held host_id b on w names.found (rw patched at h) in
      rw patched (
        get_power_state-found host_id (record b { online = on }) (patch_online m host_id b on w).1
              (record { parsed = names.parsed; inside = names.inside; found = found })
            ∙ ap (λ x. ok (some x)) (power_status_of-powered b on),
        found,
      )

  -- Of a Metal3 server that behaves as documented: a SetPowerState of a host that is in transition
  -- is refused with the transition error, for every target, and changes nothing.
  set_power_state_moving :
      (host_id : String) (target : PowerState) (b : BareMetalHost) (w : W)
      → Names host_id b w
      → is_moving b ≡ true
      → set_power_state m host_id target w ≡ (some (wrap ("node " <> host_id) transitioning), w)
  unfolding move_to ◌>>=◌
  set_power_state_moving host_id target b w names moving =
      set_power_state-move_to host_id target b w names ∙ rw moving refl

  trigger_restart-reboot :
      (host_id : String) (b : BareMetalHost) (w : W)
      → Names host_id b w
      → trigger_restart m host_id w ≡ reboot m host_id b w
  unfolding trigger_restart ◌>>=◌
  trigger_restart-reboot host_id b w names = rw (get_bmh-found host_id b w names) refl

  abbrev rebooting : BareMetalHost → BareMetalHost
  rebooting b = record b { annotations = insert m.server.reboot_annotation "" b.annotations }

  reboot-held :
      (host_id : String) (b : BareMetalHost) (w : W)
      → held b.namespace b.name w ≡ ok b
      → (reboot m host_id b w).0 ≡ none
      → held b.namespace b.name (reboot m host_id b w).1 ≡ ok (rebooting b)
  unfolding reboot ◌>>=◌
  reboot-held host_id b w found h =
      ground (arith, found, lawful.annotates b m.server.reboot_annotation "" w found)

  rebooting-is_rebooting : (b : BareMetalHost) → is_rebooting m (rebooting b) ≡ true
  rebooting-is_rebooting b = ground (
    arith,
    lookup-insert m.server.reboot_annotation m.server.reboot_annotation "" b.annotations,
    eq_refl m.server.reboot_annotation,
  )

  is_restart_complete-found :
      (host_id : String) (b : BareMetalHost) (w : W)
      → Names host_id b w
      → (is_restart_complete m host_id w).0 ≡ ok (not (is_rebooting m b))
  unfolding is_restart_complete ◌>>=◌
  is_restart_complete-found host_id b w names = rw (get_bmh-found host_id b w names) refl

  reboot_again :
      (host_id : String) (b : BareMetalHost) (w : W)
      → is_rebooting m b ≡ true
      → reboot m host_id b w ≡ (some (wrap ("host " <> host_id) transitioning), w)
  unfolding reboot ◌>>=◌
  reboot_again host_id b w busy = rw busy refl

  -- Of a Metal3 server that behaves as documented: right after a TriggerRestart that returns no
  -- error, IsRestartComplete answers no, and another TriggerRestart is refused with the transition
  -- error and changes nothing.
  pub is_restart_complete-trigger_restart :
      (host_id : String) (b : BareMetalHost) (w : W)
      → Names host_id b w
      → (trigger_restart m host_id w).0 ≡ none
      → let next = (trigger_restart m host_id w).1 in
        ((is_restart_complete m host_id next).0 ≡ ok false)
        × (trigger_restart m host_id next ≡ (some (wrap ("host " <> host_id) transitioning), next))
  is_restart_complete-trigger_restart host_id b w names h =
      let first = trigger_restart-reboot host_id b w names in
      let next = (reboot m host_id b w).1 in
      let names_next : Names host_id (rebooting b) next = record {
        parsed = names.parsed;
        inside = names.inside;
        found = reboot-held host_id b w names.found (rw first at h);
      } in
      let busy = rebooting-is_rebooting b in
      rw first (
        is_restart_complete-found host_id (rebooting b) next names_next ∙ rw busy refl,
        trigger_restart-reboot host_id (rebooting b) next names_next
            ∙ reboot_again host_id (rebooting b) next busy,
      )
