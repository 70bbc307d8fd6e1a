-- ===== src/OpenStack/Twice.antt =====
-- The second attempt of the operations of the OpenStack inventory, for a property of the owners
-- before and after an operation and of its answer.
use bare_metal_operator.Prelude.{String, ◌≡◌, subst, inl, inr, Bool-cases, Option-cases}
use bare_metal_operator.Shared.{Error, Res, err, Res-cases}
use bare_metal_operator.Effect.{◌>>=◌}
use bare_metal_operator.Inventory.Contract.{Owners, Same}
use bare_metal_operator.OpenStack.{Ironic, Session, Node}
use bare_metal_operator.OpenStack.Reconnect.{
  is_auth_error, request, use_client, SessionHandler, inventory_reconnect, after_reconnect,
  retrying,
}
use bare_metal_operator.OpenStack.Owners.{owners, owners-Unchanged, IsIronic}

-- What the property allows: an error without a change, a change of nothing before it, another
-- attempt behind an error, and another error.
pub record AllowsRetry {A : Type 0} (P : Owners → Owners → Res A → Type 0) : Type 0 where
  pub fails : (first second : Owners) (e : Error) → Same first second → P first second (err e)
  pub starts :
      (first second third : Owners) (answer : Res A)
      → Same first second
      → P second third answer
      → P first third answer
  pub repeats :
      (first second third : Owners) (failure answer : Res A) (e : Error)
      → failure ≡ err e
      → P first second failure
      → P second third answer
      → P first third answer
  pub rewords :
      (first second : Owners) (failure : Res A) (e x : Error)
      → failure ≡ err e
      → P first second failure
      → P first second (err x)

module _ {C W A : Type 0} (ironic : Ironic C W) (held : String → W → Res Node)
    (lawful : IsIronic ironic held) (P : Owners → Owners → Res A → Type 0) (allows : AllowsRetry P)
    (text : String) (operation : SessionHandler ironic (Res A)) where
  abbrev At : Session C W → Res A × Session C W → Type 0
  At s result = P (owners held s.world) (owners held result.1.world) result.0

  inventory_reconnect-Same :
      (s : Session C W)
      → Same (owners held s.world) (owners held (inventory_reconnect ironic s).1.world)
  unfolding inventory_reconnect request use_client ◌>>=◌
  inventory_reconnect-Same s = elim (Res-cases (ironic.new_service_client s.world).0) [
    | inl (c, made) ↦ rw made (owners-Unchanged held _ _ (lawful.logs_in s.world))
    | inr (e, refused) ↦ rw refused (owners-Unchanged held _ _ (lawful.logs_in s.world))
  ]

  module _ (once : (s : Session C W) → At s (operation s)) where
    after_reconnect-At : (s : Session C W) → At s (after_reconnect ironic text operation s)
    unfolding after_reconnect ◌>>=◌
    after_reconnect-At s =
        let (e, t) = inventory_reconnect ironic s in
        let same = inventory_reconnect-Same s in
        elim (Option-cases e) [
          | inr (x, refused) ↦ rw refused (allows.fails _ _ _ same)
          | inl connected ↦ elim (Res-cases (operation t).0) [
            | inl (a, done) ↦
                rw (connected, done) (allows.starts _ _ _ _ same (subst (P _ _) done (once t)))
            | inr (y, failed) ↦
                rw (connected, failed)
                  (allows.starts _ _ _ _ same (allows.rewords _ _ _ y _ failed (once t)))
          ]
        ]

    pub retrying-At : (s : Session C W) → At s (retrying ironic text operation s)
    unfolding retrying ◌>>=◌
    retrying-At s = elim (Res-cases (operation s).0) [
      | inl (a, done) ↦ rw done (subst (P _ _) done (once s))
      | inr (e, failed) ↦ elim (Bool-cases (is_auth_error e)) [
        | inl expired ↦
            rw (failed, expired)
              (allows.repeats _ _ _ _ _ e failed (once s) (after_reconnect-At (operation s).1))
        | inr plain ↦ rw (failed, plain) (subst (P _ _) failed (once s))
      ]
    ]
