-- ===== src/OpenStack/Reconnect.antt =====
-- Authentication failures: isAuthError and reconnect of internal/inventory/openstack.go and
-- internal/management/openstack.go, and the operations that are tried again.
use bare_metal_operator.Prelude.{
  String, Bool, true, false, Option, none, some, ◌==◌, ◌<>◌, if◌then◌else◌,
}
use bare_metal_operator.Shared.{
  Error, new, wrap, ApiError, unauthorized, unable_to_reauthenticate, error_after_reauthentication,
  conflict, api_error, Res, ok, err,
}
use bare_metal_operator.Effect.{M, ◌>>=◌, ◌>>◌, pure, on_error, on_res}
use bare_metal_operator.OpenStack.{Ironic, Session}

abbrev is_authentication : Option ApiError → Bool
is_authentication (some unauthorized) = true
is_authentication (some unable_to_reauthenticate) = true
is_authentication (some error_after_reauthentication) = true
is_authentication _ = false

-- The two functions of that name are the same.
unfoldable pub is_auth_error : Error → Bool
is_auth_error e = is_authentication (api_error e)

-- gophercloud.ResponseCodeIs(err, http.StatusConflict)
abbrev is_conflict : Option ApiError → Bool
is_conflict (some conflict) = true
is_conflict _ = false

unfoldable pub is_conflict_error : Error → Bool
is_conflict_error e = is_conflict (api_error e)

abbrev pub wrapped : {A : Type 0} → String → Res A → Res A
wrapped text (ok a) = ok a
wrapped text (err e) = err (wrap text e)

module _ {C W : Type 0} where
  -- A request with the client in use.
  unfoldable pub request : {A : Type 0} → (C → W → A × W) → M (Session C W) A
  request f s = let (a, w) = f s.client s.world in (a, record s { world = w })

  unfoldable pub use_client : C → M (Session C W) (Unit {0})
  use_client c s = (tt, record s { client = c })

module _ {C W : Type 0} (ironic : Ironic C W) where
  abbrev pub SessionHandler : Type 0 → Type 0
  SessionHandler A = M (Session C W) A

  -- The new client of the inventory.
  unfoldable pub inventory_reconnect : SessionHandler (Option Error)
  inventory_reconnect = do
    answer ← request (λ c. ironic.new_service_client)
    on_res answer (λ e. pure (some (wrap "failed to recreate baremetal client" e)))
        (λ c. do use_client c; pure none)

  -- The body that FindFreeHost, AssignHost and UnassignHost share: an authentication error leads to
  -- one new client and one more attempt.
  unfoldable pub after_reconnect :
      {A : Type 0} → String → SessionHandler (Res A) → SessionHandler (Res A)
  after_reconnect text operation = do
    e ← inventory_reconnect
    on_error e (λ x. pure (err (wrap (text <> ": reconnect failed") x)))
        (do answer ← operation; pure (wrapped (text <> " after reconnect") answer))

  unfoldable pub retrying : {A : Type 0} → String → SessionHandler (Res A) → SessionHandler (Res A)
  retrying text operation = do
    answer ← operation
    on_res answer (λ e. if is_auth_error e then after_reconnect text operation else pure (err e))
        (λ a. pure (ok a))

  abbrev pub checked_client : Option C → SessionHandler (Option Error)
  checked_client none = pure (some (new "failed to recreate baremetal client: nil service client"))
  checked_client (some c) =
      if ironic.endpoint c == ""
      then pure (some (new "recreated baremetal client has no endpoint configured"))
      else do use_client c; pure none

  -- The new client of the management backend.
  unfoldable pub reconnect : SessionHandler (Option Error)
  reconnect = do
    answer ← request (λ c. ironic.new_management_client)
    on_res answer (λ e. pure (some (wrap "failed to recreate baremetal client" e))) checked_client

  unfoldable pub with_auth_retry : {A : Type 0} → (C → W → Res A × W) → SessionHandler (Res A)
  with_auth_retry operation = do
    answer ← request operation
    on_res answer
        (λ e.
          if is_auth_error e
          then (do
            x ← reconnect
            on_error x (λ y. pure (err (wrap "reconnect failed" y))) (request operation))
          else pure (err e))
        (λ a. pure (ok a))
