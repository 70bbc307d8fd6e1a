-- ===== src/Pool/Reconcile.antt =====
-- Reconcile of a pool.
use bare_metal_operator.Prelude.{String, some, if◌then◌else◌}
use bare_metal_operator.Shared.{Outcome, done, ignore_not_found}
use bare_metal_operator.Effect.{◌>>=◌, ◌>>◌, pure, on_error, on_res}
use bare_metal_operator.Api.Pool.{BareMetalPool, BareMetalPoolStatus}
use bare_metal_operator.Pool.State.{Reconciler, Handler, pool, change, act, update_status}
use bare_metal_operator.Pool.Update.{handle_update}
use bare_metal_operator.Pool.Delete.{handle_deletion}

module _ {W : Type 0} (r : Reconciler W) where
  -- The write of the status, if the handlers changed it.
  unfoldable pub write_status : BareMetalPoolStatus → Outcome → Handler W Outcome
  write_status old outcome = do
    p ← pool
    if r.client.same_status p.status old then pure outcome else do
      e ← update_status r
      on_error (ignore_not_found e) (λ x. pure (outcome.0, some x)) (pure outcome)

  unfoldable pub reconcile_pool : BareMetalPool → Handler W Outcome
  reconcile_pool p = do
    change (λ _. p)
    outcome ← (if p.deleting then handle_deletion r else handle_update r)
    write_status p.status outcome

  unfoldable pub reconcile : String → Handler W Outcome
  reconcile name = do
    answer ← act (r.client.get name)
    on_res answer (λ e. pure (done, ignore_not_found (some e))) reconcile_pool
