-- ===== src/Instance/Reconcile.antt =====
-- handleUpdate and Reconcile.
use bare_metal_operator.Prelude.{String, not, ◌&&◌, none, some, ◌==◌, if◌then◌else◌}
use bare_metal_operator.Shared.{Res, Outcome, done, runs_template, ignore_not_found}
use bare_metal_operator.Effect.{◌>>=◌, ◌>>◌, pure, on_error, on_res}
use bare_metal_operator.Kube.{status_false}
use bare_metal_operator.Api.Instance.{
  BareMetalInstance, BareMetalInstanceStatus, failed, host_condition_allocated,
  host_condition_provision_template_complete, host_condition_reason_template_failed,
  is_status_condition_true,
}
use bare_metal_operator.Instance.State.{
  Reconciler, Handler, object, change, update_status, set_condition, set_phase,
}
use bare_metal_operator.Instance.Allocate.{reconcile_inventory}
use bare_metal_operator.Instance.Manage.{reconcile_management}
use bare_metal_operator.Instance.Delete.{handle_deletion}

module _ {W : Type 0} (r : Reconciler W) where
  -- A template, and no provider to run it.
  unfoldable pub unconfigured : Handler W Outcome
  unconfigured = do
    set_phase r failed
    o ← object
    set_condition r
        (if is_status_condition_true r.kube host_condition_allocated o
          then host_condition_provision_template_complete
          else host_condition_allocated)
        status_false host_condition_reason_template_failed "Provisioning provider not configured"
    pure (done, none)

  unfoldable pub handle_update : Handler W Outcome
  handle_update = do
    o ← object
    if runs_template o.spec.template_id && not r.has_provider
        then unconfigured
        else if o.spec.host_class == ""
        then reconcile_inventory r
        else reconcile_management r

  -- The write of the status, if the handlers changed it.
  unfoldable pub write_status : BareMetalInstanceStatus → Outcome → Handler W Outcome
  write_status old outcome = do
    o ← object
    if r.client.same_status o.status old then pure outcome else do
      e ← update_status r
      on_error (ignore_not_found e) (λ x. pure (outcome.0, some x)) (pure outcome)

  unfoldable pub reconcile_object : BareMetalInstance → Handler W Outcome
  reconcile_object o = do
    change (λ _. o)
    outcome ← (if o.deleting then handle_deletion r else handle_update)
    write_status o.status outcome

  unfoldable pub read : String → Handler W (Res BareMetalInstance)
  read name s = let (answer, w) = r.client.get name s.world in (answer, record s { world = w })

  unfoldable pub reconcile : String → Handler W Outcome
  reconcile name = do
    answer ← read name
    on_res answer (λ e. pure (done, ignore_not_found (some e))) reconcile_object
