-- ===== src/ControlPlane.antt =====
-- internal/controller/alibabacloudcontrolplane_controller.go.
pub mod Adoption
use openshift_capi_alicloud.Prelude.{
  String, true, false, Option, none, some, [], ◌∷◌, Result, ok, err, Message, empty, sprintf, str,
  ◌||◌, ◌==◌, string_eq, if◌then◌else◌,
}
use openshift_capi_alicloud.Api.ControlPlane.{
  AlibabaCloudControlPlane, AlibabaCloudControlPlaneStatus, control_plane_mode_external,
}
use openshift_capi_alicloud.Api.Kube.{
  Kube, Condition, ready_condition, Fetched, found, not_found, failed, Outcome, finished,
}
use openshift_capi_alicloud.Api.Reconciling.{Surroundings, patched}

module _ (k : Kube) where
  abbrev pub set_condition :
      Condition → AlibabaCloudControlPlaneStatus → AlibabaCloudControlPlaneStatus
  set_condition cond st = record st { conditions = k.set_condition cond st.conditions }

  abbrev pub adopted : Condition
  adopted = record {
    type = ready_condition;
    is_true = true;
    reason = "ExternalControlPlaneAdopted";
    message = empty;
  }

  abbrev pub unsupported : String → Condition
  unsupported mode = record {
    type = ready_condition;
    is_true = false;
    reason = "UnsupportedMode";
    message =
        sprintf "control plane mode %q is not supported (only %q is implemented)"
          (str mode ∷ str control_plane_mode_external ∷ []);
  }

  unfoldable pub reconcile_external : AlibabaCloudControlPlane → AlibabaCloudControlPlane
  reconcile_external cp = record cp {
    status = set_condition adopted (record (cp.status) {
      external_managed_control_plane = some true;
      initialization = some (record { control_plane_initialized = some true });
      ready = true;
      version = cp.spec.version;
    });
  }

  abbrev pub reconcile_unsupported : AlibabaCloudControlPlane → AlibabaCloudControlPlane
  reconcile_unsupported cp = record cp {
    status = set_condition (unsupported cp.spec.mode) cp.status;
  }

  -- The switch on the mode.
  abbrev pub by_mode : AlibabaCloudControlPlane → AlibabaCloudControlPlane
  by_mode cp =
      if cp.spec.mode == control_plane_mode_external || cp.spec.mode == ""
      then reconcile_external cp
      else reconcile_unsupported cp

  module _ (around : Surroundings AlibabaCloudControlPlane) where
    -- The result, and what was patched, when it came to that.
    abbrev pub Reconciled : Type 0
    Reconciled = Result Outcome × Option AlibabaCloudControlPlane

    -- Nothing after the patch helper fails, so the deferred patch has the last word.
    abbrev pub finish : AlibabaCloudControlPlane → AlibabaCloudControlPlane → Reconciled
    finish before after = patched (around.patch before after) (ok finished, after)

    abbrev pub with_helper : AlibabaCloudControlPlane → Result (Unit {0}) → Reconciled
    with_helper cp (err e) = (err e, none)
    with_helper cp (ok _) = if cp.metadata.is_deleted then finish cp cp else finish cp (by_mode cp)

    -- Without an owner cluster, nothing is paused.
    abbrev pub with_owner : AlibabaCloudControlPlane → Result (Option String) → Reconciled
    with_owner cp (err e) = (err e, none)
    with_owner cp (ok none) = with_helper cp (around.patch_helper cp)
    with_owner cp (ok (some cluster)) =
        if around.is_paused cluster cp
        then (ok finished, none)
        else with_helper cp (around.patch_helper cp)

    abbrev pub with_fetched : Fetched AlibabaCloudControlPlane → Reconciled
    with_fetched not_found = (ok finished, none)
    with_fetched (failed e) = (err e, none)
    with_fetched (found cp) = with_owner cp (around.owner_cluster cp)

    unfoldable pub reconcile : Reconciled
    unfolding reconcile_external
    reconcile = with_fetched around.get
