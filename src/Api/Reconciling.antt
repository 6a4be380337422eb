-- ===== src/Api/Reconciling.antt =====
-- What the Reconcile of the cluster and that of the control plane ask around their own work
-- (internal/controller/alibabacloudcluster_controller.go and
-- internal/controller/alibabacloudcontrolplane_controller.go), and their deferred patch.
use openshift_capi_alicloud.Prelude.{String, Bool, Option, some, Result, ok, err}
use openshift_capi_alicloud.Api.Kube.{Fetched, Outcome}

-- The Get, util.GetOwnerCluster (the owner's name), annotations.IsPaused, patch.NewHelper and its
-- Patch from the first object to the second.
pub record Surroundings (C : Type 0) : Type 0 where
  pub get : Fetched C
  pub owner_cluster : C → Result (Option String)
  pub is_paused : String → C → Bool
  pub patch_helper : C → Result (Unit {0})
  pub patch : (before after : C) → Result (Unit {0})

-- The deferred Patch: its error shows only when there was none. What was patched is kept.
abbrev pub patched :
    {S : Type 0} → Result (Unit {0}) → Result Outcome × S → Result Outcome × Option S
patched (ok _) (r, t) = (r, some t)
patched (err p) (ok _, t) = (err p, some t)
patched (err p) (err e, t) = (err e, some t)
