-- ===== src/MachineController/Reconcile.antt =====
-- Reconcile of internal/controller/alibabacloudmachine_controller.go, around reconcileNormal and
-- reconcileDelete.
use openshift_capi_alicloud.Prelude.{
  String, Bool, Option, none, some, [], Result, ok, err, wrapped, if◌then◌else◌,
}
use openshift_capi_alicloud.Api.Cluster.{AlibabaCloudCluster}
use openshift_capi_alicloud.Api.Kube.{found, not_found, failed, Fetched, Machine, Outcome, finished}
use openshift_capi_alicloud.Api.Machine.{AlibabaCloudMachine}
use openshift_capi_alicloud.MachineController.Context.{Ctl, Runtime}
use openshift_capi_alicloud.MachineController.Delete.{reconcile_delete}
use openshift_capi_alicloud.MachineController.Normal.{reconcile_normal}

-- clusterv1.Cluster: what is read of it.
pub record OwnerCluster : Type 0 where
  pub name : String
  pub infrastructure_ref_name : String

-- The Gets, util.GetOwnerMachine, util.GetClusterFromMetadata, annotations.IsPaused, patch.NewHelper
-- and its Patch from the first machine to the second.
pub record Surroundings : Type 0 where
  pub get : Fetched AlibabaCloudMachine
  pub owner_machine : AlibabaCloudMachine → Result (Option Machine)
  pub cluster_of : Machine → Result (Option OwnerCluster)
  pub is_paused : OwnerCluster → AlibabaCloudMachine → Bool
  pub get_alibaba_cloud_cluster : (namespace name : String) → Result AlibabaCloudCluster
  pub patch_helper : AlibabaCloudMachine → Result (Unit {0})
  pub patch : (before after : AlibabaCloudMachine) → Result (Unit {0})

module _ {E : Type 0} (rt : Runtime E) (around : Surroundings) where
  abbrev pub with_infrastructure :
      Machine → Result AlibabaCloudCluster → Ctl E → Result Outcome × Ctl E
  with_infrastructure machine (err e) s =
      (err (wrapped "failed to get AlibabaCloudCluster: %w" [] e), s)
  with_infrastructure machine (ok cluster) s = reconcile_normal rt machine cluster s

  abbrev pub with_cluster : Machine → Result (Option OwnerCluster) → Ctl E → Result Outcome × Ctl E
  with_cluster machine (err e) s = (
    err (
        wrapped
          "AlibabaCloudMachine owner Machine is missing cluster label or cluster does not exist: %w"
          [] e),
    s,
  )
  with_cluster machine (ok none) s = (ok finished, s)
  with_cluster machine (ok (some cluster)) s =
      if around.is_paused cluster s.machine
      then (ok finished, s)
      else with_infrastructure machine
          (around.get_alibaba_cloud_cluster s.machine.metadata.namespace
            cluster.infrastructure_ref_name)
          s

  abbrev pub with_owner : Result (Option Machine) → Ctl E → Result Outcome × Ctl E
  with_owner (err e) s = (err e, s)
  with_owner (ok none) s = (ok finished, s)
  with_owner (ok (some machine)) s = with_cluster machine (around.cluster_of machine) s

  -- A deletion comes before the lookups of the owners.
  unfoldable pub body : Ctl E → Result Outcome × Ctl E
  body s =
      if s.machine.metadata.is_deleted
      then reconcile_delete rt s
      else with_owner (around.owner_machine s.machine) s

  -- The result, and the run whose machine was patched, when it came to that.
  abbrev pub Reconciled : Type 0
  Reconciled = Result Outcome × (E × Option AlibabaCloudMachine)

  -- The deferred Patch: its error shows only when there was none.
  abbrev pub patched : Result (Unit {0}) → Result Outcome × Ctl E → Reconciled
  patched (ok _) (r, t) = (r, (t.env, some t.machine))
  patched (err p) (ok _, t) = (err p, (t.env, some t.machine))
  patched (err p) (err e, t) = (err e, (t.env, some t.machine))

  abbrev pub deferred : AlibabaCloudMachine → Result Outcome × Ctl E → Reconciled
  deferred before (r, t) = patched (around.patch before t.machine) (r, t)

  abbrev pub with_helper : Result (Unit {0}) → Ctl E → Reconciled
  with_helper (err e) s = (err e, (s.env, none))
  with_helper (ok _) s = deferred s.machine (body s)

  abbrev pub with_fetched : Fetched AlibabaCloudMachine → E → Reconciled
  with_fetched not_found e = (ok finished, (e, none))
  with_fetched (failed x) e = (err x, (e, none))
  with_fetched (found m) e = with_helper (around.patch_helper m) (record { env = e; machine = m })

  unfoldable pub reconcile : E → Reconciled
  unfolding body
  reconcile e = with_fetched around.get e
