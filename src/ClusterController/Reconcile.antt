-- ===== src/ClusterController/Reconcile.antt =====
-- reconcileNormal, reconcileDelete and Reconcile of
-- internal/controller/alibabacloudcluster_controller.go.
use openshift_capi_alicloud.Prelude.{
  Bool, Option, none, String, true, false, some, [], Result, ok, err, wrapped, Action, Message,
  empty, sprintf, of_error, ◌==◌, string_eq, if◌then◌else◌,
}
use openshift_capi_alicloud.Api.Cluster.{cluster_finalizer, AlibabaCloudCluster}
use openshift_capi_alicloud.Api.Kube.{
  found, not_found, failed, Fetched, Outcome, finished, requeue_after,
}
use openshift_capi_alicloud.Api.Reconciling.{patched, Surroundings}
use openshift_capi_alicloud.MachineController.Context.{requeue_delay}
use openshift_capi_alicloud.ClusterController.{
  cluster_ready, on_cluster_finalizers, set_cluster_condition, modify_cluster, on_cluster_status,
  reconcile_control_plane_endpoint, reconcile_vpc, ClusterRun, reconcile_failure_domains,
  ClusterApi,
}
use openshift_capi_alicloud.ClusterController.Preflight.{
  check_cluster_api_core, check_cloud_controller_manager,
}

module _ (api : ClusterApi) where
  abbrev pub not_ready : String → Message → ClusterRun → ClusterRun
  not_ready reason message =
      modify_cluster (set_cluster_condition api.kube (cluster_ready false reason message))

  -- A step on the cluster: its error ends the reconcile, with the Ready condition false.
  abbrev pub guarded :
      String
      → Result (Unit {0}) × AlibabaCloudCluster
      → ClusterRun
      → Action ClusterRun Outcome
      → Result Outcome × ClusterRun
  guarded reason (ok _, c) s next = next (record s { cluster = c })
  guarded reason (err e, c) s next =
      (err e, not_ready reason (of_error e) (record s { cluster = c }))

  abbrev pub set_provisioned : AlibabaCloudCluster → AlibabaCloudCluster
  set_provisioned =
      on_cluster_status (λ st. record st { ready = true; initialization = some (some true) })

  unfoldable pub finish : Action ClusterRun Outcome
  finish s = (
    ok finished,
    modify_cluster
        (λ c.
          set_provisioned (
            set_cluster_condition api.kube (cluster_ready true "AlibabaCloudClusterReady" empty) c))
        (check_cluster_api_core api (check_cloud_controller_manager api s)),
  )

  -- The gate on a host that is empty.
  abbrev pub when_endpoint : Bool → Action ClusterRun Outcome
  when_endpoint true s = (
    ok (requeue_after requeue_delay),
    not_ready "ControlPlaneEndpointMissing"
        (sprintf "spec.controlPlaneEndpoint is required (BYO infrastructure) and is not set" []) s,
  )
  when_endpoint false s = finish s

  abbrev pub with_endpoint : Action ClusterRun Outcome
  with_endpoint s =
      guarded "ControlPlaneEndpointError" (reconcile_control_plane_endpoint s.cluster) s
        (λ s. when_endpoint (s.cluster.status.control_plane_endpoint.host == "") s)

  abbrev pub with_vpc : Action ClusterRun Outcome
  with_vpc s = guarded "VPCReconcileError" (reconcile_vpc s.cluster) s with_endpoint

  abbrev pub with_domains : Action ClusterRun Outcome
  with_domains s = guarded "FailureDomainError" (reconcile_failure_domains s.cluster) s with_vpc

  abbrev pub with_builder : Result (Unit {0}) → Action ClusterRun Outcome
  with_builder (err e) s = (
    err (wrapped "failed to create Alibaba Cloud client: %w" [] e),
    not_ready "AlibabaClientError" (of_error e) s,
  )
  with_builder (ok _) s = with_domains s

  unfoldable pub reconcile_normal : Action ClusterRun Outcome
  reconcile_normal s =
      with_builder (api.client_builder s.cluster.spec.region)
        (modify_cluster (on_cluster_finalizers (api.kube.add_finalizer cluster_finalizer)) s)

  -- deleteSLB and deleteVPC log what is not implemented, and succeed.
  abbrev pub delete_slb : AlibabaCloudCluster → Result (Unit {0})
  delete_slb c = if c.status.slb_instance_id == "" then ok tt else ok tt

  abbrev pub delete_vpc : AlibabaCloudCluster → Result (Unit {0})
  delete_vpc c = if c.status.vpc_id == "" then ok tt else ok tt

  abbrev pub released : Action ClusterRun Outcome
  released s = (
    ok finished,
    modify_cluster (on_cluster_finalizers (api.kube.remove_finalizer cluster_finalizer)) s,
  )

  abbrev pub or_failed : Result (Unit {0}) → Action ClusterRun Outcome → Action ClusterRun Outcome
  or_failed (ok _) next s = next s
  or_failed (err e) next s = (err e, s)

  unfoldable pub reconcile_delete : Action ClusterRun Outcome
  reconcile_delete s =
      or_failed (delete_slb s.cluster)
        (λ s.
          if s.cluster.spec.vpc_id == ""
          then or_failed (delete_vpc s.cluster) released s
          else released s)
        s

module _ (api : ClusterApi) (around : Surroundings AlibabaCloudCluster) where
  -- The result, and what was patched with the warnings of the run, when it came to that.
  abbrev pub Reconciled : Type 0
  Reconciled = Result Outcome × Option ClusterRun

  abbrev pub deferred : AlibabaCloudCluster → Result Outcome × ClusterRun → Reconciled
  deferred before (r, t) = patched (around.patch before t.cluster) (r, t)

  abbrev pub run : AlibabaCloudCluster → Result (Unit {0}) → Reconciled
  run c (err e) = (err e, none)
  run c (ok _) =
      let s : ClusterRun = record { cluster = c; events = [] } in
      if c.metadata.is_deleted
      then deferred c (reconcile_delete api s)
      else deferred c (reconcile_normal api s)

  abbrev pub with_owner : AlibabaCloudCluster → Result (Option String) → Reconciled
  with_owner c (err e) = (err e, none)
  with_owner c (ok none) = (ok finished, none)
  with_owner c (ok (some owner)) =
      if around.is_paused owner c then (ok finished, none) else run c (around.patch_helper c)

  abbrev pub with_fetched : Fetched AlibabaCloudCluster → Reconciled
  with_fetched not_found = (ok finished, none)
  with_fetched (failed e) = (err e, none)
  with_fetched (found c) = with_owner c (around.owner_cluster c)

  unfoldable pub reconcile : Reconciled
  unfolding reconcile_normal reconcile_delete
  reconcile = with_fetched around.get
