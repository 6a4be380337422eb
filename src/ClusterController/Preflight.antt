-- ===== src/ClusterController/Preflight.antt =====
-- checkCloudControllerManager and checkClusterAPICore of
-- internal/controller/alibabacloudcluster_controller.go.
use openshift_capi_alicloud.Prelude.{
  ◌+◌, ltb, length, String, Bool, true, false, List, [], ◌∷◌, ◌++◌, Result, ok, err, Message, empty,
  sprintf, str, num, strs, contains, string_eq, if◌then◌else◌, not, ◌&&◌,
}
use openshift_capi_alicloud.Api.Types.{
  cloud_controller_manager_ready_condition, nodes_awaiting_cloud_provider_reason,
  cloud_controller_manager_healthy_reason, cluster_api_core_ready_condition,
  bundled_capi_core_reason, reusing_hosted_capi_core_reason, multiple_capi_cores_conflict_reason,
}
use openshift_capi_alicloud.ClusterController.{
  set_cluster_condition, modify_cluster, ClusterRun, WorkerNode, ClusterApi,
}
use openshift_capi_alicloud.CapiCore.{
  CapiCoreMode, bundled, reused, conflict, no_core, detect_capi_core_namespaces, classify_capi_core,
  ocp_hosted_capi_namespace,
}

abbrev pub uninitialized_taint_key : String
uninitialized_taint_key = "node.cloudprovider.kubernetes.io/uninitialized"

-- Not created after now less the grace period, and tainted.
abbrev pub is_stuck : ClusterApi → WorkerNode → Bool
is_stuck api n =
    not (ltb api.now (n.created + api.ccm_grace_period))
    && contains n.taints uninitialized_taint_key

unfoldable pub stuck_nodes : ClusterApi → List WorkerNode → List String
stuck_nodes api [] = []
stuck_nodes api (n ∷ ns) =
    if is_stuck api n then n.name ∷ stuck_nodes api ns else stuck_nodes api ns

abbrev pub record_event : ClusterApi → String → Message → ClusterRun → ClusterRun
record_event api reason message s =
    if api.has_recorder
    then record s { events = s.events ++ (record { reason = reason; message = message } ∷ []) }
    else s

abbrev pub report : ClusterApi → String → Bool → String → Message → ClusterRun → ClusterRun
report api type is_true reason message = modify_cluster (
    set_cluster_condition api.kube
      (record { type = type; is_true = is_true; reason = reason; message = message }))

abbrev pub stuck_message : ClusterApi → List String → Message
stuck_message api stuck =
    sprintf
      "%d Node(s) stuck with the %q taint for over %s — is the Alibaba cloud-controller-manager (CCM) running? CAPA does not initialize Nodes; without the CCM, workers never become Ready. Nodes: %v"
      (num (length stuck)
        ∷ str uninitialized_taint_key
        ∷ num api.ccm_grace_period
        ∷ strs stuck
        ∷ [])

abbrev pub report_stuck : ClusterApi → List String → ClusterRun → ClusterRun
report_stuck api [] s =
    report api cloud_controller_manager_ready_condition true cloud_controller_manager_healthy_reason
      empty s
report_stuck api (n ∷ ns) s =
    record_event api nodes_awaiting_cloud_provider_reason (stuck_message api (n ∷ ns)) (
      report api cloud_controller_manager_ready_condition false nodes_awaiting_cloud_provider_reason
        (stuck_message api (n ∷ ns)) s)

abbrev pub report_nodes : ClusterApi → Result (List WorkerNode) → ClusterRun → ClusterRun
report_nodes api (err e) s = s
report_nodes api (ok nodes) s = report_stuck api (stuck_nodes api nodes) s

unfoldable pub check_cloud_controller_manager : ClusterApi → ClusterRun → ClusterRun
check_cloud_controller_manager api s = report_nodes api api.list_nodes s

abbrev pub conflict_message : List String → Message
conflict_message namespaces =
    sprintf
      "Cluster API core (cluster.x-k8s.io) detected in multiple namespaces %v — a self-bundled core and the OCP-hosted core (cluster-capi-operator) are mutually exclusive and will fight over the shared CRDs/webhooks/leader election. Run provider-only against the OCP-hosted core, or remove the OCP-hosted core and keep the self-bundled one."
      (strs namespaces ∷ [])

-- namespaces[0], where there is one.
abbrev pub first : List String → String
first [] = ""
first (n ∷ _) = n

abbrev pub report_mode : ClusterApi → List String → CapiCoreMode → ClusterRun → ClusterRun
report_mode api namespaces conflict s =
    record_event api multiple_capi_cores_conflict_reason (conflict_message namespaces) (
      report api cluster_api_core_ready_condition false multiple_capi_cores_conflict_reason
        (conflict_message namespaces) s)
report_mode api namespaces reused s =
    report api cluster_api_core_ready_condition true reusing_hosted_capi_core_reason
      (sprintf "reusing the OCP-hosted Cluster API core in %q (provider-only)"
        (str ocp_hosted_capi_namespace ∷ []))
      s
report_mode api namespaces bundled s =
    report api cluster_api_core_ready_condition true bundled_capi_core_reason
      (sprintf "using the self-bundled Cluster API core in %q" (str (first namespaces) ∷ [])) s
report_mode api namespaces no_core s = s

abbrev pub report_core : ClusterApi → Result (List String) → ClusterRun → ClusterRun
report_core api (err e) s = s
report_core api (ok namespaces) s = report_mode api namespaces (classify_capi_core namespaces) s

unfoldable pub check_cluster_api_core : ClusterApi → ClusterRun → ClusterRun
check_cluster_api_core api s =
    report_core api (detect_capi_core_namespaces api.sort_strings api.list_core_deployments) s
