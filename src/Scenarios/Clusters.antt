-- ===== src/Scenarios/Clusters.antt =====
-- Runs of the cluster controller, of the classification of cores and of the webhook.
use openshift_capi_alicloud.Prelude.{
  String, ok, true, none, [], ◌∷◌, refl, ◌≡◌, ◌↔◌, List, contains,
}
use openshift_capi_alicloud.ClusterController.{ClusterApi, ClusterRun, WorkerNode}
use openshift_capi_alicloud.ClusterController.Ending.{Concluded, reconcile_normal-Concluded}
use openshift_capi_alicloud.ClusterController.Preflight.{check_cloud_controller_manager}
use openshift_capi_alicloud.ClusterController.Reconcile.{reconcile_normal}
use openshift_capi_alicloud.ClusterController.Taints.{
  Reported, check_cloud_controller_manager-Reported,
}
use openshift_capi_alicloud.CapiCore.{classify_capi_core, conflict, detect_capi_core_namespaces}
use openshift_capi_alicloud.CapiCore.Laws.{SortLaws, Differ, classify-detect_conflict_iff}
use openshift_capi_alicloud.Webhook.Cluster.{validate_update}
use openshift_capi_alicloud.Webhook.Cluster.Laws.{IsValid, validate_update_iff}
use openshift_capi_alicloud.Scenarios.World.{kube, kube-KubeLaws, cluster}

-- On lists that are sorted already.
kept_order-SortLaws : SortLaws (λ xs. xs)
kept_order-SortLaws = record { same_values = λ x xs. (λ m. m, λ m. m); keeps_distinct = λ xs d. d }

abbrev two_cores : List String
two_cores = "capi-system" ∷ "openshift-cluster-api" ∷ []

classify-detect_conflict_iff_example : (classify_capi_core two_cores ≡ conflict) ↔ Differ two_cores
unfolding detect_capi_core_namespaces contains
classify-detect_conflict_iff_example =
    classify-detect_conflict_iff (λ xs. xs) kept_order-SortLaws two_cores two_cores refl

abbrev late : WorkerNode
late = record {
  name = "worker-9";
  created = 100;
  taints = "node.cloudprovider.kubernetes.io/uninitialized" ∷ [];
}

abbrev api : ClusterApi
api = record {
  kube = kube;
  client_builder = λ region. ok tt;
  list_nodes = ok (late ∷ []);
  list_core_deployments = ok two_cores;
  sort_strings = λ xs. xs;
  now = 1000;
  ccm_grace_period = 300;
  has_recorder = true;
}

abbrev start : ClusterRun
start = record { cluster = cluster; events = [] }

reconcile_normal-Concluded_example : Concluded api start (reconcile_normal api start)
reconcile_normal-Concluded_example = reconcile_normal-Concluded api kube-KubeLaws start

check_cloud_controller_manager-Reported_example :
    Reported api (late ∷ []) (check_cloud_controller_manager api start)
check_cloud_controller_manager-Reported_example =
    check_cloud_controller_manager-Reported api kube-KubeLaws (late ∷ []) start refl

validate_update_iff_example :
    (validate_update cluster cluster ≡ none)
    ↔ (IsValid cluster × (cluster.spec.region ≡ cluster.spec.region))
validate_update_iff_example = validate_update_iff cluster cluster
