-- ===== src/ClusterController.antt =====
-- internal/controller/alibabacloudcluster_controller.go: what a reconcile of a cluster works on, and
-- the steps that its children put together.
pub mod Preflight
pub mod Reconcile
pub mod Ending
pub mod Publication
pub mod Taints
use openshift_capi_alicloud.Prelude.{
  ℕ, String, Bool, true, false, Option, none, some, List, [], ◌∷◌, ◌++◌, Result, ok, err, Message,
  map, not, ◌==◌, string_eq, if◌then◌else◌,
}
use openshift_capi_alicloud.Api.Cluster.{
  AlibabaCloudCluster, AlibabaCloudClusterStatus, cluster_finalizer,
}
use openshift_capi_alicloud.Api.Kube.{Kube, ready_condition, Condition, PublishedDomain}
use openshift_capi_alicloud.Api.Types.{FailureDomain}

-- corev1.Node: what the preflight reads of it; the time is the creation timestamp.
pub record WorkerNode : Type 0 where
  pub name : String
  pub created : ℕ
  pub taints : List String

-- What the reconciler asks. The client that the builder makes is not used further. Deployments are
-- the namespaces of those listed by the label of the Cluster API core.
pub record ClusterApi : Type 0 where
  pub kube : Kube
  pub client_builder : String → Result (Unit {0})
  pub list_nodes : Result (List WorkerNode)
  pub list_core_deployments : Result (List String)
  pub sort_strings : List String → List String
  pub now : ℕ
  pub ccm_grace_period : ℕ
  pub has_recorder : Bool

pub record Event : Type 0 where
  pub reason : String
  pub message : Message

-- The cluster, mutated in place, and the warnings that were recorded.
pub record ClusterRun : Type 0 where
  pub cluster : AlibabaCloudCluster
  pub events : List Event

abbrev pub modify_cluster : (AlibabaCloudCluster → AlibabaCloudCluster) → ClusterRun → ClusterRun
modify_cluster f s = record s { cluster = f s.cluster }

abbrev pub on_cluster_status :
    (AlibabaCloudClusterStatus → AlibabaCloudClusterStatus)
    → AlibabaCloudCluster
    → AlibabaCloudCluster
on_cluster_status f c = record c { status = f c.status }

abbrev pub set_cluster_condition : Kube → Condition → AlibabaCloudCluster → AlibabaCloudCluster
set_cluster_condition k cond =
    on_cluster_status (λ st. record st { conditions = k.set_condition cond st.conditions })

abbrev pub cluster_ready : Bool → String → Message → Condition
cluster_ready is_true reason message = record {
  type = ready_condition;
  is_true = is_true;
  reason = reason;
  message = message;
}

abbrev pub on_cluster_finalizers :
    (List String → List String) → AlibabaCloudCluster → AlibabaCloudCluster
on_cluster_finalizers f c = record c {
  metadata = record (c.metadata) { finalizers = f c.metadata.finalizers };
}

-- A zone as a failure domain of the Cluster API.
abbrev pub publish : FailureDomain → PublishedDomain
publish fd = record {
  name = fd.zone_id;
  control_plane = some false;
  attributes = ("vSwitchID", fd.vswitch_id) ∷ [];
}

abbrev pub set_domains : List FailureDomain → AlibabaCloudCluster → AlibabaCloudCluster
set_domains [] c = c
set_domains (fd ∷ fds) c =
    on_cluster_status (λ st. record st { failure_domains = map publish (fd ∷ fds) }) c

unfoldable pub reconcile_failure_domains :
    AlibabaCloudCluster → Result (Unit {0}) × AlibabaCloudCluster
reconcile_failure_domains c = (ok tt, set_domains c.spec.failure_domains c)

unfoldable pub reconcile_vpc : AlibabaCloudCluster → Result (Unit {0}) × AlibabaCloudCluster
reconcile_vpc c =
    if not (c.status.vpc_id == "")
    then (ok tt, c)
    else if not (c.spec.vpc_id == "")
    then (ok tt, on_cluster_status (λ st. record st { vpc_id = c.spec.vpc_id }) c)
    else (ok tt, c)

unfoldable pub reconcile_control_plane_endpoint :
    AlibabaCloudCluster → Result (Unit {0}) × AlibabaCloudCluster
reconcile_control_plane_endpoint c =
    if not (c.spec.control_plane_endpoint.host == "")
    then (
      ok tt,
      on_cluster_status (λ st. record st { control_plane_endpoint = c.spec.control_plane_endpoint })
          c,
    )
    else (ok tt, c)
