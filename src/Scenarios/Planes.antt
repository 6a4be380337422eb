-- ===== src/Scenarios/Planes.antt =====
-- Control planes, machine templates and the watch, in the small world.
use openshift_capi_alicloud.Prelude.{
  false, none, some, [], ok, ◌↔◌, ◌≤◌, Elem, length, string_eq, int_eq,
}
use openshift_capi_alicloud.Api.ControlPlane.{AlibabaCloudControlPlane}
use openshift_capi_alicloud.Api.Kube.{found}
use openshift_capi_alicloud.Api.Reconciling.{Surroundings}
use openshift_capi_alicloud.ControlPlane.{reconcile_external}
use openshift_capi_alicloud.ControlPlane.Adoption.{Account, reconcile-Account}
use openshift_capi_alicloud.Watch.{
  Request, Refers, enqueue_alibaba_cloud_cluster_for_cluster,
  enqueue_alibaba_cloud_cluster_for_cluster_iff,
}
use openshift_capi_alicloud.Scenarios.World.{kube, kube-KubeLaws, endpoint, worker_meta}
use openshift_capi_alicloud.ControlPlane
use openshift_capi_alicloud.Watch

abbrev plane : AlibabaCloudControlPlane
plane = record {
  metadata = worker_meta;
  spec = record { mode = "external"; version = "v1.33.0"; control_plane_endpoint = endpoint };
  status = record {
    ready = false;
    external_managed_control_plane = none;
    initialization = none;
    version = "";
    conditions = [];
  };
}

abbrev around : AlibabaCloudControlPlane → Surroundings AlibabaCloudControlPlane
around cp = record {
  get = found cp;
  owner_cluster = λ _. ok (some "c1");
  is_paused = λ _ _. false;
  patch_helper = λ _. ok tt;
  patch = λ _ _. ok tt;
}

reconcile-Account_example :
    Account kube kube-KubeLaws (around plane) (ControlPlane.reconcile kube (around plane))
reconcile-Account_example = reconcile-Account kube kube-KubeLaws (around plane)

abbrev core_cluster : Watch.CoreCluster
core_cluster = record {
  namespace = "default";
  infrastructure_ref = record {
    api_group = "infrastructure.cluster.x-k8s.io";
    kind = "AlibabaCloudCluster";
    name = "c1";
  };
}

abbrev request : Request
request = record { namespace = "default"; name = "c1" }

enqueue_alibaba_cloud_cluster_for_cluster_iff_example :
    (Elem request (enqueue_alibaba_cloud_cluster_for_cluster (Watch.cluster core_cluster))
      ↔ Refers (Watch.cluster core_cluster) request)
    × (length (enqueue_alibaba_cloud_cluster_for_cluster (Watch.cluster core_cluster)) ≤ 1)
enqueue_alibaba_cloud_cluster_for_cluster_iff_example =
    enqueue_alibaba_cloud_cluster_for_cluster_iff (Watch.cluster core_cluster) request
