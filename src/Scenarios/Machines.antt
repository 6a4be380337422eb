-- ===== src/Scenarios/Machines.antt =====
-- Runs of the machine controller.
use openshift_capi_alicloud.Prelude.{
  differs, none, inr, ◌∷◌, ℕ, pos, some, arith, List, [], trim_prefix, is_blank, contains, Bool,
  true, false, ok, inl, refl, ◌≡◌, ◌≢◌, ◌⊎◌,
}
use openshift_capi_alicloud.Base64.{encode}
use openshift_capi_alicloud.Api.Cluster.{AlibabaCloudCluster, IgnitionStorageSpec}
use openshift_capi_alicloud.Api.Kube.{finished}
use openshift_capi_alicloud.Api.Types.{Tag}
use openshift_capi_alicloud.ProviderId.{region_from_machine, provider_instance_id}
use openshift_capi_alicloud.Client.Interface.{machine_tag}
use openshift_capi_alicloud.MachineController.Context.{Runtime, Ctl}
use openshift_capi_alicloud.MachineController.Create.{
  to_sdk_tags, set_vswitch, set_zone, resolve_failure_domain,
}
use openshift_capi_alicloud.MachineController.Create.Tags.{machine_tag-to_sdk_tags}
use openshift_capi_alicloud.MachineController.Delete.{reconcile_delete, recorded_instance}
use openshift_capi_alicloud.MachineController.Delete.Progress.{reconcile_delete-IsDeleting}
use openshift_capi_alicloud.MachineController.Delete.Safety.{
  reconcile_delete_releases, finalizers_of, NeverCreated, Cleared,
}
use openshift_capi_alicloud.MachineController.Ignition.{
  maybe_offload_user_data, user_data_threshold,
}
use openshift_capi_alicloud.MachineController.Ignition.Offload.{
  Offloads, maybe_offload_user_data-encode,
}
use openshift_capi_alicloud.MachineController.Normal.{reconcile_normal}
use openshift_capi_alicloud.MachineController.Normal.Admitted.{
  validate_machine_immutable-reconcile_normal,
}
use openshift_capi_alicloud.MachineController.Normal.Ending.{
  reconcile_normal-Ended, IsReady, Evidence, IsFailed,
}
use openshift_capi_alicloud.ClusterController.Publication.{resolve-publish}
use openshift_capi_alicloud.Webhook.Cluster.{validate_cluster_spec}
use openshift_capi_alicloud.Webhook.Cluster.Laws.{IsValid, validate_cluster_spec_iff}
use openshift_capi_alicloud.Webhook.Machine.{validate_machine_immutable}
use openshift_capi_alicloud.Scenarios.World.{
  runtime, worker, owner, cluster, cloud_client, running_instance, zone_a,
}

abbrev worker_tags : List Tag
worker_tags = record { key = "team"; value = "a" } ∷ []

abbrev there : Ctl Bool
there = record { env = true; machine = worker }

abbrev gone : Ctl Bool
gone = record { env = false; machine = worker }

reconcile_delete_releases_example :
    ((finalizers_of (reconcile_delete runtime gone).1 ≡ finalizers_of gone)
      × ((reconcile_delete runtime gone).0 ≢ ok finished))
    ⊎ (NeverCreated runtime worker ⊎ Cleared runtime worker false)
reconcile_delete_releases_example = reconcile_delete_releases runtime gone

reconcile_delete-IsDeleting_example :
    ((reconcile_delete runtime there).1.env ≡ false)
    × ((reconcile_delete runtime there).0 ≢ ok finished)
unfolding recorded_instance region_from_machine trim_prefix
reconcile_delete-IsDeleting_example =
    reconcile_delete-IsDeleting runtime there "cn-hangzhou" "i-1" cloud_client running_instance true
      refl (differs "i-1" "" refl) refl refl refl (differs "Running" "Stopping" refl)
      (differs "Running" "Deleted" refl)

reconcile_normal-Ended_example :
    (IsReady (reconcile_normal runtime owner cluster there).1.machine
      × Evidence runtime owner cluster worker true)
    ⊎ IsFailed (reconcile_normal runtime owner cluster there).1.machine
unfolding reconcile_normal resolve_failure_domain provider_instance_id trim_prefix
reconcile_normal-Ended_example = reconcile_normal-Ended runtime owner cluster there refl

cluster-IsValid : IsValid cluster
unfolding validate_cluster_spec is_blank contains
cluster-IsValid = (validate_cluster_spec_iff cluster).0 refl

resolve-publish_example :
    resolve_failure_domain owner cluster worker
    ≡ (ok tt, set_vswitch "vsw-a" (set_zone "cn-hangzhou-a" worker))
resolve-publish_example =
    resolve-publish owner cluster worker zone_a cluster-IsValid refl (inl refl) refl refl

machine_tag-to_sdk_tags_example : machine_tag (to_sdk_tags worker_tags "worker-1" "c1") ≡ "worker-1"
machine_tag-to_sdk_tags_example = machine_tag-to_sdk_tags worker_tags "worker-1" "c1"

has_instance : there.machine.status.instance_id ≢ none
has_instance e = cc

validate_machine_immutable-reconcile_normal_example :
    validate_machine_immutable worker.spec
      (reconcile_normal runtime owner cluster there).1.machine.spec
    ≡ []
validate_machine_immutable-reconcile_normal_example =
    validate_machine_immutable-reconcile_normal runtime owner cluster there (inr has_instance)

abbrev store : IgnitionStorageSpec
store = record {
  oss_bucket = "b";
  oss_endpoint = "";
  expiry_seconds = pos 3600;
  max_user_data_bytes = pos 4;
}

abbrev storing : AlibabaCloudCluster
storing = record cluster { spec = record (cluster.spec) { ignition_storage = some store } }

abbrev raw : List ℕ
raw = 0 ∷ 255 ∷ 7 ∷ 128 ∷ []

abbrev marshalling : Runtime Bool
marshalling = record runtime { marshal_pointer = λ p. ok (123 ∷ 125 ∷ []) }

maybe_offload_user_data-encode_example :
    Offloads marshalling cloud_client storing "cn-hangzhou" store raw there
      (maybe_offload_user_data marshalling cloud_client storing "cn-hangzhou" (encode raw) there)
unfolding encode user_data_threshold
maybe_offload_user_data-encode_example =
    maybe_offload_user_data-encode marshalling cloud_client storing "cn-hangzhou" raw store there
      (omega arith, (omega arith, (omega arith, (omega arith, tt)))) (omega arith) refl
