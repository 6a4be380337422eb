-- ===== src/Api/Types.antt =====
-- api/v1beta1/types.go.
use openshift_capi_alicloud.Prelude.{ℤ, String, Bool, Option, List}

abbrev pub cloud_controller_manager_ready_condition : String
cloud_controller_manager_ready_condition = "CloudControllerManagerReady"

abbrev pub nodes_awaiting_cloud_provider_reason : String
nodes_awaiting_cloud_provider_reason = "NodesAwaitingCloudProvider"

abbrev pub cloud_controller_manager_healthy_reason : String
cloud_controller_manager_healthy_reason = "CloudControllerManagerHealthy"

abbrev pub cluster_api_core_ready_condition : String
cluster_api_core_ready_condition = "ClusterAPICoreReady"

abbrev pub bundled_capi_core_reason : String
bundled_capi_core_reason = "BundledCAPICore"

abbrev pub reusing_hosted_capi_core_reason : String
reusing_hosted_capi_core_reason = "ReusingHostedCAPICore"

abbrev pub multiple_capi_cores_conflict_reason : String
multiple_capi_cores_conflict_reason = "MultipleCAPICoresConflict"

-- InstanceState is a string type: the cloud may report any text.
abbrev pub InstanceState : Type 0
InstanceState = String

abbrev pub instance_state_pending : InstanceState
instance_state_pending = "Pending"

abbrev pub instance_state_running : InstanceState
instance_state_running = "Running"

abbrev pub instance_state_stopped : InstanceState
instance_state_stopped = "Stopped"

abbrev pub instance_state_stopping : InstanceState
instance_state_stopping = "Stopping"

abbrev pub instance_state_starting : InstanceState
instance_state_starting = "Starting"

abbrev pub instance_state_deleted : InstanceState
instance_state_deleted = "Deleted"

pub record Tag : Type 0 where
  pub key : String
  pub value : String

pub record SystemDisk : Type 0 where
  pub category : String
  pub size : ℤ
  pub performance_level : String
  pub encrypted : Option Bool
  pub kms_key_id : String

pub record DataDisk : Type 0 where
  pub category : String
  pub size : ℤ
  pub name : String
  pub performance_level : String
  pub encrypted : Option Bool
  pub kms_key_id : String

pub record FailureDomain : Type 0 where
  pub zone_id : String
  pub vswitch_id : String

pub record NetworkInterface : Type 0 where
  pub subnet_id : String
  pub security_group_ids : List String
