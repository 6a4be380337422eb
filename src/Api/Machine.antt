-- ===== src/Api/Machine.antt =====
-- api/v1beta1/alibabacloudmachine_types.go. An optional text is `Option` where the source has a
-- pointer, and is empty where it has a plain string.
use openshift_capi_alicloud.Prelude.{ℤ, String, Bool, Option, List, Message}
use openshift_capi_alicloud.Api.Cluster.{IgnitionOssRef}
use openshift_capi_alicloud.Api.Kube.{ObjectMeta, Condition, MachineAddress}
use openshift_capi_alicloud.Api.Types.{Tag, SystemDisk, DataDisk, InstanceState}

abbrev pub machine_finalizer : String
machine_finalizer = "alibabacloudmachine.infrastructure.cluster.x-k8s.io"

pub record MetadataOptions : Type 0 where
  pub http_endpoint : String
  pub http_tokens : String
  pub http_tokens_after_boot : String
  pub http_put_response_hop_limit : ℤ

-- The price limit is a float64 in the source; here it counts units of a fixed small fraction.
-- The two secret references are the names in them.
pub record AlibabaCloudMachineSpec : Type 0 where
  pub provider_id : Option String
  pub instance_type : String
  pub image_id : String
  pub region_id : String
  pub zone_id : String
  pub security_group_ids : List String
  pub vswitch_id : String
  pub system_disk : Option SystemDisk
  pub data_disks : Option (List DataDisk)  -- a slice, nil or not
  pub ram_role_name : String
  pub spot_strategy : String
  pub spot_price_limit : Option ℤ
  pub tags : List Tag
  pub metadata_options : Option MetadataOptions
  pub user_data_secret : Option String
  pub credentials_secret : Option String

-- `initialization` is the `provisioned` field of the source's one-field struct.
pub record AlibabaCloudMachineStatus : Type 0 where
  pub ready : Bool
  pub initialization : Option (Option Bool)
  pub instance_id : Option String
  pub instance_state : Option InstanceState
  pub metadata_hardened : Option Bool
  pub addresses : List MachineAddress
  pub conditions : List Condition
  pub failure_reason : Option String
  pub failure_message : Option Message
  pub ignition_oss : Option IgnitionOssRef

pub record AlibabaCloudMachine : Type 0 where
  pub metadata : ObjectMeta
  pub spec : AlibabaCloudMachineSpec
  pub status : AlibabaCloudMachineStatus
