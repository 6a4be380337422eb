-- ===== src/Api/Cluster.antt =====
-- api/v1beta1/alibabacloudcluster_types.go.
use openshift_capi_alicloud.Prelude.{ℤ, String, Bool, Option, List}
use openshift_capi_alicloud.Api.Kube.{ObjectMeta, Condition, ApiEndpoint, PublishedDomain}
use openshift_capi_alicloud.Api.Types.{Tag, FailureDomain}

abbrev pub cluster_finalizer : String
cluster_finalizer = "alibabacloudcluster.infrastructure.cluster.x-k8s.io"

pub record IgnitionStorageSpec : Type 0 where
  pub oss_bucket : String
  pub oss_endpoint : String
  pub expiry_seconds : ℤ
  pub max_user_data_bytes : ℤ

pub record IgnitionOssRef : Type 0 where
  pub bucket : String
  pub endpoint : String
  pub key : String

pub record AlibabaCloudClusterSpec : Type 0 where
  pub region : String
  pub vpc_id : String
  pub boot_image_id : String
  pub resource_group_id : String
  pub control_plane_endpoint : ApiEndpoint
  pub additional_tags : List Tag
  pub ignition_storage : Option IgnitionStorageSpec
  pub failure_domains : List FailureDomain

-- `initialization` is the `provisioned` field of the source's one-field struct.
pub record AlibabaCloudClusterStatus : Type 0 where
  pub ready : Bool
  pub initialization : Option (Option Bool)
  pub vpc_id : String
  pub control_plane_endpoint : ApiEndpoint
  pub slb_instance_id : String
  pub failure_domains : List PublishedDomain
  pub conditions : List Condition

pub record AlibabaCloudCluster : Type 0 where
  pub metadata : ObjectMeta
  pub spec : AlibabaCloudClusterSpec
  pub status : AlibabaCloudClusterStatus
