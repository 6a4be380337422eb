-- ===== src/Client/Sdk.antt =====
-- What the client uses of the Alibaba Cloud SDK and of Go's runtime: requests and responses with
-- the fields that it writes and reads, and the calls as a parameter over an unknown cloud `W`.
use openshift_capi_alicloud.Prelude.{
  ℕ, ℤ, String, Bool, Option, none, some, List, Result, ServerError, Error, server, terminal,
  errorf, wrapped, foreign,
}

pub record Pair : Type 0 where
  pub key : String
  pub value : String

-- ecs.DescribeInstancesRequest: by identifiers, or by region and tag.
pub record DescribeInstancesRequest : Type 0 where
  pub region_id : String
  pub instance_ids : Option String
  pub tag : List Pair

pub record Instance : Type 0 where
  pub instance_id : String
  pub status : String
  pub host_name : String
  pub inner_ip_address : List String
  pub public_ip_address : List String

pub record StopInstanceRequest : Type 0 where
  pub instance_id : String
  pub force_stop : Bool

pub record DeleteInstanceRequest : Type 0 where
  pub instance_id : String
  pub force : Bool

pub record ModifyMetadataRequest : Type 0 where
  pub instance_id : String
  pub http_endpoint : String
  pub http_tokens : String
  pub http_put_response_hop_limit : Option ℤ

pub record RunInstancesDataDisk : Type 0 where
  pub category : String
  pub size : ℤ  -- printed in decimal
  pub performance_level : String
  pub kms_key_id : String
  pub delete_with_instance : String
  pub encrypted : Option Bool

-- Numbers that the source prints in decimal are kept as numbers; a field that the source leaves
-- unset is empty or `none`.
pub record RunInstancesRequest : Type 0 where
  pub region_id : String
  pub zone_id : String
  pub instance_type : String
  pub image_id : String
  pub instance_name : String
  pub host_name : String
  pub vswitch_id : String
  pub system_disk_category : String
  pub system_disk_size : ℤ
  pub system_disk_performance_level : String
  pub ram_role_name : String
  pub user_data : List ℕ
  pub resource_group_id : String
  pub amount : ℕ
  pub client_token : String
  pub query_params : List Pair
  pub spot_strategy : String
  pub spot_price_limit : Option ℤ
  pub http_endpoint : String
  pub http_tokens : String
  pub http_put_response_hop_limit : Option ℤ
  pub security_group_ids : List String
  pub data_disk : List RunInstancesDataDisk
  pub tag : List Pair

pub record ChildrenRequest : Type 0 where
  pub region_id : String
  pub instance_id : String

pub record TagResourcesRequest : Type 0 where
  pub region_id : String
  pub resource_type : String
  pub resource_id : List String
  pub tag : List Pair

-- ecs.InstanceType: what the client reads of it. The memory is the bit pattern of a float64, in GiB.
pub record InstanceType : Type 0 where
  pub instance_type_id : String
  pub cpu_core_count : ℤ
  pub memory_size : ℕ

-- The calls of an ecs.Client, which is made for one region. `int63n k n` is the k-th value that rand.Int63n(n) gives, and
-- `mib_of_gib x` is int64(x * 1024) in Go's arithmetic of float64.
pub record Sdk (W : Type 0) : Type 0 where
  pub describe_instances : DescribeInstancesRequest → W → Result (List Instance) × W
  pub run_instances : RunInstancesRequest → W → Result (List String) × W
  pub stop_instance : StopInstanceRequest → W → Result (Unit {0}) × W
  pub delete_instance : DeleteInstanceRequest → W → Result (Unit {0}) × W
  pub modify_metadata : ModifyMetadataRequest → W → Result (Unit {0}) × W
  pub describe_disks : ChildrenRequest → W → Result (List String) × W
  pub describe_network_interfaces : ChildrenRequest → W → Result (List String) × W
  pub tag_resources : TagResourcesRequest → W → Result (Unit {0}) × W
  pub describe_instance_types : List String → W → Result (List InstanceType) × W
  pub int63n : ℕ → ℕ → ℕ
  pub mib_of_gib : ℕ → ℤ

-- What the client leaves behind outside the cloud: metrics (pkg/metrics, without the latencies)
-- and pauses, in nanoseconds.
pub data Effect : Type 0 where
  cloud_api : (operation : String) (failed : Bool) → Effect
  throttle_retry : (operation : String) → Effect
  instance_op : (action : String) (failed : Bool) → Effect
  sleep : ℕ → Effect

-- The newest effect is at the head; `draws` counts the random numbers taken.
pub record Env (W : Type 0) : Type 0 where
  pub cloud : W
  pub trace : List Effect
  pub draws : ℕ

-- errors.As to *sdkerrors.ServerError: the first one in the chain of wrapped errors.
unfoldable pub server_error : Error → Option ServerError
server_error (server e) = some e
server_error (terminal _ _ _) = none
server_error (errorf _ _) = none
server_error (wrapped _ _ e) = server_error e
server_error (foreign _) = none
