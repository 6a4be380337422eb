-- ===== src/Client/Interface.antt =====
-- The part of the interface `Client` of pkg/client/client.go that the controllers use, with its
-- parameter and result types (pkg/client/capi.go, pkg/client/oss.go). `E` is what the calls act on.
use openshift_capi_alicloud.Prelude.{
  ℕ, ℤ, String, Bool, Option, List, [], ◌∷◌, Action, ◌==◌, string_eq, if◌then◌else◌,
}

pub record Tag : Type 0 where
  pub key : String
  pub value : String

pub record DataDiskParam : Type 0 where
  pub category : String
  pub size : ℤ
  pub performance_level : String
  pub encrypted : Option Bool
  pub kms_key_id : String

pub record CreateInstanceParams : Type 0 where
  pub region_id : String
  pub zone_id : String
  pub instance_type : String
  pub image_id : String
  pub instance_name : String
  pub host_name : String
  pub security_group_ids : List String
  pub vswitch_id : String
  pub system_disk_category : String
  pub system_disk_size : ℤ
  pub system_disk_performance_level : String
  pub system_disk_encrypted : Option Bool
  pub system_disk_kms_key_id : String
  pub data_disks : List DataDiskParam
  pub ram_role_name : String
  pub user_data : List ℕ  -- base64, a text in the source
  pub tags : List Tag
  pub resource_group_id : String
  pub spot_strategy : String
  pub spot_price_limit : Option ℤ
  pub http_endpoint : String
  pub http_tokens : String
  pub http_put_response_hop_limit : ℤ
  pub client_token : String

pub record InstanceDescription : Type 0 where
  pub instance_id : String
  pub status : String
  pub host_name : String
  pub inner_ip_address : List String
  pub public_ip_address : List String

-- The body is a list of bytes; `expiry` is a time.Duration, an int64 of nanoseconds.
pub record IgnitionStoreParams : Type 0 where
  pub bucket : String
  pub endpoint : String
  pub region_id : String
  pub key : String
  pub body : List ℕ
  pub expiry : ℤ

-- DescribeInstanceByID returns nil for an instance that does not exist. CreateECSInstance returns
-- the identifier, the one field of its response. InstanceTypeCapacity returns int64s.
pub record Client (E : Type 0) : Type 0 where
  pub describe_instance_by_id : String → Action E (Option InstanceDescription)
  pub create_ecs_instance : CreateInstanceParams → Action E String
  pub delete_ecs_instance : (instance_id : String) (force : Bool) → Action E (Unit {0})
  pub find_instance_by_tag : (region key value : String) → Action E String
  pub modify_instance_metadata :
      (instance_id http_endpoint http_tokens : String) (hop_limit : ℤ) → Action E (Unit {0})
  pub instance_type_capacity : String → Action E (ℤ × ℤ)  -- vCPUs and MiB
  pub put_ignition_object : IgnitionStoreParams → Action E String
  pub delete_ignition_object : IgnitionStoreParams → Action E (Unit {0})

abbrev pub machine_name_tag_key : String
machine_name_tag_key = "k8s.io/cluster-api-machine"

-- The value of the machine's tag, or "" if it is absent.
unfoldable pub machine_tag : List Tag → String
machine_tag [] = ""
machine_tag (t ∷ tags) = if t.key == machine_name_tag_key then t.value else machine_tag tags
