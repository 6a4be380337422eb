-- ===== src/Scenarios/Clouds.antt =====
-- Runs of the provider identifiers, and of the retries.
use openshift_capi_alicloud.Prelude.{
  differs, pos, ◌*◌, List, subst, ◌∷◌, none, refl, [], ℕ, zero, suc, Result, ok, err, server, ◌≡◌,
  arith,
}
use openshift_capi_alicloud.ProviderId.{provider_id_for, provider_instance_id, region_from_machine}
use openshift_capi_alicloud.ProviderId.RoundTrip.{
  provider_instance_id-provider_id_for, region_from_machine-provider_id_for,
}
use openshift_capi_alicloud.Client.Create.{create_ecs_instance}
use openshift_capi_alicloud.Client.Create.Adoption.{IsListed, Adopted, create_ecs_instance-Adopted}
use openshift_capi_alicloud.Client.Instances.{first_not_deleted}
use openshift_capi_alicloud.Client.Interface.{CreateInstanceParams, machine_tag}
use openshift_capi_alicloud.Client.Sdk.{Instance, Sdk, Env}
use openshift_capi_alicloud.Scenarios.World.{worker}

-- A cloud that answers everything, where the number counts the throttled calls to come.
abbrev sdk : Sdk ℕ
sdk = record {
  describe_instances = λ r w. (ok [], w);
  run_instances = λ r w. (ok ("i-1" ∷ []), w);
  stop_instance = λ r w. (ok tt, w);
  delete_instance = λ r w. (ok tt, w);
  modify_metadata = λ r w. (ok tt, w);
  describe_disks = λ r w. (ok [], w);
  describe_network_interfaces = λ r w. (ok [], w);
  tag_resources = λ r w. (ok tt, w);
  describe_instance_types = λ ts w. (ok [], w);
  int63n = λ k n. 0;
  mib_of_gib = λ n. pos (n * 1024);
}

abbrev busy : ℕ → Result ℕ × ℕ
busy zero = (ok 7, zero)
busy (suc n) = (err (server (record { error_code = "Throttling.User"; http_status = 400 })), n)

abbrev start : Env ℕ
start = record { cloud = 2; trace = []; draws = 0 }

provider_instance_id-provider_id_for_example :
    (provider_instance_id (provider_id_for "cn-hangzhou" "i-1") ≡ "i-1")
    × (provider_instance_id "alicloud://cn-hangzhou/i-1" ≡ "i-1")
provider_instance_id-provider_id_for_example =
    provider_instance_id-provider_id_for "cn-hangzhou" "i-1" (ground arith) (ground arith)

region_from_machine-provider_id_for_example : region_from_machine worker ≡ ok "cn-hangzhou"
unfolding provider_id_for
region_from_machine-provider_id_for_example =
    region_from_machine-provider_id_for worker "cn-hangzhou" "i-1" refl refl
      (differs "cn-hangzhou" "" refl) (ground arith) (ground arith) (ground arith)

abbrev the_one : List Instance
the_one =
    record {
      instance_id = "i-1";
      status = "Running";
      host_name = "";
      inner_ip_address = [];
      public_ip_address = [];
    }
    ∷ []

-- One instance, listed whatever is asked.
abbrev listing : Sdk ℕ
listing = record sdk { describe_instances = λ r w. (ok the_one, w) }

abbrev params : CreateInstanceParams
params = record {
  region_id = "cn-hangzhou";
  zone_id = "cn-hangzhou-a";
  instance_type = "ecs.g7.large";
  image_id = "m-1";
  instance_name = "worker-1";
  host_name = "worker-1";
  security_group_ids = [];
  vswitch_id = "vsw-a";
  system_disk_category = "cloud_essd";
  system_disk_size = pos 40;
  system_disk_performance_level = "";
  system_disk_encrypted = none;
  system_disk_kms_key_id = "";
  data_disks = [];
  ram_role_name = "";
  user_data = [];
  tags = record { key = "k8s.io/cluster-api-machine"; value = "worker-1" } ∷ [];
  resource_group_id = "";
  spot_strategy = "";
  spot_price_limit = none;
  http_endpoint = "enabled";
  http_tokens = "required";
  http_put_response_hop_limit = pos 0;
  client_token = "u-1";
}

is_listed : IsListed listing params "i-1" 2
unfolding first_not_deleted
is_listed n insts h =
    let same : the_one ≡ insts = cc in subst (λ x. first_not_deleted x ≡ "i-1") same refl

create_ecs_instance-Adopted_example :
    Adopted listing params "i-1" start (create_ecs_instance listing params start)
unfolding machine_tag
create_ecs_instance-Adopted_example =
    create_ecs_instance-Adopted listing params "i-1" start (differs "worker-1" "" refl)
      (differs "i-1" "" refl) is_listed
