-- ===== src/Scenarios/World.antt =====
-- A small world for the runs: utilities that keep the newest condition first, a cloud with one
-- instance that is there or is gone, a machine and a cluster.
use text.Mathlib.TextEquality.{eq_iff}
use text.Mathlib.TextPositions.{eq_refl}
use openshift_capi_alicloud.Prelude.{
  pos, String, Bool, true, false, none, some, List, [], ◌∷◌, ok, err, foreign, ◌≡◌, ◌≢◌, refl, inl,
  inr, Elem, arith, ◌==◌, string_eq, if◌then◌else◌,
}
use openshift_capi_alicloud.Api.Cluster.{AlibabaCloudCluster}
use openshift_capi_alicloud.Api.Kube.{
  Kube, KubeLaws, ObjectMeta, Condition, find_condition, Machine, ApiEndpoint,
}
use openshift_capi_alicloud.Api.Machine.{AlibabaCloudMachine, AlibabaCloudMachineSpec}
use openshift_capi_alicloud.Api.Types.{FailureDomain}
use openshift_capi_alicloud.Client.Interface.{Client, InstanceDescription}
use openshift_capi_alicloud.MachineController.Context.{Runtime}
use openshift_capi_alicloud.ClusterController.{publish}

unfoldable pub without : String → List String → List String
without f [] = []
without f (g ∷ gs) = if g == f then without f gs else g ∷ without f gs

not-Elem-without : (f : String) (fs : List String) → ¬ Elem f (without f fs)
unfolding without
not-Elem-without f [] m = m
not-Elem-without f (g ∷ gs) m = ground (arith, eq_iff g f, not-Elem-without f gs)

abbrev pub kube : Kube
kube = record {
  set_condition = λ c cs. c ∷ cs;
  add_finalizer = λ f fs. f ∷ fs;
  remove_finalizer = without;
}

found-newest : (c : Condition) (cs : List Condition) → find_condition c.type (c ∷ cs) ≡ some c
unfolding find_condition
found-newest c cs = ground (arith, eq_refl c.type)

found-other :
    (t : String) (c : Condition) (cs : List Condition)
    → c.type ≢ t
    → find_condition t (c ∷ cs) ≡ find_condition t cs
unfolding find_condition
found-other t c cs n = ground (arith, eq_iff c.type t, n)

pub kube-KubeLaws : KubeLaws kube
kube-KubeLaws = record {
  find-set = found-newest;
  find-set_other = found-other;
  added = λ f fs. inl refl;
  add_keeps = λ f g fs m. inr m;
  removed = not-Elem-without;
}

-- The one instance that the cloud may have.
abbrev pub running_instance : InstanceDescription
running_instance = record {
  instance_id = "i-1";
  status = "Running";
  host_name = "worker-1";
  inner_ip_address = "10.0.0.1" ∷ [];
  public_ip_address = [];
}

-- The cloud is whether the instance is there.
abbrev pub cloud_client : Client Bool
cloud_client = record {
  describe_instance_by_id = λ id e. (ok (if e then some running_instance else none), e);
  create_ecs_instance = λ p e. (ok "i-1", true);
  delete_ecs_instance = λ id force e. (ok tt, false);
  find_instance_by_tag = λ region key value e. (ok (if e then "i-1" else ""), e);
  modify_instance_metadata = λ id endpoint tokens hops e. (ok tt, e);
  instance_type_capacity = λ t e. (ok (pos 2, pos 8192), e);
  put_ignition_object = λ p e. (ok "https://bucket/key", e);
  delete_ignition_object = λ p e. (ok tt, e);
}

abbrev pub runtime : Runtime Bool
runtime = record {
  kube = kube;
  client_builder = λ region. ok cloud_client;
  get_secret = λ namespace name. err (foreign "not found");
  sha512_hex = λ bytes. "";
  marshal_pointer = λ p. err (foreign "not marshalled");
}

abbrev pub worker_meta : ObjectMeta
worker_meta = record {
  name = "worker-1";
  namespace = "default";
  uid = "u-1";
  finalizers = "alibabacloudmachine.infrastructure.cluster.x-k8s.io" ∷ [];
  is_deleted = false;
}

abbrev pub worker_spec : AlibabaCloudMachineSpec
worker_spec = record {
  provider_id = some "alicloud://cn-hangzhou.i-1";
  instance_type = "ecs.g7.large";
  image_id = "m-1";
  region_id = "";
  zone_id = "";
  security_group_ids = [];
  vswitch_id = "";
  system_disk = none;
  data_disks = none;
  ram_role_name = "";
  spot_strategy = "";
  spot_price_limit = none;
  tags = [];
  metadata_options = none;
  user_data_secret = none;
  credentials_secret = none;
}

abbrev pub worker : AlibabaCloudMachine
worker = record {
  metadata = worker_meta;
  spec = worker_spec;
  status = record {
    ready = false;
    initialization = none;
    instance_id = some "i-1";
    instance_state = none;
    metadata_hardened = none;
    addresses = [];
    conditions = [];
    failure_reason = none;
    failure_message = none;
    ignition_oss = none;
  };
}

abbrev pub owner : Machine
owner = record {
  name = "worker-1";
  data_secret_name = some "worker-1-bootstrap";
  failure_domain = "cn-hangzhou-a";
  node_ref_name = "";
}

abbrev pub zone_a : FailureDomain
zone_a = record { zone_id = "cn-hangzhou-a"; vswitch_id = "vsw-a" }

abbrev pub zone_b : FailureDomain
zone_b = record { zone_id = "cn-hangzhou-b"; vswitch_id = "vsw-b" }

abbrev pub endpoint : ApiEndpoint
endpoint = record { host = "api-int.example"; port = pos 6443 }

abbrev pub cluster : AlibabaCloudCluster
cluster = record {
  metadata = record {
    name = "c1";
    namespace = "default";
    uid = "u-0";
    finalizers = [];
    is_deleted = false;
  };
  spec = record {
    region = "cn-hangzhou";
    vpc_id = "vpc-1";
    boot_image_id = "";
    resource_group_id = "";
    control_plane_endpoint = endpoint;
    additional_tags = [];
    ignition_storage = none;
    failure_domains = zone_a ∷ zone_b ∷ [];
  };
  status = record {
    ready = true;
    initialization = some (some true);
    vpc_id = "vpc-1";
    control_plane_endpoint = endpoint;
    slb_instance_id = "";
    failure_domains = publish zone_a ∷ publish zone_b ∷ [];
    conditions = [];
  };
}
