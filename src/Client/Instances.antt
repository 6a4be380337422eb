-- ===== src/Client/Instances.antt =====
-- pkg/client/capi.go: the operations on one instance, and the sweep by tag.
use openshift_capi_alicloud.Prelude.{
  errorf, ℤ, pos, String, Bool, true, false, Option, none, some, List, [], ◌∷◌, Result, ok, err,
  Error, wrapped, str, Action, ◌==◌, not, string_eq, int_ltb, if◌then◌else◌,
}
use openshift_capi_alicloud.Client.Interface.{InstanceDescription}
use openshift_capi_alicloud.Client.Retry.{retry_throttled}
use openshift_capi_alicloud.Client.Sdk.{
  InstanceType, Sdk, Env, instance_op, DescribeInstancesRequest, Instance,
}

-- Without a region: the region of the SDK's client applies.
abbrev pub describe_by_id : String → DescribeInstancesRequest
describe_by_id instance_id = record { region_id = ""; instance_ids = some instance_id; tag = [] }

abbrev pub describe_by_tag : String → String → String → DescribeInstancesRequest
describe_by_tag region key value = record {
  region_id = region;
  instance_ids = none;
  tag = record { key = key; value = value } ∷ [];
}

abbrev pub description : Instance → InstanceDescription
description inst = record {
  instance_id = inst.instance_id;
  status = inst.status;
  host_name = inst.host_name;
  inner_ip_address = inst.inner_ip_address;
  public_ip_address = inst.public_ip_address;
}

unfoldable pub first_description : List Instance → Option InstanceDescription
first_description [] = none
first_description (inst ∷ _) = some (description inst)

-- The loop of FindInstanceByTag: the first instance that is not deleted.
unfoldable pub first_not_deleted : List Instance → String
first_not_deleted [] = ""
first_not_deleted (inst ∷ insts) =
    if not (inst.status == "Deleted") then inst.instance_id else first_not_deleted insts

-- The value of a call, or its error wrapped with `%w`.
abbrev pub mapped :
    {W A B : Type 0} → (Error → Error) → (A → B) → Result A × Env W → Result B × Env W
mapped f g (ok a, s) = (ok (g a), s)
mapped f g (err e, s) = (err (f e), s)

-- metrics.ObserveInstanceOp, with the call's error.
abbrev pub recorded : {W A : Type 0} → String → Result A × Env W → Result A × Env W
recorded action (ok a, s) = (ok a, record s { trace = instance_op action false ∷ s.trace })
recorded action (err e, s) = (err e, record s { trace = instance_op action true ∷ s.trace })

abbrev pub positive : ℤ → Option ℤ
positive n = if int_ltb (pos 0) n then some n else none

module _ {W : Type 0} (sdk : Sdk W) where
  unfoldable pub describe_instance_by_id : String → Action (Env W) (Option InstanceDescription)
  unfolding first_description
  describe_instance_by_id instance_id s =
      mapped (wrapped "DescribeInstances(%s): %w" (str instance_id ∷ [])) first_description (
        retry_throttled sdk "DescribeInstances"
          (sdk.describe_instances (describe_by_id instance_id)) s)

  unfoldable pub find_instance_by_tag : String → String → String → Action (Env W) String
  unfolding first_not_deleted
  find_instance_by_tag region key value s =
      mapped (wrapped "DescribeInstances by tag %s=%s: %w" (str key ∷ str value ∷ []))
        first_not_deleted
        (retry_throttled sdk "DescribeInstances"
          (sdk.describe_instances (describe_by_tag region key value)) s)

  -- StopInstance is called once, and its error is only logged.
  pub stop : String → Bool → Env W → Env W
  stop instance_id force s =
      let (_, w) =
        sdk.stop_instance (record { instance_id = instance_id; force_stop = force }) s.cloud in
      record s { cloud = w }

  unfoldable pub delete_ecs_instance : String → Bool → Action (Env W) (Unit {0})
  unfolding stop
  delete_ecs_instance instance_id force s =
      mapped (wrapped "DeleteInstance(%s): %w" (str instance_id ∷ [])) (λ u. u)
        (recorded "delete" (
          retry_throttled sdk "DeleteInstance"
            (sdk.delete_instance (record { instance_id = instance_id; force = true }))
            (stop instance_id force s)))

  -- The loop of InstanceTypeCapacity.
  pub capacity_in : String → List InstanceType → Result (ℤ × ℤ)
  capacity_in type [] =
      err (errorf "instance type %q not found by DescribeInstanceTypes" (str type ∷ []))
  capacity_in type (it ∷ its) =
      if it.instance_type_id == type
      then ok (it.cpu_core_count, sdk.mib_of_gib it.memory_size)
      else capacity_in type its

  abbrev pub capacity_of_response :
      String → Result (List InstanceType) × Env W → Result (ℤ × ℤ) × Env W
  capacity_of_response type (err e, s) =
      (err (wrapped "DescribeInstanceTypes(%s): %w" (str type ∷ []) e), s)
  capacity_of_response type (ok its, s) = (capacity_in type its, s)

  unfoldable pub instance_type_capacity : String → Action (Env W) (ℤ × ℤ)
  unfolding capacity_in
  instance_type_capacity type s =
      capacity_of_response type
        (retry_throttled sdk "DescribeInstanceTypes" (sdk.describe_instance_types (type ∷ [])) s)

  unfoldable pub modify_instance_metadata : String → String → String → ℤ → Action (Env W) (Unit {0})
  modify_instance_metadata instance_id http_endpoint http_tokens hop_limit s =
      mapped (wrapped "ModifyInstanceMetadataOptions(%s): %w" (str instance_id ∷ [])) (λ u. u)
        (recorded "harden" (
          retry_throttled sdk "ModifyInstanceMetadataOptions"
            (sdk.modify_metadata (record {
              instance_id = instance_id;
              http_endpoint = http_endpoint;
              http_tokens = http_tokens;
              http_put_response_hop_limit = positive hop_limit;
            }))
            s))
