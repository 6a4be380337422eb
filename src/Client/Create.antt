-- ===== src/Client/Create.antt =====
-- pkg/client/capi.go: CreateECSInstance, and the tags of the resources made with an instance.
pub mod Adoption
use Prim.Native.Char.{code}
use openshift_capi_alicloud.Prelude.{
  ℕ, suc, String, Bool, true, false, ◌&&◌, ◌||◌, not, Option, none, some, List, [], ◌∷◌, map,
  Result, ok, err, errorf, wrapped, Action, return, ◌>>=◌, ◌==◌, string_eq, nat_eq, leb, ltb,
  if◌then◌else◌,
}
use openshift_capi_alicloud.Client.Instances.{find_instance_by_tag, positive}
use openshift_capi_alicloud.Client.Interface.{
  Tag, DataDiskParam, CreateInstanceParams, machine_name_tag_key, machine_tag,
}
use openshift_capi_alicloud.Client.Retry.{retry_throttled}
use openshift_capi_alicloud.Client.Sdk.{
  Sdk, Env, instance_op, Pair, RunInstancesRequest, RunInstancesDataDisk,
}

abbrev pub is_digit : ℕ → Bool
is_digit c = leb b'0' c && leb c b'9'

abbrev pub is_letter : ℕ → Bool
is_letter c = (leb b'a' c && leb c b'z') || (leb b'A' c && leb c b'Z')

abbrev pub is_joint : ℕ → Bool
is_joint c = c == b'-' || c == b'.'

abbrev pub is_last : String → Bool
is_last String.[] = true
is_last (String.◌∷◌ c s) = false

-- At the start there is no character before.
abbrev pub after_joint : Option ℕ → Bool
after_joint none = true
after_joint (some c) = is_joint c

-- The loop of hostNameOK, after the character `prev`.
pub host_name_loop : Option ℕ → Bool → String → Bool
host_name_loop prev all_digits String.[] = not all_digits
host_name_loop prev all_digits (String.◌∷◌ ch s) =
    let rest = host_name_loop (some (code ch)) (all_digits && is_digit (code ch)) s in
    if is_digit (code ch) || is_letter (code ch)
    then rest
    else if is_joint (code ch) && not (after_joint prev || is_last s)
    then rest
    else false

abbrev pub text_length : String → ℕ
text_length String.[] = 0
text_length (String.◌∷◌ c s) = suc (text_length s)

-- A text with a character outside ASCII is refused, so counting characters for bytes is exact.
unfoldable pub host_name_ok : String → Bool
unfolding host_name_loop
host_name_ok name =
    if ltb (text_length name) 2 || ltb 64 (text_length name)
    then false
    else host_name_loop none true name

abbrev pub to_pair : Tag → Pair
to_pair t = record { key = t.key; value = t.value }

abbrev pub to_data_disk : DataDiskParam → RunInstancesDataDisk
to_data_disk d = record {
  category = d.category;
  size = d.size;
  performance_level = d.performance_level;
  kms_key_id = d.kms_key_id;
  delete_with_instance = "true";
  encrypted = d.encrypted;
}

abbrev pub pair : String → String → Pair
pair k v = record { key = k; value = v }

-- The raw query parameters, in the order in which they are written.
pub disk_params : CreateInstanceParams → List Pair
disk_params p = elim p.system_disk_encrypted [
  | none ↦ pair "SystemDisk.DeleteWithInstance" "true" ∷ []
  | some encrypted ↦
      if encrypted
      then pair "SystemDisk.Encrypted" "true"
        ∷ (if not (p.system_disk_kms_key_id == "")
            then pair "SystemDisk.KMSKeyId" p.system_disk_kms_key_id
              ∷ pair "SystemDisk.DeleteWithInstance" "true"
              ∷ []
            else pair "SystemDisk.DeleteWithInstance" "true" ∷ [])
      else pair "SystemDisk.DeleteWithInstance" "true" ∷ []
]

-- A text that is written only if it is not empty is the field itself: unset is empty.
unfoldable pub run_instances_request : CreateInstanceParams → RunInstancesRequest
unfolding host_name_ok disk_params
run_instances_request p = record {
  region_id = p.region_id;
  zone_id = p.zone_id;
  instance_type = p.instance_type;
  image_id = p.image_id;
  instance_name = p.instance_name;
  host_name = if host_name_ok p.host_name then p.host_name else "";
  vswitch_id = p.vswitch_id;
  system_disk_category = p.system_disk_category;
  system_disk_size = p.system_disk_size;
  system_disk_performance_level = p.system_disk_performance_level;
  ram_role_name = p.ram_role_name;
  user_data = p.user_data;
  resource_group_id = p.resource_group_id;
  amount = 1;
  client_token = p.client_token;
  query_params = disk_params p;
  spot_strategy = p.spot_strategy;
  spot_price_limit = p.spot_price_limit;
  http_endpoint = p.http_endpoint;
  http_tokens = p.http_tokens;
  http_put_response_hop_limit = positive p.http_put_response_hop_limit;
  security_group_ids = p.security_group_ids;
  data_disk = map to_data_disk p.data_disks;
  tag = map to_pair p.tags;
}

pub drop_empty : List String → List String
drop_empty [] = []
drop_empty (id ∷ ids) = if not (id == "") then id ∷ drop_empty ids else drop_empty ids

abbrev pub noted : {W : Type 0} → String → Bool → Env W → Env W
noted action failed s = record s { trace = instance_op action failed ∷ s.trace }

module _ {W : Type 0} (sdk : Sdk W) where
  -- TagResources on what was listed; a failure is only logged.
  pub tag_listed : String → String → String → List Tag → Result (List String) → Env W → Env W
  unfolding drop_empty
  tag_listed op type region tags (err e) s = s
  tag_listed op type region tags (ok listed) s = elim (drop_empty listed) [
    | [] ↦ s
    | id ∷ ids ↦
        (retry_throttled sdk op
          (sdk.tag_resources (record {
            region_id = region;
            resource_type = type;
            resource_id = id ∷ ids;
            tag = map to_pair tags;
          }))
          s).1
  ]

  pub tag_instance_disks : String → String → List Tag → Env W → Env W
  unfolding tag_listed
  tag_instance_disks region instance_id tags s =
      let (listed, w) =
        sdk.describe_disks (record { region_id = region; instance_id = instance_id }) s.cloud in
      tag_listed "TagResources(disk)" "disk" region tags listed (record s { cloud = w })

  pub tag_instance_enis : String → String → List Tag → Env W → Env W
  unfolding tag_listed
  tag_instance_enis region instance_id tags s =
      let (listed, w) =
        sdk.describe_network_interfaces (record { region_id = region; instance_id = instance_id })
          s.cloud in
      tag_listed "TagResources(eni)" "eni" region tags listed (record s { cloud = w })

  abbrev pub tag_children : CreateInstanceParams → String → Env W → Env W
  tag_children p instance_id s = elim p.tags [
    | [] ↦ s
    | _ ∷ _ ↦
        tag_instance_enis p.region_id instance_id p.tags
          (tag_instance_disks p.region_id instance_id p.tags s)
  ]

  -- What follows RunInstances.
  pub finish_create : CreateInstanceParams → Result (List String) × Env W → Result String × Env W
  finish_create p (err e, s) = (err (wrapped "RunInstances: %w" [] e), noted "create" true s)
  finish_create p (ok [], s) =
      (err (errorf "RunInstances returned no instance IDs" []), noted "create" true s)
  finish_create p (ok (id ∷ _), s) = (ok id, tag_children p id (noted "create" false s))

  pub run_new : CreateInstanceParams → Action (Env W) String
  unfolding run_instances_request finish_create
  run_new p s =
      finish_create p
        (retry_throttled sdk "RunInstances" (sdk.run_instances (run_instances_request p)) s)

  -- The instance that carries the machine's tag already, or "".
  pub find_existing : CreateInstanceParams → Action (Env W) String
  find_existing p =
      if not (machine_tag p.tags == "")
      then find_instance_by_tag sdk p.region_id machine_name_tag_key (machine_tag p.tags)
      else return ""

  pub adopt_or_run : CreateInstanceParams → String → Action (Env W) String
  unfolding run_new
  adopt_or_run p existing s =
      if not (existing == "") then (ok existing, noted "adopt" false s) else run_new p s

  unfoldable pub create_ecs_instance : CreateInstanceParams → Action (Env W) String
  unfolding find_existing adopt_or_run
  create_ecs_instance p = find_existing p >>= adopt_or_run p
