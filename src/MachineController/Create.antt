-- ===== src/MachineController/Create.antt =====
-- The creation of an instance: createInstance, resolveFailureDomain, resolveRegion,
-- resolveMetadataOptions, classifyCreateError, toSDKTags and toSDKDataDisks.
pub mod Tags
pub mod Writes
pub mod Accounts
use Prim.Native.String.{◌++◌}
use openshift_capi_alicloud.Prelude.{
  elements, mul64, ℕ, ℤ, pos, String, Bool, not, ◌||◌, Option, none, some, List, [], ◌∷◌, map,
  Result, ok, err, Error, errorf, terminal, wrapped, str, Action, ◌>>=◌, ◌>>◌, ◌==◌, string_eq,
  if◌then◌else◌,
}
use openshift_capi_alicloud.Api.Cluster.{AlibabaCloudCluster}
use openshift_capi_alicloud.Api.Kube.{found, Machine, PublishedDomain}
use openshift_capi_alicloud.Api.Machine.{AlibabaCloudMachine, MetadataOptions}
use openshift_capi_alicloud.Api.Types.{Tag, SystemDisk, DataDisk, instance_state_pending}
use openshift_capi_alicloud.ProviderId.{provider_id_for}
use openshift_capi_alicloud.Client.Interface.{
  Client, CreateInstanceParams, DataDiskParam, Tag as SdkTag,
}
use openshift_capi_alicloud.Client.Sdk.{server_error}
use openshift_capi_alicloud.MachineController.Context.{
  Runtime, Ctl, on_env, from_result, update, on_spec,
}
use openshift_capi_alicloud.MachineController.Ignition.{
  get_user_data, maybe_offload_user_data, wrap,
}

abbrev pub or_text : String → String → String
or_text a b = if not (a == "") then a else b

-- The cluster is not nil where the controller calls this.
abbrev pub resolve_region : AlibabaCloudMachine → AlibabaCloudCluster → String
resolve_region m c = or_text m.spec.region_id c.spec.region

pub record EffectiveMetadata : Type 0 where
  pub endpoint : String
  pub tokens : String
  pub hop_limit : ℤ

unfoldable pub resolve_metadata_options : Option MetadataOptions → EffectiveMetadata
resolve_metadata_options none = record {
  endpoint = "enabled";
  tokens = "required";
  hop_limit = pos 0;
}
resolve_metadata_options (some o) = record {
  endpoint = or_text o.http_endpoint "enabled";
  tokens = or_text o.http_tokens "required";
  hop_limit = o.http_put_response_hop_limit;
}

pub sdk_tags : List Tag → List SdkTag
sdk_tags [] = []
sdk_tags (t ∷ tags) = record { key = t.key; value = t.value } ∷ sdk_tags tags

unfoldable pub to_sdk_tags : List Tag → String → String → List SdkTag
unfolding sdk_tags
to_sdk_tags tags machine_name cluster_name =
    record { key = "kubernetes.io/cluster/" ++ cluster_name; value = "owned" }
    ∷ record { key = "k8s.io/cluster-api-machine"; value = machine_name }
    ∷ sdk_tags tags

abbrev pub to_sdk_data_disk : DataDisk → DataDiskParam
to_sdk_data_disk d = record {
  category = d.category;
  size = d.size;
  performance_level = d.performance_level;
  encrypted = d.encrypted;
  kms_key_id = d.kms_key_id;
}

-- The system disk that createInstance asks for when the spec names none.
abbrev pub effective_system_disk : Option SystemDisk → SystemDisk
effective_system_disk none = record {
  category = "cloud_efficiency";
  size = pos 40;
  performance_level = "";
  encrypted = none;
  kms_key_id = "";
}
effective_system_disk (some sd) = sd

abbrev pub alibaba_error_code : Error → String
alibaba_error_code e = elim (server_error e) [ none ↦ "" | some srv ↦ srv.error_code ]

abbrev pub is_capacity_code : String → Bool
is_capacity_code code =
    code == "Invalid.Zone.NotEnoughResource"
    || (code == "InsufficientCapacity" || code == "OperationDenied.NoStock")

abbrev pub is_spot_code : String → Bool
is_spot_code code =
    code == "Invalid.SpotStrategy.NotSupported" || code == "Invalid.SpotPriceLimit.Exceeded"

unfoldable pub classify_create_error : Error → Error
unfolding server_error
classify_create_error e =
    if is_capacity_code (alibaba_error_code e)
    then terminal "InstanceCapacityExhausted" "Instance capacity exhausted in current zone" []
    else if is_spot_code (alibaba_error_code e)
    then terminal "SpotConfigurationRejected" "spot configuration rejected by Alibaba Cloud: %s"
        (str (alibaba_error_code e) ∷ [])
    else wrapped "failed to create ECS instance: %w" [] e

unfoldable pub find_domain : String → List PublishedDomain → Option PublishedDomain
find_domain zone_id [] = none
find_domain zone_id (fd ∷ fds) = if fd.name == zone_id then some fd else find_domain zone_id fds

unfoldable pub attribute : String → List (String × String) → String
attribute k [] = ""
attribute k ((j, v) ∷ rest) = if j == k then v else attribute k rest

abbrev pub set_zone : String → AlibabaCloudMachine → AlibabaCloudMachine
set_zone zone_id = on_spec (λ sp. record sp { zone_id = or_text sp.zone_id zone_id })

abbrev pub set_vswitch : String → AlibabaCloudMachine → AlibabaCloudMachine
set_vswitch vswitch_id = on_spec (λ sp. record sp { vswitch_id = vswitch_id })

-- With the domain found: the zone is written first, also where the switch is then missing.
abbrev pub apply_domain :
    String → PublishedDomain → AlibabaCloudMachine → Result (Unit {0}) × AlibabaCloudMachine
apply_domain zone_id fd m =
    if not (m.spec.vswitch_id == "")
    then (ok tt, set_zone zone_id m)
    else if attribute "vSwitchID" fd.attributes == ""
    then (
      err (errorf "failure domain %q has no vSwitchID attribute" (str zone_id ∷ [])),
      set_zone zone_id m,
    )
    else (ok tt, set_vswitch (attribute "vSwitchID" fd.attributes) (set_zone zone_id m))

unfoldable pub resolve_failure_domain :
    Machine → AlibabaCloudCluster → AlibabaCloudMachine → Result (Unit {0}) × AlibabaCloudMachine
unfolding find_domain attribute
resolve_failure_domain machine cluster m =
    if machine.failure_domain == ""
    then (ok tt, m)
    else elim (find_domain machine.failure_domain cluster.status.failure_domains) [
      | none ↦ (
        err (
            errorf "failure domain %q not found in AlibabaCloudCluster status"
              (str machine.failure_domain ∷ [])),
        m,
      )
      | some fd ↦ apply_domain machine.failure_domain fd m
    ]

-- An explicit image, or the cluster's.
abbrev pub boot_image : AlibabaCloudMachine → AlibabaCloudCluster → Result String
boot_image m cluster =
    if or_text m.spec.image_id cluster.spec.boot_image_id == ""
    then err (
        terminal "NoBootImage"
          "spec.imageID is empty and the cluster has no spec.bootImageID to fall back to" [])
    else ok (or_text m.spec.image_id cluster.spec.boot_image_id)

-- The resolved region goes onto a spec that has none.
abbrev pub keep_region : String → AlibabaCloudMachine → AlibabaCloudMachine
keep_region region = on_spec (λ sp. record sp { region_id = or_text sp.region_id region })

unfoldable pub create_params :
    Machine
    → AlibabaCloudCluster
    → (region image_id : String) → List ℕ
    → AlibabaCloudMachine
    → CreateInstanceParams
unfolding resolve_metadata_options to_sdk_tags
create_params machine cluster region image_id user_data m =
    let sd = effective_system_disk m.spec.system_disk in
    let metadata = resolve_metadata_options m.spec.metadata_options in
    record {
      region_id = region;
      zone_id = m.spec.zone_id;
      instance_type = m.spec.instance_type;
      image_id = image_id;
      instance_name = machine.name;
      host_name = machine.name;
      security_group_ids = m.spec.security_group_ids;
      vswitch_id = m.spec.vswitch_id;
      system_disk_category = sd.category;
      system_disk_size = sd.size;
      system_disk_performance_level = sd.performance_level;
      system_disk_encrypted = sd.encrypted;
      system_disk_kms_key_id = sd.kms_key_id;
      data_disks = map to_sdk_data_disk (elements m.spec.data_disks);
      ram_role_name = m.spec.ram_role_name;
      user_data = user_data;
      tags = to_sdk_tags m.spec.tags machine.name cluster.metadata.name;
      resource_group_id = cluster.spec.resource_group_id;
      spot_strategy = m.spec.spot_strategy;
      spot_price_limit = m.spec.spot_price_limit;
      http_endpoint = metadata.endpoint;
      http_tokens = metadata.tokens;
      http_put_response_hop_limit = metadata.hop_limit;
      client_token = m.metadata.uid;
    }

-- The three writes that record a created instance.
abbrev pub record_instance : String → String → AlibabaCloudMachine → AlibabaCloudMachine
record_instance region instance_id m = record m {
  spec = record (m.spec) { provider_id = some (provider_id_for region instance_id) };
  status = record (m.status) {
    instance_id = some instance_id;
    instance_state = some instance_state_pending;
  };
}

module _ {E : Type 0} (rt : Runtime E) (c : Client E) (machine : Machine)
    (cluster : AlibabaCloudCluster) where
  -- The call of CreateECSInstance and what follows it.
  pub run_create : (region image_id : String) → List ℕ → Action (Ctl E) (Unit {0})
  unfolding create_params classify_create_error
  run_create region image_id user_data = do
    instance_id ← λ s. wrap classify_create_error (
        on_env
          (c.create_ecs_instance
            (create_params machine cluster region image_id user_data s.machine))
          s)
    update (record_instance region instance_id)

  -- With the user data and the image at hand.
  pub create_with : (region image_id : String) → List ℕ → Action (Ctl E) (Unit {0})
  unfolding run_create
  create_with region image_id raw = do
    update (keep_region region)
    user_data ← maybe_offload_user_data rt c cluster region raw
    run_create region image_id user_data

  -- `m` is the machine as the call found it.
  pub create_from : AlibabaCloudMachine → Action (Ctl E) (Unit {0})
  unfolding create_with
  create_from m = do
    user_data ← from_result (get_user_data rt machine m)
    image_id ← from_result (boot_image m cluster)
    create_with (resolve_region m cluster) image_id user_data

  unfoldable pub create_instance : Action (Ctl E) (Unit {0})
  unfolding create_from
  create_instance s = create_from s.machine s
