-- ===== src/Webhook/Machine.antt =====
-- internal/webhook/v1beta1/alibabacloudmachine_webhook.go.
pub mod Immutable
pub mod Validity
pub mod Defaults
use text.Mathlib.TextEquality.{eq_iff}
use openshift_capi_alicloud.Prelude.{
  elements, list_eq, option_beq_iff, int_beq_iff, arith, ◌↔◌, true, int_ltb, pos, ◌&&◌, ◌≡◌, Eq,
  false, ℤ, ℕ, ◌+◌, String, Bool, not, Option, none, some, List, [], ◌∷◌, ◌++◌, is_blank,
  has_prefix, ◌==◌, string_eq, int_eq, bool_eq, option_eq, if◌then◌else◌,
}
use openshift_capi_alicloud.Api.Machine.{AlibabaCloudMachine, AlibabaCloudMachineSpec}
use openshift_capi_alicloud.Api.Types.{DataDisk, SystemDisk}
use openshift_capi_alicloud.Webhook.Fields.{
  index, child, forbidden, invalid, required, spec_path, validate_tags, FieldError, FieldPath,
  aggregate_errors,
}

abbrev pub default_system_disk_category : String
default_system_disk_category = "cloud_essd"

abbrev pub default_system_disk_size_gib : ℤ
default_system_disk_size_gib = pos 40

abbrev pub min_disk_size_gib : ℤ
min_disk_size_gib = pos 20

abbrev pub default_system_disk : SystemDisk
default_system_disk = record {
  category = default_system_disk_category;
  size = default_system_disk_size_gib;
  performance_level = "";
  encrypted = none;
  kms_key_id = "";
}

abbrev pub fill_system_disk : Option SystemDisk → SystemDisk
fill_system_disk none = default_system_disk
fill_system_disk (some d) = record d {
  category = if d.category == "" then default_system_disk_category else d.category;
  size = if d.size == pos 0 then default_system_disk_size_gib else d.size;
}

-- Default.
unfoldable pub default : AlibabaCloudMachine → AlibabaCloudMachine
default m = record m {
  spec = record (m.spec) { system_disk = some (fill_system_disk m.spec.system_disk) };
}

abbrev pub instance_type_path : FieldPath
instance_type_path = spec_path ++ (child "instanceType" ∷ [])

pub check_instance_type : String → List FieldError
check_instance_type t =
    if is_blank t
    then required instance_type_path "instanceType is required" ∷ []
    else if not (has_prefix t "ecs.")
    then invalid instance_type_path "must be an Alibaba Cloud ECS instance type (e.g. ecs.g7.large)"
      ∷ []
    else []

abbrev pub is_small : ℤ → Bool
is_small size = int_ltb size min_disk_size_gib

pub check_system_size : Option SystemDisk → List FieldError
check_system_size none = []
check_system_size (some d) =
    if not (d.size == pos 0) && is_small d.size
    then invalid (spec_path ++ (child "systemDisk" ∷ child "size" ∷ [])) "must be at least 20 GiB"
      ∷ []
    else []

pub check_data_sizes : ℕ → List DataDisk → List FieldError
check_data_sizes i [] = []
check_data_sizes i (d ∷ ds) =
    (if is_small d.size
      then invalid (spec_path ++ (child "dataDisks" ∷ index i ∷ child "size" ∷ []))
          "must be at least 20 GiB"
        ∷ []
      else [])
    ++ check_data_sizes (i + 1) ds

abbrev pub is_encrypted : Option Bool → Bool
is_encrypted none = false
is_encrypted (some b) = b

unfoldable pub validate_disk_extras :
    (category perf_level : String) → Option Bool → String → FieldPath → List FieldError
validate_disk_extras category perf_level encrypted kms_key_id path =
    (if not (kms_key_id == "") && not (is_encrypted encrypted)
      then invalid (path ++ (child "kmsKeyID" ∷ [])) "kmsKeyID requires encrypted=true" ∷ []
      else [])
    ++ (if not (perf_level == "") && not (category == "cloud_essd")
        then invalid (path ++ (child "performanceLevel" ∷ []))
            "performanceLevel is only valid for the cloud_essd category"
          ∷ []
        else [])

pub check_system_extras : Option SystemDisk → List FieldError
check_system_extras none = []
check_system_extras (some d) =
    validate_disk_extras d.category d.performance_level d.encrypted d.kms_key_id
      (spec_path ++ (child "systemDisk" ∷ []))

pub check_data_extras : ℕ → List DataDisk → List FieldError
check_data_extras i [] = []
check_data_extras i (d ∷ ds) =
    validate_disk_extras d.category d.performance_level d.encrypted d.kms_key_id
      (spec_path ++ (child "dataDisks" ∷ index i ∷ []))
    ++ check_data_extras (i + 1) ds

abbrev pub price_path : FieldPath
price_path = spec_path ++ (child "spotPriceLimit" ∷ [])

-- The price limit where the strategy wants one, and where it does not.
abbrev pub check_price : Bool → Option ℤ → List FieldError
check_price true none =
    required price_path "spotPriceLimit is required when spotStrategy is SpotWithPriceLimit" ∷ []
check_price true (some p) =
    if int_ltb (pos 0) p then [] else invalid price_path "must be greater than 0" ∷ []
check_price false none = []
check_price false (some p) =
    invalid price_path "spotPriceLimit is only allowed when spotStrategy is SpotWithPriceLimit" ∷ []

unfoldable pub validate_spot : AlibabaCloudMachineSpec → List FieldError
validate_spot spec = check_price (spec.spot_strategy == "SpotWithPriceLimit") spec.spot_price_limit

unfoldable pub validate_machine_spec : AlibabaCloudMachine → List FieldError
unfolding check_instance_type check_system_size check_data_sizes check_system_extras
    check_data_extras validate_spot
validate_machine_spec m =
    check_instance_type m.spec.instance_type
    ++ (check_system_size m.spec.system_disk
        ++ (check_data_sizes 0 (elements m.spec.data_disks)
            ++ (check_system_extras m.spec.system_disk
                ++ (check_data_extras 0 (elements m.spec.data_disks)
                    ++ (validate_spot m.spec
                        ++ validate_tags m.spec.tags (spec_path ++ (child "tags" ∷ [])))))))

-- reflect.DeepEqual on the disks.
abbrev pub system_disk_beq : SystemDisk → SystemDisk → Bool
system_disk_beq a b =
    a.category == b.category
    && (a.size == b.size
        && (a.performance_level == b.performance_level
            && (a.encrypted == b.encrypted && a.kms_key_id == b.kms_key_id)))

abbrev pub data_disk_beq : DataDisk → DataDisk → Bool
data_disk_beq a b =
    a.category == b.category
    && (a.size == b.size
        && (a.name == b.name
            && (a.performance_level == b.performance_level
                && (a.encrypted == b.encrypted && a.kms_key_id == b.kms_key_id))))

pub system_disk_beq_iff : (a b : SystemDisk) → (system_disk_beq a b ≡ true) ↔ (a ≡ b)
system_disk_beq_iff a b = ground (
  arith,
  eq_iff a.category b.category,
  int_beq_iff a.size b.size,
  eq_iff a.performance_level b.performance_level,
  option_beq_iff a.encrypted b.encrypted,
  eq_iff a.kms_key_id b.kms_key_id,
)

pub data_disk_beq_iff : (a b : DataDisk) → (data_disk_beq a b ≡ true) ↔ (a ≡ b)
data_disk_beq_iff a b = ground (
  arith,
  eq_iff a.category b.category,
  int_beq_iff a.size b.size,
  eq_iff a.name b.name,
  eq_iff a.performance_level b.performance_level,
  option_beq_iff a.encrypted b.encrypted,
  eq_iff a.kms_key_id b.kms_key_id,
)

instance abbrev pub system_disk_eq : Eq SystemDisk
system_disk_eq = record { same = system_disk_beq; same_iff = system_disk_beq_iff }

instance abbrev pub data_disk_eq : Eq DataDisk
data_disk_eq = record { same = data_disk_beq; same_iff = data_disk_beq_iff }

-- The two local functions of validateMachineImmutable. DeepEqual tells a nil slice from an empty
-- one, as the equality of the model does.
abbrev pub immutable : {A : Type 0} ⦃e : Eq A⦄ → String → A → A → List FieldError
immutable name old new =
    if not (old == new)
    then forbidden (spec_path ++ (child name ∷ [])) "field is immutable" ∷ []
    else []

abbrev pub immutable_once_set : String → String → String → List FieldError
immutable_once_set name old new =
    if not (old == "") && not (old == new)
    then forbidden (spec_path ++ (child name ∷ [])) "field is immutable once set" ∷ []
    else []

abbrev pub check_provider_id : Option String → Option String → List FieldError
check_provider_id none new = []
check_provider_id (some old) new =
    if not (new == some old)
    then forbidden (spec_path ++ (child "providerID" ∷ [])) "providerID is immutable once set" ∷ []
    else []

unfoldable pub validate_machine_immutable :
    AlibabaCloudMachineSpec → AlibabaCloudMachineSpec → List FieldError
validate_machine_immutable old new =
    immutable "instanceType" old.instance_type new.instance_type
    ++ (immutable "imageID" old.image_id new.image_id
        ++ (immutable_once_set "regionID" old.region_id new.region_id
            ++ (immutable_once_set "zoneID" old.zone_id new.zone_id
                ++ (immutable_once_set "vSwitchID" old.vswitch_id new.vswitch_id
                    ++ (immutable "systemDisk" old.system_disk new.system_disk
                        ++ (immutable "dataDisks" old.data_disks new.data_disks
                            ++ (immutable "spotStrategy" old.spot_strategy new.spot_strategy
                                ++ (immutable "spotPriceLimit" old.spot_price_limit
                                      new.spot_price_limit
                                    ++ check_provider_id old.provider_id new.provider_id))))))))

-- ValidateCreate and ValidateUpdate; `none` admits the object.
unfoldable pub validate_create : AlibabaCloudMachine → Option (String × String × List FieldError)
unfolding aggregate_errors
validate_create m = aggregate_errors "AlibabaCloudMachine" m.metadata.name (validate_machine_spec m)

unfoldable pub validate_update :
    (old new : AlibabaCloudMachine) → Option (String × String × List FieldError)
unfolding aggregate_errors
validate_update old new =
    aggregate_errors "AlibabaCloudMachine" new.metadata.name
      (validate_machine_spec new ++ validate_machine_immutable old.spec new.spec)
