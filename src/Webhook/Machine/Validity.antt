-- ===== src/Webhook/Machine/Validity.antt =====
-- When validateMachineSpec of internal/webhook/v1beta1/alibabacloudmachine_webhook.go accepts a
-- machine.
use text.Mathlib.TextEquality.{eq_iff}
use openshift_capi_alicloud.Prelude.{
  elements, refl, ◌∷◌, if◌then◌else◌, ◌++◌, ◌+◌, List, ℕ, ℤ, pos, negsuc, String, Bool, true, false,
  Option, none, some, [], ◌≡◌, ◌≢◌, ◌⊎◌, ◌↔◌, All, IsAtLeast, arith, is_blank, has_prefix,
  string_eq, int_eq, int_beq_iff, ◌==◌,
}
use openshift_capi_alicloud.Api.Machine.{AlibabaCloudMachine, AlibabaCloudMachineSpec}
use openshift_capi_alicloud.Api.Types.{SystemDisk, DataDisk}
use openshift_capi_alicloud.Webhook.Fields.{FieldError, FieldPath}
use openshift_capi_alicloud.Webhook.Fields.Laws.{validate_tags_iff, append-eq-nil_iff, AreFresh}
use openshift_capi_alicloud.Webhook.Machine.{
  check_data_extras, validate_spot, check_data_sizes, check_system_extras, validate_machine_spec,
  check_instance_type, is_small, check_system_size, validate_disk_extras, check_price,
}

-- A key needs encryption, and a performance level the one category that has levels.
abbrev pub AreExtras : (category perf_level : String) → Option Bool → String → Type 0
AreExtras category perf_level encrypted kms_key_id =
    ((kms_key_id ≡ "") ⊎ (encrypted ≡ some true)) × ((perf_level ≡ "") ⊎ (category ≡ "cloud_essd"))

-- A size of zero stands for the default.
abbrev pub IsSystemDisk : SystemDisk → Type 0
IsSystemDisk d =
    ((d.size ≡ pos 0) ⊎ IsAtLeast 20 d.size)
    × AreExtras d.category d.performance_level d.encrypted d.kms_key_id

abbrev pub IsDataDisk : DataDisk → Type 0
IsDataDisk d =
    IsAtLeast 20 d.size × AreExtras d.category d.performance_level d.encrypted d.kms_key_id

abbrev pub OnSystemDisk : Option SystemDisk → Type 0
OnSystemDisk none = Unit
OnSystemDisk (some d) = IsSystemDisk d

-- A positive price limit under the strategy that has one, and none under another.
abbrev pub IsPriced : String → Option ℤ → Type 0
IsPriced strategy none = strategy ≢ "SpotWithPriceLimit"
IsPriced strategy (some p) = (strategy ≡ "SpotWithPriceLimit") × IsAtLeast 1 p

pub record IsValid (spec : AlibabaCloudMachineSpec) : Type 0 where
  pub named : is_blank spec.instance_type ≡ false
  pub ecs_type : has_prefix spec.instance_type "ecs." ≡ true
  pub system_disk : OnSystemDisk spec.system_disk
  pub data_disks : All IsDataDisk (elements spec.data_disks)
  pub spot : IsPriced spec.spot_strategy spec.spot_price_limit
  pub tags : AreFresh [] spec.tags

is_small_iff : (z : ℤ) → (is_small z ≡ false) ↔ IsAtLeast 20 z
is_small_iff (pos n) = ground arith
is_small_iff (negsuc n) = ground arith

type_iff :
    (t : String)
    → (check_instance_type t ≡ []) ↔ ((is_blank t ≡ false) × (has_prefix t "ecs." ≡ true))
unfolding check_instance_type
type_iff t = ground arith

extras_iff :
    (category perf_level : String) (encrypted : Option Bool) (kms_key_id : String)
    (path : FieldPath)
    → (validate_disk_extras category perf_level encrypted kms_key_id path ≡ [])
      ↔ AreExtras category perf_level encrypted kms_key_id
unfolding validate_disk_extras
extras_iff category perf_level encrypted kms_key_id path =
    ground (arith, eq_iff kms_key_id "", eq_iff perf_level "", eq_iff category "cloud_essd")

system_size_iff :
    (d : SystemDisk) → (check_system_size (some d) ≡ []) ↔ ((d.size ≡ pos 0) ⊎ IsAtLeast 20 d.size)
unfolding check_system_size
system_size_iff d = ground (arith, int_beq_iff d.size (pos 0), is_small_iff d.size)

price_iff :
    (strategy : String) (limit : Option ℤ)
    → (check_price (strategy == "SpotWithPriceLimit") limit ≡ []) ↔ IsPriced strategy limit
price_iff strategy none = ground (arith, eq_iff strategy "SpotWithPriceLimit")
price_iff strategy (some (pos n)) = ground (arith, eq_iff strategy "SpotWithPriceLimit")
price_iff strategy (some (negsuc n)) = ground (arith, eq_iff strategy "SpotWithPriceLimit")

system_disk_iff :
    (o : Option SystemDisk)
    → ((check_system_size o ≡ []) × (check_system_extras o ≡ [])) ↔ OnSystemDisk o
unfolding check_system_size check_system_extras
system_disk_iff none = (λ h. tt, λ h. (refl, refl))
system_disk_iff (some d) =
    let (f, g) = system_size_iff d in
    let (p, q) = extras_iff d.category d.performance_level d.encrypted d.kms_key_id _ in
    (λ h. (f h.0, p h.1), λ h. (g h.0, q h.1))

size_iff :
    (d : DataDisk) (e : FieldError)
    → ((if is_small d.size then e ∷ [] else []) ≡ []) ↔ IsAtLeast 20 d.size
size_iff d e = ground (arith, is_small_iff d.size)

data_disks_iff :
    (i : ℕ) (ds : List DataDisk)
    → ((check_data_sizes i ds ≡ []) × (check_data_extras i ds ≡ [])) ↔ All IsDataDisk ds
unfolding check_data_sizes check_data_extras
data_disks_iff i [] = (λ h. tt, λ h. (refl, refl))
data_disks_iff i (d ∷ ds) =
    let (f, g) = size_iff d _ in
    let (p, q) = extras_iff d.category d.performance_level d.encrypted d.kms_key_id _ in
    let (to, from) = data_disks_iff (i + 1) ds in
    (
      λ h.
          let (a, b) = (append-eq-nil_iff _ _).0 h.0 in
          let (c, e) = (append-eq-nil_iff _ _).0 h.1 in ((f a, p c), to (b, e)),
      λ h.
          let (b, e) = from h.1 in
          ((append-eq-nil_iff _ _).1 (g h.0.0, b), (append-eq-nil_iff _ _).1 (q h.0.1, e)),
    )

-- A machine is accepted exactly when its instance type is an ECS type; its system disk, if it has one,
-- and its data disks have 20 GiB at least, a key only where they are encrypted and a performance
-- level only in the category that has levels, where the system disk may leave its size open; it has
-- a positive price limit exactly under the strategy that has one; and its tags are distinct and not
-- blank.
pub validate_machine_spec_iff :
    (m : AlibabaCloudMachine) → (validate_machine_spec m ≡ []) ↔ IsValid m.spec
unfolding validate_machine_spec validate_spot
validate_machine_spec_iff m = (to, from)
  where
    app : (xs ys : List FieldError) → ((xs ++ ys) ≡ []) ↔ ((xs ≡ []) × (ys ≡ []))
    app = append-eq-nil_iff

    to : (validate_machine_spec m ≡ []) → IsValid m.spec
    to h =
        let (a, h1) = (app _ _).0 h in
        let (b, h2) = (app _ _).0 h1 in
        let (c, h3) = (app _ _).0 h2 in
        let (d, h4) = (app _ _).0 h3 in
        let (e, h5) = (app _ _).0 h4 in
        let (f, g) = (app _ _).0 h5 in
        let (named, ecs_type) = (type_iff m.spec.instance_type).0 a in
        record {
          named = named;
          ecs_type = ecs_type;
          system_disk = (system_disk_iff m.spec.system_disk).0 (b, d);
          data_disks = (data_disks_iff 0 (elements m.spec.data_disks)).0 (c, e);
          spot = (price_iff m.spec.spot_strategy m.spec.spot_price_limit).0 f;
          tags = (validate_tags_iff m.spec.tags _).0 g;
        }

    from : IsValid m.spec → validate_machine_spec m ≡ []
    from v =
        let (b, d) = (system_disk_iff m.spec.system_disk).1 v.system_disk in
        let (c, e) = (data_disks_iff 0 (elements m.spec.data_disks)).1 v.data_disks in
        (app _ _).1 (
          (type_iff m.spec.instance_type).1 (v.named, v.ecs_type),
          (app _ _).1 (
            b,
            (app _ _).1 (
              c,
              (app _ _).1 (
                d,
                (app _ _).1 (
                  e,
                  (app _ _).1 (
                    (price_iff m.spec.spot_strategy m.spec.spot_price_limit).1 v.spot,
                    (validate_tags_iff m.spec.tags _).1 v.tags,
                  ),
                ),
              ),
            ),
          ),
        )
