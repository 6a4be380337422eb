-- ===== src/Webhook/Machine/Defaults.antt =====
-- What Default of internal/webhook/v1beta1/alibabacloudmachine_webhook.go does to a machine.
use text.Mathlib.TextEquality.{eq_iff}
use openshift_capi_alicloud.Prelude.{
  differs, [], ℤ, pos, negsuc, String, Option, none, some, ◌≡◌, ◌≢◌, ◌⊎◌, inl, inr, refl, IsAtLeast,
  arith, string_eq, int_eq, int_beq_iff, ◌==◌, ap, ◌∙◌, if◌then◌else◌,
}
use openshift_capi_alicloud.Api.Machine.{AlibabaCloudMachine}
use openshift_capi_alicloud.Api.Types.{SystemDisk}
use openshift_capi_alicloud.Webhook.Machine.{
  validate_machine_spec, default, fill_system_disk, default_system_disk_category,
  default_system_disk_size_gib,
}
use openshift_capi_alicloud.Webhook.Machine.Validity.{
  IsSystemDisk, OnSystemDisk, validate_machine_spec_iff,
}

abbrev category_of : String → String
category_of c = if c == "" then default_system_disk_category else c

abbrev size_of : ℤ → ℤ
size_of z = if z == pos 0 then default_system_disk_size_gib else z

size_of-IsAtLeast : (z : ℤ) → (z ≡ pos 0) ⊎ IsAtLeast 20 z → IsAtLeast 20 (size_of z)
size_of-IsAtLeast (pos n) h = ground (arith, int_beq_iff (pos n) (pos 0), h)
size_of-IsAtLeast (negsuc n) (inl e) = cc
size_of-IsAtLeast (negsuc n) (inr h) = elim h [ ]

category_of_set : (c : String) → category_of c ≢ ""
category_of_set c = ground (arith, eq_iff c "", differs default_system_disk_category "" refl)

-- A level that the category had stays right.
category_of_levels :
    (c perf_level : String)
    → (perf_level ≡ "") ⊎ (c ≡ "cloud_essd")
    → (perf_level ≡ "") ⊎ (category_of c ≡ "cloud_essd")
category_of_levels c perf_level (inl e) = inl e
category_of_levels c perf_level (inr e) = inr (ground (arith, eq_iff c "", e))

size_of_again : (z : ℤ) → size_of (size_of z) ≡ size_of z
size_of_again z =
    ground (arith, int_beq_iff z (pos 0), int_beq_iff default_system_disk_size_gib (pos 0))

category_of_again : (c : String) → category_of (category_of c) ≡ category_of c
category_of_again c = ground (arith, eq_iff c "")

fill-OnSystemDisk :
    (o : Option SystemDisk)
    → OnSystemDisk o
    → IsSystemDisk (fill_system_disk o) × IsAtLeast 20 (fill_system_disk o).size
fill-OnSystemDisk none h = ((inr (omega arith), (inl refl, inl refl)), omega arith)
fill-OnSystemDisk (some d) (size, (key, level)) =
    let right = size_of-IsAtLeast d.size size in
    ((inr right, (key, category_of_levels d.category d.performance_level level)), right)

fill_set : (o : Option SystemDisk) → (fill_system_disk o).category ≢ ""
fill_set none = differs default_system_disk_category "" refl
fill_set (some d) = category_of_set d.category

fill_again :
    (o : Option SystemDisk) → fill_system_disk (some (fill_system_disk o)) ≡ fill_system_disk o
fill_again none = refl
fill_again (some d) =
    ap (λ c. record d { category = c; size = size_of (size_of d.size) })
      (category_of_again d.category)
    ∙ ap (λ z. record d { category = category_of d.category; size = z }) (size_of_again d.size)

-- A defaulted machine, and what the defaults promise of it.
pub record IsDefaulted (old new : AlibabaCloudMachine) : Type 0 where
  pub disk : SystemDisk
  pub system_disk : new.spec.system_disk ≡ some disk
  pub category : disk.category ≢ ""
  pub again : default new ≡ new
  pub valid :
      validate_machine_spec old ≡ [] → (validate_machine_spec new ≡ []) × IsAtLeast 20 disk.size

-- The defaults give a machine a system disk with a category, and filling in the defaults again
-- changes nothing. A machine that the validation accepts is accepted with them, too, and its system
-- disk then has 20 GiB at least.
pub default-IsDefaulted : (m : AlibabaCloudMachine) → IsDefaulted m (default m)
unfolding default
default-IsDefaulted m = record {
  disk = fill_system_disk m.spec.system_disk;
  system_disk = refl;
  category = fill_set m.spec.system_disk;
  again =
      ap (λ d. record m { spec = record (m.spec) { system_disk = some d } })
        (fill_again m.spec.system_disk);
  valid = λ h.
      let v = (validate_machine_spec_iff m).0 h in
      let (right, size) = fill-OnSystemDisk m.spec.system_disk v.system_disk in
      (
        (validate_machine_spec_iff (default m)).1 (record {
          named = v.named;
          ecs_type = v.ecs_type;
          system_disk = right;
          data_disks = v.data_disks;
          spot = v.spot;
          tags = v.tags;
        }),
        size,
      );
}
