-- ===== src/Template/Bounds.antt =====
-- The quantities of a capacity as int64s
-- (internal/controller/alibabacloudmachinetemplate_controller.go).
use openshift_capi_alicloud.Prelude.{
  true, negsuc, none, ◌∙◌, differs, ap, assign, lookup-assign, ◌==◌, false, lookup-assign_other,
  int_ltb, if-elim, suc, ◌≢◌, lookup, ◌⊎◌, ℤ, Option, String, some, inl, inr, refl, ℕ, pos, ◌≡◌,
  ◌↔◌, ◌*◌, ◌<◌, ◌^◌, arith, mul64, string_eq,
}
use openshift_capi_alicloud.Api.Machine.{AlibabaCloudMachineSpec}
use openshift_capi_alicloud.Api.Template.{decimal_si, ResourceList, Quantity}
use openshift_capi_alicloud.Api.Types.{SystemDisk}
use openshift_capi_alicloud.Template.{
  resource_ephemeral_storage, resource_memory, base_of, resource_pods, with_storage, extend,
  resource_cpu, memory_bytes, storage_bytes,
}

memory_bytes_iff : (m : ℕ) → (memory_bytes (pos m) ≡ pos (m * 2 ^ 20)) ↔ (m < 2 ^ 43)
unfolding mul64
memory_bytes_iff m = ground arith

storage_bytes_iff : (n : ℕ) → (storage_bytes (pos n) ≡ pos (n * 2 ^ 30)) ↔ (n < 2 ^ 33)
unfolding mul64
storage_bytes_iff n = ground arith

abbrev pub value_of : Option Quantity → Option ℤ
value_of none = none
value_of (some q) = some q.value

-- No system disk, or one without a size.
abbrev pub IsUnsized : Option SystemDisk → Type 0
IsUnsized none = Unit
IsUnsized (some disk) = (disk.size ≡ pos 0) ⊎ ((n : ℕ) × (disk.size ≡ negsuc n))

module _ (spec : AlibabaCloudMachineSpec) (vcpu : ℤ) (mib : ℕ) where
  abbrev pub value : String → Option ℤ
  value k = value_of (lookup k (extend spec (base_of (vcpu, pos mib))))

  pub record IsExact : Type 0 where
    pub cpu : value resource_cpu ≡ some vcpu
    pub pods : value resource_pods ≡ some (pos 110)
    pub memory : (value resource_memory ≡ some (pos (mib * 2 ^ 20))) ↔ (mib < 2 ^ 43)
    pub storage :
        (disk : SystemDisk) (gib : ℕ)
        → spec.system_disk ≡ some disk
        → disk.size ≡ pos (suc gib)
        → (value resource_ephemeral_storage ≡ some (pos (suc gib * 2 ^ 30))) ↔ (suc gib < 2 ^ 33)
    pub no_storage : IsUnsized spec.system_disk → value resource_ephemeral_storage ≡ none

-- The storage stands apart from the other quantities.
lookup-with_storage :
    (k : String) (disk : Option SystemDisk) (out : ResourceList)
    → k ≢ resource_ephemeral_storage
    → lookup k (with_storage disk out) ≡ lookup k out
lookup-with_storage k none out h = refl
lookup-with_storage k (some disk) out h =
    if-elim (λ x. lookup k x ≡ lookup k out) (int_ltb (pos 0) disk.size)
      (lookup-assign_other resource_ephemeral_storage k _ out h) refl

lookup-with_storage_unsized :
    (k : String) (disk : Option SystemDisk) (out : ResourceList)
    → IsUnsized disk
    → lookup k (with_storage disk out) ≡ lookup k out
lookup-with_storage_unsized k none out h = refl
lookup-with_storage_unsized k (some disk) out (inl e) = rw e refl
lookup-with_storage_unsized k (some disk) out (inr (n, e)) = rw e refl

is_positive : (n : ℕ) → int_ltb (pos 0) (pos (suc n)) ≡ true
is_positive n = ground arith

module _ (spec : AlibabaCloudMachineSpec) (vcpu : ℤ) (mib : ℕ) where
  -- The capacity before the storage.
  abbrev base : ResourceList
  base =
      assign resource_pods (record { value = pos 110; format = decimal_si })
        (base_of (vcpu, pos mib))

  plain :
      (k : String) {v : Option ℤ}
      → (k == resource_ephemeral_storage) ≡ false
      → value_of (lookup k base) ≡ v
      → value spec vcpu mib k ≡ v
  unfolding extend
  plain k h e =
      ap value_of
        (lookup-with_storage k spec.system_disk base (differs k resource_ephemeral_storage h))
      ∙ e

  sized :
      (disk : SystemDisk) (gib : ℕ)
      → spec.system_disk ≡ some disk
      → disk.size ≡ pos (suc gib)
      → value spec vcpu mib resource_ephemeral_storage ≡ some (storage_bytes (pos (suc gib)))
  unfolding extend
  sized disk gib h e =
      rw (h, e, is_positive gib) (ap value_of (lookup-assign resource_ephemeral_storage _ base))

  memory_value : value spec vcpu mib resource_memory ≡ some (memory_bytes (pos mib))
  unfolding lookup assign
  memory_value = plain resource_memory refl refl

  -- The quantities of a capacity of so many vCPUs and MiB: the vCPUs and 110 pods; the memory in
  -- bytes exactly when it is below 2^43 MiB, where the int64 holds it; the size of the disk in bytes
  -- exactly when it is below 2^33 GiB, and no storage without a positive size.
  pub extend-IsExact : IsExact spec vcpu mib
  unfolding lookup assign extend
  extend-IsExact = record {
    cpu = plain resource_cpu refl refl;
    pods = plain resource_pods refl refl;
    memory = ground (arith, memory_value, memory_bytes_iff mib);
    storage = λ disk gib h e. ground (arith, sized disk gib h e, storage_bytes_iff (suc gib));
    no_storage = λ h.
        ap value_of
          (lookup-with_storage_unsized resource_ephemeral_storage spec.system_disk base h);
  }
