-- ===== src/Template.antt =====
-- internal/controller/alibabacloudmachinetemplate_controller.go.
pub mod Capacity
pub mod Bounds
pub mod Settled
use openshift_capi_alicloud.Prelude.{
  ℤ, pos, String, Bool, Option, none, some, List, [], ◌∷◌, Result, ok, err, Error, Action, lookup,
  assign, mul64, ◌==◌, string_eq, int_ltb, if◌then◌else◌,
}
use openshift_capi_alicloud.Api.Kube.{finished, Fetched, found, not_found, failed, Outcome}
use openshift_capi_alicloud.Api.Machine.{AlibabaCloudMachineSpec}
use openshift_capi_alicloud.Api.Template.{
  Quantity, decimal_si, binary_si, ResourceList, AlibabaCloudMachineTemplate,
}
use openshift_capi_alicloud.Api.Types.{SystemDisk}
use openshift_capi_alicloud.Client.Interface.{Client}

abbrev pub default_max_pods_per_node : ℤ
default_max_pods_per_node = pos 110

-- The names corev1.ResourceCPU, ResourceMemory, ResourcePods and ResourceEphemeralStorage.
abbrev pub resource_cpu : String
resource_cpu = "cpu"

abbrev pub resource_memory : String
resource_memory = "memory"

abbrev pub resource_pods : String
resource_pods = "pods"

abbrev pub resource_ephemeral_storage : String
resource_ephemeral_storage = "ephemeral-storage"

-- memMiB*1024*1024
abbrev pub memory_bytes : ℤ → ℤ
memory_bytes mib = mul64 (mul64 mib 1024) 1024

-- int64(Size)*1024*1024*1024
abbrev pub storage_bytes : ℤ → ℤ
storage_bytes gib = mul64 (mul64 (mul64 gib 1024) 1024) 1024

-- What is cached for an instance type with so many vCPUs and so much memory in MiB.
abbrev pub base_of : ℤ × ℤ → ResourceList
base_of (vcpu, mib) =
    (resource_cpu, record { value = vcpu; format = decimal_si })
    ∷ (resource_memory, record { value = memory_bytes mib; format = binary_si })
    ∷ []

abbrev pub with_storage : Option SystemDisk → ResourceList → ResourceList
with_storage none out = out
with_storage (some disk) out =
    if int_ltb (pos 0) disk.size
    then assign resource_ephemeral_storage
        (record { value = storage_bytes disk.size; format = binary_si }) out
    else out

-- The copy of what is cached, with the pods and the storage of the template.
unfoldable pub extend : AlibabaCloudMachineSpec → ResourceList → ResourceList
extend spec base =
    with_storage spec.system_disk (
      assign resource_pods (record { value = default_max_pods_per_node; format = decimal_si }) base)

-- The reconciler's cache, and what its calls act on.
pub record Reconciler (E : Type 0) : Type 0 where
  pub env : E
  pub cache : List (String × ResourceList)

-- AlibabaCloudClientBuilder, and equality.Semantic.DeepEqual.
pub record TemplateApi (E : Type 0) : Type 0 where
  pub client_builder : String → Result (Client E)
  pub deep_equal : ResourceList → ResourceList → Bool

-- The Get, and Status().Patch with a merge from the first template to the second.
pub record Around : Type 0 where
  pub get : Fetched AlibabaCloudMachineTemplate
  pub patch : (before after : AlibabaCloudMachineTemplate) → Result (Unit {0})

module _ {E : Type 0} (api : TemplateApi E) where
  abbrev pub remember : String → Result (ℤ × ℤ) × E → Action (Reconciler E) ResourceList
  remember type (err e, env) s = (err e, record s { env = env })
  remember type (ok v, env) s =
      (ok (base_of v), record { env = env; cache = assign type (base_of v) s.cache })

  abbrev pub ask : String → Result (Client E) → Action (Reconciler E) ResourceList
  ask type (err e) s = (err e, s)
  ask type (ok cli) s = remember type (cli.instance_type_capacity type s.env) s

  abbrev pub resolve_base :
      AlibabaCloudMachineSpec → Option ResourceList → Action (Reconciler E) ResourceList
  resolve_base spec (some base) s = (ok base, s)
  resolve_base spec none s = ask spec.instance_type (api.client_builder spec.region_id) s

  abbrev pub extended :
      AlibabaCloudMachineSpec
      → Result ResourceList × Reconciler E
      → Result ResourceList × Reconciler E
  extended spec (err e, s) = (err e, s)
  extended spec (ok base, s) = (ok (extend spec base), s)

  unfoldable pub resolve_capacity : AlibabaCloudMachineSpec → Action (Reconciler E) ResourceList
  unfolding extend
  resolve_capacity spec s = extended spec (resolve_base spec (lookup spec.instance_type s.cache) s)

  -- The result, the reconciler, and the template that was sent to the patch, if one was.
  abbrev pub Reconciled : Type 0
  Reconciled = Result Outcome × (Reconciler E × Option AlibabaCloudMachineTemplate)

  abbrev pub patched : AlibabaCloudMachineTemplate → Result (Unit {0}) → Reconciler E → Reconciled
  patched after (err e) s = (err e, (s, some after))
  patched after (ok _) s = (ok finished, (s, some after))

  abbrev pub set_capacity : ResourceList → AlibabaCloudMachineTemplate → AlibabaCloudMachineTemplate
  set_capacity capacity tmpl = record tmpl { status = record { capacity = capacity } }

  module _ (around : Around) where
    abbrev pub with_capacity :
        AlibabaCloudMachineTemplate → Result ResourceList × Reconciler E → Reconciled
    with_capacity tmpl (err e, s) = (err e, (s, none))
    with_capacity tmpl (ok capacity, s) =
        let after = set_capacity capacity tmpl in
        if api.deep_equal tmpl.status.capacity capacity
        then (ok finished, (s, none))
        else patched after (around.patch tmpl after) s

    abbrev pub with_template : AlibabaCloudMachineTemplate → Reconciler E → Reconciled
    with_template tmpl s =
        let spec = tmpl.spec.template.spec in
        if spec.instance_type == ""
        then (ok finished, (s, none))
        else if spec.region_id == ""
        then (ok finished, (s, none))
        else with_capacity tmpl (resolve_capacity spec s)

    abbrev pub with_fetched : Fetched AlibabaCloudMachineTemplate → Reconciler E → Reconciled
    with_fetched not_found s = (ok finished, (s, none))
    with_fetched (failed e) s = (err e, (s, none))
    with_fetched (found tmpl) s = with_template tmpl s

    unfoldable pub reconcile : Reconciler E → Reconciled
    unfolding resolve_capacity
    reconcile s = with_fetched around.get s
