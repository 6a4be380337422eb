-- ===== src/Scenarios/Templates.antt =====
-- A machine template, with a cloud that has one answer for every instance type.
use text.Mathlib.TextPositions.{eq_refl}
use openshift_capi_alicloud.Prelude.{
  assign, lookup, ℤ, pos, String, Bool, true, false, none, some, [], ◌∷◌, ok, ◌≡◌, refl, sym, subst,
  arith, ◌==◌, ◌&&◌, string_eq, int_eq, int_beq_iff,
}
use openshift_capi_alicloud.Api.Kube.{finished, found}
use openshift_capi_alicloud.Api.Machine.{AlibabaCloudMachineSpec}
use openshift_capi_alicloud.Api.Template.{ResourceList, AlibabaCloudMachineTemplate}
use openshift_capi_alicloud.Template.{
  TemplateApi, Around, Reconciler, resolve_capacity, set_capacity,
}
use openshift_capi_alicloud.Template.Bounds.{IsExact, extend-IsExact}
use openshift_capi_alicloud.Template.Capacity.{
  AreStatic, Resolved, resolve_capacity-Resolved, fresh,
}
use openshift_capi_alicloud.Template.Settled.{
  Account, reconcile-Told, reconcile-settled, capacity_of,
}
use openshift_capi_alicloud.Scenarios.World.{worker_meta, worker_spec, cloud_client}
use openshift_capi_alicloud.Template

-- Equality by names and values.
same_lists : ResourceList → ResourceList → Bool
same_lists [] [] = true
same_lists [] (_ ∷ _) = false
same_lists (_ ∷ _) [] = false
same_lists ((k, q) ∷ l) ((j, p) ∷ m) = k == j && (q.value == p.value && same_lists l m)

same_lists_refl : (l : ResourceList) → same_lists l l ≡ true
unfolding same_lists
same_lists_refl [] = refl
same_lists_refl ((k, q) ∷ l) =
    ground (arith, eq_refl k, int_beq_iff q.value q.value, same_lists_refl l)

abbrev template_api : TemplateApi Bool
template_api = record { client_builder = λ region. ok cloud_client; deep_equal = same_lists }

abbrev specs : String → ℤ × ℤ
specs type = (pos 2, pos 8192)

static : AreStatic template_api specs
static type v a =
    let same : cloud_client ≡ a.client = ground (arith, a.built) in
    let told : cloud_client.instance_type_capacity type a.before ≡ (ok v, a.after) =
      subst (λ c. c.instance_type_capacity type a.before ≡ (ok v, a.after)) (sym same) a.answer in
    cc

abbrev sized_spec : AlibabaCloudMachineSpec
sized_spec = record worker_spec {
  region_id = "cn-hangzhou";
  system_disk = some (record {
    category = "cloud_essd";
    size = pos 40;
    performance_level = "";
    encrypted = none;
    kms_key_id = "";
  });
}

abbrev empty_cache : Reconciler Bool
empty_cache = record { env = true; cache = [] }

resolve_capacity-Resolved_example :
    Resolved template_api specs static sized_spec empty_cache
      (resolve_capacity template_api sized_spec empty_cache)
resolve_capacity-Resolved_example =
    resolve_capacity-Resolved template_api specs static sized_spec empty_cache fresh

abbrev template : AlibabaCloudMachineTemplate
template = record {
  metadata = worker_meta;
  spec = record { template = record { spec = sized_spec } };
  status = record { capacity = [] };
}

abbrev around_template : AlibabaCloudMachineTemplate → Around
around_template t = record { get = found t; patch = λ _ _. ok tt }

reconcile-Told_example :
    Account template_api specs static
      (around_template template)
      empty_cache
      (Template.reconcile template_api (around_template template) empty_cache)
reconcile-Told_example =
    reconcile-Told template_api specs static (around_template template) empty_cache fresh

abbrev set_template : AlibabaCloudMachineTemplate
set_template = set_capacity template_api (capacity_of template_api specs static template) template

abbrev filled_cache : Reconciler Bool
filled_cache = (resolve_capacity template_api sized_spec empty_cache).1

reconcile-settled_example :
    Template.reconcile template_api (around_template set_template) filled_cache
    ≡ (ok finished, (filled_cache, none))
unfolding Template.reconcile resolve_capacity same_lists lookup assign
reconcile-settled_example =
    reconcile-settled template_api specs static same_lists_refl (around_template template)
      (around_template set_template) empty_cache filled_cache fresh refl refl

extend-IsExact_example : IsExact sized_spec (pos 2) 8192
extend-IsExact_example = extend-IsExact sized_spec (pos 2) 8192
