-- ===== src/MachineController/Create/Writes/Instance.antt =====
-- What createInstance of internal/controller/alibabacloudmachine_controller.go writes.
use openshift_capi_alicloud.Prelude.{
  none, ok, err, inl, inr, ℕ, List, String, Result, and_then, ◌≡◌, refl, subst, sym, ap, ◌∙◌, arith,
  string_eq,
}
use openshift_capi_alicloud.Api.Cluster.{AlibabaCloudCluster}
use openshift_capi_alicloud.Api.Kube.{Machine}
use openshift_capi_alicloud.Api.Machine.{AlibabaCloudMachineSpec}
use openshift_capi_alicloud.Client.Interface.{Client}
use openshift_capi_alicloud.MachineController.Context.{
  from_result, modify, update, Runtime, with_env, Ctl,
}
use openshift_capi_alicloud.MachineController.Create.{
  boot_image, keep_region, record_instance, create_from, run_create, classify_create_error,
  create_instance, create_with, resolve_region, or_text,
}
use openshift_capi_alicloud.MachineController.Create.Writes.{
  or_text-StaysSet, filled-Unchanged, Unchanged-trans, and_then-Writes, Writes, spec_of,
}
use openshift_capi_alicloud.MachineController.Ignition.{
  get_user_data, maybe_offload_user_data, wrap,
}
use openshift_capi_alicloud.Webhook.Machine.Immutable.{Unchanged}

module _ {E : Type 0} (rt : Runtime E) (machine : Machine) (cluster : AlibabaCloudCluster) where
  module _ (c : Client E) (a : AlibabaCloudMachineSpec) where
    spec-offload :
        (region : String) (bytes : List ℕ) (s : Ctl E)
        → spec_of (maybe_offload_user_data rt c cluster region bytes s).1 ≡ spec_of s
    unfolding maybe_offload_user_data
    spec-offload region bytes s = ground arith

    recorded-Writes :
        (region : String) (s : Ctl E) (r : Result String × E)
        → Unchanged a (spec_of s)
        → (spec_of s).provider_id ≡ none
        → Writes a (
            and_then
              (wrap classify_create_error (with_env s r))
              (λ id. update (record_instance region id)))
    recorded-Writes region s (err e, w) h new = h
    recorded-Writes region s (ok id, w) h new = Unchanged-trans a (spec_of s) _ h (
        filled-Unchanged (spec_of s) (spec_of s).region_id (spec_of s).zone_id
          (spec_of s).vswitch_id _ (inr refl) (inr refl) (inr refl) (inl new))

    create_with-Writes :
        (region image_id : String) (bytes : List ℕ) (s : Ctl E)
        → Unchanged a (spec_of s)
        → (spec_of s).provider_id ≡ none
        → Writes a (create_with rt c machine cluster region image_id bytes s)
    unfolding create_with run_create
    create_with-Writes region image_id bytes s h new =
        let t = modify (keep_region region) s in
        let kept : Unchanged a (spec_of t) = Unchanged-trans a (spec_of s) _ h (
          filled-Unchanged (spec_of s) (or_text (spec_of s).region_id region) (spec_of s).zone_id
            (spec_of s).vswitch_id (spec_of s).provider_id
            (or_text-StaysSet (spec_of s).region_id region) (inr refl) (inr refl) (inr refl)) in
        let same = spec-offload region bytes t in
        and_then-Writes a (maybe_offload_user_data rt c cluster region bytes t) _
          (subst (Unchanged a) (sym same) kept)
          (λ d u e.
            let eq = ap (λ q. spec_of q.1) (sym e) ∙ same in
            recorded-Writes region u _ (subst (Unchanged a) (sym eq) kept)
              (ap (λ x. x.provider_id) eq ∙ new))

    pub create_instance-Writes :
        (s : Ctl E)
        → Unchanged a (spec_of s)
        → (spec_of s).provider_id ≡ none
        → Writes a (create_instance rt c machine cluster s)
    unfolding create_instance create_from
    create_instance-Writes s h new =
        let m = s.machine in
        and_then-Writes a (from_result (get_user_data rt machine m) s) _ h (λ bytes t e.
          and_then-Writes a (from_result (boot_image m cluster) t) _ (at s t (ap (λ q. q.1) e) h)
            (λ image u f.
              let st = ap (λ q. q.1) e ∙ ap (λ q. q.1) f in
              create_with-Writes (resolve_region m cluster) image bytes u (at s u st h)
                (subst (λ x. (spec_of x).provider_id ≡ none) st new)))
      where
        at : (s t : Ctl E) → s ≡ t → Unchanged a (spec_of s) → Unchanged a (spec_of t)
        at s t e h = subst (λ x. Unchanged a (spec_of x)) e h
