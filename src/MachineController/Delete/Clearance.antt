-- ===== src/MachineController/Delete/Clearance.antt =====
-- A deletion that lets go of the finalizer, against the instances of the cloud
-- (reconcileDelete of internal/controller/alibabacloudmachine_controller.go with pkg/client/capi.go).
use openshift_capi_alicloud.Prelude.{
  [], ◌≤◌, length, String, List, ok, ◌≡◌, ◌≢◌, ◌⊎◌, inl, inr, refl, Elem, subst, sym, ap, ◌∙◌,
}
use openshift_capi_alicloud.Api.Kube.{finished}
use openshift_capi_alicloud.Api.Machine.{AlibabaCloudMachine}
use openshift_capi_alicloud.ProviderId.{region_from_machine}
use openshift_capi_alicloud.Client.Cloud.{
  named_in, tagged_in, page_size, Listed, IsLive, Described, Found, Observes,
}
use openshift_capi_alicloud.Client.Interface.{Client, machine_name_tag_key}
use openshift_capi_alicloud.Client.Oss.{OssSdk}
use openshift_capi_alicloud.Client.Real.{alibaba_cloud_client}
use openshift_capi_alicloud.Client.Real.Refinement.{alibaba_cloud_client-Observes, view, CloudLaws}
use openshift_capi_alicloud.Client.Sdk.{Env, Sdk}
use openshift_capi_alicloud.MachineController.Context.{Runtime, Ctl}
use openshift_capi_alicloud.MachineController.Delete.{recorded_instance, reconcile_delete}
use openshift_capi_alicloud.MachineController.Delete.Safety.{
  reconcile_delete_releases, NeverCreated, IsGone,
}

-- Nothing of the machine is left among the instances of the region: none has the recorded identifier,
-- and, as long as one page holds those that have the machine's tag, none of them is live.
pub record IsClearOf (m : AlibabaCloudMachine) (region : String) (all : List Listed) : Type 0 where
  pub recorded : recorded_instance m ≢ "" → named_in region (recorded_instance m) all ≡ []
  pub tagged :
      length (tagged_in region machine_name_tag_key m.metadata.name all) ≤ page_size
      → (a : Listed) → Elem a (tagged_in region machine_name_tag_key m.metadata.name all)
      → ¬ IsLive a

module _ {E : Type 0} (rt : Runtime E) (view : E → List Listed)
    (observes : (region : String) (c : Client E)
      → rt.client_builder region ≡ ok c
      → Observes region c view) where
  gone-view :
      (region : String) (c : Client E) (id : String) (e e' : E)
      → Observes region c view
      → IsGone rt c id e e'
      → (view e' ≡ view e) × (id ≢ "" → named_in region id (view e) ≡ [])
  gone-view region c id e e' o (inl (empty_id, same)) = (ap view same, λ n. absurd (n empty_id))
  gone-view region c id e e' o (inr h) = (
    ap (λ x. view x.1) (sym h) ∙ o.describe_keeps id e,
    λ _. subst (λ x. Described region id (view e) x.0) h (o.describe_tells id e),
  )

  reconcile_delete_clears :
      (s : Ctl E)
      → (reconcile_delete rt s).0 ≡ ok finished
      → NeverCreated rt s.machine
        ⊎ ((region : String) × (region_from_machine s.machine ≡ ok region)
            × IsClearOf s.machine region (view s.env))
  reconcile_delete_clears s h = elim (reconcile_delete_releases rt s) [
    | inl (_, unfinished) ↦ absurd (unfinished h)
    | inr (inl never) ↦ inl never
    | inr (inr cleared) ↦
        let name = s.machine.metadata.name in
        let o = observes cleared.region cleared.client cleared.client_built in
        let (same, none_left) =
          gone-view cleared.region cleared.client (recorded_instance s.machine) s.env cleared.seen o
            cleared.gone in
        let told : Found cleared.region machine_name_tag_key name (view s.env) (ok "") =
          subst (λ v. Found cleared.region machine_name_tag_key name v (ok "")) same
            (subst (Found cleared.region machine_name_tag_key name (view cleared.seen))
              cleared.swept (o.find_tells machine_name_tag_key name cleared.seen)) in
        inr (
          cleared.region,
          cleared.region_known,
          record { recorded = none_left; tagged = told.0 refl },
        )
  ]

module _ {W : Type 0} (instances : W → List Listed) (sdk : String → Sdk W)
    (laws : (region : String) → CloudLaws instances region (sdk region)) (oss : OssSdk W)
    (getenv : String → String) where
  -- A deletion that finishes, with the provider's own client of each region over a cloud that answers
  -- as documented, leaves nothing behind: nothing recorded on the machine names an instance or a
  -- region, or else, in the machine's region, the cloud that it was called on has no instance with
  -- the recorded identifier, if one is recorded, and no live instance with the tag that the sweep
  -- looks for, as long as at most ten instances there have that tag, which is one page of a search.
  pub reconcile_delete-IsClearOf :
      (rt : Runtime (Env W))
      → ((region : String) (c : Client (Env W))
          → rt.client_builder region ≡ ok c
          → c ≡ alibaba_cloud_client (sdk region) oss getenv)
      → (s : Ctl (Env W)) → (reconcile_delete rt s).0 ≡ ok finished
      → NeverCreated rt s.machine
        ⊎ ((region : String) × (region_from_machine s.machine ≡ ok region)
            × IsClearOf s.machine region (instances s.env.cloud))
  reconcile_delete-IsClearOf rt real = reconcile_delete_clears rt (view instances) (λ region c h.
      subst (λ x. Observes region x (view instances)) (sym (real region c h))
        (alibaba_cloud_client-Observes instances region (sdk region) (laws region) oss getenv))
