-- ===== src/MachineController/Normal/Once.antt =====
-- Any number of reconciles of one machine (reconcileNormal of
-- internal/controller/alibabacloudmachine_controller.go), with what others write between them.
use openshift_capi_alicloud.Prelude.{
  subst, arith, Result, refl, ◌∷◌, err, ok, ap, sym, ◌≡◌, ◌∙◌, String, List, inl, inr,
}
use openshift_capi_alicloud.Api.Cluster.{AlibabaCloudCluster}
use openshift_capi_alicloud.Api.Kube.{Machine}
use openshift_capi_alicloud.Client.Interface.{Client}
use openshift_capi_alicloud.MachineController.Context.{Ctl, Runtime}
use openshift_capi_alicloud.MachineController.Create.Accounts.{
  IsNaming, Noted, notes, noting, noting_result, noting_runtime, noting-Recording, Recording,
  IsSame, Accounted,
}
use openshift_capi_alicloud.MachineController.Normal.{reconcile_normal}
use openshift_capi_alicloud.MachineController.Normal.Accounts.{kept, reconcile_normal-Accounted}

module _ {E : Type 0} (returned : E → List String) where
  -- An account of two stretches: what was returned in the first is recorded in the second.
  Accounted-trans :
      {b s t : Ctl E} → Accounted returned b s → Accounted returned s t → Accounted returned b t
  Accounted-trans {b} {s} (inl p) (inl q) = inl (record {
    none_returned = q.none_returned ∙ p.none_returned;
    as_recorded = q.as_recorded ∙ p.as_recorded;
  })
  Accounted-trans {b} {s} (inl p) (inr q) = inr (record {
    none_recorded = sym p.as_recorded ∙ q.none_recorded;
    id = q.id;
    one_returned = q.one_returned ∙ ap (λ l. q.id ∷ l) p.none_returned;
    recorded = q.recorded;
  })
  Accounted-trans {b} {s} (inr p) (inl q) =
      kept returned b {s = s} q.none_returned q.as_recorded (inr p)
  Accounted-trans {b} {s} (inr p) (inr q) = cc (sym p.recorded ∙ q.none_recorded)

module _ {E : Type 0} (rt : Runtime E) where
  -- The states that come of a first one by reconciles, each with the Machine and the cluster of its
  -- time, and by writes of others that keep status.instanceID and create nothing. The reconciler is
  -- the one of `rt`, with a note of each identifier that a creation returns.
  pub data Reconciles (b : Ctl (Noted E)) : Ctl (Noted E) → Type 0 where
    start : Reconciles b b
    written :
        {s : Ctl (Noted E)} (t : Ctl (Noted E)) → Reconciles b s → IsSame notes s t → Reconciles b t
    reconciled :
        {s : Ctl (Noted E)} (machine : Machine) (cluster : AlibabaCloudCluster)
        → Reconciles b s
        → Reconciles b (reconcile_normal (noting_runtime rt) machine cluster s).1

  result-Recording :
      (r : Result (Client E)) (c : Client (Noted E))
      → ((a : Client E) → r ≡ ok a → IsNaming a)
      → noting_result r ≡ ok c
      → Recording notes c
  result-Recording (ok a) c naming h =
      let same : noting a ≡ c = ground (arith, h) in
      subst (Recording notes) same (noting-Recording a (naming a refl))
  result-Recording (err e) c naming h = cc

  -- However many reconciles a machine goes through that are no deletion, however they end, and
  -- whatever others write between them, as long as that keeps status.instanceID and creates nothing:
  -- either no creation returns an identifier and status.instanceID is as it was, or one creation in
  -- all does, of an instance that it made or adopted, where none was recorded, and status.instanceID
  -- has that identifier. The clients that are built describe an instance under its identifier. A
  -- creation that fails is not counted, whatever it leaves behind.
  pub Reconciles-Accounted :
      {b t : Ctl (Noted E)}
      → ((region : String) (c : Client E) → rt.client_builder region ≡ ok c → IsNaming c)
      → Reconciles b t
      → Accounted notes b t
  Reconciles-Accounted naming start = inl (record { none_returned = refl; as_recorded = refl })
  Reconciles-Accounted naming (written {s} t r same) =
      Accounted-trans notes {s = s} (Reconciles-Accounted naming r) (inl same)
  Reconciles-Accounted naming (reconciled {s} machine cluster r) =
      Accounted-trans notes {s = s} (Reconciles-Accounted naming r) (
        reconcile_normal-Accounted notes (noting_runtime rt) machine cluster s
          (λ region c. result-Recording (rt.client_builder region) c (naming region)))
