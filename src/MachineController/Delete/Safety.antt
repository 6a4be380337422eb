-- ===== src/MachineController/Delete/Safety.antt =====
-- When reconcileDelete of internal/controller/alibabacloudmachine_controller.go lets go of the finalizer.
use text.Mathlib.TextEquality.{eq_iff}
use openshift_capi_alicloud.Prelude.{
  some, ◌==◌, ◌∙◌, Bool-cases, ap, inr, Option, and_then, String, none, List, Result, ok, err, ◌≡◌,
  ◌≢◌, ◌⊎◌, inl, refl, arith, string_eq, Action,
}
use openshift_capi_alicloud.Api.Kube.{Outcome, finished}
use openshift_capi_alicloud.Api.Machine.{AlibabaCloudMachine}
use openshift_capi_alicloud.ProviderId.{region_from_machine}
use openshift_capi_alicloud.Client.Interface.{Client, machine_name_tag_key}
use openshift_capi_alicloud.MachineController.Context.{Runtime, Ctl, on_env}
use openshift_capi_alicloud.MachineController.Delete.{
  delete_in, recorded_instance, delete_with, described, reconcile_delete, with_info,
  delete_instance, delete_orphan, with_orphan, sweep, terminate,
}
use openshift_capi_alicloud.MachineController.Normal.{describe_instance, InstanceInfo}

abbrev pub finalizers_of : {E : Type 0} → Ctl E → List String
finalizers_of s = s.machine.metadata.finalizers

module _ {E : Type 0} (rt : Runtime E) where
  -- Either the finalizers are as before and the reconcile is not over, or `P` holds.
  abbrev Fate : List String → Type 0 → Result Outcome × Ctl E → Type 0
  Fate before P out = ((finalizers_of out.1 ≡ before) × (out.0 ≢ ok finished)) ⊎ P

  and_then-Fate :
      {A : Type 0} (before : List String) (P : Type 0) (r : Result A × Ctl E)
      (f : A → Action (Ctl E) Outcome)
      → finalizers_of r.1 ≡ before
      → ((a : A) → r.0 ≡ ok a → Fate before P (f a r.1))
      → Fate before P (and_then r f)
  and_then-Fate before P (ok a, t) f h k = k a refl
  and_then-Fate before P (err e, t) f h k = inl (h, λ q. cc)

  module _ (c : Client E) (before : List String) (P : Type 0) where
    with_orphan-Fate :
        (region orphan_id : String) (s : Ctl E)
        → finalizers_of s ≡ before
        → (orphan_id ≡ "" → P)
        → Fate before P (with_orphan rt c region orphan_id s)
    unfolding with_orphan delete_orphan
    with_orphan-Fate region orphan_id s h k = ground (arith, eq_iff orphan_id "")

    sweep-Fate :
        (region : String) (s : Ctl E)
        → finalizers_of s ≡ before
        → ((c.find_instance_by_tag region machine_name_tag_key s.machine.metadata.name s.env).0
              ≡ ok ""
            → P)
        → Fate before P (sweep rt c region s)
    unfolding sweep
    sweep-Fate region s h k =
        and_then-Fate before P
          (on_env (c.find_instance_by_tag region machine_name_tag_key s.machine.metadata.name) s)
          (with_orphan rt c region) h
          (λ orphan_id e. with_orphan-Fate region orphan_id _ h (λ p. k (rw p at e)))

    terminate-Fate :
        (instance_id : String) (info : InstanceInfo) (s : Ctl E)
        → finalizers_of s ≡ before
        → Fate before P (terminate rt c instance_id info s)
    unfolding terminate delete_instance
    terminate-Fate instance_id info s h = ground arith

  -- The instance is gone: none is recorded, or the cloud describes it no more.
  abbrev pub IsGone : Client E → String → E → E → Type 0
  IsGone c instance_id e e' =
      ((instance_id ≡ "") × (e' ≡ e)) ⊎ (c.describe_instance_by_id instance_id e ≡ (ok none, e'))

  described-IsGone :
      (c : Client E) (instance_id : String) (s : Ctl E)
      → (described rt c instance_id s).0 ≡ ok none
      → IsGone c instance_id s.env (described rt c instance_id s).1.env
  unfolding described describe_instance
  described-IsGone c instance_id s h = ground (arith, eq_iff instance_id "")

  machine-described :
      (c : Client E) (instance_id : String) (s : Ctl E)
      → (described rt c instance_id s).1.machine ≡ s.machine
  unfolding described describe_instance
  machine-described c instance_id s = ground arith

  -- Why a machine may go: the region and a client are at hand, the recorded instance is gone, and
  -- then the sweep of the region by the machine's name tag found nothing.
  pub record Cleared (m : AlibabaCloudMachine) (e : E) : Type 0 where
    pub region : String
    pub client : Client E
    pub seen : E
    pub region_known : region_from_machine m ≡ ok region
    pub client_built : rt.client_builder region ≡ ok client
    pub gone : IsGone client (recorded_instance m) e seen
    pub swept :
        (client.find_instance_by_tag region machine_name_tag_key m.metadata.name seen).0 ≡ ok ""

  with_info-Fate :
      (c : Client E) (before : List String) (P : Type 0) (region instance_id : String)
      (info : Option InstanceInfo) (s : Ctl E)
      → finalizers_of s ≡ before
      → (info ≡ none
          → (c.find_instance_by_tag region machine_name_tag_key s.machine.metadata.name s.env).0
            ≡ ok ""
          → P)
      → Fate before P (with_info rt c region instance_id info s)
  unfolding with_info
  with_info-Fate c before P region instance_id none s h k =
      sweep-Fate c before P region s h (k refl)
  with_info-Fate c before P region instance_id (some info) s h k =
      terminate-Fate c before P instance_id info s h

  delete_with-Fate :
      (before : List String) (P : Type 0) (region instance_id : String) (s : Ctl E)
      (built : Result (Client E))
      → finalizers_of s ≡ before
      → ((c : Client E) (seen : E)
          → built ≡ ok c
          → IsGone c instance_id s.env seen
          → (c.find_instance_by_tag region machine_name_tag_key s.machine.metadata.name seen).0
            ≡ ok ""
          → P)
      → Fate before P (delete_with rt region instance_id built s)
  unfolding delete_with
  delete_with-Fate before P region instance_id s (err e) h k = inl (h, cc)
  delete_with-Fate before P region instance_id s (ok c) h k =
      let same = machine-described c instance_id s in
      and_then-Fate before P (described rt c instance_id s) (with_info rt c region instance_id)
        (ap (λ m. m.metadata.finalizers) same ∙ h)
        (λ info e.
          with_info-Fate c before P region instance_id info _
            (ap (λ m. m.metadata.finalizers) same ∙ h)
            (λ n q. k c _ refl (described-IsGone c instance_id s (rw n at e)) (rw same at q)))

  -- Nothing is recorded that could name an instance or its region.
  abbrev pub NeverCreated : AlibabaCloudMachine → Type 0
  NeverCreated m = (recorded_instance m ≡ "") × ((r : String) → region_from_machine m ≢ ok r)

  delete_in-Fate :
      (before : List String) (P : Type 0) (instance_id : String) (region : Result String)
      (s : Ctl E)
      → finalizers_of s ≡ before
      → (instance_id ≡ "" → ((r : String) → region ≢ ok r) → P)
      → ((r : String) (c : Client E) (seen : E)
          → region ≡ ok r
          → rt.client_builder r ≡ ok c
          → IsGone c instance_id s.env seen
          → (c.find_instance_by_tag r machine_name_tag_key s.machine.metadata.name seen).0 ≡ ok ""
          → P)
      → Fate before P (delete_in rt instance_id region s)
  unfolding delete_in
  delete_in-Fate before P instance_id (err e) s h never gone =
      elim (Bool-cases (instance_id == "")) [
        | inl p ↦ rw p (inr (never ((eq_iff instance_id "").0 p) (λ r q. cc)))
        | inr n ↦ rw n (inl (h, λ q. cc))
      ]
  delete_in-Fate before P instance_id (ok r) s h never gone =
      delete_with-Fate before P r instance_id _ (rt.client_builder r) h
        (λ c seen. gone r c seen refl)

  reconcile_delete-Fate :
      (s : Ctl E)
      → Fate
          (finalizers_of s)
          (NeverCreated s.machine ⊎ Cleared s.machine s.env)
          (reconcile_delete rt s)
  unfolding reconcile_delete
  reconcile_delete-Fate s =
      delete_in-Fate (finalizers_of s) _ (recorded_instance s.machine)
        (region_from_machine s.machine) s refl (λ e n. inl (e, n))
        (λ r c seen known built gone swept. inr (record {
          region = r;
          client = c;
          seen = seen;
          region_known = known;
          client_built = built;
          gone = gone;
          swept = swept;
        }))

  -- Deleting a machine either leaves its finalizers as they were and is tried again (a requeue or an
  -- error), or one of two things holds: nothing recorded on the machine names an instance or a
  -- region; or its region and a client were at hand, the cloud no longer describes the recorded
  -- instance (or none is recorded), and a sweep of the region by the machine's name tag, made after
  -- that, succeeded and found no instance. The cloud, its errors and the utilities are arbitrary.
  pub reconcile_delete_releases :
      (s : Ctl E)
      → ((finalizers_of (reconcile_delete rt s).1 ≡ finalizers_of s)
          × ((reconcile_delete rt s).0 ≢ ok finished))
        ⊎ (NeverCreated s.machine ⊎ Cleared s.machine s.env)
  reconcile_delete_releases = reconcile_delete-Fate
