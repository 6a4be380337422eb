-- ===== src/MachineController/Normal/Admitted.antt =====
-- What reconcileNormal of internal/controller/alibabacloudmachine_controller.go writes, against what
-- the webhook lets an update change.
use openshift_capi_alicloud.Prelude.{
  true, false, none, some, ok, err, inl, inr, Operand, Bool, List, ◌≢◌, wrapped, [], ◌∷◌, str,
  if-elim, ◌||◌, String, Option, Result, Error, and_then, return, ◌≡◌, ◌⊎◌, refl, subst, sym, ap,
  ◌∙◌, arith, string_eq, ◌==◌,
}
use openshift_capi_alicloud.Api.Cluster.{AlibabaCloudCluster}
use openshift_capi_alicloud.Api.Kube.{Machine}
use openshift_capi_alicloud.Api.Machine.{AlibabaCloudMachine, AlibabaCloudMachineSpec}
use openshift_capi_alicloud.Api.Types.{
  instance_state_stopped, instance_state_deleted, instance_state_running,
}
use openshift_capi_alicloud.ProviderId.{provider_id_for}
use openshift_capi_alicloud.Client.Interface.{InstanceDescription, Client}
use openshift_capi_alicloud.MachineController.Context.{
  add_machine_finalizer, modify, as_terminal, Runtime, with_env, Ctl,
}
use openshift_capi_alicloud.MachineController.Create.{
  create_instance, resolve_region, resolve_failure_domain,
}
use openshift_capi_alicloud.MachineController.Create.Writes.{
  resolve_failure_domain-Resolved, Unchanged-refl, Unchanged-trans, and_then-Writes, Resolved,
  Writes, filled-Unchanged, spec_of,
}
use openshift_capi_alicloud.MachineController.Create.Writes.Instance.{create_instance-Writes}
use openshift_capi_alicloud.MachineController.Ignition.{wrap}
use openshift_capi_alicloud.MachineController.Normal.{
  has_no_bootstrap, find_or_create_instance, after_error, find_or_create, gates, reconcile_normal,
  with_client, with_domain, with_instance, names_other, to_info, describe_instance, follow_instance,
  with_description, InstanceInfo, by_state, heal_provider_id, maybe_harden_metadata,
}
use openshift_capi_alicloud.MachineController.Normal.Ending.{status-resolve_failure_domain}
use openshift_capi_alicloud.Webhook.Machine.{validate_machine_immutable}
use openshift_capi_alicloud.Webhook.Machine.Immutable.{validate_machine_immutable_iff, Unchanged}

module _ {E : Type 0} where
  module _ (c : Client E) (machine : Machine) (cluster : AlibabaCloudCluster) where
    spec-harden :
        (id : String) (s : Ctl E) → spec_of (maybe_harden_metadata c machine id s) ≡ spec_of s
    unfolding maybe_harden_metadata
    spec-harden id s = ground arith

    by_state-Writes :
        (a : AlibabaCloudMachineSpec) (id : String) (info : InstanceInfo) (s : Ctl E)
        → Unchanged a (spec_of s)
        → Writes a (by_state c machine id info s)
    unfolding by_state
    by_state-Writes a id info s h =
        if-elim (Writes a) (info.state == instance_state_running)
          (subst (Unchanged a) (sym (spec-harden id s)) h)
          (if-elim (Writes a)
            (info.state == instance_state_deleted || info.state == instance_state_stopped) h h)

    healed :
        (r id : String) (p : Option String)
        → (p ≡ none) ⊎ (elim p [ none ↦ some (provider_id_for r id) | some pid ↦ some pid ] ≡ p)
    healed r id none = inl refl
    healed r id (some pid) = inr refl

    heal-Unchanged :
        (r id : String) (m : AlibabaCloudMachine) → Unchanged m.spec (heal_provider_id r id m).spec
    heal-Unchanged r id m =
        filled-Unchanged m.spec m.spec.region_id m.spec.zone_id m.spec.vswitch_id _ (inr refl)
          (inr refl) (inr refl) (healed r id m.spec.provider_id)

    with_description-Writes :
        (a : AlibabaCloudMachineSpec) (id : String) (o : Option InstanceInfo) (s : Ctl E)
        → Unchanged a (spec_of s)
        → Writes a (with_description c machine cluster id o s)
    unfolding with_description
    with_description-Writes a id none s h = h
    with_description-Writes a id (some info) s h = by_state-Writes a id info _ (
        Unchanged-trans a (spec_of s) _ h
          (heal-Unchanged (resolve_region s.machine cluster) id s.machine))

    spec-described :
        (f : Error → Error) (s : Ctl E) (r : Result (Option InstanceDescription) × E)
        → spec_of (and_then (wrap f (with_env s r)) (λ d. return (to_info d))).1 ≡ spec_of s
    spec-described f s (ok d, e) = refl
    spec-described f s (err x, e) = refl

    follow-Writes :
        (a : AlibabaCloudMachineSpec) (id : String) (s : Ctl E)
        → Unchanged a (spec_of s)
        → Writes a (follow_instance c machine cluster id s)
    unfolding follow_instance describe_instance
    follow-Writes a id s h =
        let same =
          spec-described (wrapped "failed to describe instance %s: %w" (str id ∷ [])) s
            (c.describe_instance_by_id id s.env) in
        if-elim (Writes a) (names_other s.machine.spec.provider_id id) h (
          and_then-Writes a (describe_instance c id s) (with_description c machine cluster id)
            (subst (Unchanged a) (sym same) h)
            (λ o t e.
              with_description-Writes a id o t
                (subst (Unchanged a) (sym (ap (λ q. spec_of q.1) (sym e) ∙ same)) h)))

module _ {E : Type 0} (rt : Runtime E) (machine : Machine) (cluster : AlibabaCloudCluster) where
  module _ (c : Client E) (a : AlibabaCloudMachineSpec) where
    find_or_create-Writes :
        (o : Option String) (s : Ctl E)
        → Unchanged a (spec_of s)
        → ((spec_of s).provider_id ≡ none) ⊎ (o ≢ none)
        → Writes a (find_or_create rt machine cluster o c s)
    unfolding find_or_create
    find_or_create-Writes (some id) s h new = follow-Writes c machine cluster a id s h
    find_or_create-Writes none s h (inr ne) = absurd (ne refl)
    find_or_create-Writes none s h (inl new) =
        let w = create_instance-Writes rt machine cluster c a s h new in
        and_then-Writes a (create_instance rt c machine cluster s) _ w
          (λ x t e. subst (λ q. Unchanged a (spec_of q.1)) e w)

  after_error-Writes :
      (a : AlibabaCloudMachineSpec) (t : Option (String × String × List Operand)) (e : Error)
      (s : Ctl E)
      → Unchanged a (spec_of s)
      → Writes a (after_error rt machine cluster t e s)
  unfolding after_error
  after_error-Writes a (some (reason, format, args)) e s h = h
  after_error-Writes a none e s h = h

  with_instance-Writes :
      (a : AlibabaCloudMachineSpec) (r : Result (Option InstanceInfo) × Ctl E)
      → Writes a r
      → Writes a (with_instance rt machine cluster r)
  unfolding with_instance
  with_instance-Writes a (ok none, s) h = h
  with_instance-Writes a (ok (some info), s) h = h
  with_instance-Writes a (err e, s) h = after_error-Writes a (as_terminal e) e s h

  with_client-Writes :
      (a : AlibabaCloudMachineSpec) (b : Result (Client E)) (s : Ctl E)
      → Unchanged a (spec_of s)
      → ((spec_of s).provider_id ≡ none) ⊎ (s.machine.status.instance_id ≢ none)
      → Writes a (with_client rt machine cluster b s)
  unfolding with_client find_or_create_instance
  with_client-Writes a (err e) s h new = h
  with_client-Writes a (ok c) s h new =
      with_instance-Writes a (find_or_create_instance rt machine cluster c s)
        (find_or_create-Writes c a s.machine.status.instance_id s h new)

  with_domain-Writes :
      (s : Ctl E) (r : Result (Unit {0}) × AlibabaCloudMachine)
      → Resolved s.machine r
      → r.1.status.instance_id ≡ s.machine.status.instance_id
      → ((spec_of s).provider_id ≡ none) ⊎ (s.machine.status.instance_id ≢ none)
      → Writes (spec_of s) (with_domain rt machine cluster r s)
  unfolding with_domain
  with_domain-Writes s (err e, m) (u, p) same new = u
  with_domain-Writes s (ok _, m) (u, p) same new =
      with_client-Writes (spec_of s) (rt.client_builder (resolve_region m cluster))
        (record s { machine = m }) u
        (elim new [ inl n ↦ inl (p ∙ n) | inr n ↦ inr (λ z. n (sym same ∙ z)) ])

  gates-Writes :
      (ready lacks : Bool) (s : Ctl E)
      → ((spec_of s).provider_id ≡ none) ⊎ (s.machine.status.instance_id ≢ none)
      → Writes (spec_of s) (gates rt machine cluster ready lacks s)
  unfolding gates
  gates-Writes false lacks s new = Unchanged-refl (spec_of s)
  gates-Writes true true s new = Unchanged-refl (spec_of s)
  gates-Writes true false s new =
      with_domain-Writes s (resolve_failure_domain machine cluster s.machine)
        (resolve_failure_domain-Resolved machine cluster s.machine)
        (ap (λ st. st.instance_id) (status-resolve_failure_domain machine cluster s.machine)) new

  -- What a reconcile writes into a machine's specification passes the webhook's immutability checks, if
  -- the machine has no provider identifier yet or its status names an instance.
  pub validate_machine_immutable-reconcile_normal :
      (s : Ctl E)
      → (s.machine.spec.provider_id ≡ none) ⊎ (s.machine.status.instance_id ≢ none)
      → validate_machine_immutable s.machine.spec
          (reconcile_normal rt machine cluster s).1.machine.spec
        ≡ []
  unfolding reconcile_normal
  validate_machine_immutable-reconcile_normal s new =
      (validate_machine_immutable_iff s.machine.spec _).1 (
        gates-Writes cluster.status.ready (has_no_bootstrap rt machine cluster s.machine)
          (modify (add_machine_finalizer rt.kube) s) new)
