-- ===== src/MachineController/Normal/Accounts.antt =====
-- What reconcileNormal of internal/controller/alibabacloudmachine_controller.go records of what the
-- creations of its client return.
use openshift_capi_alicloud.Prelude.{
  refl, none, Bool, true, false, ap, return, ◌||◌, and_then, Error, sym, Operand, ◌==◌, ◌∙◌, Option,
  Result, if-elim, ◌≡◌, String, List, some, ok, err, inl, inr, string_eq,
}
use openshift_capi_alicloud.Api.Cluster.{AlibabaCloudCluster}
use openshift_capi_alicloud.Api.Kube.{Machine}
use openshift_capi_alicloud.Api.Machine.{AlibabaCloudMachine}
use openshift_capi_alicloud.Api.Types.{
  instance_state_stopped, instance_state_deleted, instance_state_running,
}
use openshift_capi_alicloud.Client.Interface.{InstanceDescription, Client}
use openshift_capi_alicloud.MachineController.Context.{
  add_machine_finalizer, modify, as_terminal, with_env, Ctl, Runtime,
}
use openshift_capi_alicloud.MachineController.Create.{
  resolve_failure_domain, resolve_region, create_instance,
}
use openshift_capi_alicloud.MachineController.Create.Accounts.{
  Recording, and_then_lem, IsSame, Accounted, instance_of, moved, create_instance-Accounted,
}
use openshift_capi_alicloud.MachineController.Ignition.{wrap}
use openshift_capi_alicloud.MachineController.Normal.{
  InstanceInfo, find_or_create, follow_instance, with_description, by_state, describe_instance,
  to_info, info_of, maybe_harden_metadata, hardened, after_error, with_instance, with_client,
  with_domain, gates, reconcile_normal, find_or_create_instance, tokens_after_boot, is_set,
  has_no_bootstrap, names_other,
}
use openshift_capi_alicloud.MachineController.Normal.Ending.{status-resolve_failure_domain}

module _ {E : Type 0} (returned : E → List String) where
  module _ (c : Client E) (machine : Machine) (cluster : AlibabaCloudCluster)
      (recording : Recording returned c) (b : Ctl E) where
    hardened-IsSame :
        (s : Ctl E) (r : Result (Unit {0}) × E)
        → returned r.1 ≡ returned s.env
        → IsSame returned b s
        → IsSame returned b (hardened c (with_env s r))
    hardened-IsSame s (ok _, e) k h = moved returned {b = b} {s = s} h k refl
    hardened-IsSame s (err x, e) k h = moved returned {b = b} {s = s} h k refl

    harden-IsSame :
        (id : String) (s : Ctl E)
        → IsSame returned b s
        → IsSame returned b (maybe_harden_metadata c machine id s)
    unfolding maybe_harden_metadata
    harden-IsSame id s h =
        let m = s.machine in
        if-elim (IsSame returned b) (tokens_after_boot m.spec.metadata_options == "") h (
          if-elim (IsSame returned b) (is_set m.status.metadata_hardened) h (
            if-elim (IsSame returned b) (machine.node_ref_name == "") h
              (hardened-IsSame s _ (recording.modify_keeps _ _ _ _ s.env) h)))

    by_state-IsSame :
        (id : String) (info : InstanceInfo) (s : Ctl E)
        → IsSame returned b s
        → IsSame returned b (by_state c machine id info s).1
    unfolding by_state
    by_state-IsSame id info s h =
        let P : Result (Option InstanceInfo) × Ctl E → Type 0 = λ out. IsSame returned b out.1 in
        if-elim P (info.state == instance_state_running) (harden-IsSame id s h) (
          if-elim P (info.state == instance_state_deleted || info.state == instance_state_stopped) h
            h)

    -- The description is of the instance that is recorded.
    described-IsSame :
        (id : String) (s : Ctl E) (r : Result (Option InstanceDescription) × E) (f : Error → Error)
        → returned r.1 ≡ returned s.env
        → ((d : InstanceDescription) → r.0 ≡ ok (some d) → d.instance_id ≡ id)
        → instance_of returned s ≡ some id
        → IsSame returned b s
        → IsSame returned b
            (and_then
              (and_then (wrap f (with_env s r)) (λ d. return (to_info d)))
              (with_description c machine cluster id)).1
    unfolding with_description
    described-IsSame id s (err x, e) f k names q h = moved returned {b = b} {s = s} h k refl
    described-IsSame id s (ok none, e) f k names q h = moved returned {b = b} {s = s} h k refl
    described-IsSame id s (ok (some d), e) f k names q h =
        by_state-IsSame id (info_of d) _
          (moved returned {b = b} {s = s} h k (ap some (names d refl) ∙ sym q))

    follow-IsSame :
        (id : String) (s : Ctl E)
        → instance_of returned s ≡ some id
        → IsSame returned b s
        → IsSame returned b (follow_instance c machine cluster id s).1
    unfolding follow_instance describe_instance
    follow-IsSame id s q h =
        let P : Result (Option InstanceInfo) × Ctl E → Type 0 = λ out. IsSame returned b out.1 in
        if-elim P (names_other s.machine.spec.provider_id id) h (
          described-IsSame id s (c.describe_instance_by_id id s.env) _
            (recording.describe_keeps id s.env) (recording.describe_names id s.env) q h)

  -- A step that changes neither.
  pub kept :
      (b : Ctl E) {s t : Ctl E}
      → returned t.env ≡ returned s.env
      → instance_of returned t ≡ instance_of returned s
      → Accounted returned b s
      → Accounted returned b t
  kept b m i (inl h) =
      inl (record { none_returned = m ∙ h.none_returned; as_recorded = i ∙ h.as_recorded })
  kept b m i (inr h) = inr (record {
    none_recorded = h.none_recorded;
    id = h.id;
    one_returned = m ∙ h.one_returned;
    recorded = i ∙ h.recorded;
  })

  module _ (rt : Runtime E) (machine : Machine) (cluster : AlibabaCloudCluster) (b : Ctl E) where
    find_or_create-Accounted :
        (c : Client E) (o : Option String) (s : Ctl E)
        → Recording returned c
        → instance_of returned s ≡ o
        → IsSame returned b s
        → Accounted returned b (find_or_create rt machine cluster o c s).1
    unfolding find_or_create
    find_or_create-Accounted c (some id) s recording q h =
        inl (follow-IsSame c machine cluster recording b id s q h)
    find_or_create-Accounted c none s recording q h =
        and_then_lem (Accounted returned b) (Accounted returned b)
          (create_instance rt c machine cluster s) _
          (create_instance-Accounted returned rt machine cluster c recording b s h
            (sym h.as_recorded ∙ q))
          (λ t k. k) (λ x t k. k)

    after_error-Accounted :
        (t : Option (String × String × List Operand)) (e : Error) (s : Ctl E)
        → Accounted returned b s
        → Accounted returned b (after_error rt machine cluster t e s).1
    unfolding after_error
    after_error-Accounted (some (reason, format, args)) e s h = kept b {s = s} refl refl h
    after_error-Accounted none e s h = kept b {s = s} refl refl h

    with_instance-Accounted :
        (r : Result (Option InstanceInfo) × Ctl E)
        → Accounted returned b r.1
        → Accounted returned b (with_instance rt machine cluster r).1
    unfolding with_instance
    with_instance-Accounted (ok none, s) h = h
    with_instance-Accounted (ok (some info), s) h = kept b {s = s} refl refl h
    with_instance-Accounted (err e, s) h = after_error-Accounted (as_terminal e) e s h

    with_client-Accounted :
        (r : Result (Client E)) (s : Ctl E)
        → ((c : Client E) → r ≡ ok c → Recording returned c)
        → IsSame returned b s
        → Accounted returned b (with_client rt machine cluster r s).1
    unfolding with_client find_or_create_instance
    with_client-Accounted (err e) s recording h = kept b {s = s} refl refl (inl h)
    with_client-Accounted (ok c) s recording h =
        with_instance-Accounted (find_or_create_instance rt machine cluster c s)
          (find_or_create-Accounted c (instance_of returned s) s (recording c refl) refl h)

    with_domain-Accounted :
        (r : Result (Unit {0}) × AlibabaCloudMachine) (s : Ctl E)
        → ((region : String) (c : Client E)
            → rt.client_builder region ≡ ok c
            → Recording returned c)
        → r.1.status.instance_id ≡ instance_of returned s
        → IsSame returned b s
        → Accounted returned b (with_domain rt machine cluster r s).1
    unfolding with_domain
    with_domain-Accounted (err e, m) s recording q h = kept b {s = s} refl q (inl h)
    with_domain-Accounted (ok _, m) s recording q h =
        with_client-Accounted (rt.client_builder (resolve_region m cluster))
          (record s { machine = m }) (recording (resolve_region m cluster))
          (moved returned {b = b} {s = s} h refl q)

    gates-Accounted :
        (ready lacks : Bool) (s : Ctl E)
        → ((region : String) (c : Client E)
            → rt.client_builder region ≡ ok c
            → Recording returned c)
        → IsSame returned b s
        → Accounted returned b (gates rt machine cluster ready lacks s).1
    unfolding gates
    gates-Accounted false lacks s recording h = kept b {s = s} refl refl (inl h)
    gates-Accounted true true s recording h = kept b {s = s} refl refl (inl h)
    gates-Accounted true false s recording h =
        with_domain-Accounted (resolve_failure_domain machine cluster s.machine) s recording
          (ap (λ st. st.instance_id) (status-resolve_failure_domain machine cluster s.machine)) h

  pub reconcile_normal-Accounted :
      (rt : Runtime E) (machine : Machine) (cluster : AlibabaCloudCluster) (s : Ctl E)
      → ((region : String) (c : Client E) → rt.client_builder region ≡ ok c → Recording returned c)
      → Accounted returned s (reconcile_normal rt machine cluster s).1
  unfolding reconcile_normal
  reconcile_normal-Accounted rt machine cluster s recording =
      gates-Accounted rt machine cluster s cluster.status.ready
        (has_no_bootstrap rt machine cluster s.machine) (modify (add_machine_finalizer rt.kube) s)
        recording (record { none_returned = refl; as_recorded = refl })
