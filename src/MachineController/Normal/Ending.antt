-- ===== src/MachineController/Normal/Ending.antt =====
-- How reconcileNormal of internal/controller/alibabacloudmachine_controller.go may end for good.
use text.Mathlib.TextEquality.{eq_iff}
use openshift_capi_alicloud.Prelude.{
  Bool, ◌∙◌, sym, Operand, ap, List, ◌⊎◌, false, true, return, and_then, inr, Error, inl,
  Bool-cases, String, Option, none, some, Result, ok, err, ◌≡◌, refl, arith,
}
use openshift_capi_alicloud.Api.Cluster.{AlibabaCloudCluster}
use openshift_capi_alicloud.Api.Kube.{finished, Outcome, Machine}
use openshift_capi_alicloud.Api.Machine.{AlibabaCloudMachine}
use openshift_capi_alicloud.Api.Types.{instance_state_running}
use openshift_capi_alicloud.Client.Interface.{InstanceDescription, Client}
use openshift_capi_alicloud.MachineController.Context.{
  add_machine_finalizer, modify, as_terminal, Runtime, with_env, Ctl,
}
use openshift_capi_alicloud.MachineController.Create.{
  resolve_region, create_instance, resolve_failure_domain,
}
use openshift_capi_alicloud.MachineController.Ignition.{wrap}
use openshift_capi_alicloud.MachineController.Normal.{
  gates, has_no_bootstrap, after_error, find_or_create, reconcile_normal, with_domain,
  find_or_create_instance, with_client, with_instance, to_info, names_other, InstanceInfo,
  with_description, describe_instance, by_state, follow_instance,
}

module _ {E : Type 0} where
  -- The cloud describes the instance that the machine's status names as running.
  pub record Running (c : Client E) (m : AlibabaCloudMachine) (e : E) : Type 0 where
    pub instance_id : String
    pub description : InstanceDescription
    pub recorded : m.status.instance_id ≡ some instance_id
    pub described : (c.describe_instance_by_id instance_id e).0 ≡ ok (some description)
    pub running : description.status ≡ instance_state_running

  by_state-running :
      (c : Client E) (machine : Machine) (instance_id : String) (info i : InstanceInfo) (s : Ctl E)
      → (by_state c machine instance_id info s).0 ≡ ok (some i)
      → info.state ≡ instance_state_running
  unfolding by_state
  by_state-running c machine instance_id info i s h =
      ground (arith, eq_iff info.state instance_state_running)

  module _ (c : Client E) (machine : Machine) (cluster : AlibabaCloudCluster) where
    described_as_running :
        (instance_id : String) (s : Ctl E) (r : Result (Option InstanceDescription) × E)
        (f : Error → Error) (i : InstanceInfo)
        → (and_then
            (and_then (wrap f (with_env s r)) (λ d. return (to_info d)))
            (with_description c machine cluster instance_id)).0
          ≡ ok (some i)
        → (d : InstanceDescription) × (r.0 ≡ ok (some d)) × (d.status ≡ instance_state_running)
    unfolding with_description
    described_as_running instance_id s (err e, w) f i h = cc
    described_as_running instance_id s (ok none, w) f i h = cc
    described_as_running instance_id s (ok (some d), w) f i h =
        (d, refl, by_state-running c machine instance_id _ i _ h)

    follow-Running :
        (instance_id : String) (s : Ctl E) (i : InstanceInfo)
        → s.machine.status.instance_id ≡ some instance_id
        → (follow_instance c machine cluster instance_id s).0 ≡ ok (some i)
        → Running c s.machine s.env
    unfolding follow_instance describe_instance
    follow-Running instance_id s i r h =
        elim (Bool-cases (names_other s.machine.spec.provider_id instance_id)) [
          | inl p ↦ absurd (cc (rw p at h))
          | inr n ↦
              let (d, described, running) =
                described_as_running instance_id s (c.describe_instance_by_id instance_id s.env) _ i
                  (rw n at h) in
              record {
                instance_id = instance_id;
                description = d;
                recorded = r;
                described = described;
                running = running;
              }
        ]

pub status-resolve_failure_domain :
    (machine : Machine) (cluster : AlibabaCloudCluster) (m : AlibabaCloudMachine)
    → (resolve_failure_domain machine cluster m).1.status ≡ m.status
unfolding resolve_failure_domain
status-resolve_failure_domain machine cluster m = ground arith

abbrev pub IsReady : AlibabaCloudMachine → Type 0
IsReady m = (m.status.ready ≡ true) × (m.status.initialization ≡ some (some true))

abbrev pub IsFailed : AlibabaCloudMachine → Type 0
IsFailed m = (m.status.ready ≡ false) × ((r : String) × (m.status.failure_reason ≡ some r))

not_some :
    {E : Type 0} (r : Result (Unit {0}) × Ctl E) (i : InstanceInfo)
    → ¬ ((and_then r (λ _. return none)).0 ≡ ok (some i))
not_some (ok _, s) i h = cc
not_some (err e, s) i h = cc

module _ {E : Type 0} (rt : Runtime E) (machine : Machine) (cluster : AlibabaCloudCluster) where
  find_or_create-Running :
      (id : Option String) (c : Client E) (s : Ctl E) (i : InstanceInfo)
      → s.machine.status.instance_id ≡ id
      → (find_or_create rt machine cluster id c s).0 ≡ ok (some i)
      → Running c s.machine s.env
  unfolding find_or_create
  find_or_create-Running none c s i r h =
      absurd (not_some (create_instance rt c machine cluster s) i h)
  find_or_create-Running (some id) c s i r h = follow-Running c machine cluster id s i r h

  -- What a reconcile that ends for good with a ready machine has seen.
  pub record Evidence (m : AlibabaCloudMachine) (e : E) : Type 0 where
    pub cluster_ready : cluster.status.ready ≡ true
    pub region : String
    pub client : Client E
    pub client_built : rt.client_builder region ≡ ok client
    pub instance_running : Running client m e

  abbrev Ended : Ctl E → Result Outcome × Ctl E → Type 0
  Ended s out = (IsReady out.1.machine × Evidence s.machine s.env) ⊎ IsFailed out.1.machine

  after_error-IsFailed :
      (t : Option (String × String × List Operand)) (e : Error) (s : Ctl E)
      → (after_error rt machine cluster t e s).0 ≡ ok finished
      → IsFailed (after_error rt machine cluster t e s).1.machine
  unfolding after_error
  after_error-IsFailed (some (reason, format, args)) e s h = (refl, (reason, refl))
  after_error-IsFailed none e s h = absurd (cc h)

  with_instance_lem :
      (out : Result (Option InstanceInfo) × Ctl E)
      → (with_instance rt machine cluster out).0 ≡ ok finished
      → (IsReady (with_instance rt machine cluster out).1.machine
          × ((i : InstanceInfo) × (out.0 ≡ ok (some i))))
        ⊎ IsFailed (with_instance rt machine cluster out).1.machine
  unfolding with_instance
  with_instance_lem (ok none, s) h = cc
  with_instance_lem (ok (some info), s) h = inl ((refl, refl), (info, refl))
  with_instance_lem (err e, s) h = inr (after_error-IsFailed (as_terminal e) e s h)

  with_client-Ended :
      (region : String) (built : Result (Client E)) (s : Ctl E)
      → cluster.status.ready ≡ true
      → rt.client_builder region ≡ built
      → (with_client rt machine cluster built s).0 ≡ ok finished
      → Ended s (with_client rt machine cluster built s)
  unfolding with_client find_or_create_instance
  with_client-Ended region (err e) s ready b h = absurd (cc h)
  with_client-Ended region (ok c) s ready b h =
      elim (with_instance_lem (find_or_create_instance rt machine cluster c s) h) [
        | inl (fine, (i, p)) ↦ inl (
          fine,
          record {
            cluster_ready = ready;
            region = region;
            client = c;
            client_built = b;
            instance_running = find_or_create-Running s.machine.status.instance_id c s i refl p;
          },
        )
        | inr failed ↦ inr failed
      ]

  with_domain-Ended :
      (domain : Result (Unit {0}) × AlibabaCloudMachine) (s : Ctl E)
      → cluster.status.ready ≡ true
      → domain.1.status ≡ s.machine.status
      → (with_domain rt machine cluster domain s).0 ≡ ok finished
      → Ended s (with_domain rt machine cluster domain s)
  unfolding with_domain
  with_domain-Ended (err e, m) s ready same h = absurd (cc h)
  with_domain-Ended (ok _, m) s ready same h =
      elim (with_client-Ended (resolve_region m cluster) _ (record s { machine = m }) ready refl
        h) [
          | inl (fine, v) ↦ inl (
            fine,
            record {
              cluster_ready = ready;
              region = v.region;
              client = v.client;
              client_built = v.client_built;
              instance_running = record {
                instance_id = v.instance_running.instance_id;
                description = v.instance_running.description;
                recorded = ap (λ st. st.instance_id) (sym same) ∙ v.instance_running.recorded;
                described = v.instance_running.described;
                running = v.instance_running.running;
              };
            },
          )
          | inr failed ↦ inr failed
        ]

  gates-Ended :
      (is_ready lacks_bootstrap : Bool) (s : Ctl E)
      → cluster.status.ready ≡ is_ready
      → (gates rt machine cluster is_ready lacks_bootstrap s).0 ≡ ok finished
      → Ended s (gates rt machine cluster is_ready lacks_bootstrap s)
  unfolding gates
  gates-Ended false lacks_bootstrap s ready h = absurd (cc h)
  gates-Ended true true s ready h = absurd (cc h)
  gates-Ended true false s ready h =
      with_domain-Ended (resolve_failure_domain machine cluster s.machine) s ready
        (status-resolve_failure_domain machine cluster s.machine) h

  -- A reconcile of a machine that ends without an error and without asking to be run again leaves
  -- the machine in one of two states. Either it is ready (status.ready and
  -- status.initialization.provisioned), the cluster's infrastructure was ready, a client was built,
  -- and that client described the instance of status.instanceID as Running; or it is not ready and
  -- has a failure reason. The cloud and its errors are arbitrary.
  pub reconcile_normal-Ended :
      (s : Ctl E)
      → (reconcile_normal rt machine cluster s).0 ≡ ok finished
      → (IsReady (reconcile_normal rt machine cluster s).1.machine × Evidence s.machine s.env)
        ⊎ IsFailed (reconcile_normal rt machine cluster s).1.machine
  unfolding reconcile_normal
  reconcile_normal-Ended s h =
      elim (gates-Ended cluster.status.ready (has_no_bootstrap rt machine cluster s.machine)
        (modify (add_machine_finalizer rt.kube) s) refl h) [
          | inl (fine, v) ↦ inl (
            fine,
            record {
              cluster_ready = v.cluster_ready;
              region = v.region;
              client = v.client;
              client_built = v.client_built;
              instance_running = record {
                instance_id = v.instance_running.instance_id;
                description = v.instance_running.description;
                recorded = v.instance_running.recorded;
                described = v.instance_running.described;
                running = v.instance_running.running;
              };
            },
          )
          | inr failed ↦ inr failed
        ]
