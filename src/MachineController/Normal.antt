-- ===== src/MachineController/Normal.antt =====
-- The reconcile of a machine that is not being deleted: reconcileNormal, findOrCreateInstance,
-- describeInstance, syncInstanceStatus, maybeHardenMetadata and setFailed.
pub mod Ending
pub mod Admitted
pub mod Accounts
pub mod Once
use openshift_capi_alicloud.Prelude.{
  Operand, String, Bool, true, false, not, ◌&&◌, ◌||◌, Option, none, some, List, [], ◌∷◌, ◌++◌,
  Result, ok, err, Error, terminal, wrapped, Message, empty, sprintf, of_error, str, Action, return,
  throw, ◌>>=◌, ◌>>◌, ◌==◌, string_eq, if◌then◌else◌,
}
use openshift_capi_alicloud.Api.Cluster.{AlibabaCloudCluster}
use openshift_capi_alicloud.Api.Kube.{Machine, MachineAddress, Outcome, finished, requeue_after}
use openshift_capi_alicloud.Api.Machine.{AlibabaCloudMachine, MetadataOptions}
use openshift_capi_alicloud.Api.Types.{
  InstanceState, instance_state_running, instance_state_stopped, instance_state_deleted,
}
use openshift_capi_alicloud.ProviderId.{provider_id_for, provider_instance_id}
use openshift_capi_alicloud.Client.Interface.{Client, InstanceDescription}
use openshift_capi_alicloud.MachineController.Context.{
  Runtime, Ctl, on_env, modify, on_spec, on_status, set_ready_condition, add_machine_finalizer,
  as_terminal, requeue_delay,
}
use openshift_capi_alicloud.MachineController.Create.{
  resolve_region, resolve_metadata_options, resolve_failure_domain, create_instance,
}
use openshift_capi_alicloud.MachineController.Ignition.{wrap}

pub record InstanceInfo : Type 0 where
  pub instance_id : String
  pub state : InstanceState
  pub host_name : String
  pub private_ip : String
  pub public_ip : String

abbrev pub first_ip : List String → String
first_ip [] = ""
first_ip (ip ∷ _) = ip

abbrev pub info_of : InstanceDescription → InstanceInfo
info_of d = record {
  instance_id = d.instance_id;
  state = d.status;
  host_name = d.host_name;
  private_ip = first_ip d.inner_ip_address;
  public_ip = first_ip d.public_ip_address;
}

abbrev pub to_info : Option InstanceDescription → Option InstanceInfo
to_info none = none
to_info (some d) = some (info_of d)

abbrev pub address_of : String → String → List MachineAddress
address_of type address =
    if not (address == "") then record { type = type; address = address } ∷ [] else []

pub addresses : InstanceInfo → List MachineAddress
addresses info =
    address_of "InternalDNS" info.host_name
    ++ (address_of "InternalIP" info.private_ip ++ address_of "ExternalIP" info.public_ip)

abbrev pub sync_instance_status : InstanceInfo → AlibabaCloudMachine → AlibabaCloudMachine
sync_instance_status info = on_status (λ st. record st {
  instance_id = some info.instance_id;
  instance_state = some info.state;
  addresses = addresses info;
})

-- spec.providerID is derived again where its write was lost.
abbrev pub heal_provider_id : String → String → AlibabaCloudMachine → AlibabaCloudMachine
heal_provider_id region instance_id = on_spec (λ sp. record sp {
  provider_id = elim sp.provider_id [
    | none ↦ some (provider_id_for region instance_id)
    | some pid ↦ some pid
  ];
})

-- spec.providerID names another instance than status.instanceID.
abbrev pub names_other : Option String → String → Bool
names_other none instance_id = false
names_other (some pid) instance_id =
    not (provider_instance_id pid == "") && not (provider_instance_id pid == instance_id)

abbrev pub named_instance : Option String → String
named_instance none = ""
named_instance (some pid) = provider_instance_id pid

abbrev pub is_set : Option Bool → Bool
is_set none = false
is_set (some b) = b

abbrev pub is_unset : Option String → Bool
is_unset none = true
is_unset (some _) = false

-- The hardening value, where the spec has one.
abbrev pub tokens_after_boot : Option MetadataOptions → String
tokens_after_boot none = ""
tokens_after_boot (some o) = o.http_tokens_after_boot

abbrev pub set_failed :
    {E : Type 0} → Runtime E → String → Message → AlibabaCloudMachine → AlibabaCloudMachine
set_failed rt reason message m = set_ready_condition rt.kube false reason message (
    on_status
      (λ st. record st {
        failure_reason = some reason;
        failure_message = some message;
        ready = false;
      })
      m)

abbrev pub set_ready : {E : Type 0} → Runtime E → AlibabaCloudMachine → AlibabaCloudMachine
set_ready rt m =
    on_status (λ st. record st { ready = true; initialization = some (some true) })
      (set_ready_condition rt.kube true "AlibabaCloudMachineReady" empty m)

module _ {E : Type 0} (c : Client E) where
  unfoldable pub describe_instance : String → Action (Ctl E) (Option InstanceInfo)
  describe_instance instance_id = do
    resp ← λ s.
        wrap (wrapped "failed to describe instance %s: %w" (str instance_id ∷ []))
          (on_env (c.describe_instance_by_id instance_id) s)
    return (to_info resp)

  -- A success is recorded; a failure is logged and tried again on the next reconcile.
  abbrev pub hardened : Result (Unit {0}) × Ctl E → Ctl E
  hardened (ok _, s) = modify (on_status (λ st. record st { metadata_hardened = some true })) s
  hardened (err e, s) = s

  pub maybe_harden_metadata : Machine → String → Ctl E → Ctl E
  unfolding resolve_metadata_options
  maybe_harden_metadata machine instance_id s =
      let m = s.machine in
      let options = resolve_metadata_options m.spec.metadata_options in
      if tokens_after_boot m.spec.metadata_options == ""
      then s
      else if is_set m.status.metadata_hardened
      then s
      else if machine.node_ref_name == ""
      then s
      else hardened (
          on_env
            (c.modify_instance_metadata instance_id options.endpoint
              (tokens_after_boot m.spec.metadata_options) options.hop_limit)
            s)

  -- The switch on the state of an instance that was found.
  pub by_state : Machine → String → InstanceInfo → Action (Ctl E) (Option InstanceInfo)
  by_state machine instance_id info s =
      if info.state == instance_state_running
      then (ok (some info), maybe_harden_metadata machine instance_id s)
      else if info.state == instance_state_deleted || info.state == instance_state_stopped
      then (
        err (
            terminal "InstanceTerminalState" "ECS instance %s is in terminal state %q"
              (str instance_id ∷ str info.state ∷ [])),
        s,
      )
      else (ok none, s)

  pub with_description :
      Machine
      → AlibabaCloudCluster
      → String
      → Option InstanceInfo
      → Action (Ctl E) (Option InstanceInfo)
  unfolding by_state
  with_description machine cluster instance_id none s =
      throw
        (terminal "InstanceDisappeared" "ECS instance %s no longer exists" (str instance_id ∷ [])) s
  with_description machine cluster instance_id (some info) s = by_state machine instance_id info (
      modify
        (λ m. sync_instance_status info (heal_provider_id (resolve_region m cluster) instance_id m))
        s)

  -- The machine has an instance already.
  pub follow_instance :
      Machine → AlibabaCloudCluster → String → Action (Ctl E) (Option InstanceInfo)
  unfolding describe_instance with_description
  follow_instance machine cluster instance_id s =
      if names_other s.machine.spec.provider_id instance_id
      then (
        err (
            terminal "ProviderIDInstanceMismatch"
              "spec.providerID names instance %s but status.instanceID is %s; providerID is immutable, so this machine can never bind its Node"
              (str (named_instance s.machine.spec.provider_id) ∷ str instance_id ∷ [])),
        s,
      )
      else (describe_instance instance_id >>= with_description machine cluster instance_id) s

module _ {E : Type 0} (rt : Runtime E) (machine : Machine) (cluster : AlibabaCloudCluster) where
  -- The first argument is status.instanceID.
  pub find_or_create : Option String → Client E → Action (Ctl E) (Option InstanceInfo)
  unfolding follow_instance
  find_or_create (some instance_id) c s = follow_instance c machine cluster instance_id s
  find_or_create none c s = (create_instance rt c machine cluster >> return none) s

  unfoldable pub find_or_create_instance : Client E → Action (Ctl E) (Option InstanceInfo)
  unfolding find_or_create
  find_or_create_instance c s = find_or_create s.machine.status.instance_id c s

  -- A step failed: the Ready condition says why, and the reconcile returns the error.
  abbrev pub not_ready : String → Error → Error → Action (Ctl E) Outcome
  not_ready reason shown returned s =
      (err returned, modify (set_ready_condition rt.kube false reason (of_error shown)) s)

  -- A gate is closed: the Ready condition says why, and the machine is looked at again later.
  abbrev pub wait : String → String → Action (Ctl E) Outcome
  wait reason message s = (
    ok (requeue_after requeue_delay),
    modify (set_ready_condition rt.kube false reason (sprintf message [])) s,
  )

  -- A terminal error is recorded and ends the reconcile; any other is returned.
  pub after_error : Option (String × String × List Operand) → Error → Action (Ctl E) Outcome
  after_error (some (reason, format, args)) e s =
      (ok finished, modify (set_failed rt reason (sprintf format args)) s)
  after_error none e s = not_ready "InstanceReconcileError" e e s

  -- What follows findOrCreateInstance.
  pub with_instance : Result (Option InstanceInfo) × Ctl E → Result Outcome × Ctl E
  unfolding after_error
  with_instance (ok none, s) = (ok (requeue_after requeue_delay), s)
  with_instance (ok (some info), s) = (ok finished, modify (set_ready rt) s)
  with_instance (err e, s) = after_error (as_terminal e) e s

  pub with_client : Result (Client E) → Action (Ctl E) Outcome
  unfolding with_instance find_or_create_instance
  with_client (err e) s =
      not_ready "AlibabaClientError" e (wrapped "failed to create Alibaba Cloud client: %w" [] e) s
  with_client (ok c) s = with_instance (find_or_create_instance c s)

  pub with_domain : Result (Unit {0}) × AlibabaCloudMachine → Action (Ctl E) Outcome
  unfolding with_client
  with_domain (err e, m) s = not_ready "FailureDomainError" e e (record s { machine = m })
  with_domain (ok _, m) s =
      with_client (rt.client_builder (resolve_region m cluster)) (record s { machine = m })

  abbrev pub has_no_bootstrap : AlibabaCloudMachine → Bool
  has_no_bootstrap m = is_unset machine.data_secret_name && is_unset m.spec.user_data_secret

  -- The two gates, on status.ready of the cluster and on the lack of bootstrap data.
  pub gates : (is_ready lacks_bootstrap : Bool) → Action (Ctl E) Outcome
  unfolding with_domain
  gates false lacks_bootstrap s =
      wait "ClusterInfrastructureNotReady" "cluster infrastructure not ready" s
  gates true true s =
      wait "WaitingForBootstrapData" "bootstrap data secret reference is not yet available" s
  gates true false s = with_domain (resolve_failure_domain machine cluster s.machine) s

  unfoldable pub reconcile_normal : Action (Ctl E) Outcome
  unfolding gates
  reconcile_normal s =
      gates cluster.status.ready (has_no_bootstrap s.machine)
        (modify (add_machine_finalizer rt.kube) s)
