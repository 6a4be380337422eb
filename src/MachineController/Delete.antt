-- ===== src/MachineController/Delete.antt =====
-- The deletion of a machine: reconcileDelete and deleteInstance.
pub mod Safety
pub mod Progress
pub mod Clearance
use openshift_capi_alicloud.Prelude.{
  ℕ, String, Bool, true, false, not, ◌&&◌, ◌||◌, Option, none, some, List, [], ◌∷◌, Result, ok, err,
  Error, wrapped, foreign, Message, sprintf, str, Action, and_then, return, throw, ◌>>=◌, ◌>>◌,
  ◌==◌, string_eq, if◌then◌else◌,
}
use openshift_capi_alicloud.Api.Kube.{Outcome, finished, requeue_after}
use openshift_capi_alicloud.Api.Machine.{AlibabaCloudMachine}
use openshift_capi_alicloud.Api.Types.{instance_state_stopping, instance_state_deleted}
use openshift_capi_alicloud.ProviderId.{provider_instance_id, region_from_machine}
use openshift_capi_alicloud.Client.Interface.{Client, machine_name_tag_key}
use openshift_capi_alicloud.MachineController.Context.{
  Runtime, Ctl, on_env, from_result, modify, update, on_status, set_ready_condition,
  remove_machine_finalizer, requeue_delay,
}
use openshift_capi_alicloud.MachineController.Ignition.{wrap, cleanup_offloaded_ignition}
use openshift_capi_alicloud.MachineController.Normal.{InstanceInfo, describe_instance}

-- The instance's identifier: the status, then the provider identifier, then nothing.
unfoldable pub recorded_instance : AlibabaCloudMachine → String
recorded_instance m = elim m.status.instance_id [
  | some id ↦ id
  | none ↦ elim m.spec.provider_id [ none ↦ "" | some pid ↦ provider_instance_id pid ]
]

-- A lost status.instanceID is set again from the identifier at hand.
abbrev pub heal_instance_id : String → AlibabaCloudMachine → AlibabaCloudMachine
heal_instance_id instance_id = on_status (λ st. record st {
  instance_id = elim st.instance_id [
    | some id ↦ some id
    | none ↦ if not (instance_id == "") then some instance_id else none
  ];
})

module _ {E : Type 0} (rt : Runtime E) where
  -- The finalizer goes, and nothing more is done.
  abbrev pub release : Action (Ctl E) Outcome
  release s = (ok finished, modify (remove_machine_finalizer rt.kube) s)

  -- deleteInstance reads the identifier through a pointer in the status.
  unfoldable pub delete_instance : Client E → Action (Ctl E) (Unit {0})
  delete_instance c s = elim s.machine.status.instance_id [
    | none ↦ (err (foreign "nil pointer dereference"), s)
    | some instance_id ↦
        wrap (wrapped "failed to delete ECS instance %s: %w" (str instance_id ∷ []))
          (on_env (c.delete_ecs_instance instance_id true) s)
  ]

  pub delete_orphan : Client E → String → Action (Ctl E) (Unit {0})
  delete_orphan c orphan_id s =
      wrap (wrapped "failed to delete orphan ECS %s: %w" (str orphan_id ∷ []))
        (on_env (c.delete_ecs_instance orphan_id true) s)

  -- Nothing carries the machine's tag, or an orphan does.
  pub with_orphan : Client E → String → String → Action (Ctl E) Outcome
  unfolding cleanup_offloaded_ignition delete_orphan
  with_orphan c region orphan_id s =
      if not (orphan_id == "")
      then (delete_orphan c orphan_id >> return (requeue_after requeue_delay)) s
      else release (cleanup_offloaded_ignition rt c region s)

  -- The recorded instance is gone, or none is recorded: the sweep by tag.
  pub sweep : Client E → String → Action (Ctl E) Outcome
  unfolding with_orphan
  sweep c region s =
      (on_env (c.find_instance_by_tag region machine_name_tag_key s.machine.metadata.name)
          >>= with_orphan c region)
        s

  abbrev pub is_leaving : InstanceInfo → Bool
  is_leaving info = info.state == instance_state_stopping || info.state == instance_state_deleted

  abbrev pub show_progress : String → InstanceInfo → AlibabaCloudMachine → AlibabaCloudMachine
  show_progress instance_id info m =
      set_ready_condition rt.kube false "Deleting"
        (sprintf "ECS instance %s is %q; waiting for termination"
          (str instance_id ∷ str info.state ∷ []))
        (on_status (λ st. record st { instance_state = some info.state }) m)

  -- The instance is still there.
  pub terminate : Client E → String → InstanceInfo → Action (Ctl E) Outcome
  unfolding delete_instance
  terminate c instance_id info s =
      let s' = modify (show_progress instance_id info) s in
      if is_leaving info
      then (ok (requeue_after requeue_delay), s')
      else (delete_instance c >> return (requeue_after requeue_delay)) s'

  pub with_info :
      Client E → (region instance_id : String) → Option InstanceInfo → Action (Ctl E) Outcome
  unfolding sweep terminate
  with_info c region instance_id none s = sweep c region s
  with_info c region instance_id (some info) s = terminate c instance_id info s

  -- No instance is described where none is recorded.
  pub described : Client E → String → Action (Ctl E) (Option InstanceInfo)
  unfolding describe_instance
  described c instance_id =
      if not (instance_id == "") then describe_instance c instance_id else return none

  pub delete_with : (region instance_id : String) → Result (Client E) → Action (Ctl E) Outcome
  unfolding described with_info
  delete_with region instance_id (err e) s =
      (err (wrapped "failed to create Alibaba Cloud client: %w" [] e), s)
  delete_with region instance_id (ok c) s =
      (described c instance_id >>= with_info c region instance_id) s

  pub delete_in : String → Result String → Action (Ctl E) Outcome
  unfolding delete_with
  delete_in instance_id (err e) s = if instance_id == "" then release s else (
    err (wrapped "cannot determine region to delete instance %s: %w" (str instance_id ∷ []) e),
    s,
  )
  delete_in instance_id (ok region) s =
      delete_with region instance_id (rt.client_builder region)
        (modify (heal_instance_id instance_id) s)

  unfoldable pub reconcile_delete : Action (Ctl E) Outcome
  unfolding delete_in
  reconcile_delete s = delete_in (recorded_instance s.machine) (region_from_machine s.machine) s
