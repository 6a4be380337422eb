-- ===== src/MachineController/Delete/Progress.antt =====
-- reconcileDelete of internal/controller/alibabacloudmachine_controller.go while the instance is there.
use text.Mathlib.TextEquality.{eq_iff}
use openshift_capi_alicloud.Prelude.{Option, Result, String, true, some, ok, ◌≡◌, ◌≢◌, arith}
use openshift_capi_alicloud.Api.Kube.{Outcome, finished}
use openshift_capi_alicloud.Api.Machine.{AlibabaCloudMachine}
use openshift_capi_alicloud.Api.Types.{instance_state_deleted, instance_state_stopping}
use openshift_capi_alicloud.ProviderId.{region_from_machine}
use openshift_capi_alicloud.Client.Interface.{InstanceDescription, Client}
use openshift_capi_alicloud.MachineController.Context.{modify, Ctl, Runtime}
use openshift_capi_alicloud.MachineController.Delete.{
  heal_instance_id, delete_in, with_info, delete_with, described, reconcile_delete,
  recorded_instance, delete_instance, terminate,
}
use openshift_capi_alicloud.MachineController.Normal.{
  info_of, to_info, describe_instance, InstanceInfo,
}

module _ {E : Type 0} (rt : Runtime E) where
  terminate_lem :
      (c : Client E) (instance_id : String) (info : InstanceInfo) (s : Ctl E)
      → s.machine.status.instance_id ≡ some instance_id
      → info.state ≢ instance_state_stopping
      → info.state ≢ instance_state_deleted
      → ((terminate rt c instance_id info s).1.env
          ≡ (c.delete_ecs_instance instance_id true s.env).1)
        × ((terminate rt c instance_id info s).0 ≢ ok finished)
  unfolding terminate delete_instance
  terminate_lem c instance_id info s i p q =
      ground
        (arith, eq_iff info.state instance_state_stopping, eq_iff info.state instance_state_deleted)

  instance_id-heal :
      (m : AlibabaCloudMachine) (instance_id : String)
      → recorded_instance m ≡ instance_id
      → instance_id ≢ ""
      → (heal_instance_id instance_id m).status.instance_id ≡ some instance_id
  unfolding recorded_instance
  instance_id-heal m instance_id r n = ground (arith, eq_iff instance_id "")

  -- The instance is described, and is not leaving by itself.
  abbrev IsDeleting : String → Client E → E → Result Outcome × Ctl E → Type 0
  IsDeleting instance_id c e out =
      (out.1.env ≡ (c.delete_ecs_instance instance_id true e).1) × (out.0 ≢ ok finished)

  described_lem :
      (c : Client E) (instance_id : String) (s : Ctl E) (d : Option InstanceDescription) (e : E)
      → instance_id ≢ ""
      → c.describe_instance_by_id instance_id s.env ≡ (ok d, e)
      → described rt c instance_id s ≡ (ok (to_info d), record s { env = e })
  unfolding described describe_instance
  described_lem c instance_id s d e n h = ground (arith, eq_iff instance_id "")

  delete_with-IsDeleting :
      (region instance_id : String) (c : Client E) (s : Ctl E) (d : InstanceDescription) (e : E)
      → s.machine.status.instance_id ≡ some instance_id
      → instance_id ≢ ""
      → c.describe_instance_by_id instance_id s.env ≡ (ok (some d), e)
      → d.status ≢ instance_state_stopping
      → d.status ≢ instance_state_deleted
      → IsDeleting instance_id c e (delete_with rt region instance_id (ok c) s)
  unfolding delete_with with_info
  delete_with-IsDeleting region instance_id c s d e i n h p q =
      rw (described_lem c instance_id s (some d) e n h)
        (terminate_lem c instance_id (info_of d) (record s { env = e }) i p q)

  -- While the recorded instance is described in any state but Stopping and Deleted (a Stopped one
  -- included), and the region and a client are at hand, a reconcile of the deletion ends with a
  -- forced deletion of that very instance, also where only the provider identifier still names it,
  -- and asks to be run again.
  pub reconcile_delete-IsDeleting :
      (s : Ctl E) (region instance_id : String) (c : Client E) (d : InstanceDescription) (e : E)
      → recorded_instance s.machine ≡ instance_id
      → instance_id ≢ ""
      → region_from_machine s.machine ≡ ok region
      → rt.client_builder region ≡ ok c
      → c.describe_instance_by_id instance_id s.env ≡ (ok (some d), e)
      → d.status ≢ instance_state_stopping
      → d.status ≢ instance_state_deleted
      → ((reconcile_delete rt s).1.env ≡ (c.delete_ecs_instance instance_id true e).1)
        × ((reconcile_delete rt s).0 ≢ ok finished)
  unfolding reconcile_delete delete_in
  reconcile_delete-IsDeleting s region instance_id c d e rec n reg built h p q =
      rw (rec, reg, built)
        (delete_with-IsDeleting region instance_id c (modify (heal_instance_id instance_id) s) d e
          (instance_id-heal s.machine instance_id rec n) n h p q)
