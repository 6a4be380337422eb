-- ===== src/MachineController/Context.antt =====
-- What a reconcile of a machine works on, and small steps on it. The source mutates the machine in
-- place, also on the way to an error, so the machine is part of the state that an action returns.
use openshift_capi_alicloud.Prelude.{
  ℕ, String, Bool, Option, none, some, List, Result, ok, Error, server, terminal, errorf, wrapped,
  foreign, Message, Operand, Action,
}
use openshift_capi_alicloud.Api.Kube.{Kube, ready_condition}
use openshift_capi_alicloud.Api.Machine.{
  AlibabaCloudMachine, AlibabaCloudMachineSpec, AlibabaCloudMachineStatus, machine_finalizer,
}
use openshift_capi_alicloud.Client.Interface.{Client}

-- The minimal Ignition config that names the full one (buildIgnitionPointer).
pub record IgnitionPointer : Type 0 where
  pub version : String
  pub source : String
  pub hash : String

-- What the controller calls: the utilities, AlibabaCloudClientBuilder for a region, a Get of a
-- Secret's data, and SHA-512 in hexadecimal and JSON of Go's library. `E` is what calls act on.
pub record Runtime (E : Type 0) : Type 0 where
  pub kube : Kube
  pub client_builder : String → Result (Client E)
  pub get_secret : (namespace name : String) → Result (List (String × List ℕ))
  pub sha512_hex : List ℕ → String
  pub marshal_pointer : IgnitionPointer → Result (List ℕ)

pub record Ctl (E : Type 0) : Type 0 where
  pub env : E
  pub machine : AlibabaCloudMachine

abbrev pub requeue_delay : ℕ
requeue_delay = 30

-- Go's terminalError, through errors.As.
unfoldable pub as_terminal : Error → Option (String × String × List Operand)
as_terminal (server e) = none
as_terminal (terminal reason format args) = some (reason, format, args)
as_terminal (errorf _ _) = none
as_terminal (wrapped _ _ e) = as_terminal e
as_terminal (foreign _) = none

abbrev pub with_env : {E A : Type 0} → Ctl E → Result A × E → Result A × Ctl E
with_env s (r, e) = (r, record s { env = e })

-- A call that acts on the world and not on the machine.
abbrev pub on_env : {E A : Type 0} → Action E A → Action (Ctl E) A
on_env call s = with_env s (call s.env)

abbrev pub from_result : {S A : Type 0} → Result A → Action S A
from_result r s = (r, s)

abbrev pub modify : {E : Type 0} → (AlibabaCloudMachine → AlibabaCloudMachine) → Ctl E → Ctl E
modify f s = record s { machine = f s.machine }

abbrev pub update :
    {E : Type 0} → (AlibabaCloudMachine → AlibabaCloudMachine) → Action (Ctl E) (Unit {0})
update f s = (ok tt, modify f s)

abbrev pub on_spec :
    (AlibabaCloudMachineSpec → AlibabaCloudMachineSpec) → AlibabaCloudMachine → AlibabaCloudMachine
on_spec f m = record m { spec = f m.spec }

abbrev pub on_status :
    (AlibabaCloudMachineStatus → AlibabaCloudMachineStatus)
    → AlibabaCloudMachine
    → AlibabaCloudMachine
on_status f m = record m { status = f m.status }

-- conditions.Set of the Ready condition.
abbrev pub set_ready_condition :
    Kube → Bool → String → Message → AlibabaCloudMachine → AlibabaCloudMachine
set_ready_condition k is_true reason message = on_status (λ st. record st {
  conditions =
      k.set_condition
        (record { type = ready_condition; is_true = is_true; reason = reason; message = message })
        st.conditions;
})

abbrev pub on_finalizers : (List String → List String) → AlibabaCloudMachine → AlibabaCloudMachine
on_finalizers f m = record m {
  metadata = record (m.metadata) { finalizers = f m.metadata.finalizers };
}

abbrev pub add_machine_finalizer : Kube → AlibabaCloudMachine → AlibabaCloudMachine
add_machine_finalizer k = on_finalizers (k.add_finalizer machine_finalizer)

abbrev pub remove_machine_finalizer : Kube → AlibabaCloudMachine → AlibabaCloudMachine
remove_machine_finalizer k = on_finalizers (k.remove_finalizer machine_finalizer)
