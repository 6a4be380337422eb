-- ===== src/Scenarios/Creations.antt =====
-- Reconciles of a machine that has no instance yet, with the client over the paging cloud.
use openshift_capi_alicloud.Prelude.{none, ◌∷◌, ◌≡◌, refl, [], List}
use openshift_capi_alicloud.Base64.{encode}
use openshift_capi_alicloud.Client.Cloud.{Listed, Observes-IsNaming}
use openshift_capi_alicloud.Client.Create.{create_ecs_instance}
use openshift_capi_alicloud.Client.Instances.{find_instance_by_tag}
use openshift_capi_alicloud.Client.Interface.{machine_tag}
use openshift_capi_alicloud.Client.Real.{alibaba_cloud_client}
use openshift_capi_alicloud.Client.Retry.{retry_throttled}
use openshift_capi_alicloud.Client.Sdk.{Env}
use openshift_capi_alicloud.MachineController.Context.{Ctl}
use openshift_capi_alicloud.MachineController.Create.{resolve_failure_domain, create_instance}
use openshift_capi_alicloud.MachineController.Create.Accounts.{
  Accounted, Noted, notes, noting_runtime,
}
use openshift_capi_alicloud.MachineController.Ignition.{
  get_user_data, maybe_offload_user_data, user_data_threshold,
}
use openshift_capi_alicloud.MachineController.Normal.{reconcile_normal}
use openshift_capi_alicloud.MachineController.Normal.Once.{start, reconciled, Reconciles-Accounted}
use openshift_capi_alicloud.Scenarios.Searches.{paging_runtime, paging_view, paging-Observes}
use openshift_capi_alicloud.Scenarios.World.{worker, worker_spec, owner, cluster}

-- A machine that is new, in an empty cloud.
abbrev fresh : Ctl (Noted (Env (List Listed)))
fresh = record {
  env = (record { cloud = []; trace = []; draws = 0 }, []);
  machine = record worker {
    spec = record worker_spec { provider_id = none };
    status = record (worker.status) { instance_id = none };
  };
}

abbrev first : Ctl (Noted (Env (List Listed)))
first = (reconcile_normal (noting_runtime paging_runtime) owner cluster fresh).1

abbrev second : Ctl (Noted (Env (List Listed)))
second = (reconcile_normal (noting_runtime paging_runtime) owner cluster first).1

-- The first reconcile takes an identifier.
returned_once : notes first.env ≡ "i-1" ∷ []
unfolding reconcile_normal resolve_failure_domain create_instance get_user_data
    maybe_offload_user_data user_data_threshold encode alibaba_cloud_client create_ecs_instance
    machine_tag find_instance_by_tag retry_throttled
returned_once = refl

Reconciles-Accounted_example : Accounted notes fresh second
Reconciles-Accounted_example =
    Reconciles-Accounted paging_runtime
      (λ region c h. Observes-IsNaming region c paging_view (paging-Observes region c h))
      (reconciled {s = first} owner cluster (reconciled {s = fresh} owner cluster start))
