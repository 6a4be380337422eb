-- ===== src/Client/Real.antt =====
-- alibabacloudClient of pkg/client/client.go: the implementation of the interface `Client`, with the
-- methods of pkg/client/capi.go and pkg/client/oss.go.
pub mod Refinement
use openshift_capi_alicloud.Prelude.{String, Result, Action}
use openshift_capi_alicloud.Client.Interface.{Client}
use openshift_capi_alicloud.Client.Oss.{OssSdk}
use openshift_capi_alicloud.Client.Sdk.{Sdk, Env}
use openshift_capi_alicloud.Client.Create
use openshift_capi_alicloud.Client.Instances
use openshift_capi_alicloud.Client.Oss

-- A call of the object store acts on the cloud alone.
abbrev pub on_cloud : {W A : Type 0} → Action W A → Action (Env W) A
on_cloud call s = let (r, w) = call s.cloud in (r, record s { cloud = w })

unfoldable pub alibaba_cloud_client :
    {W : Type 0} → Sdk W → OssSdk W → (String → String) → Client (Env W)
alibaba_cloud_client sdk oss getenv = record {
  describe_instance_by_id = Instances.describe_instance_by_id sdk;
  create_ecs_instance = Create.create_ecs_instance sdk;
  delete_ecs_instance = Instances.delete_ecs_instance sdk;
  find_instance_by_tag = Instances.find_instance_by_tag sdk;
  modify_instance_metadata = Instances.modify_instance_metadata sdk;
  instance_type_capacity = Instances.instance_type_capacity sdk;
  put_ignition_object = λ p. on_cloud (Oss.put_ignition_object oss getenv p);
  delete_ignition_object = λ p. on_cloud (Oss.delete_ignition_object oss getenv p);
}
