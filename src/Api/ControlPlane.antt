-- ===== src/Api/ControlPlane.antt =====
-- api/controlplane/v1beta1/alibabacloudcontrolplane_types.go.
use openshift_capi_alicloud.Prelude.{String, Bool, Option, List}
use openshift_capi_alicloud.Api.Kube.{ObjectMeta, Condition, ApiEndpoint}

-- A string type: the enumeration is checked elsewhere.
abbrev pub ControlPlaneMode : Type 0
ControlPlaneMode = String

abbrev pub control_plane_mode_external : ControlPlaneMode
control_plane_mode_external = "external"

pub record AlibabaCloudControlPlaneSpec : Type 0 where
  pub mode : ControlPlaneMode
  pub version : String
  pub control_plane_endpoint : ApiEndpoint

pub record AlibabaCloudControlPlaneInitializationStatus : Type 0 where
  pub control_plane_initialized : Option Bool

pub record AlibabaCloudControlPlaneStatus : Type 0 where
  pub ready : Bool
  pub external_managed_control_plane : Option Bool
  pub initialization : Option AlibabaCloudControlPlaneInitializationStatus
  pub version : String
  pub conditions : List Condition

pub record AlibabaCloudControlPlane : Type 0 where
  pub metadata : ObjectMeta
  pub spec : AlibabaCloudControlPlaneSpec
  pub status : AlibabaCloudControlPlaneStatus
