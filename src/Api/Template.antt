-- ===== src/Api/Template.antt =====
-- api/v1beta1/alibabacloudmachinetemplate_types.go, and the resource lists of Kubernetes.
use openshift_capi_alicloud.Prelude.{ℤ, String, List}
use openshift_capi_alicloud.Api.Kube.{ObjectMeta}
use openshift_capi_alicloud.Api.Machine.{AlibabaCloudMachineSpec}

-- resource.Format
pub data Format : Type 0 where
  decimal_si binary_si : Format

-- resource.Quantity, as NewQuantity makes it.
pub record Quantity : Type 0 where
  pub value : ℤ
  pub format : Format

-- corev1.ResourceList
abbrev pub ResourceList : Type 0
ResourceList = List (String × Quantity)

pub record AlibabaCloudMachineTemplateResource : Type 0 where
  pub spec : AlibabaCloudMachineSpec

pub record AlibabaCloudMachineTemplateSpec : Type 0 where
  pub template : AlibabaCloudMachineTemplateResource

pub record AlibabaCloudMachineTemplateStatus : Type 0 where
  pub capacity : ResourceList

pub record AlibabaCloudMachineTemplate : Type 0 where
  pub metadata : ObjectMeta
  pub spec : AlibabaCloudMachineTemplateSpec
  pub status : AlibabaCloudMachineTemplateStatus
