-- ===== src/MachineController/Create/Tags.antt =====
-- The tags that toSDKTags of internal/controller/alibabacloudmachine_controller.go writes, as
-- machineTag of pkg/client/capi.go reads them.
use Prim.Native.String.{◌++◌}
use text.Mathlib.TextEquality.{eq_iff}
use openshift_capi_alicloud.Prelude.{
  true, has_prefix, subst, strip_prefix?-append, ◌≢◌, String, List, ◌≡◌, ◌==◌, false, refl,
  string_eq, arith,
}
use openshift_capi_alicloud.Api.Types.{Tag}
use openshift_capi_alicloud.Client.Interface.{machine_name_tag_key, machine_tag}
use openshift_capi_alicloud.MachineController.Create.{to_sdk_tags}

cluster_key_other :
    (cluster : String) → (("kubernetes.io/cluster/" ++ cluster) == machine_name_tag_key) ≡ false
unfolding has_prefix
cluster_key_other cluster =
    ground (arith, eq_iff ("kubernetes.io/cluster/" ++ cluster) machine_name_tag_key, other)
  where
    other : ("kubernetes.io/cluster/" ++ cluster) ≢ machine_name_tag_key
    other e =
        let has : has_prefix ("kubernetes.io/cluster/" ++ cluster) "kubernetes.io/cluster/" ≡ true =
          rw (strip_prefix?-append "kubernetes.io/cluster/" cluster, has_prefix) refl in
        let q : has_prefix machine_name_tag_key "kubernetes.io/cluster/" ≡ true =
          subst (λ t. has_prefix t "kubernetes.io/cluster/" ≡ true) e has in
        cc

-- The name under which the client searches for an instance, before it creates one, is that of the
-- owner Machine, whatever tags the user gives.
pub machine_tag-to_sdk_tags :
    (tags : List Tag) (machine_name cluster_name : String)
    → machine_tag (to_sdk_tags tags machine_name cluster_name) ≡ machine_name
unfolding machine_tag to_sdk_tags
machine_tag-to_sdk_tags tags machine_name cluster_name = rw (cluster_key_other cluster_name) refl
