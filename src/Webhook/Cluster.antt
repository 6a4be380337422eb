-- ===== src/Webhook/Cluster.antt =====
-- internal/webhook/v1beta1/alibabacloudcluster_webhook.go.
pub mod Laws
use openshift_capi_alicloud.Prelude.{
  ℕ, ◌+◌, ℤ, pos, int_ltb, int_beq, String, Bool, not, Option, List, [], ◌∷◌, ◌++◌, ◌&&◌, ◌||◌,
  contains, is_blank, ◌==◌, string_eq, int_eq, if◌then◌else◌,
}
use openshift_capi_alicloud.Api.Cluster.{AlibabaCloudCluster}
use openshift_capi_alicloud.Api.Kube.{ApiEndpoint}
use openshift_capi_alicloud.Api.Types.{FailureDomain}
use openshift_capi_alicloud.Webhook.Fields.{
  Step, child, index, FieldPath, FieldError, required, invalid, duplicate, forbidden, spec_path,
  aggregate_errors,
}

abbrev pub check_region : String → List FieldError
check_region region =
    if is_blank region
    then required (spec_path ++ (child "region" ∷ [])) "region is required" ∷ []
    else []

abbrev pub endpoint_path : String → FieldPath
endpoint_path name = spec_path ++ (child "controlPlaneEndpoint" ∷ child name ∷ [])

abbrev pub check_host : String → List FieldError
check_host host =
    if host == ""
    then required (endpoint_path "host") "host is required when port is set" ∷ []
    else []

abbrev pub check_port : ℤ → List FieldError
check_port port =
    if not (int_ltb (pos 0) port) || int_ltb (pos 65535) port
    then invalid (endpoint_path "port") "must be between 1 and 65535" ∷ []
    else []

abbrev pub check_endpoint : String → ℤ → List FieldError
check_endpoint host port =
    if not (host == "") || not (int_beq port (pos 0))
    then check_host host ++ check_port port
    else []

abbrev pub check_vswitch : FieldPath → FailureDomain → List FieldError
check_vswitch path fd =
    if is_blank fd.vswitch_id
    then required (path ++ (child "vSwitchID" ∷ [])) "vSwitchID is required" ∷ []
    else []

-- The loop over the failure domains at index `i`, over the zones seen.
unfoldable pub check_domains : ℕ → List String → List FailureDomain → List FieldError
check_domains i seen [] = []
check_domains i seen (fd ∷ fds) =
    let path = spec_path ++ (child "failureDomains" ∷ index i ∷ []) in
    let zone = path ++ (child "zoneID" ∷ []) in
    let switch = check_vswitch path fd in
    let again = check_domains (i + 1) seen fds in
    let next = check_domains (i + 1) (fd.zone_id ∷ seen) fds in
    if is_blank fd.zone_id
    then required zone "zoneID is required" ∷ (switch ++ again)
    else if contains seen fd.zone_id
    then duplicate zone ∷ (switch ++ again)
    else switch ++ next

unfoldable pub validate_cluster_spec : AlibabaCloudCluster → List FieldError
unfolding check_domains
validate_cluster_spec c =
    check_region c.spec.region
    ++ (check_endpoint c.spec.control_plane_endpoint.host c.spec.control_plane_endpoint.port
        ++ check_domains 0 [] c.spec.failure_domains)

abbrev pub cluster_kind : String
cluster_kind = "AlibabaCloudCluster"

unfoldable pub validate_create : AlibabaCloudCluster → Option (String × String × List FieldError)
unfolding aggregate_errors validate_cluster_spec
validate_create c = aggregate_errors cluster_kind c.metadata.name (validate_cluster_spec c)

abbrev pub check_region_kept : String → String → List FieldError
check_region_kept old new =
    if not (old == new)
    then forbidden (spec_path ++ (child "region" ∷ [])) "region is immutable" ∷ []
    else []

unfoldable pub validate_update :
    AlibabaCloudCluster → AlibabaCloudCluster → Option (String × String × List FieldError)
unfolding aggregate_errors validate_cluster_spec
validate_update old new =
    aggregate_errors cluster_kind new.metadata.name
      (validate_cluster_spec new ++ check_region_kept old.spec.region new.spec.region)
