-- ===== src/CapiCore.antt =====
-- internal/controller/capi_core.go: which Cluster API cores run beside the provider.
pub mod Laws
use openshift_capi_alicloud.Prelude.{
  String, Bool, List, [], ◌∷◌, Result, ok, err, contains, ◌==◌, string_eq, if◌then◌else◌, map,
}

-- CAPICoreMode
pub data CapiCoreMode : Type 0 where
  bundled : CapiCoreMode
  reused : CapiCoreMode
  conflict : CapiCoreMode
  no_core : CapiCoreMode

abbrev pub ocp_hosted_capi_namespace : String
ocp_hosted_capi_namespace = "openshift-cluster-api"

-- The keys of the map of namespaces seen, each once.
unfoldable pub seen_namespaces : List String → List String → List String
seen_namespaces seen [] = []
seen_namespaces seen (n ∷ ns) =
    let again = seen_namespaces seen ns in
    let next = seen_namespaces (n ∷ seen) ns in if contains seen n then again else n ∷ next

-- The namespaces of the deployments listed by label, with Go's sort.Strings as a parameter.
unfoldable pub detect_capi_core_namespaces :
    (List String → List String) → Result (List String) → Result (List String)
unfolding seen_namespaces
detect_capi_core_namespaces sort (err e) = err e
detect_capi_core_namespaces sort (ok deployments) = ok (sort (seen_namespaces [] deployments))

unfoldable pub classify_capi_core : List String → CapiCoreMode
classify_capi_core [] = no_core
classify_capi_core (n ∷ []) = if n == ocp_hosted_capi_namespace then reused else bundled
classify_capi_core (_ ∷ (_ ∷ _)) = conflict
