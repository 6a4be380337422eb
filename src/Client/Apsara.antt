-- ===== src/Client/Apsara.antt =====
-- pkg/client/apsara.go: endpoints, scheme and request headers for a private cloud.
pub mod Headers
pub mod Requests
use openshift_capi_alicloud.Prelude.{
  ℕ, String, Bool, true, false, Option, none, some, List, [], ◌∷◌, Result, ok, err, assign, not,
  ◌==◌, string_eq, if◌then◌else◌,
}
use openshift_capi_alicloud.Client.Credentials.{first_non_empty_from}

abbrev pub env_apsara_scheme : String
env_apsara_scheme = "ALIBABA_CLOUD_SCHEME"

abbrev pub env_apsara_organization : String
env_apsara_organization = "ALIBABA_CLOUD_ORGANIZATION_ID"

abbrev pub env_apsara_resource_group : String
env_apsara_resource_group = "ALIBABA_CLOUD_RESOURCE_GROUP_ID"

abbrev pub env_apsara_caller_source : String
env_apsara_caller_source = "ALIBABA_CLOUD_CALLER_SDK_SOURCE"

-- A map in the source, which the loop visits in any order: each product has its own mapping.
abbrev pub apsara_endpoint_env : List (String × String)
apsara_endpoint_env =
    ("Ecs", "ALIBABA_CLOUD_ENDPOINT_ECS")
    ∷ ("Vpc", "ALIBABA_CLOUD_ENDPOINT_VPC")
    ∷ ("Slb", "ALIBABA_CLOUD_ENDPOINT_SLB")
    ∷ ("ResourceManager", "ALIBABA_CLOUD_ENDPOINT_RESOURCEMANAGER")
    ∷ []

abbrev pub organization_header : String
organization_header = "x-acs-organizationid"

abbrev pub resource_group_header : String
resource_group_header = "x-acs-resourcegroupid"

abbrev pub region_header : String
region_header = "x-acs-regionid"

abbrev pub caller_header : String
caller_header = "x-acs-caller-sdk-source"

-- http.Header, by canonical name; a name that is set has one value.
abbrev pub Header : Type 0
Header = List (String × String)

-- headerInjector.RoundTrip up to the inner transport: what is sent for a request with such a header.
-- `canonical` is the canonical form of a header's name.
unfoldable pub injected : (canonical : String → String) → List (String × String) → Header → Header
injected canonical [] header = header
injected canonical ((k, v) ∷ headers) header =
    injected canonical headers (assign (canonical k) v header)

-- sdk.Config; the transport is the injector's headers, where one is set.
pub record Config : Type 0 where
  pub user_agent : String
  pub scheme : String
  pub auto_retry : Bool
  pub max_retry_time : ℕ
  pub transport : Option (List (String × String))

-- The configuration, the endpoint mappings that the SDK has taken, and the result.
pub record Overrides : Type 0 where
  pub config : Config
  pub mappings : List (String × String)
  pub applied : Bool

-- `add_endpoint_mapping` is endpoints.AddEndpointMapping of the SDK, for the region.
module _ (add_endpoint_mapping : (product endpoint : String) → Result (Unit {0}))
    (getenv : String → String) (region : String) where
  abbrev pub variable : String → String
  variable k = first_non_empty_from getenv (k ∷ [])

  abbrev pub mapped : String → String → Result (Unit {0}) → Overrides → Overrides
  mapped product ep (err e) o = o
  mapped product ep (ok _) o = record o { mappings = (product, ep) ∷ o.mappings; applied = true }

  pub map_endpoints : List (String × String) → Overrides → Overrides
  map_endpoints [] o = o
  map_endpoints ((product, env) ∷ table) o = map_endpoints table (
      if variable env == ""
      then o
      else mapped product (variable env) (add_endpoint_mapping product (variable env)) o)

  abbrev pub set_scheme : Overrides → Overrides
  set_scheme o =
      if not (variable env_apsara_scheme == "")
      then record o {
        config = record (o.config) { scheme = variable env_apsara_scheme };
        applied = true;
      }
      else o

  -- headers[k] = v, for a value that is set.
  abbrev pub when_set : String → String → List (String × String) → List (String × String)
  when_set k v headers = if not (v == "") then assign k v headers else headers

  abbrev pub tenant_headers : List (String × String)
  tenant_headers =
      when_set resource_group_header (variable env_apsara_resource_group)
        (when_set organization_header (variable env_apsara_organization) [])

  abbrev pub all_headers : List (String × String) → List (String × String)
  all_headers headers =
      when_set caller_header (variable env_apsara_caller_source)
        (assign region_header region headers)

  abbrev pub inject : List (String × String) → Overrides → Overrides
  inject [] o = o
  inject (h ∷ headers) o = record o {
    config = record (o.config) { transport = some (all_headers (h ∷ headers)) };
    applied = true;
  }

  unfoldable pub apply_apsara_overrides : Config → Overrides
  unfolding map_endpoints
  apply_apsara_overrides cfg = inject tenant_headers (
      set_scheme (
        map_endpoints apsara_endpoint_env
          (record { config = cfg; mappings = []; applied = false })))
