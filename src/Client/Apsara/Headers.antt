-- ===== src/Client/Apsara/Headers.antt =====
-- What the overrides do to a configuration and to the requests sent with it (pkg/client/apsara.go).
use openshift_capi_alicloud.Prelude.{
  inl, inr, not, assign-All, assign-IsKeyed, All, Elem, IsKeyed, if◌then◌else◌, String, false,
  Option, none, some, List, [], ◌∷◌, Result, ok, err, ◌≡◌, refl, lookup, assign, ◌==◌, string_eq,
  if-elim, arith, ◌∙◌,
}
use openshift_capi_alicloud.Client.Apsara.{
  when_set, Overrides, map_endpoints, mapped, tenant_headers, all_headers, variable,
  env_apsara_organization, env_apsara_resource_group, env_apsara_caller_source, organization_header,
  resource_group_header, region_header, caller_header,
}

abbrev pub header_names : List String
header_names = organization_header ∷ resource_group_header ∷ region_header ∷ caller_header ∷ []

module _ (add_endpoint_mapping : (product endpoint : String) → Result (Unit {0}))
    (getenv : String → String) (region : String) where
  abbrev pub read : String → String
  read = variable add_endpoint_mapping getenv region

  -- The endpoints do not touch the configuration, and what is mapped counts as applied.
  pub record Mapped (o p : Overrides) : Type 0 where
    pub config : p.config ≡ o.config
    pub nothing : p.applied ≡ false → (p.mappings ≡ o.mappings) × (o.applied ≡ false)

  mapped-Mapped :
      (product ep : String) (r : Result (Unit {0})) (o : Overrides)
      → Mapped o (mapped add_endpoint_mapping getenv region product ep r o)
  mapped-Mapped product ep (err e) o = record { config = refl; nothing = λ h. (refl, h) }
  mapped-Mapped product ep (ok _) o = record { config = refl; nothing = λ h. ground arith }

  pub map_endpoints-Mapped :
      (table : List (String × String)) (o : Overrides)
      → Mapped o (map_endpoints add_endpoint_mapping getenv region table o)
  unfolding map_endpoints
  map_endpoints-Mapped [] o = record { config = refl; nothing = λ h. (refl, h) }
  map_endpoints-Mapped ((product, env) ∷ table) o =
      let p =
        if read env == ""
        then o
        else mapped add_endpoint_mapping getenv region product (read env)
            (add_endpoint_mapping product (read env)) o in
      let first : Mapped o p =
        if-elim (Mapped o) (read env == "") (record { config = refl; nothing = λ h. (refl, h) })
          (mapped-Mapped product (read env) (add_endpoint_mapping product (read env)) o) in
      let rest = map_endpoints-Mapped table p in
      record {
        config = rest.config ∙ first.config;
        nothing =
            λ h. let (m, a) = rest.nothing h in let (m', a') = first.nothing a in (m ∙ m', a');
      }

  abbrev pub set_or_none : String → Option String
  set_or_none k = if read k == "" then none else some (read k)

  abbrev pub headers : List (String × String)
  headers =
      all_headers add_endpoint_mapping getenv region
        (tenant_headers add_endpoint_mapping getenv region)

  pub org_value : lookup organization_header headers ≡ set_or_none env_apsara_organization
  unfolding lookup assign
  org_value = ground arith

  pub rg_value : lookup resource_group_header headers ≡ set_or_none env_apsara_resource_group
  unfolding lookup assign
  rg_value = ground arith

  pub region_value : lookup region_header headers ≡ some region
  unfolding lookup assign
  region_value = ground arith

  pub caller_value : lookup caller_header headers ≡ set_or_none env_apsara_caller_source
  unfolding lookup assign
  caller_value = ground arith

  when_set-All :
      (P : String × String → Type 0) (k v : String) (m : List (String × String))
      → P (k, v)
      → All P m
      → All P (when_set add_endpoint_mapping getenv region k v m)
  when_set-All P k v m p h = if-elim (All P) (not (v == "")) (assign-All P k v m p h) h

  when_set-IsKeyed :
      (k v : String) (m : List (String × String))
      → IsKeyed m
      → IsKeyed (when_set add_endpoint_mapping getenv region k v m)
  when_set-IsKeyed k v m h = if-elim IsKeyed (not (v == "")) (assign-IsKeyed k v m h) h

  abbrev pub tenant : List (String × String)
  tenant = tenant_headers add_endpoint_mapping getenv region

  abbrev pub with_org : List (String × String)
  with_org =
      when_set add_endpoint_mapping getenv region organization_header (read env_apsara_organization)
        []

  pub headers-IsKeyed : IsKeyed headers
  headers-IsKeyed =
      let org = when_set-IsKeyed organization_header (read env_apsara_organization) [] tt in
      let ids : IsKeyed tenant =
        when_set-IsKeyed resource_group_header (read env_apsara_resource_group) with_org org in
      when_set-IsKeyed caller_header (read env_apsara_caller_source)
        (assign region_header region tenant) (assign-IsKeyed region_header region tenant ids)

  -- Every header is one of the four.
  pub headers-All :
      (P : String × String → Type 0)
      → ((k v : String) → Elem k header_names → P (k, v))
      → All P headers
  headers-All P h =
      let org =
        when_set-All P organization_header (read env_apsara_organization) [] (h _ _ (inl refl))
          tt in
      let ids : All P tenant =
        when_set-All P resource_group_header (read env_apsara_resource_group) with_org
          (h _ _ (inr (inl refl))) org in
      when_set-All P caller_header (read env_apsara_caller_source)
        (assign region_header region tenant) (h _ _ (inr (inr (inr (inl refl)))))
        (assign-All P region_header region tenant (h _ _ (inr (inr (inl refl)))) ids)
