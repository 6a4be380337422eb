-- ===== src/Client/Apsara/Requests.antt =====
-- The overrides as a whole, and what is sent with them (pkg/client/apsara.go).
use text.Mathlib.TextEquality.{eq_iff}
use openshift_capi_alicloud.Prelude.{
  differs, false, inr, inl, if◌then◌else◌, ◌⊎◌, Elem, Result, String, Option, none, some, List, [],
  ◌∷◌, ◌≡◌, ◌≢◌, refl, lookup, assign, ◌==◌, string_eq, arith, sym, ◌∙◌, lookup-assign,
  lookup-assign_other, All, IsKeyed, Bool-cases, subst,
}
use openshift_capi_alicloud.Client.Apsara.{
  all_headers, apply_apsara_overrides, inject, env_apsara_caller_source, caller_header,
  apsara_endpoint_env, region_header, map_endpoints, resource_group_header, set_scheme, Overrides,
  env_apsara_scheme, organization_header, env_apsara_resource_group, env_apsara_organization,
  Config, Header, injected,
}
use openshift_capi_alicloud.Client.Apsara.Headers.{
  tenant, caller_value, region_value, rg_value, map_endpoints-Mapped, org_value, headers-All,
  headers, headers-IsKeyed, read, header_names,
}

module _ (canonical : String → String) where
  abbrev or_else : Option String → Option String → Option String
  or_else none b = b
  or_else (some a) b = some a

  -- A header that is injected replaces the request's, and the others are the request's own.
  lookup-injected :
      (hs : List (String × String)) (k : String) (header : Header)
      → IsKeyed hs
      → All (λ e. canonical e.0 ≡ canonical k → e.0 ≡ k) hs
      → lookup (canonical k) (injected canonical hs header)
        ≡ or_else (lookup k hs) (lookup (canonical k) header)
  unfolding injected lookup
  lookup-injected [] k header u a = refl
  lookup-injected ((j, v) ∷ hs) k header (n, u) (a, as') =
      let rest = lookup-injected hs k (assign (canonical j) v header) u as' in
      elim (Bool-cases (j == k)) [
        | inl p ↦
            let same : j ≡ k = (eq_iff j k).0 p in
            ground (
              arith,
              rest,
              p,
              subst (λ x. lookup x hs ≡ none) same n,
              subst (λ x. lookup (canonical x) (assign (canonical j) v header) ≡ some v) same
                  (lookup-assign (canonical j) v header),
            )
        | inr p ↦ ground (
          arith,
          rest,
          p,
          lookup-assign_other (canonical j) (canonical k) v header
              (λ e. ground (arith, a (sym e), eq_iff j k, p)),
        )
      ]

  injected-other :
      (hs : List (String × String)) (q : String) (header : Header)
      → All (λ e. canonical e.0 ≢ q) hs
      → lookup q (injected canonical hs header) ≡ lookup q header
  unfolding injected
  injected-other [] q header a = refl
  injected-other ((j, v) ∷ hs) q header (a, as') =
      injected-other hs q (assign (canonical j) v header) as'
      ∙ lookup-assign_other (canonical j) q v header (λ e. a (sym e))

stable : {s : String} → ¬ (s ≢ "") → s ≡ ""
stable {s} h = elim (Bool-cases (s == "")) [
  | inl p ↦ (eq_iff s "").0 p
  | inr p ↦ absurd (h (differs s "" p))
]

-- The four names stay apart in canonical form.
abbrev pub KeepsApart : (String → String) → Type 0
KeepsApart canonical =
    (j k : String) → Elem j header_names → Elem k header_names → canonical j ≡ canonical k → j ≡ k

module _ (add_endpoint_mapping : (product endpoint : String) → Result (Unit {0}))
    (getenv : String → String) (region : String) (cfg : Config) where
  abbrev pub setting : String → String
  setting = read add_endpoint_mapping getenv region

  -- An organization or a resource group is named.
  abbrev pub IsTenanted : Type 0
  IsTenanted = (setting env_apsara_organization ≢ "") ⊎ (setting env_apsara_resource_group ≢ "")

  -- What is sent for a request with such a header: by the transport, or as it is.
  abbrev pub sent : (String → String) → Config → Header → Header
  sent canonical c header = elim c.transport [
    | none ↦ header
    | some hs ↦ injected canonical hs header
  ]

  abbrev pub value_or : String → Option String → Option String
  value_or k own = if setting k == "" then own else some (setting k)

  pub record Sends (canonical : String → String) (header out : Header) : Type 0 where
    pub organization :
        lookup (canonical organization_header) out
        ≡ value_or env_apsara_organization (lookup (canonical organization_header) header)
    pub resource_group :
        lookup (canonical resource_group_header) out
        ≡ value_or env_apsara_resource_group (lookup (canonical resource_group_header) header)
    pub in_region : lookup (canonical region_header) out ≡ some region
    pub caller :
        lookup (canonical caller_header) out
        ≡ value_or env_apsara_caller_source (lookup (canonical caller_header) header)
    pub others :
        (q : String)
        → ((k : String) → Elem k header_names → canonical k ≢ q)
        → lookup q out ≡ lookup q header

  abbrev all : List (String × String)
  all = headers add_endpoint_mapping getenv region

  injected-Sends :
      (canonical : String → String) (header : Header)
      → KeepsApart canonical
      → Sends canonical header (injected canonical all header)
  injected-Sends canonical header apart =
      let one : (k : String)
          → Elem k header_names
          → lookup (canonical k) (injected canonical all header)
            ≡ or_else canonical (lookup k all) (lookup (canonical k) header) =
        λ k m.
          lookup-injected canonical all k header
            (headers-IsKeyed add_endpoint_mapping getenv region)
            (headers-All add_endpoint_mapping getenv region
              (λ e. canonical e.0 ≡ canonical k → e.0 ≡ k) (λ j v n. apart j k n m)) in
      record {
        organization = ground (
          arith,
          one organization_header (inl refl),
          org_value add_endpoint_mapping getenv region,
        );
        resource_group = ground (
          arith,
          one resource_group_header (inr (inl refl)),
          rg_value add_endpoint_mapping getenv region,
        );
        in_region = ground (
          arith,
          one region_header (inr (inr (inl refl))),
          region_value add_endpoint_mapping getenv region,
        );
        caller = ground (
          arith,
          one caller_header (inr (inr (inr (inl refl)))),
          caller_value add_endpoint_mapping getenv region,
        );
        others = λ q h. injected-other canonical all q header (
            headers-All add_endpoint_mapping getenv region (λ e. canonical e.0 ≢ q)
              (λ k v n. h k n));
      }

  -- The overrides of the configuration, told without the code.
  pub record Applied (o : Overrides) : Type 0 where
    pub untouched : o.applied ≡ false → (o.config ≡ cfg) × (o.mappings ≡ [])
    pub scheme : some o.config.scheme ≡ value_or env_apsara_scheme (some cfg.scheme)
    pub untenanted : ¬ IsTenanted → o.config.transport ≡ cfg.transport
    pub tenanted :
        IsTenanted
        → (canonical : String → String) (header : Header) → KeepsApart canonical
        → Sends canonical header (sent canonical o.config header)
    pub kept :
        (o.config.user_agent ≡ cfg.user_agent)
        × (o.config.auto_retry ≡ cfg.auto_retry)
        × (o.config.max_retry_time ≡ cfg.max_retry_time)

  abbrev mapped_overrides : Overrides
  mapped_overrides =
      map_endpoints add_endpoint_mapping getenv region apsara_endpoint_env
        (record { config = cfg; mappings = []; applied = false })

  abbrev schemed : Overrides
  schemed = set_scheme add_endpoint_mapping getenv region mapped_overrides

  schemed-Mapped :
      (schemed.applied ≡ false → (schemed.config ≡ cfg) × (schemed.mappings ≡ []))
      × (some schemed.config.scheme ≡ value_or env_apsara_scheme (some cfg.scheme))
      × (schemed.config.transport ≡ cfg.transport)
      × (schemed.config.user_agent ≡ cfg.user_agent)
      × (schemed.config.auto_retry ≡ cfg.auto_retry)
      × (schemed.config.max_retry_time ≡ cfg.max_retry_time)
  schemed-Mapped =
      let m =
        map_endpoints-Mapped add_endpoint_mapping getenv region apsara_endpoint_env
          (record { config = cfg; mappings = []; applied = false }) in
      ground (arith, m.config, m.nothing)

  abbrev tenants : List (String × String)
  tenants = tenant add_endpoint_mapping getenv region

  none_of_tenants :
      tenants ≡ []
      → (setting env_apsara_organization ≡ "") × (setting env_apsara_resource_group ≡ "")
  unfolding assign
  none_of_tenants h = ground (
    arith,
    eq_iff (setting env_apsara_organization) "",
    eq_iff (setting env_apsara_resource_group) "",
  )

  tenants_of_none :
      setting env_apsara_organization ≡ "" → setting env_apsara_resource_group ≡ "" → tenants ≡ []
  unfolding assign
  tenants_of_none o r = ground (
    arith,
    eq_iff (setting env_apsara_organization) "",
    eq_iff (setting env_apsara_resource_group) "",
  )

  inject-Applied :
      (hs : List (String × String))
      → tenants ≡ hs
      → Applied (inject add_endpoint_mapping getenv region hs schemed)
  inject-Applied [] q =
      let (u, s, t, a, b, c) = schemed-Mapped in
      let (o, r) = none_of_tenants q in
      record {
        untouched = u;
        scheme = s;
        untenanted = λ _. t;
        tenanted =
            λ h canonical header apart. elim h [ inl x ↦ absurd (x o) | inr x ↦ absurd (x r) ];
        kept = (a, b, c);
      }
  inject-Applied (h ∷ hs) q =
      let (u, s, t, a, b, c) = schemed-Mapped in
      let listed : ¬ (tenants ≡ []) = λ e. ground (arith, q, e) in
      record {
        untouched = λ k. ground arith;
        scheme = s;
        untenanted = λ n.
            absurd (listed (tenants_of_none (stable (λ x. n (inl x))) (stable (λ x. n (inr x)))));
        tenanted = λ _ canonical header apart.
            subst
              (λ x.
                Sends canonical header
                  (injected canonical (all_headers add_endpoint_mapping getenv region x) header))
              q (injected-Sends canonical header apart);
        kept = (a, b, c);
      }

  -- Where no override is applied, the configuration and the endpoints are as they were; the scheme
  -- is that of the environment where it names one; the transport changes only where an organization
  -- or a resource group is named, and then every request that is sent carries the region, those of
  -- the three other values that are set, and besides them the headers that it had, as long as the
  -- four names stay apart in canonical form.
  pub apply_apsara_overrides-Applied :
      Applied (apply_apsara_overrides add_endpoint_mapping getenv region cfg)
  unfolding apply_apsara_overrides
  apply_apsara_overrides-Applied = inject-Applied tenants refl
