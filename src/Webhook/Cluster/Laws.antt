-- ===== src/Webhook/Cluster/Laws.antt =====
-- When the webhook of internal/webhook/v1beta1/alibabacloudcluster_webhook.go admits a cluster.
use text.Mathlib.TextEquality.{eq_iff}
use openshift_capi_alicloud.Prelude.{
  Elem-of_contains, int_beq_iff, negsuc, contains_of_Elem, sym, ◌+◌, false, none, [], ◌∷◌, refl,
  inl, inr, ◌≡◌, ◌≢◌, ◌⊎◌, ◌↔◌, String, List, Elem, All, IsDistinct, arith, string_eq, int_eq,
  if-cases, ◌++◌, is_blank, ℤ, pos, ℕ, ◌≤◌, map, contains,
}
use openshift_capi_alicloud.Api.Cluster.{AlibabaCloudCluster}
use openshift_capi_alicloud.Api.Types.{FailureDomain}
use openshift_capi_alicloud.Webhook.Cluster.{
  check_region_kept, check_region, validate_update, check_vswitch, check_endpoint, check_port,
  validate_cluster_spec, check_domains,
}
use openshift_capi_alicloud.Webhook.Fields.{
  index, child, spec_path, FieldError, aggregate_errors, FieldPath,
}
use openshift_capi_alicloud.Webhook.Fields.Laws.{append-eq-nil_iff}

abbrev pub InRange : ℤ → Type 0
InRange (pos n) = (1 ≤ n) × (n ≤ 65535)
InRange (negsuc n) = ⊥

-- Neither host nor port, or both.
abbrev pub IsEndpoint : String → ℤ → Type 0
IsEndpoint host port = ((host ≡ "") × (port ≡ pos 0)) ⊎ ((host ≢ "") × InRange port)

abbrev pub IsDomain : FailureDomain → Type 0
IsDomain fd = (is_blank fd.zone_id ≡ false) × (is_blank fd.vswitch_id ≡ false)

abbrev pub zones : List FailureDomain → List String
zones fds = map (λ fd. fd.zone_id) fds

pub record IsValid (c : AlibabaCloudCluster) : Type 0 where
  pub region : is_blank c.spec.region ≡ false
  pub endpoint : IsEndpoint c.spec.control_plane_endpoint.host c.spec.control_plane_endpoint.port
  pub domains : All IsDomain c.spec.failure_domains
  pub distinct : IsDistinct (zones c.spec.failure_domains)

-- None of the zones was seen.
abbrev pub Fresh : List String → List String → Type 0
Fresh seen zs = All (λ z. ¬ Elem z seen) zs

Fresh-cons :
    (a : String) (seen zs : List String) → Fresh (a ∷ seen) zs → ¬ Elem a zs × Fresh seen zs
Fresh-cons a seen [] h = (λ m. m, tt)
Fresh-cons a seen (z ∷ zs) (p, h) =
    let (q, r) = Fresh-cons a seen zs h in
    (λ m. elim m [ inl e ↦ p (inl (sym e)) | inr m ↦ q m ], (λ m. p (inr m), r))

cons-Fresh :
    (a : String) (seen zs : List String) → ¬ Elem a zs → Fresh seen zs → Fresh (a ∷ seen) zs
cons-Fresh a seen [] n h = tt
cons-Fresh a seen (z ∷ zs) n (p, h) =
    (λ m. elim m [ inl e ↦ n (inl (sym e)) | inr m ↦ p m ], cons-Fresh a seen zs (λ m. n (inr m)) h)

check_vswitch_iff :
    (path : FieldPath) (fd : FailureDomain)
    → (check_vswitch path fd ≡ []) ↔ (is_blank fd.vswitch_id ≡ false)
check_vswitch_iff path fd = ground arith

check_domains_sound :
    (i : ℕ) (seen : List String) (fds : List FailureDomain)
    → check_domains i seen fds ≡ []
    → All IsDomain fds × (IsDistinct (zones fds) × Fresh seen (zones fds))
unfolding check_domains
check_domains_sound i seen [] h = (tt, (tt, tt))
check_domains_sound i seen (fd ∷ fds) h = elim (if-cases (is_blank fd.zone_id) _ _ h) [
  | inl (_, h) ↦ cc
  | inr (z, h) ↦ elim (if-cases (contains seen fd.zone_id) _ _ h) [
    | inl (_, h) ↦ cc
    | inr (n, h) ↦
        let (v, h) = (append-eq-nil_iff _ _).0 h in
        let (a, (d, f)) = check_domains_sound (i + 1) (fd.zone_id ∷ seen) fds h in
        let (out, f) = Fresh-cons fd.zone_id seen (zones fds) f in
        (
          (
            (z, (check_vswitch_iff (spec_path ++ (child "failureDomains" ∷ index i ∷ [])) fd).0 v),
            a,
          ),
          ((out, d), (new n, f)),
        )
  ]
]
  where
    new : contains seen fd.zone_id ≡ false → ¬ Elem fd.zone_id seen
    new n m = ground (arith, contains_of_Elem seen fd.zone_id m)

check_domains_complete :
    (i : ℕ) (seen : List String) (fds : List FailureDomain)
    → All IsDomain fds
    → IsDistinct (zones fds)
    → Fresh seen (zones fds)
    → check_domains i seen fds ≡ []
unfolding check_domains
check_domains_complete i seen [] a d f = refl
check_domains_complete i seen (fd ∷ fds) ((z, v), a) (out, d) (n, f) =
    let rest =
      check_domains_complete (i + 1) (fd.zone_id ∷ seen) fds a d
        (cons-Fresh fd.zone_id seen (zones fds) out f) in
    ground (arith, Elem-of_contains seen fd.zone_id)

check_port_iff : (port : ℤ) → (check_port port ≡ []) ↔ InRange port
check_port_iff (pos n) = ground arith
check_port_iff (negsuc n) = ground arith

check_endpoint_iff :
    (host : String) (port : ℤ) → (check_endpoint host port ≡ []) ↔ IsEndpoint host port
check_endpoint_iff host (pos n) = ground (arith, eq_iff host "", int_beq_iff (pos n) (pos 0))
check_endpoint_iff host (negsuc n) = ground (arith, eq_iff host "")

check_region_iff : (region : String) → (check_region region ≡ []) ↔ (is_blank region ≡ false)
check_region_iff region = ground arith

Fresh-nil : (zs : List String) → Fresh [] zs
Fresh-nil [] = tt
Fresh-nil (z ∷ zs) = (λ m. m, Fresh-nil zs)

-- The specification of a cluster has no errors exactly when the region is not blank, the endpoint
-- has neither host nor port or has both with the port from 1 to 65535, and each failure domain has a
-- zone and a switch that are not blank, with no zone twice.
pub validate_cluster_spec_iff :
    (c : AlibabaCloudCluster) → (validate_cluster_spec c ≡ []) ↔ IsValid c
unfolding validate_cluster_spec
validate_cluster_spec_iff c = (to, from)
  where
    to : validate_cluster_spec c ≡ [] → IsValid c
    to h =
        let (r, h) = (append-eq-nil_iff _ _).0 h in
        let (e, h) = (append-eq-nil_iff _ _).0 h in
        let (a, (d, _)) = check_domains_sound 0 [] c.spec.failure_domains h in
        record {
          region = (check_region_iff _).0 r;
          endpoint = (check_endpoint_iff _ _).0 e;
          domains = a;
          distinct = d;
        }

    from : IsValid c → validate_cluster_spec c ≡ []
    from v = (append-eq-nil_iff _ _).1 (
      (check_region_iff _).1 v.region,
      (append-eq-nil_iff _ _).1 (
        (check_endpoint_iff _ _).1 v.endpoint,
        check_domains_complete 0 [] c.spec.failure_domains v.domains v.distinct
            (Fresh-nil (zones c.spec.failure_domains)),
      ),
    )

aggregate_errors_iff :
    (kind name : String) (errs : List FieldError)
    → (aggregate_errors kind name errs ≡ none) ↔ (errs ≡ [])
unfolding aggregate_errors
aggregate_errors_iff kind name [] = ground arith
aggregate_errors_iff kind name (e ∷ errs) = ground arith

-- An update of a cluster is admitted exactly when the new specification is valid and the region is
-- the old one.
pub validate_update_iff :
    (old new : AlibabaCloudCluster)
    → (validate_update old new ≡ none) ↔ (IsValid new × (old.spec.region ≡ new.spec.region))
unfolding validate_update
validate_update_iff old new = (to, from)
  where
    region_iff :
        (check_region_kept old.spec.region new.spec.region ≡ [])
        ↔ (old.spec.region ≡ new.spec.region)
    region_iff = ground (arith, eq_iff old.spec.region new.spec.region)

    to : validate_update old new ≡ none → IsValid new × (old.spec.region ≡ new.spec.region)
    to h =
        let (v, r) = (append-eq-nil_iff _ _).0 ((aggregate_errors_iff _ _ _).0 h) in
        ((validate_cluster_spec_iff new).0 v, region_iff.0 r)

    from : IsValid new × (old.spec.region ≡ new.spec.region) → validate_update old new ≡ none
    from (v, e) =
        (aggregate_errors_iff _ _ _).1
          ((append-eq-nil_iff _ _).1 ((validate_cluster_spec_iff new).1 v, region_iff.1 e))
