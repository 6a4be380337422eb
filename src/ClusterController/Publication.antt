-- ===== src/ClusterController/Publication.antt =====
-- reconcileFailureDomains and resolveFailureDomain of internal/controller: from the failure domains of a cluster's specification, through its status, to a machine's switch.
use text.Mathlib.TextEquality.{eq_iff}
use text.Mathlib.TextPositions.{eq_refl}
use openshift_capi_alicloud.Prelude.{
  All-Elem, String, false, some, List, [], ◌∷◌, ◌≡◌, ◌≢◌, inl, inr, Elem, IsDistinct, subst, sym,
  ap, map, string_eq, arith, ok, ◌==◌, is_blank,
}
use openshift_capi_alicloud.Api.Cluster.{AlibabaCloudCluster}
use openshift_capi_alicloud.Api.Kube.{Machine}
use openshift_capi_alicloud.Api.Machine.{AlibabaCloudMachine}
use openshift_capi_alicloud.Api.Types.{FailureDomain}
use openshift_capi_alicloud.MachineController.Create.{
  find_domain, attribute, set_zone, set_vswitch, apply_domain, resolve_failure_domain,
}
use openshift_capi_alicloud.ClusterController.{publish}
use openshift_capi_alicloud.Webhook.Cluster.Laws.{IsDomain, IsValid, zones}

find-map-publish :
    (fd : FailureDomain) (fds : List FailureDomain)
    → IsDistinct (zones fds)
    → Elem fd fds
    → find_domain fd.zone_id (map publish fds) ≡ some (publish fd)
unfolding find_domain
find-map-publish fd [] d h = elim h [ ]
find-map-publish fd (x ∷ fds) (out, d) (inl e) =
    subst (λ y. find_domain y.zone_id (map publish (x ∷ fds)) ≡ some (publish y)) (sym e)
      (ground (arith, eq_refl x.zone_id))
find-map-publish fd (x ∷ fds) (out, d) (inr h) =
    ground (arith, eq_iff x.zone_id fd.zone_id, other, find-map-publish fd fds d h)
  where
    zone-of : (ys : List FailureDomain) → Elem fd ys → Elem fd.zone_id (zones ys)
    zone-of [] m = m
    zone-of (y ∷ ys) (inl e) = inl (ap (λ z. z.zone_id) e)
    zone-of (y ∷ ys) (inr m) = inr (zone-of ys m)

    other : x.zone_id ≢ fd.zone_id
    other e = out (subst (λ z. Elem z (zones fds)) (sym e) (zone-of fds h))

not_blank : (t : String) → is_blank t ≡ false → t ≢ ""
unfolding is_blank
not_blank t h e = let q : is_blank "" ≡ false = subst (λ t. is_blank t ≡ false) e h in cc

apply-publish :
    (z : String) (fd : FailureDomain) (m : AlibabaCloudMachine)
    → m.spec.vswitch_id ≡ ""
    → fd.vswitch_id ≢ ""
    → apply_domain z (publish fd) m ≡ (ok tt, set_vswitch fd.vswitch_id (set_zone z m))
unfolding attribute
apply-publish z fd m w ne =
    ground (arith, eq_iff m.spec.vswitch_id "", eq_iff fd.vswitch_id "", eq_refl "vSwitchID")

-- A machine without a switch, placed in a failure domain of a valid cluster whose domains are
-- published, gets the switch that the cluster's specification has for that zone, and the zone where it
-- has none of its own.
pub resolve-publish :
    (machine : Machine) (c : AlibabaCloudCluster) (m : AlibabaCloudMachine) (fd : FailureDomain)
    → IsValid c
    → c.status.failure_domains ≡ map publish c.spec.failure_domains
    → Elem fd c.spec.failure_domains
    → machine.failure_domain ≡ fd.zone_id
    → m.spec.vswitch_id ≡ ""
    → resolve_failure_domain machine c m
      ≡ (ok tt, set_vswitch fd.vswitch_id (set_zone machine.failure_domain m))
unfolding resolve_failure_domain
resolve-publish machine c m fd v p h z w =
    let found_it : find_domain machine.failure_domain c.status.failure_domains ≡ some (publish fd) =
      subst (λ k. find_domain machine.failure_domain k ≡ some (publish fd)) (sym p)
        (subst (λ k. find_domain k (map publish c.spec.failure_domains) ≡ some (publish fd)) (sym z)
          (find-map-publish fd c.spec.failure_domains v.distinct h)) in
    let (zone, switch) = All-Elem IsDomain c.spec.failure_domains fd v.domains h in
    let named : (machine.failure_domain == "") ≡ false =
      ground (arith, eq_iff machine.failure_domain "", not_blank fd.zone_id zone) in
    ground (
      arith,
      found_it,
      named,
      apply-publish machine.failure_domain fd m w (not_blank fd.vswitch_id switch),
    )
