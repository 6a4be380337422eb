-- ===== src/Watch.antt =====
-- internal/controller/util.go: which cluster a change of a Cluster of the core asks to reconcile.
use text.Mathlib.TextEquality.{eq_iff}
use openshift_capi_alicloud.Prelude.{
  ap, ◌∙◌, if-elim, subst, true, [], ◌∷◌, ◌≤◌, if-split, length, inl, refl, String, List, ◌≡◌, ◌≢◌,
  ◌↔◌, Elem, arith, ◌||◌, not, ◌==◌, string_eq, if◌then◌else◌,
}

-- GroupVersion.Group of api/v1beta1/groupversion_info.go.
abbrev pub group : String
group = "infrastructure.cluster.x-k8s.io"

-- clusterv1.ContractVersionedObjectReference
pub record ObjectReference : Type 0 where
  pub api_group : String
  pub kind : String
  pub name : String

-- clusterv1.Cluster: what the handler reads of it.
pub record CoreCluster : Type 0 where
  pub namespace : String
  pub infrastructure_ref : ObjectReference

-- A client.Object: a Cluster, or an object of another type.
pub data Object : Type 0 where
  cluster : CoreCluster → Object
  other : Object

-- reconcile.Request
pub record Request : Type 0 where
  pub namespace : String
  pub name : String

abbrev pub requests : CoreCluster → List Request
requests c =
    let ref = c.infrastructure_ref in
    if ref.kind == "" || ref.name == ""
    then []
    else if not (ref.api_group == group)
    then []
    else record { namespace = c.namespace; name = ref.name } ∷ []

unfoldable pub enqueue_alibaba_cloud_cluster_for_cluster : Object → List Request
enqueue_alibaba_cloud_cluster_for_cluster (cluster c) = requests c
enqueue_alibaba_cloud_cluster_for_cluster other = []

-- The object is a Cluster whose reference names an infrastructure object of this provider.
pub record Refers (obj : Object) (r : Request) : Type 0 where
  pub core : CoreCluster
  pub is_cluster : obj ≡ cluster core
  pub kind : core.infrastructure_ref.kind ≢ ""
  pub provider : core.infrastructure_ref.api_group ≡ group
  pub named : r.name ≢ ""
  pub name : r.name ≡ core.infrastructure_ref.name
  pub namespace : r.namespace ≡ core.namespace

is_empty_iff : (s : String) → ((s == "") ≡ true) ↔ (s ≡ "")
is_empty_iff s = eq_iff s ""

requested_only : (c : CoreCluster) (r : Request) → Elem r (requests c) → Refers (cluster c) r
requested_only c r =
    let ref = c.infrastructure_ref in
    if-split (λ l. Elem r l → Refers (cluster c) r) (ref.kind == "" || ref.name == "")
      (λ _ m. elim m [ ])
      (λ e.
        if-split (λ l. Elem r l → Refers (cluster c) r) (not (ref.api_group == group))
          (λ _ m. elim m [ ])
          (λ g m. record {
            core = c;
            is_cluster = refl;
            kind = ground (arith, is_empty_iff ref.kind, e);
            provider = ground (arith, eq_iff ref.api_group group, g);
            named = ground (arith, is_empty_iff ref.name, e, m);
            name = ground (arith, m);
            namespace = ground (arith, m);
          }))

requested_all : (c : CoreCluster) (r : Request) → Refers (cluster c) r → Elem r (requests c)
requested_all c r h =
    let ref = c.infrastructure_ref in
    let same : h.core ≡ c = ground (arith, h.is_cluster) in
    let kind : ref.kind ≢ "" = subst (λ x. x.infrastructure_ref.kind ≢ "") same h.kind in
    let provider : ref.api_group ≡ group =
      subst (λ x. x.infrastructure_ref.api_group ≡ group) same h.provider in
    let name : r.name ≡ ref.name = h.name ∙ ap (λ x. x.infrastructure_ref.name) same in
    let namespace : r.namespace ≡ c.namespace = h.namespace ∙ ap (λ x. x.namespace) same in
    let named : ref.name ≢ "" = subst (λ x. x ≢ "") name h.named in
    if-split (Elem r) (ref.kind == "" || ref.name == "")
      (λ e. ground (arith, is_empty_iff ref.kind, is_empty_iff ref.name, e, kind, named))
      (λ _.
        if-split (Elem r) (not (ref.api_group == group))
          (λ e. ground (arith, eq_iff ref.api_group group, e, provider))
          (λ _. inl (ground (arith, name, namespace))))

requests-length : (c : CoreCluster) → length (requests c) ≤ 1
requests-length c =
    let ref = c.infrastructure_ref in
    if-elim (λ l. length l ≤ 1) (ref.kind == "" || ref.name == "") (omega arith)
      (if-elim (λ l. length l ≤ 1) (not (ref.api_group == group)) (omega arith) (omega arith))

-- A request is made exactly for the infrastructure object that a Cluster names as one of this
-- provider, with a kind and a name; and at most one is made.
pub enqueue_alibaba_cloud_cluster_for_cluster_iff :
    (obj : Object) (r : Request)
    → (Elem r (enqueue_alibaba_cloud_cluster_for_cluster obj) ↔ Refers obj r)
      × (length (enqueue_alibaba_cloud_cluster_for_cluster obj) ≤ 1)
unfolding enqueue_alibaba_cloud_cluster_for_cluster
enqueue_alibaba_cloud_cluster_for_cluster_iff (cluster c) r =
    ((requested_only c r, requested_all c r), requests-length c)
enqueue_alibaba_cloud_cluster_for_cluster_iff other r =
    ((λ m. elim m [ ], λ h. (ground (arith, h.is_cluster))), ground arith)
