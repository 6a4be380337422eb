-- ===== src/Csr/Sans.antt =====
-- sansSubsetOfNode of internal/controller/csr_controller.go: the addresses in a serving request.
use text.Mathlib.TextEquality.{eq_iff}
use openshift_capi_alicloud.Prelude.{
  Bool-cases, ◌==◌, false, subst, sym, ◌&&◌, inr, inl, ◌≢◌, refl, Elem-of_contains,
  contains_of_Elem, true, Bool, String, List, [], ◌∷◌, ◌≡◌, ◌⊎◌, arith, string_eq, Elem, All,
}
use openshift_capi_alicloud.Csr.{
  is_nil, Node, is_dns_type, is_ip_type, CertificateRequest, dns_of, ips_of, sans_subset_of_node,
  NodeAddress, all_in,
}

all_in_sound : (set xs : List String) → all_in set xs ≡ true → All (λ x. Elem x set) xs
unfolding all_in
all_in_sound set [] h = tt
all_in_sound set (x ∷ xs) h = ground (arith, Elem-of_contains set x, all_in_sound set xs)

all_in_complete : (set xs : List String) → All (λ x. Elem x set) xs → all_in set xs ≡ true
unfolding all_in
all_in_complete set [] h = refl
all_in_complete set (x ∷ xs) (p, h) =
    ground (arith, contains_of_Elem set x p, all_in_complete set xs h)

-- The node advertises the text under one of the types.
abbrev pub Advertises : (String → Bool) → List NodeAddress → String → Type 0
Advertises is_type [] x = ⊥
Advertises is_type (a ∷ as') x =
    ((is_type a.type ≡ true) × (x ≡ a.address)) ⊎ Advertises is_type as' x

Elem-ips_of :
    (addresses : List NodeAddress) (x : String)
    → Elem x (ips_of addresses)
    → Advertises is_ip_type addresses x
unfolding ips_of
Elem-ips_of [] x h = h
Elem-ips_of (a ∷ as') x h = ground (arith, Elem-ips_of as' x)

Elem-dns_of :
    (addresses : List NodeAddress) (x : String)
    → Elem x (dns_of addresses)
    → Advertises is_dns_type addresses x
unfolding dns_of
Elem-dns_of [] x h = h
Elem-dns_of (a ∷ as') x h = ground (arith, Elem-dns_of as' x)

All-map :
    {A : Type 0} (P Q : A → Type 0) (xs : List A) → ((a : A) → P a → Q a) → All P xs → All Q xs
All-map P Q [] f h = tt
All-map P Q (x ∷ xs) f (p, h) = (f x p, All-map P Q xs f h)

-- The names and addresses in the request are the node's own.
pub record AreOwn (cr : CertificateRequest) (node : Node) : Type 0 where
  pub some_name : (cr.ip_addresses ≢ []) ⊎ (cr.dns_names ≢ [])
  pub ips : All (λ x. Advertises is_ip_type node.addresses x) cr.ip_addresses
  pub names : All (λ x. (x ≡ node.name) ⊎ Advertises is_dns_type node.addresses x) cr.dns_names

pub sans_subset-AreOwn :
    (cr : CertificateRequest) (node : Node) → sans_subset_of_node cr node ≡ true → AreOwn cr node
unfolding sans_subset_of_node
sans_subset-AreOwn cr node h =
    let ips : All (λ x. Elem x (ips_of node.addresses)) cr.ip_addresses =
      all_in_sound (ips_of node.addresses) cr.ip_addresses (ground arith) in
    let dns : All (λ x. Elem x (node.name ∷ dns_of node.addresses)) cr.dns_names =
      all_in_sound (node.name ∷ dns_of node.addresses) cr.dns_names (ground arith) in
    record {
      some_name = ground arith;
      ips = All-map _ _ _ (Elem-ips_of node.addresses) ips;
      names = All-map _ _ _ own dns;
    }
  where
    own :
        (x : String)
        → Elem x (node.name ∷ dns_of node.addresses)
        → (x ≡ node.name) ⊎ Advertises is_dns_type node.addresses x
    own x (inl e) = inl e
    own x (inr m) = inr (Elem-dns_of node.addresses x m)

ips_of-Elem :
    (addresses : List NodeAddress) (x : String)
    → Advertises is_ip_type addresses x
    → Elem x (ips_of addresses)
unfolding ips_of
ips_of-Elem [] x h = h
ips_of-Elem (a ∷ as') x h = ground (arith, ips_of-Elem as' x)

dns_of-Elem :
    (addresses : List NodeAddress) (x : String)
    → Advertises is_dns_type addresses x
    → Elem x (dns_of addresses)
unfolding dns_of
dns_of-Elem [] x h = h
dns_of-Elem (a ∷ as') x h = ground (arith, dns_of-Elem as' x, apart a.type)
  where
    at : (t s : String) → (t == s) ≡ true → is_ip_type s ≡ false → is_ip_type t ≡ false
    at t s e f = subst (λ u. is_ip_type u ≡ false) (sym ((eq_iff t s).0 e)) f

    apart : (t : String) → is_dns_type t ≡ true → is_ip_type t ≡ false
    apart t h = elim (Bool-cases (t == "Hostname")) [
      | inl e ↦ at t "Hostname" e refl
      | inr n ↦ elim (Bool-cases (t == "InternalDNS")) [
        | inl e ↦ at t "InternalDNS" e refl
        | inr m ↦ at t "ExternalDNS" (ground arith) refl
      ]
    ]

pub AreOwn-sans_subset :
    (cr : CertificateRequest) (node : Node) → AreOwn cr node → sans_subset_of_node cr node ≡ true
unfolding sans_subset_of_node
AreOwn-sans_subset cr node o =
    let ips =
      all_in_complete (ips_of node.addresses) cr.ip_addresses
        (All-map _ _ cr.ip_addresses (ips_of-Elem node.addresses) o.ips) in
    let dns =
      all_in_complete (node.name ∷ dns_of node.addresses) cr.dns_names
        (All-map _ _ cr.dns_names own o.names) in
    rw (named o.some_name, ips, dns) refl
  where
    own :
        (x : String)
        → (x ≡ node.name) ⊎ Advertises is_dns_type node.addresses x
        → Elem x (node.name ∷ dns_of node.addresses)
    own x (inl e) = inl e
    own x (inr m) = inr (dns_of-Elem node.addresses x m)

    not_nil : (xs : List String) → xs ≢ [] → is_nil xs ≡ false
    not_nil [] n = absurd (n refl)
    not_nil (x ∷ xs) n = refl

    named :
        (cr.ip_addresses ≢ []) ⊎ (cr.dns_names ≢ [])
        → (is_nil cr.ip_addresses && is_nil cr.dns_names) ≡ false
    named (inl n) = ground (arith, not_nil cr.ip_addresses n)
    named (inr n) = ground (arith, not_nil cr.dns_names n)
