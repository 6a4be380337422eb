-- ===== src/ProviderId/RoundTrip.antt =====
-- Round trips of the provider identifiers that providerIDFor of
-- internal/controller/alibabacloudmachine_controller.go writes.
use Prim.Native.Char.{code}
use Prim.Native.String.{[], ◌∷◌, ◌++◌}
use text.Mathlib.TextLemmas.{nil-append, cons-append}
use openshift_capi_alicloud.Prelude.{
  ℕ, String, none, some, nat_eq, ◌≡◌, ◌≢◌, refl, arith, trim_prefix, trim_prefix-append, inl, inr,
  ◌⊎◌, ok,
}
use openshift_capi_alicloud.Api.Machine.{AlibabaCloudMachine}
use openshift_capi_alicloud.ProviderId.{
  scheme, last_segment, provider_id_for, after_last, provider_instance_id, before_first,
  region_of_provider_id, region_from_machine,
}

-- A text without the character.
abbrev pub Lacks : ℕ → String → Type 0
Lacks sep [] = Unit
Lacks sep (c ∷ s) = (code c ≢ sep) × Lacks sep s

after_last_of_Lacks : (s : String) → Lacks b'/' s → Lacks b'.' s → after_last s ≡ none
unfolding after_last
after_last_of_Lacks [] _ _ = refl
after_last_of_Lacks (c ∷ s) (p, h) (q, k) = ground (arith, after_last_of_Lacks s h k)

after_last-append : (s t u : String) → after_last t ≡ some u → after_last (s ++ t) ≡ some u
unfolding after_last
after_last-append [] t u h = rw nil-append h
after_last-append (c ∷ s) t u h = rw cons-append (ground (arith, after_last-append s t u h))

after_last-cons :
    (sep i : String)
    → (sep ≡ "/") ⊎ (sep ≡ ".")
    → Lacks b'/' i
    → Lacks b'.' i
    → after_last (sep ++ i) ≡ some i
unfolding after_last
after_last-cons sep i (inl e) h g =
    rw (e, cons-append, nil-append) (ground (arith, after_last_of_Lacks i h g))
after_last-cons sep i (inr e) h g =
    rw (e, cons-append, nil-append) (ground (arith, after_last_of_Lacks i h g))

last_segment-append :
    (region sep i : String)
    → (sep ≡ "/") ⊎ (sep ≡ ".")
    → Lacks b'/' i
    → Lacks b'.' i
    → last_segment (trim_prefix (scheme ++ (region ++ (sep ++ i))) scheme) ≡ i
unfolding last_segment
last_segment-append region sep i e h g =
    rw trim_prefix-append
      (rw (after_last-append region (sep ++ i) i (after_last-cons sep i e h g), last_segment))

-- An instance is named alike by the slash form and by the dot form of its provider identifier, the
-- one that `provider_id_for` writes: whatever the region, the instance's identifier is what
-- `provider_instance_id` reads back, if it holds neither a slash nor a dot.
pub provider_instance_id-provider_id_for :
    (region instance_id : String)
    → Lacks b'/' instance_id
    → Lacks b'.' instance_id
    → (provider_instance_id (provider_id_for region instance_id) ≡ instance_id)
      × (provider_instance_id (scheme ++ (region ++ ("/" ++ instance_id))) ≡ instance_id)
unfolding provider_instance_id provider_id_for
provider_instance_id-provider_id_for region i h g = (
  last_segment-append region "." i (inr refl) h g,
  last_segment-append region "/" i (inl refl) h g,
)

before_first-append : (s t : String) → Lacks b'.' s → before_first b'.' (s ++ ("." ++ t)) ≡ some s
unfolding before_first
before_first-append [] t h = rw (nil-append, cons-append)
before_first-append (c ∷ s) t (p, h) = rw cons-append (ground (arith, before_first-append s t h))

before_first_of_Lacks : (sep : ℕ) (s : String) → Lacks sep s → before_first sep s ≡ none
unfolding before_first
before_first_of_Lacks sep [] h = refl
before_first_of_Lacks sep (c ∷ s) (p, h) = ground (arith, before_first_of_Lacks sep s h)

Lacks-append : (sep : ℕ) (s t : String) → Lacks sep s → Lacks sep t → Lacks sep (s ++ t)
Lacks-append sep [] t h k = rw nil-append k
Lacks-append sep (c ∷ s) t (p, h) k = rw cons-append (p, Lacks-append sep s t h k)

region_of-provider_id_for :
    (region instance_id : String)
    → region ≢ ""
    → Lacks b'/' region
    → Lacks b'.' region
    → Lacks b'/' instance_id
    → region_of_provider_id (provider_id_for region instance_id) ≡ some region
unfolding region_of_provider_id provider_id_for
region_of-provider_id_for [] i n h g k = absurd (n refl)
region_of-provider_id_for (c ∷ r) i n h g k = rw (
  trim_prefix-append,
  before_first_of_Lacks b'/' _
      (Lacks-append b'/' (c ∷ r) _ h (Lacks-append b'/' "." i (omega arith, tt) k)),
  before_first-append (c ∷ r) i g,
)

-- The deletion path recovers the region from the provider identifier alone: for a machine whose
-- spec has no region and whose provider identifier was written by `provider_id_for`, the result is
-- the region that was written, if that is not empty, it holds no slash and no dot, and the instance
-- identifier holds no slash.
pub region_from_machine-provider_id_for :
    (m : AlibabaCloudMachine) (region instance_id : String)
    → m.spec.region_id ≡ ""
    → m.spec.provider_id ≡ some (provider_id_for region instance_id)
    → region ≢ ""
    → Lacks b'/' region
    → Lacks b'.' region
    → Lacks b'/' instance_id
    → region_from_machine m ≡ ok region
unfolding region_from_machine
region_from_machine-provider_id_for m region i empty pid n h g k =
    rw (empty, pid) (rw (region_of-provider_id_for region i n h g k))
