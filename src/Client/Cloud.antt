-- ===== src/Client/Cloud.antt =====
-- What the client promises of its two searches, in terms of the instances that the cloud has.
use text.Mathlib.TextEquality.{eq_iff}
use openshift_capi_alicloud.Prelude.{
  inl, ◌∷◌, arith, ◌∙◌, ap, subst, inr, [], string_eq, ◌==◌, ◌&&◌, ◌||◌, if◌then◌else◌, if-split,
  Bool, false, ℕ, length, ◌≤◌, String, Option, none, some, List, Result, ok, err, ◌≡◌, ◌≢◌, Elem,
}
use openshift_capi_alicloud.Client.Instances.{description}
use openshift_capi_alicloud.Client.Interface.{Client, InstanceDescription}
use openshift_capi_alicloud.Client.Sdk.{Pair, Instance}

-- An instance of the cloud, with the region and the tags that it was made with.
pub record Listed : Type 0 where
  pub instance : Instance
  pub region : String
  pub tags : List Pair

-- What DescribeInstances looks through, in one region: an identifier, or a tag.
abbrev pub named_in : (region id : String) → List Listed → List Listed
named_in region id [] = []
named_in region id (a ∷ all) =
    let rest = named_in region id all in
    if a.region == region && a.instance.instance_id == id then a ∷ rest else rest

abbrev pub carries : (key value : String) → List Pair → Bool
carries key value [] = false
carries key value (t ∷ tags) =
    let rest = carries key value tags in (t.key == key && t.value == value) || rest

abbrev pub tagged_in : (region key value : String) → List Listed → List Listed
tagged_in region key value [] = []
tagged_in region key value (a ∷ all) =
    let rest = tagged_in region key value all in
    if a.region == region && carries key value a.tags then a ∷ rest else rest

-- What DescribeInstances gives at once, where no page size is asked for.
abbrev pub page_size : ℕ
page_size = 10

-- Deleted instances may be listed for a while.
abbrev pub IsLive : Listed → Type 0
IsLive a = a.instance.status ≢ "Deleted"

-- No instance of the region has the identifier, or one has it and is described.
abbrev pub Described :
    (region id : String) → List Listed → Result (Option InstanceDescription) → Type 0
Described region id all (err e) = Unit
Described region id all (ok none) = named_in region id all ≡ []
Described region id all (ok (some d)) =
    (a : Listed) × Elem a (named_in region id all) × (d ≡ description a.instance)

-- The empty text: no live instance has the tag, as long as one page holds those that have it;
-- another: a live one has the tag, and that identifier.
abbrev pub Found : (region key value : String) → List Listed → Result String → Type 0
Found region key value all (err e) = Unit
Found region key value all (ok id) =
    (id ≡ ""
      → length (tagged_in region key value all) ≤ page_size
      → (a : Listed) → Elem a (tagged_in region key value all)
      → ¬ IsLive a)
    × (id ≢ ""
        → (a : Listed) × Elem a (tagged_in region key value all)
          × IsLive a
          × (a.instance.instance_id ≡ id))

-- The searches of a client for a region tell the truth about that region, and change nothing.
pub record Observes {E : Type 0} (region : String) (c : Client E) (view : E → List Listed)
    : Type 0 where
  pub describe_keeps : (id : String) (e : E) → view (c.describe_instance_by_id id e).1 ≡ view e
  pub describe_tells :
      (id : String) (e : E) → Described region id (view e) (c.describe_instance_by_id id e).0
  pub find_keeps :
      (key value : String) (e : E) → view (c.find_instance_by_tag region key value e).1 ≡ view e
  pub find_tells :
      (key value : String) (e : E)
      → Found region key value (view e) (c.find_instance_by_tag region key value e).0

named_in-Elem :
    (region id : String) (all : List Listed) (a : Listed)
    → Elem a (named_in region id all)
    → a.instance.instance_id ≡ id
named_in-Elem region id [] a m = elim m [ ]
named_in-Elem region id (b ∷ all) a h =
    if-split (λ l. Elem a l → a.instance.instance_id ≡ id)
      (b.region == region && b.instance.instance_id == id)
      (λ p m. elim m [
        | inl e ↦
            ap (λ x. x.instance.instance_id) e ∙ ground (arith, eq_iff b.instance.instance_id id, p)
        | inr n ↦ named_in-Elem region id all a n
      ])
      (λ p m. named_in-Elem region id all a m) h

-- A client that tells the truth describes an instance under its identifier.
pub Observes-IsNaming :
    {E : Type 0} (region : String) (c : Client E) (view : E → List Listed)
    → Observes region c view
    → (id : String) (e : E) (d : InstanceDescription)
    → (c.describe_instance_by_id id e).0 ≡ ok (some d)
    → d.instance_id ≡ id
Observes-IsNaming region c view o id e d h =
    let (a, m, q) : Described region id (view e) (ok (some d)) =
      subst (Described region id (view e)) h (o.describe_tells id e) in
    ap (λ (x : InstanceDescription). x.instance_id) q ∙ named_in-Elem region id (view e) a m
