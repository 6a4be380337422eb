-- ===== src/Client/Real/Refinement.antt =====
-- The client's searches, through its retries, against the cloud (pkg/client/capi.go).
use text.Mathlib.TextEquality.{eq_iff}
use openshift_capi_alicloud.Prelude.{
  ◌≤◌, length, ◌&&◌, not, if-split, ℕ, zero, suc, String, List, [], ◌∷◌, Result, ok, err, Error,
  ◌≡◌, ◌≢◌, inl, inr, refl, Elem, subst, sym, ap, ◌∙◌, arith, ◌==◌, string_eq,
}
use openshift_capi_alicloud.Client.Cloud.{
  Listed, named_in, tagged_in, carries, page_size, Described, Found, Observes,
}
use openshift_capi_alicloud.Client.Instances.{
  describe_by_id, describe_by_tag, describe_instance_by_id, find_instance_by_tag, first_description,
  first_not_deleted, mapped, description,
}
use openshift_capi_alicloud.Client.Oss.{OssSdk}
use openshift_capi_alicloud.Client.Real.{alibaba_cloud_client}
use openshift_capi_alicloud.Client.Retry.{retry_throttled}
use openshift_capi_alicloud.Client.Retry.Laws.{calls, retry_throttled-Run}
use openshift_capi_alicloud.Client.Sdk.{Sdk, Env, Instance, DescribeInstancesRequest}

-- A page of an answer: what is on it was asked for, all of it where that fits on a page, and
-- something where there is anything.
pub record IsPage (all : List Listed) (l : List Instance) : Type 0 where
  pub sound : (i : Instance) → Elem i l → (a : Listed) × Elem a all × (i ≡ a.instance)
  pub whole : length all ≤ page_size → (a : Listed) → Elem a all → Elem a.instance l
  pub empty : l ≡ [] → all ≡ []

-- What the cloud, with its `instances`, documents of DescribeInstances for a client of the region
-- `home`: it changes no
-- instance, and gives the first page of the instances of that region that have the identifier or the
-- tag. An instance has an identifier.
pub record CloudLaws {W : Type 0} (instances : W → List Listed) (home : String) (sdk : Sdk W)
    : Type 0 where
  pub keeps :
      (r : DescribeInstancesRequest) (w : W)
      → instances (sdk.describe_instances r w).1 ≡ instances w
  pub named : (w : W) (a : Listed) → Elem a (instances w) → a.instance.instance_id ≢ ""
  pub by_id :
      (id : String) (w : W) (l : List Instance)
      → (sdk.describe_instances (describe_by_id id) w).0 ≡ ok l
      → IsPage (named_in home id (instances w)) l
  pub by_tag :
      (key value : String) (w : W) (l : List Instance)
      → (sdk.describe_instances (describe_by_tag home key value) w).0 ≡ ok l
      → IsPage (tagged_in home key value (instances w)) l

tagged_in-Elem :
    (region key value : String) (all : List Listed) (a : Listed)
    → Elem a (tagged_in region key value all)
    → Elem a all
tagged_in-Elem region key value [] a m = m
tagged_in-Elem region key value (b ∷ all) a h =
    if-split (λ l. Elem a l → Elem a (b ∷ all)) (b.region == region && carries key value b.tags)
      (λ p m. elim m [ inl e ↦ inl e | inr n ↦ inr (tagged_in-Elem region key value all a n) ])
      (λ p m. inr (tagged_in-Elem region key value all a m)) h

-- The loop of FindInstanceByTag: nothing that is live is passed over.
first_not_deleted-Elem :
    (l : List Instance)
    → first_not_deleted l ≢ ""
    → (i : Instance) × Elem i l × (i.status ≢ "Deleted") × (i.instance_id ≡ first_not_deleted l)
unfolding first_not_deleted
first_not_deleted-Elem [] = λ h. absurd (h refl)
first_not_deleted-Elem (i ∷ l) =
    if-split
      (λ x. x ≢ "" → (j : Instance) × Elem j (i ∷ l) × (j.status ≢ "Deleted") × (j.instance_id ≡ x))
      (not (i.status == "Deleted"))
      (λ p ne. (i, inl refl, λ q. ground (arith, eq_iff i.status "Deleted", p, q), refl))
      (λ p ne. let (j, m, s, e) = first_not_deleted-Elem l ne in (j, inr m, s, e))

first_not_deleted_none :
    (l : List Instance) (i : Instance)
    → first_not_deleted l ≡ ""
    → Elem i l
    → ((j : Instance) → Elem j l → j.instance_id ≢ "")
    → i.status ≡ "Deleted"
unfolding first_not_deleted
first_not_deleted_none [] i h m n = elim m [ ]
first_not_deleted_none (j ∷ l) i h m n =
    if-split (λ x. x ≡ "" → i.status ≡ "Deleted") (not (j.status == "Deleted"))
      (λ p e. absurd (n j (inl refl) e))
      (λ p e. elim m [
        | inl q ↦ ap (λ x. x.status) q ∙ ground (arith, eq_iff j.status "Deleted", p)
        | inr m' ↦ first_not_deleted_none l i e m' (λ k km. n k (inr km))
      ])
      h

module _ {W : Type 0} (instances : W → List Listed) where
  abbrev pub view : Env W → List Listed
  view s = instances s.cloud

module _ {W : Type 0} (instances : W → List Listed) (home : String) (sdk : Sdk W)
    (laws : CloudLaws instances home sdk) where
  abbrev ask : DescribeInstancesRequest → W → Result (List Instance) × W
  ask r = sdk.describe_instances r

  calls-instances :
      (r : DescribeInstancesRequest) (n : ℕ) (w : W) → instances (calls (ask r) n w) ≡ instances w
  calls-instances r zero w = refl
  calls-instances r (suc n) w = calls-instances r n (ask r w).1 ∙ laws.keeps r w

  -- The retried search: it changes nothing, and its answer is one that the cloud gave when it had the
  -- same instances.
  record Asked (r : DescribeInstancesRequest) (s : Env W) (out : Result (List Instance) × Env W)
      : Type 0 where
    kept : view instances out.1 ≡ view instances s
    seen : W
    same : instances seen ≡ view instances s
    answer : (ask r seen).0 ≡ out.0

  retried :
      (op : String) (r : DescribeInstancesRequest) (s : Env W)
      → Asked r s (retry_throttled sdk op (ask r) s)
  retried op r s =
      let run = retry_throttled-Run sdk op (ask r) s in
      record {
        kept = ap instances run.calls_made ∙ calls-instances r (suc run.count) s.cloud;
        seen = calls (ask r) run.count s.cloud;
        same = calls-instances r run.count s.cloud;
        answer = sym run.last_result;
      }

  search_by_id :
      (id : String) (s : Env W) (f : Error → Error) (out : Result (List Instance) × Env W)
      → Asked (describe_by_id id) s out
      → (view instances (mapped f first_description out).1 ≡ view instances s)
        × Described home id (view instances s) (mapped f first_description out).0
  unfolding first_description
  search_by_id id s f (err e, t) a = (a.kept, tt)
  search_by_id id s f (ok [], t) a =
      let page = laws.by_id id a.seen [] a.answer in
      (a.kept, ap (named_in home id) (sym a.same) ∙ page.empty refl)
  search_by_id id s f (ok (i ∷ l), t) a =
      let page = laws.by_id id a.seen (i ∷ l) a.answer in
      let (b, m, q) = page.sound i (inl refl) in
      (a.kept, (b, subst (λ all. Elem b (named_in home id all)) a.same m, ap description q))

  search_by_tag :
      (key value : String) (s : Env W) (f : Error → Error) (out : Result (List Instance) × Env W)
      → Asked (describe_by_tag home key value) s out
      → (view instances (mapped f first_not_deleted out).1 ≡ view instances s)
        × Found home key value (view instances s) (mapped f first_not_deleted out).0
  search_by_tag key value s f (err e, t) a = (a.kept, tt)
  search_by_tag key value s f (ok l, t) a =
      let all = tagged_in home key value (instances a.seen) in
      let page = laws.by_tag key value a.seen l a.answer in
      let name : (j : Instance) → Elem j l → j.instance_id ≢ "" = λ j m.
        let (b, mb, q) = page.sound j m in
        subst (λ x. x.instance_id ≢ "") (sym q)
          (laws.named a.seen b (tagged_in-Elem home key value (instances a.seen) b mb)) in
      (
        a.kept,
        subst (λ v. Found home key value v (ok (first_not_deleted l))) a.same
            (
              λ none_left few b m live.
                  live (first_not_deleted_none l b.instance none_left (page.whole few b m) name),
              λ some_left.
                  let (i, m, st, e) = first_not_deleted-Elem l some_left in
                  let (b, mb, q) = page.sound i m in
                  (
                    b,
                    mb,
                    subst (λ x. x.status ≢ "Deleted") q st,
                    ap (λ x. x.instance_id) (sym q) ∙ e,
                  ),
            ),
      )

  -- The client for a region implements its promise: through throttling and retries, describing an
  -- identifier tells that no instance of the region has it or describes one that has it; a search by
  -- tag in that region returns nothing only where no live instance has the tag, as long as at most
  -- ten instances have it, which is one page, and else the identifier of a live one that has; and
  -- neither changes any instance. A search that fails tells nothing.
  pub alibaba_cloud_client-Observes :
      (oss : OssSdk W) (getenv : String → String)
      → Observes home (alibaba_cloud_client sdk oss getenv) (view instances)
  unfolding alibaba_cloud_client describe_instance_by_id find_instance_by_tag
  alibaba_cloud_client-Observes oss getenv = record {
    describe_keeps = λ id s. (search_by_id id s _ _ (retried "DescribeInstances" _ s)).0;
    describe_tells = λ id s. (search_by_id id s _ _ (retried "DescribeInstances" _ s)).1;
    find_keeps = λ key value s. (search_by_tag key value s _ _ (retried "DescribeInstances" _ s)).0;
    find_tells = λ key value s. (search_by_tag key value s _ _ (retried "DescribeInstances" _ s)).1;
  }
