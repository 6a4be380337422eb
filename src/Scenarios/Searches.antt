-- ===== src/Scenarios/Searches.antt =====
-- The client of a region over a cloud of any instances, which pages its answers, and deletions and
-- creations with it.
use openshift_capi_alicloud.Prelude.{
  none, pos, if◌then◌else◌, string_eq, zero, suc, ◌==◌, sym, ap, subst, arith, ◌≢◌, Elem, Result,
  foreign, ◌≡◌, ◌≤◌, List, String, ℕ, ◌⊎◌, some, ok, err, inl, inr, refl, [], ◌∷◌, trim_prefix,
  length, if-split, differs,
}
use openshift_capi_alicloud.ProviderId.{region_from_machine}
use openshift_capi_alicloud.Client.Cloud.{named_in, tagged_in, page_size, Listed, Observes}
use openshift_capi_alicloud.Client.Instances.{describe_instance_by_id, find_instance_by_tag}
use openshift_capi_alicloud.Client.Interface.{Client, machine_name_tag_key}
use openshift_capi_alicloud.Client.Oss.{OssSdk}
use openshift_capi_alicloud.Client.Real.{alibaba_cloud_client}
use openshift_capi_alicloud.Client.Real.Refinement.{
  CloudLaws, IsPage, view, alibaba_cloud_client-Observes,
}
use openshift_capi_alicloud.Client.Retry.{retry_throttled}
use openshift_capi_alicloud.Client.Sdk.{Sdk, Env, Pair, Instance, DescribeInstancesRequest}
use openshift_capi_alicloud.MachineController.Context.{Ctl, Runtime}
use openshift_capi_alicloud.MachineController.Delete.{reconcile_delete, recorded_instance}
use openshift_capi_alicloud.MachineController.Delete.Clearance.{
  reconcile_delete-IsClearOf, IsClearOf,
}
use openshift_capi_alicloud.MachineController.Delete.Safety.{NeverCreated}
use openshift_capi_alicloud.Scenarios.Stores.{getenv}
use openshift_capi_alicloud.Scenarios.World.{kube, worker}

-- The instances are those that have an identifier.
abbrev identified : List Listed → List Listed
identified [] = []
identified (a ∷ all) =
    let rest = identified all in if a.instance.instance_id == "" then rest else a ∷ rest

abbrev instance_of : Listed → Instance
instance_of a = a.instance

-- The first so many.
abbrev page : ℕ → List Listed → List Instance
page zero all = []
page (suc n) [] = []
page (suc n) (a ∷ all) = a.instance ∷ page n all

abbrev asked : (home : String) → DescribeInstancesRequest → List Listed → List Listed
asked home r w = elim r.instance_ids [
  | some id ↦ named_in home id (identified w)
  | none ↦ elim r.tag [
    | [] ↦ identified w
    | t ∷ _ ↦ tagged_in r.region_id t.key t.value (identified w)
  ]
]

abbrev made_instance : String → List Pair → Listed
made_instance region tags = record {
  instance = record {
    instance_id = "i-1";
    status = "Running";
    host_name = "worker-1";
    inner_ip_address = [];
    public_ip_address = [];
  };
  region = region;
  tags = tags;
}

abbrev without : String → List Listed → List Listed
without id [] = []
without id (a ∷ all) =
    let rest = without id all in if a.instance.instance_id == id then rest else a ∷ rest

abbrev pub paging_cloud : (home : String) → Sdk (List Listed)
paging_cloud home = record {
  describe_instances = λ r w. (ok (page page_size (asked home r w)), w);
  run_instances = λ r w. (ok ("i-1" ∷ []), made_instance r.region_id r.tag ∷ w);
  stop_instance = λ r w. (ok tt, w);
  delete_instance = λ r w. (ok tt, without r.instance_id w);
  modify_metadata = λ r w. (ok tt, w);
  describe_disks = λ r w. (ok [], w);
  describe_network_interfaces = λ r w. (ok [], w);
  tag_resources = λ r w. (ok tt, w);
  describe_instance_types = λ ts w. (ok [], w);
  int63n = λ k n. 0;
  mib_of_gib = λ n. pos n;
}

page_sound :
    (n : ℕ) (all : List Listed) (i : Instance)
    → Elem i (page n all)
    → (a : Listed) × Elem a all × (i ≡ a.instance)
page_sound zero all i m = elim m [ ]
page_sound (suc n) [] i m = elim m [ ]
page_sound (suc n) (a ∷ all) i (inl e) = (a, inl refl, e)
page_sound (suc n) (a ∷ all) i (inr m) = let (b, k, e) = page_sound n all i m in (b, inr k, e)

page_whole :
    (n : ℕ) (all : List Listed) (a : Listed)
    → length all ≤ n
    → Elem a all
    → Elem a.instance (page n all)
page_whole n [] a h m = elim m [ ]
page_whole zero (b ∷ all) a h m = absurd (omega (arith, h))
page_whole (suc n) (b ∷ all) a h (inl e) = inl (ap instance_of e)
page_whole (suc n) (b ∷ all) a h (inr m) = inr (page_whole n all a (omega (arith, h)) m)

page_empty : (n : ℕ) (all : List Listed) → page (suc n) all ≡ [] → all ≡ []
page_empty n [] h = refl
page_empty n (a ∷ all) h = cc

page-IsPage :
    (all : List Listed) (l : List Instance)
    → ◌≡◌ {A = Result (List Instance)} (ok (page page_size all)) (ok l)
    → IsPage all l
page-IsPage all l h =
    let same : page page_size all ≡ l = ground (arith, h) in
    subst (IsPage all) same (record {
      sound = page_sound page_size all;
      whole = λ few a m. page_whole page_size all a few m;
      empty = page_empty 9 all;
    })

identified_named :
    (all : List Listed) (a : Listed) → Elem a (identified all) → a.instance.instance_id ≢ ""
identified_named [] a h = elim h [ ]
identified_named (b ∷ all) a h =
    if-split (λ l. Elem a l → a.instance.instance_id ≢ "") (b.instance.instance_id == "")
      (λ p m. identified_named all a m)
      (λ p m. elim m [
        | inl e ↦ subst (λ x. x.instance.instance_id ≢ "") (sym e) (differs _ _ p)
        | inr k ↦ identified_named all a k
      ])
      h

-- The cloud does what is documented, whatever instances it has.
pub paging_cloud-CloudLaws : (region : String) → CloudLaws identified region (paging_cloud region)
paging_cloud-CloudLaws region = record {
  keeps = λ r w. refl;
  named = identified_named;
  by_id = λ id w l h. page-IsPage (named_in region id (identified w)) l h;
  by_tag = λ key value w l h. page-IsPage (tagged_in region key value (identified w)) l h;
}

-- A store that makes no client.
abbrev no_store : OssSdk (List Listed)
no_store = record {
  whole_seconds = λ z. z;
  new = λ c. err (foreign "no client");
  bucket = λ c b. ok tt;
  put_object = λ c b k body w. (ok tt, w);
  sign_url = λ c b k seconds. ok "";
  delete_object = λ c b k w. (ok tt, w);
}

abbrev pub paging_client : String → Client (Env (List Listed))
paging_client region = alibaba_cloud_client (paging_cloud region) no_store getenv

abbrev pub paging_view : Env (List Listed) → List Listed
paging_view = view identified

alibaba_cloud_client-Observes_example :
    Observes "cn-hangzhou" (paging_client "cn-hangzhou") paging_view
alibaba_cloud_client-Observes_example =
    alibaba_cloud_client-Observes identified "cn-hangzhou" (paging_cloud "cn-hangzhou")
      (paging_cloud-CloudLaws "cn-hangzhou") no_store getenv

abbrev pub paging_runtime : Runtime (Env (List Listed))
paging_runtime = record {
  kube = kube;
  client_builder = λ region. ok (paging_client region);
  get_secret = λ namespace name. ok (("value", 123 ∷ 125 ∷ []) ∷ []);
  sha512_hex = λ bytes. "";
  marshal_pointer = λ p. err (foreign "not marshalled");
}

paging_real :
    (region : String) (c : Client (Env (List Listed)))
    → paging_runtime.client_builder region ≡ ok c
    → c ≡ paging_client region
paging_real region c h = ground (arith, h)

pub paging-Observes :
    (region : String) (c : Client (Env (List Listed)))
    → paging_runtime.client_builder region ≡ ok c
    → Observes region c paging_view
paging-Observes region c h =
    subst (λ x. Observes region x paging_view) (sym (paging_real region c h))
      (alibaba_cloud_client-Observes identified region (paging_cloud region)
        (paging_cloud-CloudLaws region) no_store getenv)

-- Another machine's instance and one of another region, which has the identifier, are still there.
abbrev deleting : Ctl (Env (List Listed))
deleting = record {
  env = record {
    cloud =
        made_instance "cn-beijing" (record { key = machine_name_tag_key; value = "worker-1" } ∷ [])
        ∷ record (made_instance "cn-hangzhou" []) {
          instance = record ((made_instance "cn-hangzhou" []).instance) { instance_id = "i-2" };
        }
        ∷ [];
    trace = [];
    draws = 0;
  };
  machine = worker;
}

reconcile_delete-IsClearOf_example :
    NeverCreated paging_runtime worker
    ⊎ ((region : String) × (region_from_machine worker ≡ ok region)
        × IsClearOf worker region (identified deleting.env.cloud))
unfolding reconcile_delete region_from_machine trim_prefix recorded_instance alibaba_cloud_client
    describe_instance_by_id retry_throttled find_instance_by_tag
reconcile_delete-IsClearOf_example =
    reconcile_delete-IsClearOf identified paging_cloud paging_cloud-CloudLaws no_store getenv
      paging_runtime paging_real deleting refl
