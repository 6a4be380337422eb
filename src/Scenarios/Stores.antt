-- ===== src/Scenarios/Stores.antt =====
-- An object store, and what the two operations of the client do to it.
use text.Mathlib.TextEquality.{eq_iff}
use openshift_capi_alicloud.Prelude.{
  negsuc, suc, negated, ◌-◌, ◌/◌, ℤ, ◌≤◌, ℕ, pos, String, Option, none, some, List, [], ◌∷◌, ok,
  ◌≡◌, ◌≢◌, ◌⊎◌, refl, subst, ap, arith, ◌==◌, ◌&&◌, ◌||◌, string_eq, option_eq, if◌then◌else◌,
}
use openshift_capi_alicloud.Client.Credentials.{first_non_empty_from}
use openshift_capi_alicloud.Client.Interface.{IgnitionStoreParams}
use openshift_capi_alicloud.Client.Oss.{
  expiry_or_default, OssSdk, put_ignition_object, delete_ignition_object,
}
use openshift_capi_alicloud.Client.Oss.Stored.{
  IsBrief, IsPositive, OssLaws, Offered, Removed, put_ignition_object-Offered,
  delete-put_ignition_object,
}

-- The store is a function from bucket and key.
abbrev Objects : Type 0
Objects = String → String → Option (List ℕ)

abbrev set : String → String → Option (List ℕ) → Objects → Objects
set b k body w b' k' = if b' == b && k' == k then body else w b' k'

abbrev seconds_of : ℤ → ℤ
seconds_of (pos n) = pos (n / 1_000_000_000)
seconds_of (negsuc n) = negated (suc n / 1_000_000_000)

seconds_of-IsPositive : (n : ℕ) → 1_000_000_000 ≤ n → IsPositive (seconds_of (pos n))
seconds_of-IsPositive n h = (n / 1_000_000_000 - 1, ap pos (omega arith))

abbrev store : OssSdk Objects
store = record {
  whole_seconds = seconds_of;
  new = λ c. ok c;
  bucket = λ c b. ok tt;
  put_object = λ c b k body w. (ok tt, set b k (some body) w);
  sign_url = λ c b k seconds. ok "https://signed";
  delete_object = λ c b k w. (ok tt, set b k none w);
}

set-same : (b k : String) (body : Option (List ℕ)) (w : Objects) → set b k body w b k ≡ body
set-same b k body w = ground (arith, eq_iff b b, eq_iff k k)

set-other :
    (b k b' k' : String) (body : Option (List ℕ)) (w : Objects)
    → (b' ≢ b) ⊎ (k' ≢ k)
    → set b k body w b' k' ≡ w b' k'
set-other b k b' k' body w h = ground (arith, eq_iff b' b, eq_iff k' k, h)

store-OssLaws : OssLaws store
store-OssLaws = record {
  object = λ w. w;
  stored = λ c b k body w w' h.
      subst (λ (x : Objects). x b k ≡ some body) (ap (λ x. x.1) h) (set-same b k (some body) w);
  stored_other = λ c b k b' k' body w w' h n.
      subst (λ (x : Objects). x b' k' ≡ w b' k') (ap (λ x. x.1) h)
        (set-other b k b' k' (some body) w n);
  deleted =
      λ c b k w w' h. subst (λ (x : Objects). x b k ≡ none) (ap (λ x. x.1) h) (set-same b k none w);
  deleted_other = λ c b k b' k' w w' h n.
      subst (λ (x : Objects). x b' k' ≡ w b' k') (ap (λ x. x.1) h) (set-other b k b' k' none w n);
}

abbrev pub getenv : String → String
getenv k =
    if k == "ALIBABA_CLOUD_ACCESS_KEY_ID" || k == "ALIBABA_CLOUD_ACCESS_KEY_SECRET" then "x" else ""

abbrev params : IgnitionStoreParams
params = record {
  bucket = "ignition";
  endpoint = "";
  region_id = "cn-hangzhou";
  key = "capi-ignition/c1/default/worker-1.ign";
  body = 1 ∷ 2 ∷ [];
  expiry = pos 3_600_000_000_000;
}

abbrev nothing : Objects
nothing b k = none

abbrev uploaded : Objects
uploaded = (put_ignition_object store getenv params nothing).1

not-IsBrief : ¬ IsBrief params.expiry
not-IsBrief h = omega (arith, h)

put_ignition_object-Offered_example :
    Offered store store-OssLaws getenv params nothing "https://signed" uploaded
    × IsPositive (seconds_of (expiry_or_default params.expiry))
unfolding put_ignition_object first_non_empty_from
put_ignition_object-Offered_example =
    put_ignition_object-Offered store store-OssLaws getenv params seconds_of-IsPositive not-IsBrief
      nothing uploaded "https://signed" refl

delete-put_ignition_object_example :
    Removed store store-OssLaws getenv params nothing
      (delete_ignition_object store getenv params uploaded).1
unfolding put_ignition_object delete_ignition_object first_non_empty_from
delete-put_ignition_object_example =
    delete-put_ignition_object store store-OssLaws getenv params nothing uploaded
      (delete_ignition_object store getenv params uploaded).1 "https://signed" refl refl
