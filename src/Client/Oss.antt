-- ===== src/Client/Oss.antt =====
-- pkg/client/oss.go: user data in an object store. The store's SDK is a parameter.
pub mod Stored
use Prim.Native.String.{◌++◌}
use openshift_capi_alicloud.Prelude.{
  ℕ, ℤ, pos, String, List, [], ◌∷◌, Result, ok, err, Error, errorf, wrapped, str, Action, not, ◌||◌,
  ◌==◌, string_eq, int_ltb, if◌then◌else◌,
}
use openshift_capi_alicloud.Client.Credentials.{
  access_key_ids, access_key_secrets, first_non_empty_from,
}
use openshift_capi_alicloud.Client.Interface.{IgnitionStoreParams}

-- An oss.Client: the endpoint and the key that it was made with.
pub record OssClient : Type 0 where
  pub endpoint : String
  pub access_key_id : String
  pub access_key_secret : String

-- int64(d.Seconds()), through a float64, of Go's library, and the calls of the store's SDK: oss.New, Client.Bucket, and PutObject, SignURL for a GET and
-- DeleteObject of a bucket. `W` is the cloud.
pub record OssSdk (W : Type 0) : Type 0 where
  pub whole_seconds : ℤ → ℤ
  pub new : OssClient → Result OssClient
  pub bucket : OssClient → String → Result (Unit {0})
  pub put_object : OssClient → (bucket key : String) → List ℕ → W → Result (Unit {0}) × W
  pub sign_url : OssClient → (bucket key : String) → (seconds : ℤ) → Result String
  pub delete_object : OssClient → (bucket key : String) → W → Result (Unit {0}) × W

unfoldable pub oss_endpoint_for : (endpoint region : String) → String
oss_endpoint_for endpoint region =
    if not (endpoint == "")
    then endpoint
    else "https://oss-" ++ (region ++ "-internal.aliyuncs.com")

-- One hour, where the expiry is not positive; in nanoseconds.
abbrev pub expiry_or_default : ℤ → ℤ
expiry_or_default expiry = if int_ltb (pos 0) expiry then expiry else pos 3_600_000_000_000

module _ {W : Type 0} (oss : OssSdk W) (getenv : String → String) where
  unfoldable pub new_oss_client : (endpoint region : String) → Result OssClient
  new_oss_client endpoint region =
      let ak = first_non_empty_from getenv access_key_ids in
      let sk = first_non_empty_from getenv access_key_secrets in
      if ak == "" || sk == ""
      then err (
          errorf
            "OSS ignition offload requires ALIBABA_CLOUD_ACCESS_KEY_{ID,SECRET} in the controller environment"
            [])
      else oss.new (record {
        endpoint = oss_endpoint_for endpoint region;
        access_key_id = ak;
        access_key_secret = sk;
      })

  abbrev pub opened :
      {A : Type 0} → IgnitionStoreParams → Result (Unit {0}) → Action W A → Action W A
  opened p (err e) next w = (err (wrapped "OSS bucket %s: %w" (str p.bucket ∷ []) e), w)
  opened p (ok _) next w = next w

  -- The client and the bucket come first.
  abbrev pub with_bucket :
      {A : Type 0} → IgnitionStoreParams → Result OssClient → (OssClient → Action W A) → Action W A
  with_bucket p (err e) next w = (err e, w)
  with_bucket p (ok cli) next w = opened p (oss.bucket cli p.bucket) (next cli) w

  abbrev pub signed : IgnitionStoreParams → Result String → Result String
  signed p (ok url) = ok url
  signed p (err e) = err (wrapped "OSS sign %s/%s: %w" (str p.bucket ∷ str p.key ∷ []) e)

  abbrev pub put_done : IgnitionStoreParams → OssClient → Result (Unit {0}) × W → Result String × W
  put_done p cli (err e, w) =
      (err (wrapped "OSS put %s/%s: %w" (str p.bucket ∷ str p.key ∷ []) e), w)
  put_done p cli (ok _, w) = (
    signed p (oss.sign_url cli p.bucket p.key (oss.whole_seconds (expiry_or_default p.expiry))),
    w,
  )

  unfoldable pub put_ignition_object : IgnitionStoreParams → Action W String
  unfolding new_oss_client oss_endpoint_for
  put_ignition_object p =
      with_bucket p (new_oss_client p.endpoint p.region_id)
        (λ cli w. put_done p cli (oss.put_object cli p.bucket p.key p.body w))

  abbrev pub delete_done : IgnitionStoreParams → Result (Unit {0}) × W → Result (Unit {0}) × W
  delete_done p (err e, w) =
      (err (wrapped "OSS delete %s/%s: %w" (str p.bucket ∷ str p.key ∷ []) e), w)
  delete_done p (ok _, w) = (ok tt, w)

  unfoldable pub delete_ignition_object : IgnitionStoreParams → Action W (Unit {0})
  unfolding new_oss_client
  delete_ignition_object p =
      with_bucket p (new_oss_client p.endpoint p.region_id)
        (λ cli w. delete_done p (oss.delete_object cli p.bucket p.key w))
