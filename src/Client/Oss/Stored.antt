-- ===== src/Client/Oss/Stored.antt =====
-- What is in the store after the two operations (pkg/client/oss.go).
use openshift_capi_alicloud.Prelude.{
  sym, subst, ◌<◌, ◌≤◌, ap, Action, ◌∙◌, err, refl, arith, Result, negsuc, ℕ, ℤ, pos, zero, suc,
  String, Option, none, some, List, ok, ◌≡◌, ◌≢◌, ◌⊎◌, string_eq,
}
use openshift_capi_alicloud.Client.Interface.{IgnitionStoreParams}
use openshift_capi_alicloud.Client.Oss.{
  opened, with_bucket, delete_done, delete_ignition_object, put_ignition_object, signed, put_done,
  expiry_or_default, OssSdk, OssClient, new_oss_client,
}

-- What the store documents, of the objects that a cloud has by bucket and key.
pub record OssLaws {W : Type 0} (oss : OssSdk W) : Type 0 where
  pub object : W → (bucket key : String) → Option (List ℕ)
  pub stored :
      (c : OssClient) (bucket key : String) (body : List ℕ) (w w' : W)
      → oss.put_object c bucket key body w ≡ (ok tt, w')
      → object w' bucket key ≡ some body
  pub stored_other :
      (c : OssClient) (bucket key b k : String) (body : List ℕ) (w w' : W)
      → oss.put_object c bucket key body w ≡ (ok tt, w')
      → (b ≢ bucket) ⊎ (k ≢ key)
      → object w' b k ≡ object w b k
  pub deleted :
      (c : OssClient) (bucket key : String) (w w' : W)
      → oss.delete_object c bucket key w ≡ (ok tt, w')
      → object w' bucket key ≡ none
  pub deleted_other :
      (c : OssClient) (bucket key b k : String) (w w' : W)
      → oss.delete_object c bucket key w ≡ (ok tt, w')
      → (b ≢ bucket) ⊎ (k ≢ key)
      → object w' b k ≡ object w b k

abbrev pub IsPositive : ℤ → Type 0
IsPositive z = (n : ℕ) × (z ≡ pos (suc n))

-- A Duration that is positive and shorter than a second.
abbrev pub IsBrief : ℤ → Type 0
IsBrief (pos n) = (0 < n) × (n < 1_000_000_000)
IsBrief (negsuc n) = ⊥

-- Otherwise a second at least is left.
expiry_or_default_lem :
    (z : ℤ) → ¬ IsBrief z → (n : ℕ) × (1_000_000_000 ≤ n) × (expiry_or_default z ≡ pos n)
expiry_or_default_lem (pos zero) h = (3_600_000_000_000, omega arith, refl)
expiry_or_default_lem (pos (suc n)) h = (suc n, ground (arith, h), ground arith)
expiry_or_default_lem (negsuc n) h = (3_600_000_000_000, omega arith, refl)

module _ {W : Type 0} (oss : OssSdk W) (laws : OssLaws oss) (getenv : String → String)
    (p : IgnitionStoreParams) where
  -- The object is there, nothing else changed, and the URL is one that the store signed for it, for
  -- the whole seconds of the expiry.
  pub record Offered (w : W) (url : String) (w' : W) : Type 0 where
    pub client : OssClient
    pub made : new_oss_client oss getenv p.endpoint p.region_id ≡ ok client
    pub there : laws.object w' p.bucket p.key ≡ some p.body
    pub others :
        (b k : String) → (b ≢ p.bucket) ⊎ (k ≢ p.key) → laws.object w' b k ≡ laws.object w b k
    pub url_of :
        oss.sign_url client p.bucket p.key (oss.whole_seconds (expiry_or_default p.expiry)) ≡ ok url

  signed-eq-ok : (r : Result String) {url : String} → signed oss getenv p r ≡ ok url → r ≡ ok url
  signed-eq-ok (ok u) h = h
  signed-eq-ok (err e) h = cc

  put_done-Offered :
      (w : W) (url : String) (w' : W) (cli : OssClient) (r : Result (Unit {0}) × W)
      → new_oss_client oss getenv p.endpoint p.region_id ≡ ok cli
      → oss.put_object cli p.bucket p.key p.body w ≡ r
      → put_done oss getenv p cli r ≡ (ok url, w')
      → Offered w url w'
  put_done-Offered w url w' cli (err e, v) m q h = cc
  put_done-Offered w url w' cli (ok tt, v) m q h = record {
    client = cli;
    made = m;
    there = laws.stored cli p.bucket p.key p.body w w' (q ∙ ap (λ x. (ok tt, x)) (ap (λ x. x.1) h));
    others = λ b k n.
        laws.stored_other cli p.bucket p.key b k p.body w w'
          (q ∙ ap (λ x. (ok tt, x)) (ap (λ x. x.1) h)) n;
    url_of =
        signed-eq-ok
          (oss.sign_url cli p.bucket p.key (oss.whole_seconds (expiry_or_default p.expiry)))
          (ap (λ x. x.0) h);
  }

  -- A call on the bucket that succeeds was made, with a client that was made.
  with_bucket-eq-ok :
      {A : Type 0} (r : Result OssClient) (next : OssClient → Action W A) {w w' : W} {a : A}
      → with_bucket oss getenv p r next w ≡ (ok a, w')
      → (cli : OssClient) × (r ≡ ok cli) × (next cli w ≡ (ok a, w'))
  with_bucket-eq-ok (err e) next h = cc
  with_bucket-eq-ok (ok cli) next {w} {w'} {a} h =
      (cli, refl, opened-eq-ok (oss.bucket cli p.bucket) h)
    where
      opened-eq-ok :
          (b : Result (Unit {0}))
          → opened oss getenv p b (next cli) w ≡ (ok a, w')
          → next cli w ≡ (ok a, w')
      opened-eq-ok (err e) k = cc
      opened-eq-ok (ok u) k = k

  pub put_ignition_object_offers :
      (w w' : W) (url : String)
      → put_ignition_object oss getenv p w ≡ (ok url, w')
      → Offered w url w'
  unfolding put_ignition_object
  put_ignition_object_offers w w' url h =
      let (cli, m, n) = with_bucket-eq-ok (new_oss_client oss getenv p.endpoint p.region_id) _ h in
      put_done-Offered w url w' cli _ m refl n

  -- An upload that succeeds leaves the bytes in the store under the bucket and the key, and every
  -- other object as it was, and returns a URL that the store signed for them with a client whose key
  -- was set; and for a positive time, unless the expiry is positive and shorter than a second. Go's
  -- int64(d.Seconds()) is positive for a Duration of a second at least.
  pub put_ignition_object-Offered :
      ((n : ℕ) → 1_000_000_000 ≤ n → IsPositive (oss.whole_seconds (pos n)))
      → ¬ IsBrief p.expiry
      → (w w' : W) (url : String) → put_ignition_object oss getenv p w ≡ (ok url, w')
      → Offered w url w' × IsPositive (oss.whole_seconds (expiry_or_default p.expiry))
  put_ignition_object-Offered positive long w w' url h =
      let (n, second, e) = expiry_or_default_lem p.expiry long in
      (
        put_ignition_object_offers w w' url h,
        subst (λ z. IsPositive (oss.whole_seconds z)) (sym e) (positive n second),
      )

  pub record Removed (w w' : W) : Type 0 where
    pub gone : laws.object w' p.bucket p.key ≡ none
    pub others :
        (b k : String) → (b ≢ p.bucket) ⊎ (k ≢ p.key) → laws.object w' b k ≡ laws.object w b k

  delete_done-Removed :
      (w w' : W) (cli : OssClient) (r : Result (Unit {0}) × W)
      → oss.delete_object cli p.bucket p.key w ≡ r
      → delete_done oss getenv p r ≡ (ok tt, w')
      → Removed w w'
  delete_done-Removed w w' cli (err e, v) q h = cc
  delete_done-Removed w w' cli (ok tt, v) q h = record {
    gone = laws.deleted cli p.bucket p.key w w' (q ∙ h);
    others = λ b k n. laws.deleted_other cli p.bucket p.key b k w w' (q ∙ h) n;
  }

  delete_ignition_object-Removed :
      (w w' : W) → delete_ignition_object oss getenv p w ≡ (ok tt, w') → Removed w w'
  unfolding delete_ignition_object
  delete_ignition_object-Removed w w' h =
      let (cli, m, n) = with_bucket-eq-ok (new_oss_client oss getenv p.endpoint p.region_id) _ h in
      delete_done-Removed w w' cli _ refl n

  -- An upload and a deletion under the same key that both succeed leave no object there, and every
  -- other object as it was before the two.
  pub delete-put_ignition_object :
      (w w1 w2 : W) (url : String)
      → put_ignition_object oss getenv p w ≡ (ok url, w1)
      → delete_ignition_object oss getenv p w1 ≡ (ok tt, w2)
      → Removed w w2
  delete-put_ignition_object w w1 w2 url h k =
      let o = put_ignition_object_offers w w1 url h in
      let r = delete_ignition_object-Removed w1 w2 k in
      record { gone = r.gone; others = λ b q n. r.others b q n ∙ o.others b q n }
