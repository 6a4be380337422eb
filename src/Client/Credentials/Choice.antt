-- ===== src/Client/Credentials/Choice.antt =====
-- The precedence of credentials, told as a table (pkg/client/capi.go).
use text.Mathlib.TextEquality.{eq_iff}
use openshift_capi_alicloud.Prelude.{
  IsAtLeast, ℤ, pos, negsuc, String, true, false, Option, none, some, List, [], ◌∷◌, Message, ◌≡◌,
  ◌≢◌, ◌⊎◌, inl, inr, ◌&&◌, not, refl, ◌==◌, string_eq, int_ltb, if-split, if-elim, arith,
}
use openshift_capi_alicloud.Client.Credentials.{
  Credential, ecs_ram_role, ram_role_arn, access_key, ecs_metadata, role_arn, session_name,
  session_expiration, access_key_ids, access_key_secrets, first_non_empty_from, long_enough,
  role_session_expiration_from, session_of, without_arn, with_keys, resolve_credential_from,
  default_role_session_name, minimum_expiration,
}

-- The value of the first of the variables that is set, or the empty text if none is.
pub data First (getenv : String → String) : List String → String → Type 0 where
  unset : First getenv [] ""
  here : (k : String) (ks : List String) → getenv k ≢ "" → First getenv (k ∷ ks) (getenv k)
  later :
      (k : String) (ks : List String) {v : String}
      → getenv k ≡ ""
      → First getenv ks v
      → First getenv (k ∷ ks) v

pub first_non_empty_from-First :
    (getenv : String → String) (ks : List String) → First getenv ks (first_non_empty_from getenv ks)
unfolding first_non_empty_from
first_non_empty_from-First getenv [] = unset
first_non_empty_from-First getenv (k ∷ ks) =
    if-split (First getenv (k ∷ ks)) (not (getenv k == ""))
      (λ h. here k ks (ground (arith, eq_iff (getenv k) "", h)))
      (λ h.
        later k ks (ground (arith, eq_iff (getenv k) "", h)) (first_non_empty_from-First getenv ks))

both_set : {ak sk : String} → (not (ak == "") && not (sk == "")) ≡ true → (ak ≢ "") × (sk ≢ "")
both_set {ak} {sk} h = (ground (arith, eq_iff ak "", h), ground (arith, eq_iff sk "", h))

one_unset : {ak sk : String} → (not (ak == "") && not (sk == "")) ≡ false → (ak ≡ "") ⊎ (sk ≡ "")
one_unset {ak} {sk} h = ground (arith, eq_iff ak "", eq_iff sk "", h)

module _ (atoi : String → Option ℤ) (getenv : String → String) where
  -- The documented precedence, highest first: a named role; a role to assume, with a base key and a
  -- session that is long enough; a static key; the role of the machine itself.
  pub data Chosen : Credential → Type 0 where
    explicit : getenv ecs_metadata ≢ "" → Chosen (ecs_ram_role (getenv ecs_metadata))
    assume :
        (ak sk session : String) (expiration : ℤ)
        → getenv ecs_metadata ≡ ""
        → getenv role_arn ≢ ""
        → First getenv access_key_ids ak × (ak ≢ "")
        → First getenv access_key_secrets sk × (sk ≢ "")
        → ((getenv session_name ≡ "") × (session ≡ default_role_session_name))
          ⊎ ((getenv session_name ≢ "") × (session ≡ getenv session_name))
        → IsAtLeast 900 expiration
        → Chosen (ram_role_arn ak sk (getenv role_arn) session expiration)
    static :
        (ak sk : String)
        → getenv ecs_metadata ≡ ""
        → getenv role_arn ≡ ""
        → First getenv access_key_ids ak × (ak ≢ "")
        → First getenv access_key_secrets sk × (sk ≢ "")
        → Chosen (access_key ak sk)
    discovered_role :
        (ak sk : String)
        → getenv ecs_metadata ≡ ""
        → First getenv access_key_ids ak
        → First getenv access_key_secrets sk
        → (ak ≡ "") ⊎ (sk ≡ "")
        → Chosen (ecs_ram_role "")

  long_enough-IsAtLeast : (o : Option ℤ) → IsAtLeast 900 (long_enough atoi getenv o)
  long_enough-IsAtLeast none = omega arith
  long_enough-IsAtLeast (some (pos n)) =
      if-split (IsAtLeast 900) (not (int_ltb (pos n) minimum_expiration)) (λ h. ground arith)
        (λ _. omega arith)
  long_enough-IsAtLeast (some (negsuc n)) = omega arith

  pub role_session_expiration_from-IsAtLeast :
      IsAtLeast 900 (role_session_expiration_from atoi getenv)
  unfolding role_session_expiration_from
  role_session_expiration_from-IsAtLeast =
      if-elim (IsAtLeast 900) (not (getenv session_expiration == ""))
        (long_enough-IsAtLeast (atoi (getenv session_expiration))) (omega arith)

  abbrev Session : String → Type 0
  Session session =
      ((getenv session_name ≡ "") × (session ≡ default_role_session_name))
      ⊎ ((getenv session_name ≢ "") × (session ≡ getenv session_name))

  session_of-Session :
      (v : String) → First getenv (session_name ∷ []) v → Session (session_of atoi getenv v)
  session_of-Session v (here k ks h) =
      if-split Session (getenv session_name == "")
        (λ e. absurd (ground (arith, eq_iff (getenv session_name) "", h, e))) (λ e. inr (h, refl))
  session_of-Session v (later k ks h unset) = inl (h, refl)

  abbrev Picked : Credential × Message → Type 0
  Picked p = Chosen p.0

  -- The half keys are those of the environment.
  module _ (ak sk : String) (meta : getenv ecs_metadata ≡ "")
      (first_ak : First getenv access_key_ids ak)
      (first_sk : First getenv access_key_secrets sk) where
    without_arn-Chosen :
        (getenv role_arn ≡ "") ⊎ ((ak ≡ "") ⊎ (sk ≡ "")) → Chosen (without_arn atoi getenv ak sk).0
    without_arn-Chosen h =
        if-split Picked (not (ak == "") && not (sk == ""))
          (λ b.
            let (a, k) = both_set b in
            static ak sk meta (ground (arith, h, a, k)) (first_ak, a) (first_sk, k))
          (λ b. discovered_role ak sk meta first_ak first_sk (one_unset b))

    with_keys-Chosen : Chosen (with_keys atoi getenv ak sk).0
    with_keys-Chosen =
        if-split Picked (not (getenv role_arn == ""))
          (λ r.
            if-split Picked (not (ak == "") && not (sk == ""))
              (λ b.
                let (a, k) = both_set b in
                assume ak sk _ _ meta (ground (arith, eq_iff (getenv role_arn) "", r)) (first_ak, a)
                  (first_sk, k)
                  (session_of-Session _ (first_non_empty_from-First getenv (session_name ∷ [])))
                  role_session_expiration_from-IsAtLeast)
              (λ b. without_arn-Chosen (inr (one_unset b))))
          (λ r. without_arn-Chosen (inl (ground (arith, eq_iff (getenv role_arn) "", r))))

  -- The credential that the environment gives is the one of the documented precedence, with the
  -- first spelling of a key that is set, and a session to assume a role lasts 900 seconds at least,
  -- whatever the environment says of it.
  pub resolve_credential_from-Chosen : Chosen (resolve_credential_from atoi getenv).0
  unfolding resolve_credential_from
  resolve_credential_from-Chosen =
      if-split Picked (not (getenv ecs_metadata == ""))
        (λ h. explicit (ground (arith, eq_iff (getenv ecs_metadata) "", h)))
        (λ h.
          with_keys-Chosen _ _ (ground (arith, eq_iff (getenv ecs_metadata) "", h))
            (first_non_empty_from-First getenv access_key_ids)
            (first_non_empty_from-First getenv access_key_secrets))
