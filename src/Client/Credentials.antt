-- ===== src/Client/Credentials.antt =====
-- pkg/client/capi.go: which credential the controllers use, and a description of it for the logs.
pub mod Choice
pub mod Label
use openshift_capi_alicloud.Prelude.{
  ℤ, pos, String, Bool, Option, none, some, List, [], ◌∷◌, Message, sprintf, str, ◌&&◌, not, ◌==◌,
  string_eq, int_ltb, if◌then◌else◌,
}

-- The credentials of the SDK, with the arguments that the source gives to their constructors.
pub data Credential : Type 0 where
  ecs_ram_role : (role : String) → Credential
  ram_role_arn :
      (access_key_id access_key_secret role_arn session : String) (expiration : ℤ) → Credential
  access_key : (access_key_id access_key_secret : String) → Credential

abbrev pub default_role_session_name : String
default_role_session_name = "capa-controller"

abbrev pub default_role_session_expiration : ℤ
default_role_session_expiration = pos 3600

abbrev pub minimum_expiration : ℤ
minimum_expiration = pos 900

abbrev pub ecs_metadata : String
ecs_metadata = "ALIBABA_CLOUD_ECS_METADATA"

abbrev pub role_arn : String
role_arn = "ALIBABA_CLOUD_ROLE_ARN"

abbrev pub session_name : String
session_name = "ALIBABA_CLOUD_ROLE_SESSION_NAME"

abbrev pub session_expiration : String
session_expiration = "ALIBABA_CLOUD_ROLE_SESSION_EXPIRATION"

abbrev pub access_key_ids : List String
access_key_ids = "ALIBABA_CLOUD_ACCESS_KEY_ID" ∷ "ALIBABACLOUD_ACCESS_KEY_ID" ∷ []

abbrev pub access_key_secrets : List String
access_key_secrets = "ALIBABA_CLOUD_ACCESS_KEY_SECRET" ∷ "ALIBABACLOUD_ACCESS_KEY_SECRET" ∷ []

-- The environment is os.Getenv: the empty text where a variable is not set.
unfoldable pub first_non_empty_from : (String → String) → List String → String
first_non_empty_from getenv [] = ""
first_non_empty_from getenv (k ∷ ks) =
    let rest = first_non_empty_from getenv ks in if not (getenv k == "") then getenv k else rest

-- `atoi` is strconv.Atoi of Go's library.
module _ (atoi : String → Option ℤ) (getenv : String → String) where
  abbrev pub long_enough : Option ℤ → ℤ
  long_enough none = default_role_session_expiration
  long_enough (some n) =
      if not (int_ltb n minimum_expiration) then n else default_role_session_expiration

  unfoldable pub role_session_expiration_from : ℤ
  role_session_expiration_from =
      if not (getenv session_expiration == "")
      then long_enough (atoi (getenv session_expiration))
      else default_role_session_expiration

  abbrev pub session_of : String → String
  session_of session = if session == "" then default_role_session_name else session

  abbrev pub discovered : Credential × Message
  discovered = (ecs_ram_role "", sprintf "ECS RAM role (auto-discovered from metadata)" [])

  -- The two halves of a key, without a role to assume.
  abbrev pub without_arn : String → String → Credential × Message
  without_arn ak sk =
      if not (ak == "") && not (sk == "")
      then (
        access_key ak sk,
        sprintf
            "static AccessKey from environment (no auto-rotation; prefer an ECS RAM role or ALIBABA_CLOUD_ROLE_ARN in production)"
            [],
      )
      else discovered

  abbrev pub assumed : String → String → Credential × Message
  assumed ak sk =
      let arn = getenv role_arn in
      let session = session_of (first_non_empty_from getenv (session_name ∷ [])) in
      (
        ram_role_arn ak sk arn session role_session_expiration_from,
        sprintf "RAM RoleArn AssumeRole (role=%s, session=%s)" (str arn ∷ str session ∷ []),
      )

  abbrev pub with_keys : String → String → Credential × Message
  with_keys ak sk =
      if not (getenv role_arn == "")
      then if not (ak == "") && not (sk == "") then assumed ak sk else without_arn ak sk
      else without_arn ak sk

  unfoldable pub resolve_credential_from : Credential × Message
  unfolding role_session_expiration_from first_non_empty_from
  resolve_credential_from =
      let role = getenv ecs_metadata in
      if not (role == "")
      then (ecs_ram_role role, sprintf "ECS RAM role (explicit: %s)" (str role ∷ []))
      else with_keys (first_non_empty_from getenv access_key_ids)
          (first_non_empty_from getenv access_key_secrets)

  -- resolveCredential and CredentialSource, at os.Getenv.
  abbrev pub resolve_credential : Credential
  resolve_credential = resolve_credential_from.0

  abbrev pub credential_source : Message
  credential_source = resolve_credential_from.1
