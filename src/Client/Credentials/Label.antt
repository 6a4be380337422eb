-- ===== src/Client/Credentials/Label.antt =====
-- What the logged description of the credential source tells (pkg/client/capi.go).
use openshift_capi_alicloud.Prelude.{ℤ, String, Option, ◌≡◌, arith, ◌==◌, string_eq}
use openshift_capi_alicloud.Client.Credentials.{
  ecs_metadata, role_arn, session_name, access_key_ids, access_key_secrets, first_non_empty_from,
  resolve_credential_from, credential_source,
}

-- Two environments that name the same roles and sessions, and have the same halves of a key set,
-- whatever these are.
pub record AreAlike (e f : String → String) : Type 0 where
  pub metadata : e ecs_metadata ≡ f ecs_metadata
  pub arn : e role_arn ≡ f role_arn
  pub session : e session_name ≡ f session_name
  pub ids :
      (first_non_empty_from e access_key_ids == "") ≡ (first_non_empty_from f access_key_ids == "")
  pub secrets :
      (first_non_empty_from e access_key_secrets == "")
      ≡ (first_non_empty_from f access_key_secrets == "")

-- The description has no secret in it: it is the same in environments that are alike.
pub credential_source_alike :
    (atoi : String → Option ℤ) (e f : String → String)
    → AreAlike e f
    → credential_source atoi e ≡ credential_source atoi f
unfolding resolve_credential_from
credential_source_alike atoi e f h = ground (arith, h.metadata, h.arn, h.session, h.ids, h.secrets)
