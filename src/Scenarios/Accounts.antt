-- ===== src/Scenarios/Accounts.antt =====
-- Credentials, the making of a client, the object store and the start of the provider.
use openshift_capi_alicloud.Prelude.{
  ℕ, ℤ, pos, String, Bool, true, false, Option, none, some, List, [], ◌∷◌, Result, ok, err, foreign,
  ◌≡◌, ◌↔◌, refl, subst, arith, ◌==◌, string_eq, if◌then◌else◌, lookup, Elem, All,
}
use openshift_capi_alicloud.Client.Apsara.{Config, apply_apsara_overrides}
use openshift_capi_alicloud.Client.Apsara.Requests.{Applied, apply_apsara_overrides-Applied}
use openshift_capi_alicloud.Client.Builder.{
  Service, Host, Process, capi_config, get_credential_from_secret,
}
use openshift_capi_alicloud.Client.Builder.Built.{Built, new_capi_client-Built}
use openshift_capi_alicloud.Client.Builder.Secret.{
  Restored, bytes_of, get_credential_from_secret-Restored,
}
use openshift_capi_alicloud.Client.Credentials.{
  Credential, first_non_empty_from, resolve_credential_from, credential_source,
}
use openshift_capi_alicloud.Client.Credentials.Choice.{Chosen, resolve_credential_from-Chosen}
use openshift_capi_alicloud.Client.Credentials.Label.{credential_source_alike}
use openshift_capi_alicloud.CapiCore.Laws.{SortLaws}
use openshift_capi_alicloud.Startup.{Cluster, start, main}
use openshift_capi_alicloud.Startup.Launch.{IsConflict, Started, Succeeds, setup, main-Started}

-- An environment with a base key, a role to assume and an organization.
abbrev getenv_with : String → String → String
getenv_with secret k =
    if k == "ALIBABA_CLOUD_ACCESS_KEY_ID"
    then "ak"
    else if k == "ALIBABACLOUD_ACCESS_KEY_SECRET"
    then secret
    else if k == "ALIBABA_CLOUD_ROLE_ARN"
    then "acs:ram::1:role/capa"
    else if k == "ALIBABA_CLOUD_ROLE_SESSION_EXPIRATION"
    then "60"
    else if k == "ALIBABA_CLOUD_ORGANIZATION_ID"
    then "org-1"
    else ""

abbrev atoi : String → Option ℤ
atoi s = if s == "60" then some (pos 60) else none

resolve_credential_from-Chosen_example :
    Chosen atoi (getenv_with "sk") (resolve_credential_from atoi (getenv_with "sk")).0
resolve_credential_from-Chosen_example = resolve_credential_from-Chosen atoi (getenv_with "sk")

-- Two secrets, and one description.
credential_source_alike_example :
    credential_source atoi (getenv_with "sk") ≡ credential_source atoi (getenv_with "other")
unfolding first_non_empty_from
credential_source_alike_example =
    credential_source_alike atoi (getenv_with "sk") (getenv_with "other")
      (record { metadata = refl; arn = refl; session = refl; ids = refl; secrets = refl })

abbrev add_endpoint_mapping : String → String → Result (Unit {0})
add_endpoint_mapping product endpoint = ok tt

apply_apsara_overrides-Applied_example :
    Applied add_endpoint_mapping (getenv_with "sk") "cn-wulan" (capi_config "capa") (
      apply_apsara_overrides add_endpoint_mapping
        (getenv_with "sk")
        "cn-wulan"
        (capi_config "capa"))
apply_apsara_overrides-Applied_example =
    apply_apsara_overrides-Applied add_endpoint_mapping (getenv_with "sk") "cn-wulan"
      (capi_config "capa")

abbrev new_client : Service → String → Config → Credential → Result Service
new_client service region cfg cred = ok service

new_capi_client-Built_example :
    Built new_client "capa" atoi add_endpoint_mapping (getenv_with "sk") "cn-wulan"
new_capi_client-Built_example =
    new_capi_client-Built new_client "capa" atoi add_endpoint_mapping (getenv_with "sk") "cn-wulan"

abbrev temp_name : Option (List ℕ) → Result String
temp_name none = ok "alibaba-creds-1"
temp_name (some _) = err (foreign "file exists")

abbrev host : Host ℕ
host = record {
  temp_file = λ files. temp_name (lookup "alibaba-creds-1" files);
  write = λ b. (ok tt, b);
  resolve = λ p. ok 7;
  env_credential_file = "ALIBABA_CLOUD_CREDENTIALS_FILE";
}

named-absent :
    (o : Option (List ℕ)) (files : List (String × List ℕ)) (name : String)
    → lookup "alibaba-creds-1" files ≡ o
    → temp_name o ≡ ok name
    → lookup name files ≡ none
named-absent none files name q h =
    let same : "alibaba-creds-1" ≡ name = ground (arith, h) in
    subst (λ x. lookup x files ≡ none) same q
named-absent (some b) files name q h = cc

host-fresh :
    (files : List (String × List ℕ)) (name : String)
    → host.temp_file files ≡ ok name
    → lookup name files ≡ none
host-fresh files name h = named-absent _ files name refl h

host-complete : (b content : List ℕ) → host.write b ≡ (ok tt, content) → content ≡ b
host-complete b content h = ground (arith, h)

abbrev process : Process
process = record { files = []; variables = [] }

abbrev get_secret : String → String → Result (List (String × List ℕ)) × Bool
get_secret namespace name = (ok (("credentials", 91 ∷ []) ∷ []), false)

get_credential_from_secret-Restored_example :
    Restored host
      (bytes_of host host-fresh host-complete (get_secret "default" "creds"))
      process
      (get_credential_from_secret host get_secret "creds" "default" process)
get_credential_from_secret-Restored_example =
    get_credential_from_secret-Restored host host-fresh host-complete get_secret "creds" "default"
      process

-- Everything succeeds, and there is one core. The order of the source is taken as sorted.
abbrev healthy : Cluster
healthy = record {
  attempt = λ p. ok tt;
  list_core_deployments = ok ("capi-system" ∷ []);
  sort_strings = λ xs. xs;
}

healthy-SortLaws : SortLaws healthy.sort_strings
healthy-SortLaws = record { same_values = λ x xs. (λ h. h, λ h. h); keeps_distinct = λ xs h. h }

main-Started_example :
    (Elem start (main healthy true).attempted
      → Started healthy healthy-SortLaws true (main healthy true))
    × (((main healthy true).code ≡ 0) ↔ (
        All (Succeeds healthy) (setup healthy healthy-SortLaws true)
        × Succeeds healthy start
        × ¬ IsConflict healthy))
main-Started_example = main-Started healthy healthy-SortLaws true
