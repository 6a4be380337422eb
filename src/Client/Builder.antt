-- ===== src/Client/Builder.antt =====
-- How a client is made: NewCAPIClient of pkg/client/capi.go, and NewClient, getCredentialFromSecret
-- and fetchCredentialsIniFromSecret of pkg/client/client.go.
pub mod Built
pub mod Secret
use openshift_capi_alicloud.Prelude.{
  discard, ℕ, ℤ, String, Bool, true, false, Option, none, some, List, [], ◌∷◌, Result, ok, err,
  Error, errorf, wrapped, str, ◌==◌, string_eq, if◌then◌else◌, lookup, assign,
}
use openshift_capi_alicloud.Api.Kube.{Fetched, found, not_found, failed}
use openshift_capi_alicloud.Client.Apsara.{Config, Overrides, apply_apsara_overrides}
use openshift_capi_alicloud.Client.Credentials.{Credential, resolve_credential}

-- The packages of the SDK whose NewClientWithOptions is called.
pub data Service : Type 0 where
  ecs vpc slb resource_manager : Service

-- alibabacloudClient; `C` stands for the SDK's clients.
pub record AlibabaCloudClient (C : Type 0) : Type 0 where
  pub ecs_client : C
  pub vpc_client : C
  pub slb_client : C
  pub rm_client : C

abbrev pub then_do : {A B : Type 0} → (Error → Error) → Result A → (A → Result B) → Result B
then_do f (err e) k = err (f e)
then_do f (ok a) k = k a

abbrev pub as_is : Error → Error
as_is e = e

abbrev pub machine_config : (user_agent : String) → Config
machine_config user_agent = record {
  user_agent = user_agent;
  scheme = "HTTPS";
  auto_retry = false;
  max_retry_time = 0;
  transport = none;
}

abbrev pub capi_config : (user_agent : String) → Config
capi_config user_agent = record (machine_config user_agent) {
  auto_retry = true;
  max_retry_time = 3;
}

-- NewClientWithOptions for a region, of a service, with a configuration and a credential of type `K`.
module _ {C K : Type 0} (new_client_with_options : Service → String → Config → K → Result C) where
  abbrev pub new_vpc_client : String → Config → K → Result C
  new_vpc_client region cfg cred =
      then_do (wrapped "failed to create VPC client: %w" [])
        (new_client_with_options vpc region cfg cred) ok

  abbrev pub new_slb_client : String → Config → K → Result C
  new_slb_client region cfg cred =
      then_do (wrapped "failed to create SLB client: %w" [])
        (new_client_with_options slb region cfg cred) ok

  abbrev pub new_rm_client : String → Config → K → Result C
  new_rm_client region cfg cred =
      then_do (wrapped "failed to create ResourceManager client: %w" [])
        (new_client_with_options resource_manager region cfg cred) ok

  -- The four constructions, one after the other, up to the first that fails.
  abbrev pub all_four : Result C → Result C → Result C → Result C → Result (AlibabaCloudClient C)
  all_four e v s r = then_do as_is e (λ ecs_client. then_do as_is v (λ vpc_client.
      then_do as_is s (λ slb_client. then_do as_is r (λ rm_client. ok (record {
        ecs_client = ecs_client;
        vpc_client = vpc_client;
        slb_client = slb_client;
        rm_client = rm_client;
      })))))

  -- The clients of one configuration and one credential.
  unfoldable pub clients_of : String → Config → K → Result (AlibabaCloudClient C)
  clients_of region cfg cred =
      all_four
        (then_do (wrapped "failed to create ECS client for region %s: %w" (str region ∷ []))
          (new_client_with_options ecs region cfg cred) ok)
        (new_vpc_client region cfg cred) (new_slb_client region cfg cred)
        (new_rm_client region cfg cred)

  -- What follows the credential in NewClient: the errors are the SDK's, unwrapped.
  unfoldable pub new_client_with : String → String → Result K → Result (AlibabaCloudClient C)
  new_client_with user_agent region credential = then_do as_is credential (λ cred.
      let cfg = machine_config user_agent in
      all_four (new_client_with_options ecs region cfg cred)
        (new_client_with_options vpc region cfg cred) (new_client_with_options slb region cfg cred)
        (new_client_with_options resource_manager region cfg cred))

-- The client of the Cluster API controllers, and the overrides that were made for it.
unfoldable pub new_capi_client :
    {C : Type 0}
    → (Service → String → Config → Credential → Result C)
    → (user_agent : String) → (String → Option ℤ)
    → ((product endpoint : String) → Result (Unit {0}))
    → (String → String)
    → (region : String) → Result (AlibabaCloudClient C) × Overrides
unfolding clients_of
new_capi_client new_client user_agent atoi add_endpoint_mapping getenv region =
    let o = apply_apsara_overrides add_endpoint_mapping getenv region (capi_config user_agent) in
    (clients_of new_client region o.config (resolve_credential atoi getenv), o)

-- The file system and the environment of the process, as far as a credential file goes.
pub record Process : Type 0 where
  pub files : List (String × List ℕ)
  pub variables : List (String × String)

abbrev pub kube_credential_credentials : String
kube_credential_credentials = "credentials"

-- What is asked of the process and of the SDK. `temp_file` names a new file, `write` is the result of
-- writing the bytes and what the file has then, and `resolve` is the profile provider. The last is
-- provider.ENVCredentialFile. A file that was made is removed by os.Remove.
pub record Host (K : Type 0) : Type 0 where
  pub temp_file : List (String × List ℕ) → Result String
  pub write : List ℕ → Result (Unit {0}) × List ℕ
  pub resolve : Process → Result K
  pub env_credential_file : String

module _ {K : Type 0} (host : Host K) where
  -- Remove, and Unsetenv.
  abbrev pub without_file : String → Process → Process
  without_file name p = record p { files = discard name p.files }

  abbrev pub with_file : String → List ℕ → Process → Process
  with_file name content p = record p { files = assign name content p.files }

  abbrev pub with_variable : String → Process → Process
  with_variable name p = record p { variables = assign host.env_credential_file name p.variables }

  abbrev pub without_variable : Process → Process
  without_variable p = record p { variables = discard host.env_credential_file p.variables }

  abbrev pub written : String → Result (Unit {0}) × List ℕ → Process → Result K × Process
  written name (err e, content) p = (err e, without_file name (with_file name content p))
  written name (ok _, content) p =
      let pointed = with_variable name (with_file name content p) in
      (host.resolve pointed, without_file name (without_variable pointed))

  abbrev pub through_file : List ℕ → Result String → Process → Result K × Process
  through_file creds (err e) p = (err e, p)
  through_file creds (ok name) p = written name (host.write creds) (with_file name [] p)

  abbrev pub from_data : Option (List ℕ) → Process → Result K × Process
  from_data none p = (err (errorf "failed to fetch key 'credentials' in secret data" []), p)
  from_data (some creds) p = through_file creds (host.temp_file p.files) p

  unfoldable pub fetch_credentials_ini_from_secret :
      List (String × List ℕ) → Process → Result K × Process
  fetch_credentials_ini_from_secret data_of p =
      from_data (lookup kube_credential_credentials data_of) p

  abbrev pub from_secret :
      String → String → Result (List (String × List ℕ)) × Bool → Process → Result K × Process
  from_secret name namespace (err e, is_not_found) p =
      if is_not_found
      then (
        err (
            wrapped "alibabacloud credentials secret %s/%s not found: %w"
              (str namespace ∷ str name ∷ []) e),
        p,
      )
      else (err e, p)
  from_secret name namespace (ok secret, _) p = fetch_credentials_ini_from_secret secret p

  -- The Get of a Secret's data, with whether its error says that there is none.
  unfoldable pub get_credential_from_secret :
      ((namespace name : String) → Result (List (String × List ℕ)) × Bool)
      → (name namespace : String) → Process
      → Result K × Process
  unfolding fetch_credentials_ini_from_secret
  get_credential_from_secret get name namespace p =
      if name == ""
      then (err (errorf "secret name is empty" []), p)
      else from_secret name namespace (get namespace name) p

-- NewClient, of the machine API.
unfoldable pub new_client :
    {C K : Type 0}
    → (Service → String → Config → K → Result C)
    → (user_agent : String) → Host K
    → ((namespace name : String) → Result (List (String × List ℕ)) × Bool)
    → (secret_name namespace region : String) → Process
    → Result (AlibabaCloudClient C) × Process
unfolding new_client_with get_credential_from_secret
new_client with_options user_agent host get secret_name namespace region p =
    let (credential, q) = get_credential_from_secret host get secret_name namespace p in
    (new_client_with with_options user_agent region credential, q)
