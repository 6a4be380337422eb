-- ===== src/Client/Builder/Built.antt =====
-- What NewCAPIClient returns (pkg/client/capi.go).
use openshift_capi_alicloud.Prelude.{
  ℤ, String, Option, List, Result, ok, err, Error, wrapped, ◌≡◌, refl, Operand,
}
use openshift_capi_alicloud.Client.Apsara.{Config, Overrides}
use openshift_capi_alicloud.Client.Apsara.Requests.{Applied, apply_apsara_overrides-Applied}
use openshift_capi_alicloud.Client.Builder.{
  Service, ecs, vpc, slb, resource_manager, AlibabaCloudClient, clients_of, capi_config, then_do,
  as_is, new_capi_client,
}
use openshift_capi_alicloud.Client.Credentials.{Credential, resolve_credential}
use openshift_capi_alicloud.Client.Credentials.Choice.{Chosen, resolve_credential_from-Chosen}

module _ {C K : Type 0} (new_client : Service → String → Config → K → Result C) (region : String)
    (cfg : Config) (cred : K) where
  abbrev made : Service → Result C
  made s = new_client s region cfg cred

  -- All four clients, of the same region, configuration and credential, or the wrapped error of one
  -- that could not be made.
  abbrev pub Made : Result (AlibabaCloudClient C) → Type 0
  Made (ok c) =
      (made ecs ≡ ok c.ecs_client)
      × (made vpc ≡ ok c.vpc_client)
      × (made slb ≡ ok c.slb_client)
      × (made resource_manager ≡ ok c.rm_client)
  Made (err e) =
      (s : Service) × (x : Error) × (format : String) × (args : List Operand) × (made s ≡ err x)
      × (e ≡ wrapped format args x)

  -- A step that fails is the wrapped error of its service; one that does not goes on.
  step :
      (s : Service) (format : String) (args : List Operand) (r : Result C)
      (k : C → Result (AlibabaCloudClient C))
      → made s ≡ r
      → ((c : C) → made s ≡ ok c → Made (k c))
      → Made (then_do as_is (then_do (wrapped format args) r ok) k)
  step s format args (err x) k h next = (s, x, format, args, h, refl)
  step s format args (ok c) k h next = next c h

  clients_of-Made : Made (clients_of new_client region cfg cred)
  unfolding clients_of
  clients_of-Made = step ecs _ _ (made ecs) _ refl (λ e he. step vpc _ _ (made vpc) _ refl (λ v hv.
      step slb _ _ (made slb) _ refl (λ s hs.
        step resource_manager _ _ (made resource_manager) _ refl (λ r hr. (he, hv, hs, hr)))))

module _ {C : Type 0} (new_client : Service → String → Config → Credential → Result C)
    (user_agent : String) (atoi : String → Option ℤ)
    (add_endpoint_mapping : (product endpoint : String) → Result (Unit {0}))
    (getenv : String → String) (region : String) where
  abbrev pub run : Result (AlibabaCloudClient C) × Overrides
  run = new_capi_client new_client user_agent atoi add_endpoint_mapping getenv region

  pub record Built : Type 0 where
    pub applied : Applied add_endpoint_mapping getenv region (capi_config user_agent) run.1
    pub chosen : Chosen atoi getenv (resolve_credential atoi getenv)
    pub made_of : Made new_client region run.1.config (resolve_credential atoi getenv) run.0

  -- The client has its four SDK clients of one region, with the one configuration that the overrides
  -- of the environment give and the one credential that the precedence gives; where one of them
  -- cannot be made, the result is its error, wrapped.
  pub new_capi_client-Built : Built
  unfolding new_capi_client
  new_capi_client-Built = record {
    applied =
        apply_apsara_overrides-Applied add_endpoint_mapping getenv region (capi_config user_agent);
    chosen = resolve_credential_from-Chosen atoi getenv;
    made_of = clients_of-Made new_client region _ (resolve_credential atoi getenv);
  }
