-- ===== src/Startup.antt =====
-- cmd/main.go: the order in which the provider is put together, its preflights and its exits.
pub mod Launch
use openshift_capi_alicloud.Prelude.{
  ℕ, String, Bool, List, [], ◌∷◌, ◌++◌, Result, ok, err, if◌then◌else◌,
}
use openshift_capi_alicloud.CapiCore.{
  CapiCoreMode, bundled, reused, conflict, no_core, detect_capi_core_namespaces, classify_capi_core,
}

-- What main asks of the manager, each of which may fail.
pub data Part : Type 0 where
  new_manager machine_mapping health_check ready_check start : Part
  controller : (name : String) → Part
  webhook : (kind : String) → Part

-- The answers, and the list of deployments that carry the label of the Cluster API core.
pub record Cluster : Type 0 where
  pub attempt : Part → Result (Unit {0})
  pub list_core_deployments : Result (List String)
  pub sort_strings : List String → List String

-- The exit code of the process, 0 where main returns, and the parts that were attempted, in order.
pub record Exit : Type 0 where
  pub code : ℕ
  pub attempted : List Part

abbrev pub controllers : List Part
controllers =
    controller "AlibabaCloudCluster"
    ∷ controller "AlibabaCloudMachine"
    ∷ controller "CSR"
    ∷ controller "AlibabaCloudControlPlane"
    ∷ controller "AlibabaCloudMachineTemplate"
    ∷ []

abbrev pub webhooks : Bool → List Part
webhooks enable_webhooks =
    if enable_webhooks
    then webhook "AlibabaCloudMachine" ∷ webhook "AlibabaCloudCluster" ∷ []
    else []

abbrev pub before_preflight : List Part
before_preflight = new_manager ∷ machine_mapping ∷ []

abbrev pub after_preflight : Bool → List Part
after_preflight enable_webhooks =
    controllers ++ (webhooks enable_webhooks ++ (health_check ∷ ready_check ∷ []))

abbrev pub returned : Exit
returned = record { code = 0; attempted = [] }

abbrev pub exited : Exit
exited = record { code = 1; attempted = [] }

module _ (c : Cluster) where
  abbrev pub attempted : Part → Result (Unit {0}) → Exit → Exit
  attempted p (ok _) rest = record rest { attempted = p ∷ rest.attempted }
  attempted p (err e) rest = record exited { attempted = p ∷ [] }

  -- One part after the other; the first that fails ends the process.
  unfoldable pub launch : List Part → Exit → Exit
  launch [] rest = rest
  launch (p ∷ ps) rest = attempted p (c.attempt p) (launch ps rest)

  abbrev pub unless_conflict : CapiCoreMode → Exit → Exit
  unless_conflict conflict rest = exited
  unless_conflict bundled rest = rest
  unless_conflict reused rest = rest
  unless_conflict no_core rest = rest

  -- Where the deployments cannot be listed, the preflight is skipped.
  abbrev pub preflight : Result (List String) → Exit → Exit
  preflight (err e) rest = rest
  preflight (ok namespaces) rest = unless_conflict (classify_capi_core namespaces) rest

  unfoldable pub main : (enable_webhooks : Bool) → Exit
  unfolding launch
  main enable_webhooks = launch before_preflight (
      preflight (detect_capi_core_namespaces c.sort_strings c.list_core_deployments)
        (launch (after_preflight enable_webhooks) (launch (start ∷ []) returned)))
