-- ===== src/ClusterController/Ending.antt =====
-- How reconcileNormal of internal/controller/alibabacloudcluster_controller.go ends.
use text.Mathlib.TextEquality.{eq_iff}
use openshift_capi_alicloud.Prelude.{
  not, if-elim, Action, empty, String, Bool, true, false, Option, some, List, [], ◌∷◌, Result, ok,
  err, Error, refl, ◌≡◌, ◌≢◌, ◌⊎◌, inl, inr, Elem, subst, sym, ap, ◌∙◌, map, string_eq, arith,
  Message, ◌==◌,
}
use openshift_capi_alicloud.Api.Cluster.{
  cluster_finalizer, AlibabaCloudClusterSpec, AlibabaCloudCluster,
}
use openshift_capi_alicloud.Api.Kube.{
  ObjectMeta, KubeLaws, find_condition, ready_condition, finished, requeue_after, Outcome,
  Condition, PublishedDomain, ApiEndpoint,
}
use openshift_capi_alicloud.Api.Types.{FailureDomain}
use openshift_capi_alicloud.MachineController.Context.{requeue_delay}
use openshift_capi_alicloud.ClusterController.{
  modify_cluster, set_domains, reconcile_control_plane_endpoint, reconcile_failure_domains,
  reconcile_vpc, cluster_ready, publish, ClusterRun, WorkerNode, ClusterApi,
}
use openshift_capi_alicloud.ClusterController.Preflight.{
  check_cluster_api_core, stuck_nodes, check_cloud_controller_manager, record_event, report_core,
  report_mode, report_nodes, report_stuck,
}
use openshift_capi_alicloud.ClusterController.Reconcile.{
  guarded, with_builder, reconcile_normal, with_vpc, when_endpoint, finish,
}
use openshift_capi_alicloud.CapiCore.{
  detect_capi_core_namespaces, classify_capi_core, CapiCoreMode, bundled, reused, conflict, no_core,
}

-- What no preflight changes.
abbrev pub kept :
    AlibabaCloudCluster → ObjectMeta × AlibabaCloudClusterSpec × ApiEndpoint × List PublishedDomain
kept c = (c.metadata, c.spec, c.status.control_plane_endpoint, c.status.failure_domains)

module _ (api : ClusterApi) where
  kept-record_event :
      (reason : String) (m : Message) (s : ClusterRun) (b : Bool)
      → api.has_recorder ≡ b
      → kept (record_event api reason m s).cluster ≡ kept s.cluster
  kept-record_event reason m s true h = cc
  kept-record_event reason m s false h = cc

  kept-report_stuck :
      (stuck : List String) (s : ClusterRun)
      → kept (report_stuck api stuck s).cluster ≡ kept s.cluster
  kept-report_stuck [] s = refl
  kept-report_stuck (n ∷ ns) s = kept-record_event _ _ _ api.has_recorder refl

  kept-report_nodes :
      (r : Result (List WorkerNode)) (s : ClusterRun)
      → kept (report_nodes api r s).cluster ≡ kept s.cluster
  kept-report_nodes (err e) s = refl
  kept-report_nodes (ok nodes) s = kept-report_stuck (stuck_nodes api nodes) s

  kept-report_mode :
      (ns : List String) (mode : CapiCoreMode) (s : ClusterRun)
      → kept (report_mode api ns mode s).cluster ≡ kept s.cluster
  kept-report_mode ns conflict s = kept-record_event _ _ _ api.has_recorder refl
  kept-report_mode ns reused s = refl
  kept-report_mode ns bundled s = refl
  kept-report_mode ns no_core s = refl

  kept-report_core :
      (r : Result (List String)) (s : ClusterRun)
      → kept (report_core api r s).cluster ≡ kept s.cluster
  kept-report_core (err e) s = refl
  kept-report_core (ok ns) s = kept-report_mode ns (classify_capi_core ns) s

  pub kept-finish : (s : ClusterRun) → kept (finish api s).1.cluster ≡ kept s.cluster
  unfolding finish check_cloud_controller_manager check_cluster_api_core
  kept-finish s =
      kept-report_core (detect_capi_core_namespaces api.sort_strings api.list_core_deployments)
        (check_cloud_controller_manager api s)
      ∙ kept-report_nodes api.list_nodes s

  abbrev pub ready_of : ClusterRun → Option Condition
  ready_of t = find_condition ready_condition t.cluster.status.conditions

  abbrev pub IsNotReady : ClusterRun → Type 0
  IsNotReady t =
      (reason : String) × (m : Message) × (ready_of t ≡ some (cluster_ready false reason m))

  abbrev pub host_of : ClusterRun → String
  host_of t = t.cluster.status.control_plane_endpoint.host

  -- Ready, with an endpoint, and the Cluster API told so.
  pub record IsServing (t : ClusterRun) : Type 0 where
    pub host : host_of t ≢ ""
    pub ready : t.cluster.status.ready ≡ true
    pub provisioned : t.cluster.status.initialization ≡ some (some true)
    pub message : Message
    pub condition : ready_of t ≡ some (cluster_ready true "AlibabaCloudClusterReady" message)

  -- The three ends.
  abbrev pub Verdict : Result Outcome → ClusterRun → Type 0
  Verdict (ok finished) t = IsServing t
  Verdict (ok (requeue_after d)) t = (d ≡ requeue_delay) × (host_of t ≡ "") × IsNotReady t
  Verdict (err e) t =
      IsNotReady t × ((e' : Error) × (api.client_builder t.cluster.spec.region ≡ err e'))

  -- The failure domains of the status are those of the specification, where it has any.
  abbrev pub Published : AlibabaCloudClusterSpec → List PublishedDomain → Type 0
  Published spec domains =
      (spec.failure_domains ≡ []) ⊎ (domains ≡ map publish spec.failure_domains)

  abbrev pub ArePublished : AlibabaCloudCluster → Type 0
  ArePublished c = Published c.spec c.status.failure_domains

  pub record Concluded (s : ClusterRun) (p : Result Outcome × ClusterRun) : Type 0 where
    pub spec : p.1.cluster.spec ≡ s.cluster.spec
    pub finalizer : Elem cluster_finalizer p.1.cluster.metadata.finalizers
    pub domains : (o : Outcome) → p.0 ≡ ok o → ArePublished p.1.cluster
    pub verdict : Verdict p.0 p.1

  module _ (laws : KubeLaws api.kube) where
    finish-Serving : (s : ClusterRun) → host_of s ≢ "" → IsServing (finish api s).1
    unfolding finish
    finish-Serving s h = record {
      host = subst (λ k. k.2.host ≢ "") (sym (kept-finish s)) h;
      ready = refl;
      provisioned = refl;
      message = empty;
      condition = laws.find-set (cluster_ready true "AlibabaCloudClusterReady" empty) _;
    }

    -- A run that has what an end keeps ends.
    endpoint-Concluded :
        (s0 s : ClusterRun) (b : Bool)
        → (host_of s == "") ≡ b
        → s.cluster.spec ≡ s0.cluster.spec
        → Elem cluster_finalizer s.cluster.metadata.finalizers
        → ArePublished s.cluster
        → Concluded s0 (when_endpoint api b s)
    unfolding finish
    endpoint-Concluded s0 s true q e f d = record {
      spec = e;
      finalizer = f;
      domains = λ o _. d;
      verdict = (
        refl,
        (eq_iff (host_of s) "").0 q,
        ("ControlPlaneEndpointMissing", _, laws.find-set _ _),
      );
    }
    endpoint-Concluded s0 s false q e f d = record {
      spec = ap (λ k. k.1) (kept-finish s) ∙ e;
      finalizer = subst (λ k. Elem cluster_finalizer k.0.finalizers) (sym (kept-finish s)) f;
      domains = λ o _. subst (λ k. Published k.1 k.3) (sym (kept-finish s)) d;
      verdict = finish-Serving s (λ h. ground (arith, eq_iff (host_of s) "", h));
    }

    -- What the steps on the endpoint and on the VPC keep.
    abbrev base : AlibabaCloudCluster → ObjectMeta × AlibabaCloudClusterSpec × List PublishedDomain
    base c = (c.metadata, c.spec, c.status.failure_domains)

    abbrev Stepped : AlibabaCloudCluster → Result (Unit {0}) × AlibabaCloudCluster → Type 0
    Stepped c (ok _, d) = base d ≡ base c
    Stepped c (err e, d) = ⊥

    vpc-Stepped : (c : AlibabaCloudCluster) → Stepped c (reconcile_vpc c)
    unfolding reconcile_vpc
    vpc-Stepped c =
        if-elim (Stepped c) (not (c.status.vpc_id == "")) refl
          (if-elim (Stepped c) (not (c.spec.vpc_id == "")) refl refl)

    endpoint-Stepped : (c : AlibabaCloudCluster) → Stepped c (reconcile_control_plane_endpoint c)
    unfolding reconcile_control_plane_endpoint
    endpoint-Stepped c =
        if-elim (Stepped c) (not (c.spec.control_plane_endpoint.host == "")) refl refl

    guarded-Concluded :
        (s0 s : ClusterRun) (reason : String) (p : Result (Unit {0}) × AlibabaCloudCluster)
        (next : Action ClusterRun Outcome)
        → Stepped s.cluster p
        → ((t : ClusterRun) → base t.cluster ≡ base s.cluster → Concluded s0 (next t))
        → Concluded s0 (guarded api reason p s next)
    guarded-Concluded s0 s reason (ok _, c) next h k = k _ h
    guarded-Concluded s0 s reason (err e, c) next h k = elim h [ ]

    set_domains-base :
        (fds : List FailureDomain) (c : AlibabaCloudCluster)
        → ((set_domains fds c).metadata ≡ c.metadata) × ((set_domains fds c).spec ≡ c.spec)
    set_domains-base [] c = (refl, refl)
    set_domains-base (fd ∷ fds) c = (refl, refl)

    set_domains-Published :
        (fds : List FailureDomain) (c : AlibabaCloudCluster)
        → c.spec.failure_domains ≡ fds
        → ArePublished (set_domains fds c)
    set_domains-Published [] c h = inl h
    set_domains-Published (fd ∷ fds) c h = inr (ap (map publish) (sym h))

    -- From a run whose domains are published.
    published-Concluded :
        (s0 s : ClusterRun)
        → s.cluster.spec ≡ s0.cluster.spec
        → Elem cluster_finalizer s.cluster.metadata.finalizers
        → ArePublished s.cluster
        → Concluded s0 (with_vpc api s)
    published-Concluded s0 s e f d =
        guarded-Concluded s0 s _ (reconcile_vpc s.cluster) _ (vpc-Stepped s.cluster) (λ t b.
          guarded-Concluded s0 t _ (reconcile_control_plane_endpoint t.cluster) _
            (endpoint-Stepped t.cluster)
            (λ u b'.
              let kept_base = b' ∙ b in
              endpoint-Concluded s0 u _ refl (ap (λ k. k.1) kept_base ∙ e)
                (subst (λ k. Elem cluster_finalizer k.0.finalizers) (sym kept_base) f)
                (subst (λ k. Published k.1 k.2) (sym kept_base) d)))

    builder-Concluded :
        (s0 s : ClusterRun) (b : Result (Unit {0}))
        → api.client_builder s.cluster.spec.region ≡ b
        → s.cluster.spec ≡ s0.cluster.spec
        → Elem cluster_finalizer s.cluster.metadata.finalizers
        → Concluded s0 (with_builder api b s)
    unfolding reconcile_failure_domains
    builder-Concluded s0 s (err x) q e f = record {
      spec = e;
      finalizer = f;
      domains = λ o h. cc;
      verdict = (("AlibabaClientError", _, laws.find-set _ _), (x, q));
    }
    builder-Concluded s0 s (ok _) q e f =
        let fds = s.cluster.spec.failure_domains in
        let (m, p) = set_domains-base fds s.cluster in
        published-Concluded s0 (modify_cluster (set_domains fds) s) (p ∙ e)
          (subst (λ k. Elem cluster_finalizer k.finalizers) (sym m) f)
          (set_domains-Published fds s.cluster refl)

    -- A reconcile of a cluster keeps its specification and leaves the finalizer on it, and ends in one of
    -- three ways. It finishes only with an endpoint's host, the ready flag, the provisioned flag and
    -- a true Ready condition; it asks to come again only without a host; it fails only where no
    -- client could be made; and where it does not finish, the Ready condition is false. Where it does not
    -- fail, the failure domains of the specification are published.
    pub reconcile_normal-Concluded : (s : ClusterRun) → Concluded s (reconcile_normal api s)
    unfolding reconcile_normal
    reconcile_normal-Concluded s =
        builder-Concluded s _ (api.client_builder s.cluster.spec.region) refl refl
          (laws.added cluster_finalizer _)
