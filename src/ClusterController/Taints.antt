-- ===== src/ClusterController/Taints.antt =====
-- What checkCloudControllerManager of internal/controller/alibabacloudcluster_controller.go reports.
use openshift_capi_alicloud.Prelude.{
  ◌⊎◌, Message, if-cases, ◌+◌, ◌≤◌, String, Bool, true, false, some, List, [], ◌∷◌, refl, ◌≡◌, inl,
  inr, Elem, All, subst, sym, ◌∙◌, string_eq, arith, ok, ◌↔◌, contains_of_Elem, Elem-of_contains,
  Option,
}
use openshift_capi_alicloud.Api.Kube.{KubeLaws, find_condition, Condition}
use openshift_capi_alicloud.Api.Types.{
  nodes_awaiting_cloud_provider_reason, cloud_controller_manager_healthy_reason,
  cloud_controller_manager_ready_condition,
}
use openshift_capi_alicloud.ClusterController.{WorkerNode, ClusterApi, ClusterRun}
use openshift_capi_alicloud.ClusterController.Preflight.{
  report_nodes, check_cloud_controller_manager, record_event, report_stuck, is_stuck,
  uninitialized_taint_key, stuck_nodes,
}

-- The node carries the taint, and was created at least the grace period ago.
pub record IsStuck (api : ClusterApi) (n : WorkerNode) : Type 0 where
  pub old : n.created + api.ccm_grace_period ≤ api.now
  pub tainted : Elem uninitialized_taint_key n.taints

is_stuck_iff : (api : ClusterApi) (n : WorkerNode) → (is_stuck api n ≡ true) ↔ IsStuck api n
is_stuck_iff api n = (
  λ h. record {
    old = ground arith;
    tainted = Elem-of_contains n.taints uninitialized_taint_key (ground arith);
  },
  λ s. ground (arith, contains_of_Elem n.taints uninitialized_taint_key s.tainted, s.old),
)

nobody-IsStuck :
    (api : ClusterApi) (ns : List WorkerNode)
    → stuck_nodes api ns ≡ []
    → All (λ n. ¬ IsStuck api n) ns
unfolding stuck_nodes
nobody-IsStuck api [] h = tt
nobody-IsStuck api (n ∷ ns) h = elim (if-cases (is_stuck api n) _ _ h) [
  | inl (_, h) ↦ cc
  | inr (f, h) ↦ (λ s. ground (arith, (is_stuck_iff api n).1 s), nobody-IsStuck api ns h)
]

somebody-IsStuck :
    (api : ClusterApi) (ns : List WorkerNode) {x : String} {xs : List String}
    → stuck_nodes api ns ≡ (x ∷ xs)
    → (n : WorkerNode) × Elem n ns × (n.name ≡ x) × IsStuck api n
unfolding stuck_nodes
somebody-IsStuck api [] h = cc
somebody-IsStuck api (n ∷ ns) h = elim (if-cases (is_stuck api n) _ _ h) [
  | inl (t, h) ↦ (n, inl refl, ground arith, (is_stuck_iff api n).0 t)
  | inr (_, h) ↦ let (m, i, e, w) = somebody-IsStuck api ns h in (m, inr i, e, w)
]

-- The condition that a preflight leaves.
abbrev pub healthy : ClusterRun → Option Condition
healthy t = find_condition cloud_controller_manager_ready_condition t.cluster.status.conditions

-- Healthy with nobody stuck, or not healthy with somebody stuck.
abbrev pub Reported : ClusterApi → List WorkerNode → ClusterRun → Type 0
Reported api nodes t =
    ((m : Message) × (healthy t
        ≡ some (record {
          type = cloud_controller_manager_ready_condition;
          is_true = true;
          reason = cloud_controller_manager_healthy_reason;
          message = m;
        }))
      × All (λ n. ¬ IsStuck api n) nodes)
    ⊎ ((m : Message) × (healthy t
          ≡ some (record {
            type = cloud_controller_manager_ready_condition;
            is_true = false;
            reason = nodes_awaiting_cloud_provider_reason;
            message = m;
          }))
        × ((n : WorkerNode) × Elem n nodes × IsStuck api n))

module _ (api : ClusterApi) (laws : KubeLaws api.kube) where
  healthy-record_event :
      (reason : String) (m : Message) (s : ClusterRun) (b : Bool)
      → api.has_recorder ≡ b
      → healthy (record_event api reason m s) ≡ healthy s
  healthy-record_event reason m s true h = cc
  healthy-record_event reason m s false h = cc

  report_stuck-Reported :
      (nodes : List WorkerNode) (stuck : List String) (s : ClusterRun)
      → stuck_nodes api nodes ≡ stuck
      → Reported api nodes (report_stuck api stuck s)
  report_stuck-Reported nodes [] s h = inl (_, laws.find-set _ _, nobody-IsStuck api nodes h)
  report_stuck-Reported nodes (x ∷ xs) s h =
      let (n, i, _, w) = somebody-IsStuck api nodes h in
      inr (_, healthy-record_event _ _ _ api.has_recorder refl ∙ laws.find-set _ _, (n, i, w))

  -- Where the nodes can be listed, the preflight on the cloud controller manager leaves its condition
  -- true when no node older than the grace period has the taint, and false when one has it.
  pub check_cloud_controller_manager-Reported :
      (nodes : List WorkerNode) (s : ClusterRun)
      → api.list_nodes ≡ ok nodes
      → Reported api nodes (check_cloud_controller_manager api s)
  unfolding check_cloud_controller_manager
  check_cloud_controller_manager-Reported nodes s h =
      subst (λ r. Reported api nodes (report_nodes api r s)) (sym h)
        (report_stuck-Reported nodes _ s refl)
