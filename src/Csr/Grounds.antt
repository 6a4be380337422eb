-- ===== src/Csr/Grounds.antt =====
-- What stands behind an answer of shouldApprove of internal/controller/csr_controller.go.
use Prim.Native.String.{◌++◌ as append}
use text.Mathlib.TextEquality.{eq_iff}
use openshift_capi_alicloud.Prelude.{
  Elem-of_contains, has_prefix, if-cases, ap, contains_of_Elem, true, false, none, some, [], ◌∷◌,
  ok, err, refl, inl, inr, ◌≡◌, ◌≢◌, ◌⊎◌, String, Bool, Option, List, Result, Elem, arith,
  string_eq, Message, ◌==◌, Bool-cases, not,
}
use openshift_capi_alicloud.Api.Kube.{not_found, found, failed, Fetched}
use openshift_capi_alicloud.Api.Machine.{AlibabaCloudMachine}
use openshift_capi_alicloud.ProviderId.{provider_instance_id}
use openshift_capi_alicloud.Csr.{
  nodes_group, on_node, node_user_prefix, has_pending_machine, on_pending, node_bootstrapper_user,
  node_name_of, serving_signer, CertificateRequest, client_signer, SigningRequest, Api, is_pending,
  Node, any_pending, joined,
}
use openshift_capi_alicloud.Csr.Reconcile.{
  is_kubelet, should_approve, decide_serving, decide_client, decide,
}
use openshift_capi_alicloud.Csr.Sans.{sans_subset-AreOwn, AreOwn}

-- The machine has an instance, and no node that has joined names that instance.
pub record IsAwaited (nodes : List Node) (m : AlibabaCloudMachine) : Type 0 where
  pub pid : String
  pub provisioned : m.spec.provider_id ≡ some pid
  pub id : String
  pub observed : m.status.instance_id ≡ some id
  pub not_joined :
      (n : Node)
      → Elem n nodes
      → provider_instance_id n.provider_id ≢ ""
      → provider_instance_id n.provider_id ≢ provider_instance_id pid

Elem-joined :
    (ns : List Node) (n : Node)
    → Elem n ns
    → provider_instance_id n.provider_id ≢ ""
    → Elem (provider_instance_id n.provider_id) (joined ns)
unfolding joined
Elem-joined [] n h ne = elim h [ ]
Elem-joined (x ∷ ns) n (inl e) ne =
    let same = ap (λ y. provider_instance_id y.provider_id) e in
    ground (arith, eq_iff (provider_instance_id x.provider_id) "")
Elem-joined (x ∷ ns) n (inr h) ne =
    ground (arith, Elem-joined ns n h ne, eq_iff (provider_instance_id x.provider_id) "")

pending-IsAwaited :
    (nodes : List Node) (m : AlibabaCloudMachine) (p s : Option String)
    → m.spec.provider_id ≡ p
    → m.status.instance_id ≡ s
    → is_pending (joined nodes) p s ≡ true
    → IsAwaited nodes m
pending-IsAwaited nodes m none s hp hs h = cc
pending-IsAwaited nodes m (some pid) none hp hs h = cc
pending-IsAwaited nodes m (some pid) (some id) hp hs h = record {
  pid = pid;
  provisioned = hp;
  id = id;
  observed = hs;
  not_joined = λ n e ne same. ground (
    arith,
    contains_of_Elem (joined nodes) (provider_instance_id n.provider_id) (Elem-joined nodes n e ne),
  );
}

any_pending-IsAwaited :
    (nodes : List Node) (ms : List AlibabaCloudMachine)
    → any_pending (joined nodes) ms ≡ true
    → (m : AlibabaCloudMachine) × Elem m ms × IsAwaited nodes m
unfolding any_pending
any_pending-IsAwaited nodes [] h = cc
any_pending-IsAwaited nodes (m ∷ ms) h =
    elim (Bool-cases (is_pending (joined nodes) m.spec.provider_id m.status.instance_id)) [
      | inl e ↦ (m, inl refl, pending-IsAwaited nodes m _ _ refl refl e)
      | inr e ↦ let (a, i, w) = any_pending-IsAwaited nodes ms (ground arith) in (a, inr i, w)
    ]

-- What makes a request of the client signer acceptable.
pub record ClientGrounds (api : Api) (csr : SigningRequest) (machines : List AlibabaCloudMachine)
    : Type 0 where
  pub signer : csr.signer_name ≡ client_signer
  pub bootstrapper : csr.username ≡ node_bootstrapper_user
  pub nodes : List Node
  pub nodes_listed : api.list_nodes ≡ ok nodes
  pub awaited : (m : AlibabaCloudMachine) × Elem m machines × IsAwaited nodes m

-- And one of the serving signer: the node asks for itself.
pub record ServingGrounds (api : Api) (csr : SigningRequest) (cr : CertificateRequest)
    : Type 0 where
  pub signer : csr.signer_name ≡ serving_signer
  pub own_user : csr.username ≡ append node_user_prefix (node_name_of cr)
  pub node : Node
  pub member : api.get_node (node_name_of cr) ≡ found node
  pub own_names : AreOwn cr node

-- The grounds of either signer.
abbrev pub Grounds : Api → SigningRequest → CertificateRequest → List AlibabaCloudMachine → Type 0
Grounds api csr cr machines = ClientGrounds api csr machines ⊎ ServingGrounds api csr cr

-- A request that should be approved is a kubelet's, and has grounds.
pub record Justified (api : Api) (csr : SigningRequest) (cr : CertificateRequest) : Type 0 where
  pub kubelet : has_prefix cr.common_name node_user_prefix ≡ true
  pub member : Elem nodes_group cr.organization
  pub machines : List AlibabaCloudMachine
  pub listed : api.list_machines ≡ ok machines
  pub grounds : Grounds api csr cr machines

module _ (api : Api) (csr : SigningRequest) (cr : CertificateRequest) {reason : Message} where
  pending-Grounds :
      (machines : List AlibabaCloudMachine) (r : Result (List Node))
      → api.list_nodes ≡ r
      → csr.signer_name ≡ client_signer
      → csr.username ≡ node_bootstrapper_user
      → on_pending (node_name_of cr) (has_pending_machine r machines) ≡ ok (some reason)
      → ClientGrounds api csr machines
  pending-Grounds machines (err e) q s u h = cc
  pending-Grounds machines (ok nodes) q s u h = record {
    signer = s;
    bootstrapper = u;
    nodes = nodes;
    nodes_listed = q;
    awaited =
        any_pending-IsAwaited nodes machines (pending_true (any_pending (joined nodes) machines) h);
  }
    where
      pending_true : (b : Bool) → on_pending (node_name_of cr) (ok b) ≡ ok (some reason) → b ≡ true
      pending_true true h = refl
      pending_true false h = cc

  node-Grounds :
      (machines : List AlibabaCloudMachine) (r : Fetched Node)
      → api.get_node (node_name_of cr) ≡ r
      → csr.signer_name ≡ serving_signer
      → csr.username ≡ append node_user_prefix (node_name_of cr)
      → on_node (node_name_of cr) cr machines r ≡ ok (some reason)
      → ServingGrounds api csr cr
  node-Grounds machines not_found q s u h = cc
  node-Grounds machines (failed e) q s u h = cc
  node-Grounds machines (found node) q s u h = record {
    signer = s;
    own_user = u;
    node = node;
    member = q;
    own_names = sans_subset-AreOwn cr node (ground arith);
  }

  decide-Grounds :
      (machines : List AlibabaCloudMachine)
      → decide api csr cr (ok machines) ≡ ok (some reason)
      → Grounds api csr cr machines
  unfolding decide decide_client decide_serving
  decide-Grounds machines h = elim (if-cases (csr.signer_name == client_signer) _ _ h) [
    | inl (s, h) ↦ elim (if-cases (not (csr.username == node_bootstrapper_user)) _ _ h) [
      | inl (_, h) ↦ cc
      | inr (u, h) ↦ inl (pending-Grounds machines api.list_nodes refl (is s) (is_not u) h)
    ]
    | inr (_, h) ↦ elim (if-cases (csr.signer_name == serving_signer) _ _ h) [
      | inl (s, h) ↦
          elim (if-cases (not (csr.username == append node_user_prefix (node_name_of cr))) _ _ h) [
            | inl (_, h) ↦ cc
            | inr (u, h) ↦
                inr
                  (node-Grounds machines (api.get_node (node_name_of cr)) refl (is s) (is_not u) h)
          ]
      | inr (_, h) ↦ cc
    ]
  ]
    where
      is : {a b : String} → (a == b) ≡ true → a ≡ b
      is {a} {b} h = (eq_iff a b).0 h

      is_not : {a b : String} → not (a == b) ≡ false → a ≡ b
      is_not {a} {b} h = ground (arith, eq_iff a b)

  decided-Justified :
      (r : Result (List AlibabaCloudMachine))
      → api.list_machines ≡ r
      → is_kubelet cr ≡ true
      → decide api csr cr r ≡ ok (some reason)
      → Justified api csr cr
  unfolding decide
  decided-Justified (err e) q k h = cc
  decided-Justified (ok machines) q k h = record {
    kubelet = ground arith;
    member = Elem-of_contains cr.organization nodes_group (ground arith);
    machines = machines;
    listed = q;
    grounds = decide-Grounds machines h;
  }

  pub should_approve-Justified : should_approve api csr cr ≡ ok (some reason) → Justified api csr cr
  unfolding should_approve
  should_approve-Justified h = elim (if-cases (not (is_kubelet cr)) _ _ h) [
    | inl (_, h) ↦ cc
    | inr (k, h) ↦ decided-Justified api.list_machines refl (ground arith) h
  ]
