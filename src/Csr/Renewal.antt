-- ===== src/Csr/Renewal.antt =====
-- The serving request of a member node, in Reconcile of internal/controller/csr_controller.go.
use Prim.Native.String.{◌++◌ as append}
use text.Mathlib.TextEquality.{eq_iff}
use openshift_capi_alicloud.Prelude.{
  ◌∷◌, str, sprintf, Message, true, false, some, [], ok, err, refl, ◌≡◌, ◌==◌, List, string_eq,
  subst, sym, Result,
}
use openshift_capi_alicloud.Api.Kube.{found}
use openshift_capi_alicloud.Api.Machine.{AlibabaCloudMachine}
use openshift_capi_alicloud.Csr.{
  node_backed_by_capa_machine, provenance, is_nil, client_signer, node_name_of, node_user_prefix,
  on_node, serving_signer, is_csr_decided, Node, CertificateRequest, SigningRequest, Api,
}
use openshift_capi_alicloud.Csr.Reconcile.{
  approved, send, decide_serving, should_approve, decide_client, is_kubelet, reconcile_csr, decide,
  parse_csr, reconcile,
}
use openshift_capi_alicloud.Csr.Sans.{AreOwn-sans_subset, AreOwn}

-- The facts about a node's own request for its own names.
pub record IsRenewal (api : Api) (csr : SigningRequest) (cr : CertificateRequest) (node : Node)
    : Type 0 where
  pub undecided : is_csr_decided csr.conditions ≡ false
  pub no_certificate : csr.certificate ≡ []
  pub parsed : parse_csr api csr.request ≡ ok cr
  pub kubelet : is_kubelet cr ≡ true
  pub serving : csr.signer_name ≡ serving_signer
  pub own_user : csr.username ≡ append node_user_prefix (node_name_of cr)
  pub member : api.get_node (node_name_of cr) ≡ found node
  pub own_names : AreOwn cr node

module _ (api : Api) (csr : SigningRequest) (cr : CertificateRequest) (node : Node)
    (machines : List AlibabaCloudMachine) where
  -- The reason that is given.
  abbrev pub renewal_reason : Message
  renewal_reason =
      sprintf "serving CSR SANs all match node %q addresses (%s)"
        (str (node_name_of cr) ∷ str (provenance (node_backed_by_capa_machine node machines)) ∷ [])

  on_node-own :
      AreOwn cr node → on_node (node_name_of cr) cr machines (found node) ≡ ok (some renewal_reason)
  on_node-own o = rw (AreOwn-sans_subset cr node o) refl

  signers :
      csr.signer_name ≡ serving_signer
      → ((csr.signer_name == client_signer) ≡ false) × ((csr.signer_name == serving_signer) ≡ true)
  signers e = (
    subst (λ t. (t == client_signer) ≡ false) (sym e) refl,
    (eq_iff csr.signer_name serving_signer).1 e,
  )

  decide-own :
      IsRenewal api csr cr node → decide api csr cr (ok machines) ≡ ok (some renewal_reason)
  unfolding decide decide_client decide_serving
  decide-own v =
      let (client, serving) = signers v.serving in
      let user : (csr.username == append node_user_prefix (node_name_of cr)) ≡ true =
        (eq_iff csr.username _).1 v.own_user in
      rw (client, serving, user, v.member) (on_node-own v.own_names)

  should_approve-own :
      IsRenewal api csr cr node
      → api.list_machines ≡ ok machines
      → should_approve api csr cr ≡ ok (some renewal_reason)
  unfolding should_approve
  should_approve-own v listed = rw (v.kubelet, listed) (decide-own v)

  sent-send : (r : SigningRequest) (u : Result (Unit {0})) → (send api r u).1 ≡ some r
  sent-send r (ok _) = refl
  sent-send r (err e) = refl

  -- A node that is a member, and whose kubelet asks under the node's own user for names and addresses
  -- that it owns, has its request for a serving certificate approved, whether or not a machine of the
  -- provider stands behind it, provided that the machines can be listed: the reconcile sends the request
  -- with its approval.
  pub reconcile-renewal :
      IsRenewal api csr cr node
      → api.list_machines ≡ ok machines
      → (reconcile api (found csr)).1 ≡ some (approved api renewal_reason csr)
  unfolding reconcile reconcile_csr
  reconcile-renewal v listed =
      let (client, serving) = signers v.serving in
      let bare : is_nil csr.certificate ≡ true =
        subst (λ b. is_nil b ≡ true) (sym v.no_certificate) refl in
      rw (v.undecided, bare, client, serving, v.parsed, should_approve-own v listed)
        (sent-send (approved api renewal_reason csr)
          (api.update_approval (approved api renewal_reason csr)))
