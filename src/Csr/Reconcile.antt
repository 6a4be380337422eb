-- ===== src/Csr/Reconcile.antt =====
-- shouldApprove, parseCSR and Reconcile of internal/controller/csr_controller.go.
use Prim.Native.String.{◌++◌ as append}
use openshift_capi_alicloud.Prelude.{
  str, ◌||◌, true, wrapped, ◌&&◌, Message, errorf, ℕ, String, Bool, not, Option, none, some, List,
  [], ◌∷◌, ◌++◌, Result, ok, err, contains, has_prefix, ◌==◌, string_eq, if◌then◌else◌,
}
use openshift_capi_alicloud.Api.Kube.{not_found, found, failed, Fetched}
use openshift_capi_alicloud.Api.Machine.{AlibabaCloudMachine}
use openshift_capi_alicloud.Csr.{
  has_pending_machine, is_nil, on_node, on_pending, serving_signer, client_signer,
  node_bootstrapper_user, node_name_of, nodes_group, Answer, is_csr_decided, SigningRequest,
  node_user_prefix, Api, CertificateRequest,
}

-- The identity of a kubelet: CN=system:node:<name>, O=system:nodes.
abbrev pub is_kubelet : CertificateRequest → Bool
is_kubelet cr = has_prefix cr.common_name node_user_prefix && contains cr.organization nodes_group

module _ (api : Api) where
  unfoldable pub decide_client :
      SigningRequest → CertificateRequest → List AlibabaCloudMachine → Answer
  decide_client csr cr machines =
      if not (csr.username == node_bootstrapper_user)
      then ok none
      else on_pending (node_name_of cr) (has_pending_machine api.list_nodes machines)

  unfoldable pub decide_serving :
      SigningRequest → CertificateRequest → List AlibabaCloudMachine → Answer
  decide_serving csr cr machines =
      if not (csr.username == append node_user_prefix (node_name_of cr))
      then ok none
      else on_node (node_name_of cr) cr machines (api.get_node (node_name_of cr))

  -- With the machines listed: the switch on the signer.
  unfoldable pub decide :
      SigningRequest → CertificateRequest → Result (List AlibabaCloudMachine) → Answer
  unfolding decide_client decide_serving
  decide csr cr (err e) = err e
  decide csr cr (ok machines) =
      if csr.signer_name == client_signer
      then decide_client csr cr machines
      else if csr.signer_name == serving_signer
      then decide_serving csr cr machines
      else ok none

  unfoldable pub should_approve : SigningRequest → CertificateRequest → Answer
  unfolding decide
  should_approve csr cr = if not (is_kubelet cr) then ok none else decide csr cr api.list_machines

  abbrev pub parse_block : Option (String × List ℕ) → Result CertificateRequest
  parse_block none = err (errorf "PEM block is not a CERTIFICATE REQUEST" [])
  parse_block (some (type, bytes)) =
      if not (type == "CERTIFICATE REQUEST")
      then err (errorf "PEM block is not a CERTIFICATE REQUEST" [])
      else api.parse_certificate_request bytes

  unfoldable pub parse_csr : List ℕ → Result CertificateRequest
  parse_csr pem_bytes = parse_block (api.pem_decode pem_bytes)

  abbrev pub approved : Message → SigningRequest → SigningRequest
  approved reason csr = record csr {
    conditions =
        csr.conditions
        ++ (record { type = "Approved"; is_true = true; reason = "CAPAApprove"; message = reason }
            ∷ []);
  }

  -- What a reconcile returns, and the request that it sends to the approval subresource, if it
  -- sends one.
  abbrev pub Sent : Type 0
  Sent = Result (Unit {0}) × Option SigningRequest

  abbrev pub send : SigningRequest → Result (Unit {0}) → Sent
  send csr (ok _) = (ok tt, some csr)
  send csr (err e) = (err (wrapped "approve CSR %s: %w" (str csr.name ∷ []) e), some csr)

  abbrev pub on_answer : SigningRequest → Answer → Sent
  on_answer csr (err e) = (err e, none)
  on_answer csr (ok none) = (ok tt, none)
  on_answer csr (ok (some reason)) =
      send (approved reason csr) (api.update_approval (approved reason csr))

  abbrev pub on_parsed : SigningRequest → Result CertificateRequest → Sent
  on_parsed csr (err e) = (ok tt, none)
  on_parsed csr (ok cr) = on_answer csr (should_approve csr cr)

  unfoldable pub reconcile_csr : SigningRequest → Sent
  reconcile_csr csr =
      if is_csr_decided csr.conditions || not (is_nil csr.certificate)
      then (ok tt, none)
      else if not (csr.signer_name == client_signer) && not (csr.signer_name == serving_signer)
      then (ok tt, none)
      else on_parsed csr (parse_csr csr.request)

  -- The whole Reconcile, from the Get.
  unfoldable pub reconcile : Fetched SigningRequest → Sent
  unfolding reconcile_csr
  reconcile not_found = (ok tt, none)
  reconcile (failed e) = (err e, none)
  reconcile (found csr) = reconcile_csr csr
