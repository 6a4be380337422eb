-- ===== src/Scenarios/Requests.antt =====
-- Runs of the signing requests' controller and of the webhook on machines.
use openshift_capi_alicloud.Prelude.{
  ok, some, none, [], ◌∷◌, refl, ◌≡◌, ◌↔◌, List, sprintf, str, has_prefix, trim_prefix, contains,
}
use openshift_capi_alicloud.Api.Kube.{found}
use openshift_capi_alicloud.Api.Types.{Tag}
use openshift_capi_alicloud.ProviderId.{provider_instance_id}
use openshift_capi_alicloud.Csr.{
  is_csr_decided, sans_subset_of_node, node_backed_by_capa_machine, Api, SigningRequest,
  CertificateRequest, Node,
}
use openshift_capi_alicloud.Csr.Approval.{Approves, reconcile-Approves, reconcile-reconcile}
use openshift_capi_alicloud.Csr.Reconcile.{parse_csr, should_approve, reconcile, approved}
use openshift_capi_alicloud.Csr.Renewal.{IsRenewal, renewal_reason, reconcile-renewal}
use openshift_capi_alicloud.Csr.Sans.{AreOwn, sans_subset-AreOwn}
use openshift_capi_alicloud.Webhook.Fields.{validate_tags, spec_path}
use openshift_capi_alicloud.Webhook.Fields.Laws.{AreFresh, validate_tags_iff}
use openshift_capi_alicloud.Webhook.Machine.{
  default, validate_machine_spec, validate_machine_immutable,
}
use openshift_capi_alicloud.Webhook.Machine.Defaults.{IsDefaulted, default-IsDefaulted}
use openshift_capi_alicloud.Webhook.Machine.Immutable.{Unchanged, validate_machine_immutable_iff}
use openshift_capi_alicloud.Webhook.Machine.Validity.{IsValid, validate_machine_spec_iff}
use openshift_capi_alicloud.Scenarios.World.{worker, worker_spec}

abbrev node : Node
node = record {
  name = "worker-1";
  provider_id = "alicloud://cn-hangzhou.i-1";
  addresses = record { type = "InternalIP"; address = "10.0.0.1" } ∷ [];
}

-- The request of the node's kubelet for its address.
abbrev own_request : CertificateRequest
own_request = record {
  common_name = "system:node:worker-1";
  organization = "system:nodes" ∷ [];
  ip_addresses = "10.0.0.1" ∷ [];
  dns_names = "worker-1" ∷ [];
}

abbrev api : Api
api = record {
  list_machines = ok (worker ∷ []);
  list_nodes = ok (node ∷ []);
  get_node = λ name. found node;
  update_approval = λ csr. ok tt;
  pem_decode = λ bytes. some ("CERTIFICATE REQUEST", bytes);
  parse_certificate_request = λ bytes. ok own_request;
}

abbrev csr : SigningRequest
csr = record {
  name = "csr-1";
  signer_name = "kubernetes.io/kubelet-serving";
  username = "system:node:worker-1";
  request = 1 ∷ [];
  conditions = [];
  certificate = [];
}

abbrev sent : SigningRequest
sent =
    approved api
      (sprintf "serving CSR SANs all match node %q addresses (%s)"
        (str "worker-1" ∷ str "CAPA-backed" ∷ []))
      csr

sends_it : reconcile api (found csr) ≡ (ok tt, some sent)
unfolding reconcile is_csr_decided parse_csr should_approve has_prefix contains trim_prefix
    sans_subset_of_node node_backed_by_capa_machine provider_instance_id
sends_it = refl

reconcile-Approves_example : Approves api (found csr) sent
reconcile-Approves_example = reconcile-Approves api (found csr) sends_it

reconcile-reconcile_example : reconcile api (found sent) ≡ (ok tt, none)
reconcile-reconcile_example = reconcile-reconcile api (found csr) sends_it

abbrev tags : List Tag
tags = record { key = "team"; value = "a" } ∷ record { key = "env"; value = "b" } ∷ []

validate_tags_iff_example : (validate_tags tags spec_path ≡ []) ↔ AreFresh [] tags
validate_tags_iff_example = validate_tags_iff tags spec_path

validate_machine_immutable_iff_example :
    (validate_machine_immutable worker_spec (record worker_spec { zone_id = "cn-hangzhou-a" }) ≡ [])
    ↔ Unchanged worker_spec (record worker_spec { zone_id = "cn-hangzhou-a" })
validate_machine_immutable_iff_example =
    validate_machine_immutable_iff worker_spec (record worker_spec { zone_id = "cn-hangzhou-a" })

own_names : AreOwn own_request node
unfolding sans_subset_of_node contains
own_names = sans_subset-AreOwn own_request node refl

is_renewal : IsRenewal api csr own_request node
unfolding is_csr_decided parse_csr has_prefix contains trim_prefix
is_renewal = record {
  undecided = refl;
  no_certificate = refl;
  parsed = refl;
  kubelet = refl;
  serving = refl;
  own_user = refl;
  member = refl;
  own_names = own_names;
}

reconcile-renewal_example :
    (reconcile api (found csr)).1
    ≡ some (approved api (renewal_reason api csr own_request node (worker ∷ [])) csr)
reconcile-renewal_example = reconcile-renewal api csr own_request node (worker ∷ []) is_renewal refl

validate_machine_spec_iff_example : (validate_machine_spec worker ≡ []) ↔ IsValid worker.spec
validate_machine_spec_iff_example = validate_machine_spec_iff worker

default-IsDefaulted_example : IsDefaulted worker (default worker)
default-IsDefaulted_example = default-IsDefaulted worker
