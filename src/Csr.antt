-- ===== src/Csr.antt =====
-- internal/controller/csr_controller.go: the approval of kubelets' certificate signing requests.
pub mod Sans
pub mod Reconcile
pub mod Grounds
pub mod Approval
pub mod Renewal
use openshift_capi_alicloud.Prelude.{
  str, Message, false, sprintf, true, ◌&&◌, ◌||◌, ℕ, String, Bool, not, Option, none, some, List,
  [], ◌∷◌, ◌++◌, Result, ok, err, contains, has_prefix, trim_prefix, ◌==◌, string_eq, if◌then◌else◌,
}
use openshift_capi_alicloud.Api.Kube.{not_found, found, failed, Fetched}
use openshift_capi_alicloud.Api.Machine.{AlibabaCloudMachine}
use openshift_capi_alicloud.ProviderId.{provider_instance_id}

pub record NodeAddress : Type 0 where
  pub type : String
  pub address : String

pub record Node : Type 0 where
  pub name : String
  pub provider_id : String
  pub addresses : List NodeAddress

-- x509.CertificateRequest; an address stands as its text, ip.String().
pub record CertificateRequest : Type 0 where
  pub common_name : String
  pub organization : List String
  pub ip_addresses : List String
  pub dns_names : List String

pub record CsrCondition : Type 0 where
  pub type : String
  pub is_true : Bool
  pub reason : String
  pub message : Message

pub record SigningRequest : Type 0 where
  pub name : String
  pub signer_name : String
  pub username : String
  pub request : List ℕ
  pub conditions : List CsrCondition
  pub certificate : List ℕ

-- What the reconciler asks the API server and Go's encoding/pem and crypto/x509.
pub record Api : Type 0 where
  pub list_machines : Result (List AlibabaCloudMachine)
  pub list_nodes : Result (List Node)
  pub get_node : String → Fetched Node
  pub update_approval : SigningRequest → Result (Unit {0})
  pub pem_decode : List ℕ → Option (String × List ℕ)
  pub parse_certificate_request : List ℕ → Result CertificateRequest

abbrev pub node_bootstrapper_user : String
node_bootstrapper_user = "system:serviceaccount:openshift-machine-config-operator:node-bootstrapper"

abbrev pub node_user_prefix : String
node_user_prefix = "system:node:"

abbrev pub nodes_group : String
nodes_group = "system:nodes"

abbrev pub client_signer : String
client_signer = "kubernetes.io/kube-apiserver-client-kubelet"

abbrev pub serving_signer : String
serving_signer = "kubernetes.io/kubelet-serving"

unfoldable pub is_csr_decided : List CsrCondition → Bool
is_csr_decided [] = false
is_csr_decided (c ∷ cs) = c.type == "Approved" || (c.type == "Denied" || is_csr_decided cs)

abbrev pub is_ip_type : String → Bool
is_ip_type t = t == "InternalIP" || t == "ExternalIP"

abbrev pub is_dns_type : String → Bool
is_dns_type t = t == "Hostname" || (t == "InternalDNS" || t == "ExternalDNS")

-- The two sets that the loop of sansSubsetOfNode fills.
unfoldable pub ips_of : List NodeAddress → List String
ips_of [] = []
ips_of (a ∷ as') = if is_ip_type a.type then a.address ∷ ips_of as' else ips_of as'

unfoldable pub dns_of : List NodeAddress → List String
dns_of [] = []
dns_of (a ∷ as') =
    if is_ip_type a.type
    then dns_of as'
    else if is_dns_type a.type
    then a.address ∷ dns_of as'
    else dns_of as'

unfoldable pub all_in : List String → List String → Bool
all_in set [] = true
all_in set (x ∷ xs) = contains set x && all_in set xs

abbrev pub is_nil : {A : Type 0} → List A → Bool
is_nil [] = true
is_nil (_ ∷ _) = false

unfoldable pub sans_subset_of_node : CertificateRequest → Node → Bool
unfolding all_in ips_of dns_of
sans_subset_of_node cr node =
    if is_nil cr.ip_addresses && is_nil cr.dns_names
    then false
    else all_in (ips_of node.addresses) cr.ip_addresses
      && all_in (node.name ∷ dns_of node.addresses) cr.dns_names

abbrev pub machine_instance : Option String → String
machine_instance none = ""
machine_instance (some pid) = provider_instance_id pid

-- nodeBackedByCAPAMachine, after the test that the node's identifier is not empty.
unfoldable pub names_instance : String → List AlibabaCloudMachine → Bool
names_instance id [] = false
names_instance id (m ∷ ms) =
    elim m.spec.provider_id [ none ↦ false | some pid ↦ provider_instance_id pid == id ]
    || names_instance id ms

unfoldable pub node_backed_by_capa_machine : Node → List AlibabaCloudMachine → Bool
unfolding names_instance
node_backed_by_capa_machine node machines =
    if provider_instance_id node.provider_id == ""
    then false
    else names_instance (provider_instance_id node.provider_id) machines

-- The instances of the nodes that have joined.
unfoldable pub joined : List Node → List String
joined [] = []
joined (n ∷ ns) =
    if not (provider_instance_id n.provider_id == "")
    then provider_instance_id n.provider_id ∷ joined ns
    else joined ns

-- A provisioned machine whose instance is not among the joined.
abbrev pub is_pending : List String → Option String → Option String → Bool
is_pending ids none status_id = false
is_pending ids (some pid) none = false
is_pending ids (some pid) (some _) = not (contains ids (provider_instance_id pid))

unfoldable pub any_pending : List String → List AlibabaCloudMachine → Bool
any_pending ids [] = false
any_pending ids (m ∷ ms) =
    is_pending ids m.spec.provider_id m.status.instance_id || any_pending ids ms

abbrev pub has_pending_machine : Result (List Node) → List AlibabaCloudMachine → Result Bool
has_pending_machine (err e) machines = err e
has_pending_machine (ok nodes) machines = ok (any_pending (joined nodes) machines)

abbrev pub provenance : Bool → String
provenance true = "CAPA-backed"
provenance false = "no AlibabaCloudMachine — e.g. an ABI-installed node"

-- The answer of shouldApprove: `none` for false, the reason for true.
abbrev pub Answer : Type 0
Answer = Result (Option Message)

abbrev pub on_pending : String → Result Bool → Answer
on_pending node_name (err e) = err e
on_pending node_name (ok false) = ok none
on_pending node_name (ok true) = ok (
    some (
      sprintf "bootstrap CSR for %q; a provisioned AlibabaCloudMachine is awaiting its node"
        (str node_name ∷ [])))

abbrev pub on_node : String → CertificateRequest → List AlibabaCloudMachine → Fetched Node → Answer
on_node node_name cr machines not_found = ok none
on_node node_name cr machines (failed e) = err e
on_node node_name cr machines (found node) =
    if not (sans_subset_of_node cr node)
    then ok none
    else ok (
        some (
          sprintf "serving CSR SANs all match node %q addresses (%s)"
            (str node_name ∷ str (provenance (node_backed_by_capa_machine node machines)) ∷ [])))

abbrev pub node_name_of : CertificateRequest → String
node_name_of cr = trim_prefix cr.common_name node_user_prefix
