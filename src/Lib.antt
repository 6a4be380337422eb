-- ===== src/Lib.antt =====
-- A model of the Cluster API infrastructure provider for Alibaba Cloud: its controllers of
-- machines, clusters, control planes and machine templates, its signing request approver, its
-- webhooks, the client of the cloud that the controllers share, and the start of the provider.
--
-- How the parts interact. The cluster controller publishes the failure domains and the readiness of
-- an AlibabaCloudCluster. The machine controller waits for that readiness, resolves a machine's
-- failure domain against what was published, creates or follows one ECS instance through the
-- client, and records it in the status and in a provider identifier. The client calls the SDK, with
-- throttled calls made again, and is made from credentials and overrides of the environment. The
-- template controller publishes the capacity of an instance type, which it asks of the client once.
-- The control plane controller reports a control plane that is managed outside. The approver reads
-- the provider identifiers of nodes and machines. The webhooks admit or refuse the objects that
-- users and controllers write.
--
-- The files:
--   Prelude, with its children: lists, texts, results, tests and equality that all parts share.
--   Api: the types of api/v1beta1, and (Api/Kube) what is read of Kubernetes and the Cluster API.
--     The utilities conditions.Set, AddFinalizer and RemoveFinalizer are a parameter, the record
--     Kube, with their documented behaviour in KubeLaws.
--   ProviderId: providerIDFor and regionFromMachine of
--     internal/controller/alibabacloudmachine_controller.go, and providerInstanceID of
--     internal/controller/csr_controller.go.
--   Client: pkg/client/retry.go (Client/Retry: isThrottlingError, retryThrottled) and
--     pkg/client/capi.go (Client/Instances: DescribeInstanceByID, FindInstanceByTag,
--     DeleteECSInstance, ModifyInstanceMetadata, InstanceTypeCapacity; Client/Create: hostNameOK,
--     CreateECSInstance and the tagging after it; Client/Credentials: resolveCredentialFrom and
--     what it calls; Client/Builder: NewCAPIClient). Client/Sdk holds the SDK's calls as a
--     parameter over an unknown cloud; Client/Interface is the interface that the controllers take.
--     Client/Oss is pkg/client/oss.go over the store's SDK, and Client/Apsara is
--     pkg/client/apsara.go. Client/Builder has also NewClient, getCredentialFromSecret and
--     fetchCredentialsIniFromSecret of pkg/client/client.go. Client/Real puts the operations
--     together as the interface's implementation, alibabacloudClient; Client/Cloud says in terms of
--     an abstract cloud what a client, which is made for one region, promises of its searches.
--     DescribeInstances answers with one page, ten instances, and the code reads no other.
--   Base64: encoding/base64 of Go's library, which getUserData and maybeOffloadUserData use.
--   MachineController: internal/controller/alibabacloudmachine_controller.go. Context holds the
--     state, a machine mutated in place and the world that calls act on; Ignition is getUserData
--     and the offload; Create is createInstance, resolveFailureDomain and toSDKTags; Normal is
--     reconcileNormal, findOrCreateInstance, syncInstanceStatus and maybeHardenMetadata; Delete is
--     reconcileDelete and deleteInstance; Reconcile is the whole Reconcile around them. Normal/Once
--     puts reconciles and the writes of others between them in sequence.
--   ClusterController: internal/controller/alibabacloudcluster_controller.go; CapiCore:
--     internal/controller/capi_core.go; Csr: internal/controller/csr_controller.go. Api/Reconciling
--     is what the Reconcile of a cluster and that of a control plane share.
--   ControlPlane: internal/controller/alibabacloudcontrolplane_controller.go, with the types of
--     api/controlplane/v1beta1 in Api/ControlPlane.
--   Template: internal/controller/alibabacloudmachinetemplate_controller.go, with the types of
--     api/v1beta1/alibabacloudmachinetemplate_types.go in Api/Template.
--   Watch: internal/controller/util.go.
--   Startup: cmd/main.go, from the making of the manager to its start.
--   Webhook: internal/webhook/v1beta1/webhook.go (Fields), alibabacloudmachine_webhook.go (Machine)
--     and alibabacloudcluster_webhook.go (Cluster).
--   Scenarios: concrete runs, in which the theorems are applied.
--
-- How the code is rendered. A method that mutates an object becomes a function from the state to a
-- result and the next state, kept also when the result is an error. A part of a long method that
-- follows a call is a function of its own that takes the call's result as an argument: with_client
-- is what reconcileNormal does with the result of the client builder. Go's int is an integer
-- without a bound where nothing is computed with it; the products of the template controller and
-- the expiry of an upload, a time.Duration, are int64s that wrap (Prelude/Words). A Go map is an
-- association list (Prelude/Maps). A slice is a list; where the code tells nil from empty (data
-- disks), nil is `none`. Times and pauses are natural numbers of nanoseconds or of one unit. Texts
-- are native strings walked by code point; every separator is ASCII. A message keeps its format and
-- operands, unrendered, and an error keeps its chain of wrapped errors. Logs and latencies are left
-- out; metrics and pauses are a trace, newest first. The price limit of spot instances, a float64,
-- counts units of a fixed small fraction.
--
-- Fuel. The retry loop, `for attempt := 0; ; attempt++`, recurses on the rounds that are left,
-- throttleMaxRetries less the attempt: the source returns when none is left, so five rounds are
-- enough for every call. All other loops recurse on a list or a text.
--
-- Two reconciles of templates share a cache under a mutex: the stores of Template/Capacity come in
-- any order and at any time after an answer, which is what the critical sections allow.
--
-- Not modelled: the one-line SDK calls of pkg/client/client.go, metrics beyond the trace, version,
-- flags and logs, deep copies, mocks and fakes. The SDKs, SHA-512, JSON, PEM, X.509, strconv.Atoi,
-- the arithmetic of float64 and the canonical form of header names are parameters.
pub mod Prelude
pub mod Api
pub mod ProviderId
pub mod Client
pub mod Base64
pub mod MachineController
pub mod Webhook
pub mod Csr
pub mod CapiCore
pub mod ClusterController
pub mod ControlPlane
pub mod Watch
pub mod Template
pub mod Startup
pub mod Scenarios
