-- ===== src/Api/Kube.antt =====
-- Resources and utilities of Kubernetes, controller-runtime and the Cluster API core, which the
-- provider uses and does not implement: the fields that it reads, and the operations as a
-- parameter with their documented behaviour.
use openshift_capi_alicloud.Prelude.{
  ℕ, ℤ, String, Bool, Option, none, some, List, [], ◌∷◌, ◌≡◌, ◌≢◌, Elem, Error, Message, ◌==◌,
  string_eq, if◌then◌else◌,
}

-- metav1.ObjectMeta
pub record ObjectMeta : Type 0 where
  pub name : String
  pub namespace : String
  pub uid : String
  pub finalizers : List String
  pub is_deleted : Bool  -- a DeletionTimestamp that is not zero

-- metav1.Condition; `is_true` is Status, which the provider sets to True or False only.
pub record Condition : Type 0 where
  pub type : String
  pub is_true : Bool
  pub reason : String
  pub message : Message

-- clusterv1.ReadyCondition
abbrev pub ready_condition : String
ready_condition = "Ready"

-- The utilities `conditions.Set` and `controllerutil.{AddFinalizer,RemoveFinalizer}`.
pub record Kube : Type 0 where
  pub set_condition : Condition → List Condition → List Condition
  pub add_finalizer : String → List String → List String
  pub remove_finalizer : String → List String → List String

unfoldable pub find_condition : String → List Condition → Option Condition
find_condition t [] = none
find_condition t (c ∷ cs) = if c.type == t then some c else find_condition t cs

-- Their documented behaviour.
pub record KubeLaws (k : Kube) : Type 0 where
  pub find-set :
      (c : Condition) (cs : List Condition) → find_condition c.type (k.set_condition c cs) ≡ some c
  pub find-set_other :
      (t : String) (c : Condition) (cs : List Condition)
      → c.type ≢ t
      → find_condition t (k.set_condition c cs) ≡ find_condition t cs
  pub added : (f : String) (fs : List String) → Elem f (k.add_finalizer f fs)
  pub add_keeps : (f g : String) (fs : List String) → Elem g fs → Elem g (k.add_finalizer f fs)
  pub removed : (f : String) (fs : List String) → ¬ Elem f (k.remove_finalizer f fs)

-- What a client's Get returns: apierrors.IsNotFound tells the second from the third.
pub data Fetched (A : Type 0) : Type 0 where
  found : A → Fetched A
  not_found : Fetched A
  failed : Error → Fetched A

-- reconcile.Result; the provider's requeueAfter is the one delay that it asks for.
pub data Outcome : Type 0 where
  finished : Outcome
  requeue_after : ℕ → Outcome

-- clusterv1.FailureDomain
pub record PublishedDomain : Type 0 where
  pub name : String
  pub control_plane : Option Bool
  pub attributes : List (String × String)

-- clusterv1.MachineAddress
pub record MachineAddress : Type 0 where
  pub type : String
  pub address : String

-- clusterv1.APIEndpoint
pub record ApiEndpoint : Type 0 where
  pub host : String
  pub port : ℤ

-- clusterv1.Machine: what the provider reads of it.
pub record Machine : Type 0 where
  pub name : String
  pub data_secret_name : Option String  -- spec.bootstrap.dataSecretName
  pub failure_domain : String  -- spec.failureDomain
  pub node_ref_name : String  -- status.nodeRef.name
