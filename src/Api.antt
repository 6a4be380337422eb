-- ===== src/Api.antt =====
-- The custom resources of the provider (api/v1beta1), and what it reads of the resources of
-- Kubernetes and of the Cluster API core.
pub mod Kube
pub mod Types
pub mod Machine
pub mod Cluster
pub mod Reconciling
pub mod ControlPlane
pub mod Template
