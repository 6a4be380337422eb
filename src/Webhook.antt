-- ===== src/Webhook.antt =====
-- internal/webhook/v1beta1: defaulting and validation of the custom resources.
pub mod Fields
pub mod Machine
pub mod Cluster
