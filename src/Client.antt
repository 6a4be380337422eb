-- ===== src/Client.antt =====
-- The Alibaba Cloud client (pkg/client): the retry loop, the operations on ECS instances that the
-- controllers call, and the interface through which they call them.
pub mod Sdk
pub mod Retry
pub mod Interface
pub mod Instances
pub mod Create
pub mod Credentials
pub mod Apsara
pub mod Builder
pub mod Oss
pub mod Cloud
pub mod Real
