-- ===== src/Scenarios.antt =====
-- Concrete runs: a small world, and the theorems applied in it.
pub mod World
pub mod Clouds
pub mod Machines
pub mod Clusters
pub mod Requests
pub mod Planes
pub mod Templates
pub mod Accounts
pub mod Stores
pub mod Searches
pub mod Creations
