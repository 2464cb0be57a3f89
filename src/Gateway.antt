-- ===== src/Gateway.antt =====
-- The capability gateway (capability_gateway/): risk model, builder authority, governance store and
-- the dynamic authority proxy.
pub mod Models
pub mod Core
pub mod Resolver
pub mod Authority
pub mod Builder
pub mod Store
pub mod Proxy
pub mod Judge
pub mod Service
pub mod Tests
