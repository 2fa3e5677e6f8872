-- ===== src/Gateway.antt =====
-- The feature gateway (backend/feature-gateway): scoped feature flags with a cache in front of a
-- database.
pub mod Models
pub mod Key
pub mod Store
pub mod Service
pub mod Routes
