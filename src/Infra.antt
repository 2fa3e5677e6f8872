-- ===== src/Infra.antt =====
-- The shared infrastructure (backend/api-infra): role permissions and route guards.
pub mod Rbac
pub mod Authz
pub mod GatewayClient
pub mod WebSocket
