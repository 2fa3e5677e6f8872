-- ===== src/Shared.antt =====
-- The models that all services share (backend/shared/src/models): roles, permissions, JWT claims.
pub mod Role
pub mod Permission
pub mod Claims
