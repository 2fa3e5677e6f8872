-- ===== src/Problems.antt =====
-- The problem domain (backend/domain-problems): who may read, manage and change problems.
pub mod Access
