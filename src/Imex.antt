-- ===== src/Imex.antt =====
-- Imports and exports (backend/domain-imex).
pub mod Security
