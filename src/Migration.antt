-- ===== src/Migration.antt =====
-- The migration from the old judge (backend/migration-tool).
pub mod IdMap
pub mod Mapper
