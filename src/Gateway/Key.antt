-- ===== src/Gateway/Key.antt =====
-- The cache keys of backend/feature-gateway/src/service.rs.
pub mod Injective
use codenexus.Prelude.{
  ℤ, Option, none, some, ◌++◌, Text, codes, text_eq, display_int, if◌then◌else◌,
}

-- `format!("{}:{}", slug, scope)`
unfoldable pub cache_key : Text → Text → Text
cache_key slug scope = slug ++ (codes ":" ++ scope)

-- `format!("{}:{}", scope, scope_id)`, and the `format!("grade:{}", grade_id)` of the readers.
unfoldable pub scope_with_id : Text → ℤ → Text
scope_with_id scope scope_id = scope ++ (codes ":" ++ display_int scope_id)

unfoldable pub scope_cache_segment : Text → Option ℤ → Text
scope_cache_segment scope none = if text_eq scope (codes "global") then codes "global" else scope
scope_cache_segment scope (some scope_id) =
    if text_eq scope (codes "global") then codes "global" else scope_with_id scope scope_id
