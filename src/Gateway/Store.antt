-- ===== src/Gateway/Store.antt =====
-- The tables `feature_flags` and `feature_registry`, which PostgreSQL keeps: the statements that
-- backend/feature-gateway/src/service.rs sends, with what they do by the manual. Rows are unique
-- by (feature_slug, scope, scope_id), and by (feature_slug, scope) where scope_id is NULL.
use codenexus.Prelude.{ℤ, ◌≡◌, Bool, ◌&&◌, Option, none, some, Text, text_eq, id_eq, if◌then◌else◌}

-- Do the two keys name one row? NULL is `none`.
abbrev pub same_row : Text → Text → Option ℤ → Text → Text → Option ℤ → Bool
same_row slug scope id slug' scope' id' =
    text_eq slug slug' && (text_eq scope scope' && id_eq id id')

pub record FlagStore : Type 1 where
  pub Db : Type 0
  -- SELECT enabled FROM feature_flags WHERE feature_slug, scope, scope_id
  pub flag : Db → Text → Text → Option ℤ → Option Bool
  -- SELECT default_enabled FROM feature_registry WHERE slug
  pub registry : Db → Text → Option Bool
  -- INSERT .. ON CONFLICT .. DO UPDATE; `none` is a violated constraint
  pub upsert : Db → Text → Text → Option ℤ → Bool → Option Db
  -- DELETE FROM feature_flags WHERE .. IS NOT DISTINCT FROM
  pub remove : Db → Text → Text → Option ℤ → Db
  pub flag-upsert :
      (db db' : Db) (s c : Text) (i : Option ℤ) (e : Bool)
      → upsert db s c i e ≡ some db'
      → (s' c' : Text) (i' : Option ℤ)
      → flag db' s' c' i' ≡ (if same_row s c i s' c' i' then some e else flag db s' c' i')
  pub registry-upsert :
      (db db' : Db) (s c : Text) (i : Option ℤ) (e : Bool)
      → upsert db s c i e ≡ some db'
      → (s' : Text) → registry db' s' ≡ registry db s'
  pub flag-remove :
      (db : Db) (s c : Text) (i : Option ℤ) (s' c' : Text) (i' : Option ℤ)
      → flag (remove db s c i) s' c' i'
        ≡ (if same_row s c i s' c' i' then none else flag db s' c' i')
  pub registry-remove :
      (db : Db) (s c : Text) (i : Option ℤ) (s' : Text)
      → registry (remove db s c i) s' ≡ registry db s'
