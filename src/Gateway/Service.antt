-- ===== src/Gateway/Service.antt =====
-- backend/feature-gateway/src/service.rs: resolution of a flag through the cache and the database,
-- and the writes. The map of `DashMap` is a function from keys to entries. Each statement takes
-- one element of `faults`, which says whether it is answered. When the list is used up, statements
-- are answered.
pub mod Coherence
pub mod Database
pub mod Precedence
pub mod Writes
pub mod Visibility
pub mod Unscoped
use codenexus.Prelude.{
  ℤ, pos, Bool, true, false, ◌&&◌, not, Option, none, some, List, [], ◌∷◌, Text, codes, text_eq,
  if◌then◌else◌,
}
use codenexus.Gateway.Models.{
  FeatureSource, default, global_override, campus_override, grade_override, class_override,
  system_emergency_off, from_scope_str, ResolvedFeature,
}
use codenexus.Gateway.Key.{cache_key, scope_with_id, scope_cache_segment}
use codenexus.Gateway.Store.{FlagStore}

abbrev pub Cache : Type 0
Cache = Text → Option ResolvedFeature

-- `DashMap::insert` and `DashMap::remove`
unfoldable pub insert : Text → ResolvedFeature → Cache → Cache
insert key r cache k = if text_eq key k then some r else cache k

unfoldable pub evict : Text → Cache → Cache
evict key cache k = if text_eq key k then none else cache k

-- A statement is answered, fails without an effect, or takes effect and is reported as failed: the
-- connection is lost behind the commit.
pub data Fault : Type 0 where
  works refused lost : Fault

pub record Service (Db : Type 0) : Type 0 where
  pub db : Db
  pub cache : Cache
  pub enabled : Bool
  pub faults : List Fault

-- The outcome of a method that returns `anyhow::Result<()>`.
pub data Written : Type 0 where
  done failed : Written

-- `fetch_optional(..).await.ok().flatten()`: a failed statement reads as no row.
unfoldable pub query {ℓ} : {A : Type ℓ} → Option A → List Fault → Option A × List Fault
query row [] = (row, [])
query row (works ∷ faults) = (row, faults)
query row (refused ∷ faults) = (none, faults)
query row (lost ∷ faults) = (none, faults)

-- The selected columns `(enabled, scope)`; `scope` is the one that the statement asks for.
columns : Text → Option Bool → Option (Bool × Text)
columns scope none = none
columns scope (some e) = some (e, scope)

-- `if row.is_some() { return row; }`, and else what follows.
or_next :
    Option (Bool × Text) × List Fault
    → (List Fault → Option (Bool × Text) × List Fault)
    → Option (Bool × Text) × List Fault
or_next (some row, faults) next = (some row, faults)
or_next (none, faults) next = next faults

unfoldable pub get_or {ℓ} : {A : Type ℓ} → A → Option A → A
get_or d none = d
get_or d (some a) = a

-- The first entry that is found.
unfoldable pub or_else {ℓ} : {A : Type ℓ} → Option A → Option A → Option A
or_else none b = b
or_else (some a) b = some a

cache_scope : FeatureSource → Option ℤ → Option ℤ → Option ℤ → Text
unfolding get_or
cache_scope class_override class_id campus_id grade_id =
    scope_with_id (codes "class") (get_or (pos 0) class_id)
cache_scope grade_override class_id campus_id grade_id =
    scope_with_id (codes "grade") (get_or (pos 0) grade_id)
cache_scope campus_override class_id campus_id grade_id =
    scope_with_id (codes "campus") (get_or (pos 0) campus_id)
cache_scope source class_id campus_id grade_id = codes "global"

-- The lookup of a scoped entry, made only where the caller has an identifier.
cached : Cache → Text → Text → Option ℤ → Option ResolvedFeature
cached cache slug scope none = none
cached cache slug scope (some id) = cache (cache_key slug (scope_with_id scope id))

abbrev pub emergency_off : ResolvedFeature
emergency_off = record { enabled = false; source = system_emergency_off }

module _ (store : FlagStore) where
  open store use {Db, flag, registry, upsert, remove}

  scoped_row : Db → Text → Text → Option ℤ → List Fault → Option (Bool × Text) × List Fault
  unfolding query columns
  scoped_row db slug scope none faults = (none, faults)
  scoped_row db slug scope (some id) faults =
      query (columns scope (flag db slug scope (some id))) faults

  unfoldable pub query_most_specific_override :
      Db → Text → Option ℤ → Option ℤ → Option ℤ → List Fault → Option (Bool × Text) × List Fault
  unfolding query columns or_next scoped_row
  query_most_specific_override db slug class_id campus_id grade_id faults =
      or_next (scoped_row db slug (codes "class") class_id faults) λ f₁.
        or_next (scoped_row db slug (codes "grade") grade_id f₁) λ f₂.
          or_next (scoped_row db slug (codes "campus") campus_id f₂)
            λ f₃. query (columns (codes "global") (flag db slug (codes "global") none)) f₃

  unfoldable pub query_registry_default : Db → Text → List Fault → Bool × List Fault
  unfolding query get_or
  query_registry_default db slug faults =
      let (row, rest) = query (registry db slug) faults in (get_or false row, rest)

  -- What `resolve_from_db` does with the row of the first query.
  cache_row :
      Service Db
      → Text
      → Option ℤ
      → Option ℤ
      → Option ℤ
      → Option (Bool × Text) × List Fault
      → ResolvedFeature × Service Db
  unfolding get_or cache_scope
  cache_row svc slug class_id campus_id grade_id (some (enabled, scope), faults) =
      let source : FeatureSource = get_or default (from_scope_str scope) in
      let resolved : ResolvedFeature = record { enabled = enabled; source = source } in
      let key : Text = cache_key slug (cache_scope source class_id campus_id grade_id) in
      (resolved, record svc { cache = insert key resolved svc.cache; faults = faults })
  cache_row svc slug class_id campus_id grade_id (none, faults) =
      let (default_enabled, rest) = query_registry_default svc.db slug faults in
      let resolved : ResolvedFeature = record { enabled = default_enabled; source = default } in
      let key : Text = cache_key slug (codes "global") in
      (resolved, record svc { cache = insert key resolved svc.cache; faults = rest })

  unfoldable pub resolve_from_db :
      Service Db → Text → Option ℤ → Option ℤ → Option ℤ → ResolvedFeature × Service Db
  unfolding cache_row
  resolve_from_db svc slug class_id campus_id grade_id =
      cache_row svc slug class_id campus_id grade_id
        (query_most_specific_override svc.db slug class_id campus_id grade_id svc.faults)

  -- A cached entry is returned as it is; without one the database is asked.
  pub answer :
      Option ResolvedFeature
      → Service Db
      → Text
      → Option ℤ
      → Option ℤ
      → Option ℤ
      → ResolvedFeature × Service Db
  answer (some r) svc slug class_id campus_id grade_id = (r, svc)
  answer none svc slug class_id campus_id grade_id =
      resolve_from_db svc slug class_id campus_id grade_id

  unfoldable pub resolve : Service Db → Text → Option ℤ → Option ℤ → ResolvedFeature × Service Db
  unfolding answer or_else cached
  resolve svc slug campus_id grade_id =
      if not svc.enabled
      then (emergency_off, svc)
      else answer
          (or_else (cached svc.cache slug (codes "grade") grade_id) (
            or_else (cached svc.cache slug (codes "campus") campus_id)
              (svc.cache (cache_key slug (codes "global")))))
          svc slug none campus_id grade_id

  unfoldable pub resolve_for_class :
      Service Db → Text → ℤ → Option ℤ → Option ℤ → ResolvedFeature × Service Db
  unfolding answer or_else cached
  resolve_for_class svc slug class_id campus_id grade_id =
      if not svc.enabled
      then (emergency_off, svc)
      else answer
          (or_else (svc.cache (cache_key slug (scope_with_id (codes "class") class_id))) (
            or_else (cached svc.cache slug (codes "grade") grade_id) (
              or_else (cached svc.cache slug (codes "campus") campus_id)
                (svc.cache (cache_key slug (codes "global"))))))
          svc slug (some class_id) campus_id grade_id

  unfoldable pub invalidate : Service Db → Text → Text → Service Db
  invalidate svc slug scope = record svc { cache = evict (cache_key slug scope) svc.cache }

  -- The two `invalidate` calls behind a write.
  pub invalidate_scope : Service Db → Text → Text → Option ℤ → Service Db
  unfolding invalidate
  invalidate_scope svc slug scope scope_id =
      let own : Service Db = invalidate svc slug (scope_cache_segment scope scope_id) in
      if not (text_eq scope (codes "global")) then invalidate own slug (codes "global") else own

  -- `execute(..).await?`: on a fault or a violated constraint the method returns the error.
  apply_write : Service Db → Option Db → Text → Text → Option ℤ → Written × Service Db
  unfolding invalidate_scope
  apply_write svc none slug scope scope_id = (failed, svc)
  apply_write svc (some db) slug scope scope_id =
      (done, invalidate_scope (record svc { db = db }) slug scope scope_id)

  -- A write, with what the database makes of it, under the faults.
  execute : List Fault → Service Db → Option Db → Text → Text → Option ℤ → Written × Service Db
  unfolding apply_write
  execute [] svc written slug scope scope_id =
      apply_write (record svc { faults = [] }) written slug scope scope_id
  execute (works ∷ faults) svc written slug scope scope_id =
      apply_write (record svc { faults = faults }) written slug scope scope_id
  execute (refused ∷ faults) svc written slug scope scope_id =
      (failed, record svc { faults = faults })
  execute (lost ∷ faults) svc none slug scope scope_id = (failed, record svc { faults = faults })
  execute (lost ∷ faults) svc (some db) slug scope scope_id =
      (failed, record svc { db = db; faults = faults })

  unfoldable pub set_flag : Service Db → Text → Text → Option ℤ → Bool → Written × Service Db
  unfolding execute
  set_flag svc slug scope scope_id enabled =
      execute svc.faults svc (upsert svc.db slug scope scope_id enabled) slug scope scope_id

  unfoldable pub delete_flag : Service Db → Text → Text → Option ℤ → Written × Service Db
  unfolding execute
  delete_flag svc slug scope scope_id =
      execute svc.faults svc (some (remove svc.db slug scope scope_id)) slug scope scope_id
