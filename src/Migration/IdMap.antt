-- ===== src/Migration/IdMap.antt =====
-- backend/migration-tool/src/id_map.rs: the identifiers that migrated rows were given, in memory and
-- in the table `migration_mappings`. The `HashMap` is a function from its keys. Each statement of
-- `get_or_insert` takes one element of `faults`: `true` means that it fails without an
-- effect. When the list is used up, statements succeed.
pub mod Stable
pub mod Coherence
use codenexus.Prelude.{
  ◌≡◌, Bool, true, false, ◌&&◌, Option, none, some, List, [], ◌∷◌, Text, text_eq, if◌then◌else◌,
}

abbrev pub same_key : Text → Text → Text → Text → Bool
same_key t o t' o' = text_eq t t' && text_eq o o'

-- The first of two that is there.
abbrev pub or_new : Option Text → Text → Option Text
or_new none new_id = some new_id
or_new (some old) new_id = some old

-- The table, with the statements that the source sends, as the manual of PostgreSQL has them.
pub record MappingTable : Type 1 where
  pub Db : Type 0
  -- SELECT new_id .. WHERE entity_type AND old_id
  pub lookup : Db → Text → Text → Option Text
  -- INSERT .. ON CONFLICT (entity_type, old_id) DO NOTHING
  pub insert : Db → Text → Text → Text → Db
  pub lookup-insert :
      (db : Db) (t o n t' o' : Text)
      → lookup (insert db t o n) t' o'
        ≡ (if same_key t o t' o' then or_new (lookup db t o) n else lookup db t' o')

pub record IdMap (Db : Type 0) : Type 0 where
  pub db : Db
  pub mappings : Text → Text → Option Text
  pub faults : List Bool

-- Does the next statement fail, and what is left.
abbrev pub next_fault : List Bool → Bool × List Bool
next_fault [] = (false, [])
next_fault (fault ∷ faults) = (fault, faults)

-- `HashMap::insert`
unfoldable pub put : Text → Text → Text → (Text → Text → Option Text) → Text → Text → Option Text
put t o n mappings t' o' = if same_key t o t' o' then some n else mappings t' o'

is_some : Option Text → Bool
is_some none = false
is_some (some n) = true

-- The row that `fetch_one` found, or the new identifier where the statement failed or found none.
actual : Bool → Option Text → Text → Text
actual true row new_id = new_id
actual false none new_id = new_id
actual false (some id) new_id = id

module _ (table : MappingTable) where
  open table use {Db, lookup, insert}

  -- The table is loaded whole.
  unfoldable pub new : Db → IdMap Db
  new db = record { db = db; mappings = lookup db; faults = [] }

  unfoldable pub get : IdMap Db → Text → Text → Option Text
  get m entity_type old_id = m.mappings entity_type old_id

  unfoldable pub contains : IdMap Db → Text → Text → Bool
  unfolding is_some
  contains m entity_type old_id = is_some (m.mappings entity_type old_id)

  -- Behind the INSERT: the SELECT, and the new entry in memory.
  remember : Bool × List Bool → IdMap Db → Text → Text → Text → Option Text × IdMap Db
  unfolding actual
  remember (failed, faults) m entity_type old_id new_id =
      let id : Text = actual failed (lookup m.db entity_type old_id) new_id in
      (some id, record m { mappings = put entity_type old_id id m.mappings; faults = faults })

  persist : Bool × List Bool → IdMap Db → Text → Text → Text → Option Text × IdMap Db
  unfolding remember
  persist (true, faults) m entity_type old_id new_id = (none, record m { faults = faults })
  persist (false, faults) m entity_type old_id new_id =
      remember (next_fault faults) (record m { db = insert m.db entity_type old_id new_id })
        entity_type old_id new_id

  insert_unless : Option Text → IdMap Db → Text → Text → Text → Option Text × IdMap Db
  unfolding persist
  insert_unless (some existing) m entity_type old_id new_id = (some existing, m)
  insert_unless none m entity_type old_id new_id =
      persist (next_fault m.faults) m entity_type old_id new_id

  unfoldable pub get_or_insert : IdMap Db → Text → Text → Text → Option Text × IdMap Db
  unfolding insert_unless
  get_or_insert m entity_type old_id new_id =
      insert_unless (m.mappings entity_type old_id) m entity_type old_id new_id

  -- `entry(key).or_insert(new_id)`
  cache_unless : Option Text → IdMap Db → Text → Text → Text → IdMap Db
  cache_unless (some existing) m entity_type old_id new_id = m
  cache_unless none m entity_type old_id new_id = record m {
    mappings = put entity_type old_id new_id m.mappings;
  }

  unfoldable pub cache : IdMap Db → Text → Text → Text → IdMap Db
  unfolding cache_unless
  cache m entity_type old_id new_id =
      cache_unless (m.mappings entity_type old_id) m entity_type old_id new_id
