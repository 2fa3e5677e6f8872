-- ===== src/Tests/Migration.antt =====
-- The map of identifiers on concrete inputs, over a table that is a function.
use codenexus.Prelude.{
  ◌≡◌, refl, true, false, Option, none, some, [], ◌∷◌, Text, codes, text_eq, if◌then◌else◌,
}
use codenexus.Migration.IdMap.{
  MappingTable, IdMap, same_key, or_new, put, new, get_or_insert, cache, contains,
}
use codenexus.Migration.IdMap.Coherence.{Coherent, new-Coherent, get_or_insert-Coherent}

abbrev Rows : Type 0
Rows = Text → Text → Option Text

abbrev rows : MappingTable
rows = record {
  Db = Rows;
  lookup = λ db t o. db t o;
  insert = λ db t o n t' o'. if same_key t o t' o' then or_new (db t o) n else db t' o';
  lookup-insert = λ db t o n t' o'. refl;
}

-- The user 7 was migrated before.
abbrev start : Rows
start t o = if same_key (codes "user") (codes "7") t o then some (codes "u-1") else none

abbrev problem_added : IdMap Rows
problem_added = (get_or_insert rows (new rows start) (codes "problem") (codes "3") (codes "p-9")).1

added :
    get_or_insert rows (new rows start) (codes "problem") (codes "3") (codes "p-9")
    ≡ (some (codes "p-9"), problem_added)
unfolding get_or_insert new text_eq
added = refl

user_known :
    contains rows
      (cache rows problem_added (codes "user") (codes "7") (codes "u-2"))
      (codes "user")
      (codes "7")
    ≡ true
unfolding contains cache get_or_insert new text_eq put
user_known = refl

-- A SELECT that fails behind an INSERT of a row that is there: memory and table differ.
stale :
    (get_or_insert rows
      (record { db = start; mappings = λ t o. none; faults = false ∷ true ∷ [] })
      (codes "user")
      (codes "7")
      (codes "u-2")).0
    ≡ some (codes "u-2")
unfolding get_or_insert
stale = refl

get_or_insert-Coherent_example :
    Coherent rows
      (get_or_insert rows (new rows start) (codes "problem") (codes "3") (codes "p-9")).1
unfolding new
get_or_insert-Coherent_example =
    get_or_insert-Coherent rows (new rows start) (codes "problem") (codes "3") (codes "p-9") refl
      (new-Coherent rows start)
