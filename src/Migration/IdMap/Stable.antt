-- ===== src/Migration/IdMap/Stable.antt =====
-- Identifiers that id_map.rs has given out, in later calls.
use codenexus.Prelude.{
  ◌≡◌, refl, sym, ap, ◌∙◌, inl, inr, Bool, true, false, Option, none, some, List, Text, text_eq,
  text_eq_iff, text_eq_refl, Bool-cases, both_true,
}
use codenexus.Migration.IdMap.{
  MappingTable, IdMap, same_key, put, next_fault, get, get_or_insert, insert_unless, persist,
  remember, cache, cache_unless,
}

put-same : (t o n : Text) (f : Text → Text → Option Text) → put t o n f t o ≡ some n
unfolding put
put-same t o n f = rw (text_eq_refl t, text_eq_refl o) refl

put-kept :
    (t o n t' o' x : Text) (f : Text → Text → Option Text)
    → f t o ≡ none
    → f t' o' ≡ some x
    → put t o n f t' o' ≡ some x
unfolding put
put-kept t o n t' o' x f free h = elim (Bool-cases (same_key t o t' o')) [
  | inr e ↦ rw e h
  | inl e ↦
      let (p, q) = both_true (text_eq t t') (text_eq o o') e in
      let clash : f t o ≡ some x = rw ((text_eq_iff t t').0 p, (text_eq_iff o o').0 q) h in cc
]

module _ (table : MappingTable) where
  open table use {Db}

  remember-found :
      (f : Bool × List Bool) (m m' : IdMap Db) (t o n a : Text)
      → remember table f m t o n ≡ (some a, m')
      → m'.mappings t o ≡ some a
  unfolding remember
  remember-found (failed, faults) m m' t o n a h =
      ap (λ u. u.mappings t o) (sym (ap (λ p. p.1) h)) ∙ put-same t o _ m.mappings ∙ ap (λ p. p.0) h

  get_or_insert-found :
      (m m' : IdMap Db) (t o n a : Text)
      → get_or_insert table m t o n ≡ (some a, m')
      → m'.mappings t o ≡ some a
  unfolding get_or_insert insert_unless persist
  get_or_insert-found m m' t o n a h = go (m.mappings t o) refl h
    where
      persisted :
          (f : Bool × List Bool) → persist table f m t o n ≡ (some a, m') → m'.mappings t o ≡ some a
      persisted (true, faults) h = cc
      persisted (false, faults) h =
          remember-found (next_fault faults) (record m { db = table.insert m.db t o n }) m' t o n a
            h

      go :
          (x : Option Text)
          → m.mappings t o ≡ x
          → insert_unless table x m t o n ≡ (some a, m')
          → m'.mappings t o ≡ some a
      go (some e) q h = ap (λ u. u.mappings t o) (sym (ap (λ p. p.1) h)) ∙ q ∙ ap (λ p. p.0) h
      go none q h = persisted (next_fault m.faults) h

  -- After get_or_insert gave an identifier, get finds it, and get_or_insert with any other
  -- identifier gives it again and changes nothing.
  get_or_insert-again :
      (m m' : IdMap Db) (t o n a n' : Text)
      → get_or_insert table m t o n ≡ (some a, m')
      → (get table m' t o ≡ some a) × (get_or_insert table m' t o n' ≡ (some a, m'))
  unfolding get get_or_insert insert_unless
  get_or_insert-again m m' t o n a n' h =
      let found = get_or_insert-found m m' t o n a h in (found, rw found refl)

  -- A mapping that is found in memory is still found after get_or_insert, whether it fails or not,
  -- and after cache, for any key.
  get_or_insert-keeps :
      (m : IdMap Db) (t o n t' o' x : Text)
      → get table m t' o' ≡ some x
      → (get table (get_or_insert table m t o n).1 t' o' ≡ some x)
        × (get table (cache table m t o n) t' o' ≡ some x)
  unfolding get get_or_insert insert_unless persist remember cache cache_unless
  get_or_insert-keeps m t o n t' o' x h = (go (m.mappings t o) refl, kept (m.mappings t o) refl)
    where
      persisted :
          m.mappings t o ≡ none
          → (f : Bool × List Bool) → (persist table f m t o n).1.mappings t' o' ≡ some x
      persisted free (true, faults) = h
      persisted free (false, faults) = put-kept t o _ t' o' x m.mappings free h

      go :
          (y : Option Text)
          → m.mappings t o ≡ y
          → (insert_unless table y m t o n).1.mappings t' o' ≡ some x
      go (some e) q = h
      go none q = persisted q (next_fault m.faults)

      kept :
          (y : Option Text)
          → m.mappings t o ≡ y
          → (cache_unless table y m t o n).mappings t' o' ≡ some x
      kept (some e) q = h
      kept none q = put-kept t o n t' o' x m.mappings q h
