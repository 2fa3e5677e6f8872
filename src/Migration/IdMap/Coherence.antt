-- ===== src/Migration/IdMap/Coherence.antt =====
-- Memory and table of id_map.rs.
use mathlib.Core.Path.{subst}
use codenexus.Prelude.{
  ◌≡◌, refl, sym, ◌∙◌, inl, inr, Bool, true, false, Option, none, some, [], Text, text_eq,
  text_eq_iff, text_eq_refl, Bool-cases, if◌then◌else◌, both_true,
}
use codenexus.Migration.IdMap.{
  MappingTable, IdMap, same_key, or_new, put, next_fault, actual, new, get_or_insert, insert_unless,
  persist, remember,
}

module _ (table : MappingTable) where
  open table use {Db, lookup, insert}

  -- What is in memory is in the table.
  abbrev pub Coherent : IdMap Db → Type 0
  Coherent m = (t o n : Text) → m.mappings t o ≡ some n → lookup m.db t o ≡ some n

  pub new-Coherent : (db : Db) → Coherent (new table db)
  unfolding new
  new-Coherent db t o n h = h

  inserted : (db : Db) (t o n : Text) → lookup (insert db t o n) t o ≡ or_new (lookup db t o) n
  inserted db t o n = table.lookup-insert db t o n t o ∙ rw (text_eq_refl t, text_eq_refl o) refl

  inserted_other :
      (db : Db) (t o n t' o' x : Text)
      → lookup db t' o' ≡ some x
      → lookup (insert db t o n) t' o' ≡ some x
  inserted_other db t o n t' o' x h =
      table.lookup-insert db t o n t' o' ∙ go (same_key t o t' o') refl
    where
      go :
          (b : Bool)
          → same_key t o t' o' ≡ b
          → (if b then or_new (lookup db t o) n else lookup db t' o') ≡ some x
      go false e = h
      go true e =
          let (p, q) = both_true (text_eq t t') (text_eq o o') e in
          rw ((text_eq_iff t t').0 p, (text_eq_iff o o').0 q, h) refl

  -- The identifier that the SELECT behind an INSERT gives.
  found_id : (r : Option Text) (n : Text) → or_new r n ≡ some (actual false (or_new r n) n)
  unfolding actual
  found_id none n = refl
  found_id (some old) n = refl

  lookup-put :
      (db : Db) (f : Text → Text → Option Text) (t o n id t' o' x : Text)
      → lookup db t o ≡ some id
      → (f t' o' ≡ some x → lookup db t' o' ≡ some x)
      → put t o id f t' o' ≡ some x
      → lookup db t' o' ≡ some x
  unfolding put
  lookup-put db f t o n id t' o' x found rest h = elim (Bool-cases (same_key t o t' o')) [
    | inr e ↦ rest (rw e at h)
    | inl e ↦
        let (p, q) = both_true (text_eq t t') (text_eq o o') e in
        let same : some id ≡ some x = rw e at h in
        subst (λ u. lookup db u o' ≡ some x) ((text_eq_iff t t').0 p)
          (subst (λ u. lookup db t u ≡ some x) ((text_eq_iff o o').0 q) (found ∙ same))
  ]

  persist-Coherent :
      (m : IdMap Db) (t o n : Text) → Coherent m → Coherent (persist table (false, []) m t o n).1
  unfolding persist remember
  persist-Coherent m t o n coh t' o' x h =
      let db : Db = insert m.db t o n in
      let id : Text = actual false (lookup db t o) n in
      let found : lookup db t o ≡ some id =
        subst (λ r. r ≡ some (actual false r n)) (sym (inserted m.db t o n))
          (found_id (lookup m.db t o) n) in
      lookup-put db m.mappings t o n id t' o' x found
        (λ e. inserted_other m.db t o n t' o' x (coh t' o' x e)) h

  -- If every mapping in memory is in the table, and no statement fails, the same holds after
  -- get_or_insert.
  pub get_or_insert-Coherent :
      (m : IdMap Db) (t o n : Text)
      → m.faults ≡ []
      → Coherent m
      → Coherent (get_or_insert table m t o n).1
  unfolding get_or_insert insert_unless
  get_or_insert-Coherent m t o n up coh = go (m.mappings t o) refl
    where
      go : (y : Option Text) → m.mappings t o ≡ y → Coherent (insert_unless table y m t o n).1
      go (some e) q = coh
      go none q =
          subst (λ f. Coherent (persist table (next_fault f) m t o n).1) (sym up)
            (persist-Coherent m t o n coh)
