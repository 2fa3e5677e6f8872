-- ===== src/Gateway/Service/Unscoped.antt =====
-- Overrides in service.rs that have a scope but no identifier.
use codenexus.Prelude.{
  ℤ, ◌≡◌, ◌≢◌, refl, ap, ◌∙◌, inl, inr, Bool, false, Option, none, some, List, [], arith, Text,
  codes, text_eq, text_eq_iff, text_eq_refl, id_eq, Bool-cases,
}
use codenexus.Gateway.Store.{FlagStore}
use codenexus.Gateway.Service.{
  Service, Fault, done, execute, or_next, scoped_row, query_most_specific_override,
  query_registry_default, cache_row, resolve_from_db, invalidate_scope, apply_write, set_flag,
}
use codenexus.Gateway.Service.Writes.{upsert-KeepsRest, db-invalidate_scope}

module _ (store : FlagStore) where
  open store use {Db, flag, registry, upsert}

  abbrev Row : Type 0
  Row = Option (Bool × Text) × List Fault

  or_next-cong :
      {row row' : Row} {next next' : List Fault → Row}
      → row ≡ row'
      → ((faults : List Fault) → next faults ≡ next' faults)
      → or_next row next ≡ or_next row' next'
  unfolding or_next
  or_next-cong {row} {row'} {next} {next'} same_row same_rest =
      ap (λ r. or_next r next) same_row ∙ rest row'
    where
      rest : (r : Row) → or_next r next ≡ or_next r next'
      rest (some row, faults) = refl
      rest (none, faults) = same_rest faults

  -- The answer of `cache_row` takes from the state the default of the registry alone.
  cache_row-congr :
      (a b : Service Db) (slug : Text) (c d g : Option ℤ) (row row' : Row)
      → row ≡ row'
      → registry a.db slug ≡ registry b.db slug
      → (cache_row store a slug c d g row).0 ≡ (cache_row store b slug c d g row').0
  unfolding cache_row query_registry_default
  cache_row-congr a b slug c d g row row' same_row same =
      ap (λ r. (cache_row store a slug c d g r).0) same_row ∙ answer row'
    where
      answer : (r : Row) → (cache_row store a slug c d g r).0 ≡ (cache_row store b slug c d g r).0
      answer (some r, faults) = refl
      answer (none, faults) = rw same refl

  module _ (db db' : Db) (slug scope : Text) (e : Bool)
      (not_global : text_eq scope (codes "global") ≡ false)
      (stored : upsert db slug scope none e ≡ some db') where
    -- A row with an identifier is as before.
    row_stays : (slug' c : Text) (i : ℤ) → flag db' slug' c (some i) ≡ flag db slug' c (some i)
    unfolding id_eq
    row_stays slug' c i =
        (upsert-KeepsRest store db db' slug scope none e stored).0 slug' c (some i) (ground arith)

    global_row_stays :
        (slug' : Text) → flag db' slug' (codes "global") none ≡ flag db slug' (codes "global") none
    global_row_stays slug' =
        (upsert-KeepsRest store db db' slug scope none e stored).0 slug' (codes "global") none
          (ground arith)

    registry_stays : (slug' : Text) → registry db' slug' ≡ registry db slug'
    registry_stays = (upsert-KeepsRest store db db' slug scope none e stored).1

    row_is_there : flag db' slug scope none ≡ some e
    unfolding id_eq
    row_is_there =
        store.flag-upsert db db' slug scope none e stored slug scope none
        ∙ rw (text_eq_refl slug, text_eq_refl scope) refl

    scoped_row-stays :
        (slug' c : Text) (id : Option ℤ) (faults : List Fault)
        → scoped_row store db' slug' c id faults ≡ scoped_row store db slug' c id faults
    unfolding scoped_row
    scoped_row-stays slug' c none faults = refl
    scoped_row-stays slug' c (some i) faults = rw (row_stays slug' c i) refl

    override-stays :
        (slug' : Text) (c d g : Option ℤ) (faults : List Fault)
        → query_most_specific_override store db' slug' c d g faults
          ≡ query_most_specific_override store db slug' c d g faults
    unfolding query_most_specific_override
    override-stays slug' c d g faults =
        or_next-cong (scoped_row-stays slug' (codes "class") c faults) λ f₁.
          or_next-cong (scoped_row-stays slug' (codes "grade") g f₁) λ f₂.
            or_next-cong (scoped_row-stays slug' (codes "campus") d f₂)
              λ f₃. rw (global_row_stays slug') refl

    answer-stays :
        (a b : Service Db) (slug' : Text) (c d g : Option ℤ)
        → a.db ≡ db'
        → b.db ≡ db
        → a.faults ≡ b.faults
        → (resolve_from_db store a slug' c d g).0 ≡ (resolve_from_db store b slug' c d g).0
    unfolding resolve_from_db
    answer-stays a b slug' c d g at_a at_b same =
        cache_row-congr a b slug' c d g
          (query_most_specific_override store a.db slug' c d g a.faults)
          (query_most_specific_override store b.db slug' c d g b.faults)
          (rw (at_a, at_b, same) (override-stays slug' c d g b.faults))
          (rw (at_a, at_b) (registry_stays slug'))

  -- After set_flag stored an override for a scope other than global without an identifier, with
  -- the database up, it has reported success and the row is there, but
  -- query_most_specific_override and resolve_from_db answer as before, for every feature and
  -- context and whichever statements fail.
  pub unscoped_override_ignored :
      (svc : Service Db) (db' : Db) (slug scope : Text) (e : Bool)
      → scope ≢ codes "global"
      → svc.faults ≡ []
      → upsert svc.db slug scope none e ≡ some db'
      → (slug' : Text) (class_id campus_id grade_id : Option ℤ) (faults : List Fault)
      → let (written, after) = set_flag store svc slug scope none e in
        (written ≡ done)
        × (flag after.db slug scope none ≡ some e)
        × (query_most_specific_override store after.db slug' class_id campus_id grade_id faults
            ≡ query_most_specific_override store svc.db slug' class_id campus_id grade_id faults)
        × ((resolve_from_db store
              (record after { faults = faults })
              slug'
              class_id
              campus_id
              grade_id).0
            ≡ (resolve_from_db store
                (record svc { faults = faults })
                slug'
                class_id
                campus_id
                grade_id).0)
  unfolding set_flag execute apply_write
  unscoped_override_ignored svc db' slug scope e scoped up stored slug' c d g faults =
      rw (up, stored)
        (
          refl,
          rw new_db (row_is_there svc.db db' slug scope e not_global stored),
          rw new_db (override-stays svc.db db' slug scope e not_global stored slug' c d g faults),
          answer-stays svc.db db' slug scope e not_global stored _ _ slug' c d g new_db refl refl,
        )
    where
      not_global : text_eq scope (codes "global") ≡ false
      not_global = elim (Bool-cases (text_eq scope (codes "global"))) [
        | inr no_match ↦ no_match
        | inl match ↦ absurd (scoped ((text_eq_iff scope (codes "global")).0 match))
      ]

      new_db :
          (invalidate_scope store (record svc { db = db'; faults = [] }) slug scope none).db ≡ db'
      new_db = db-invalidate_scope store _ slug scope none
