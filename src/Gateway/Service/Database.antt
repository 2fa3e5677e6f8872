-- ===== src/Gateway/Service/Database.antt =====
-- What `resolve_from_db` of service.rs answers and caches while the database is up.
use codenexus.Prelude.{
  ℤ, ◌≡◌, refl, ◌∙◌, ◌⊎◌, inl, inr, Bool, Option, none, some, List, [], Text, codes, text_eq,
  Option-cases,
}
use codenexus.Gateway.Models.{
  FeatureSource, default, global_override, campus_override, grade_override, class_override,
  from_scope_str, ResolvedFeature,
}
use codenexus.Gateway.Key.{cache_key}
use codenexus.Gateway.Key.Injective.{Ring, everywhere, campus_ring, grade_ring, class_ring, segment}
use codenexus.Gateway.Store.{FlagStore}
use codenexus.Gateway.Service.{
  Service, Fault, query, columns, or_next, get_or, or_else, cache_scope, insert, scoped_row,
  query_most_specific_override, query_registry_default, cache_row, resolve_from_db,
}
use codenexus.Gateway.Service.Coherence.{
  scope_name, registered, scoped_answer, answer_at, at_ring, effective,
}

source_of : Ring → FeatureSource
source_of everywhere = global_override
source_of (campus_ring i) = campus_override
source_of (grade_ring i) = grade_override
source_of (class_ring i) = class_override

abbrev resolved : Bool → FeatureSource → Option ResolvedFeature
resolved e source = some (record { enabled = e; source = source })

module _ (store : FlagStore) (db : store.Db) (slug : Text)
    (class_id campus_id grade_id : Option ℤ) where
  open store use {Db, flag, registry}

  -- The ring is one that the caller asks about.
  abbrev pub InContext : Ring → Type 0
  InContext everywhere = Unit
  InContext (campus_ring i) = campus_id ≡ some i
  InContext (grade_ring i) = grade_id ≡ some i
  InContext (class_ring i) = class_id ≡ some i

  abbrev Row : Type 0
  Row = Option (Bool × Text) × List Fault

  -- A row was found at a ring of the context, or none was and the registry decides.
  abbrev Found : Row → Option ResolvedFeature → Type 0
  Found row answer =
      ((ring : Ring) × (e : Bool) × InContext ring
        × (row ≡ (some (e, scope_name ring), []))
        × (answer_at store db slug ring ≡ resolved e (source_of ring))
        × (answer ≡ resolved e (source_of ring)))
      ⊎ ((row ≡ (none, []))
          × (answer_at store db slug everywhere ≡ answer)
          × (answer ≡ resolved (registered (registry db slug)) default))

  Found-global :
      Found
        (query (columns (codes "global") (flag db slug (codes "global") none)) [])
        (answer_at store db slug everywhere)
  unfolding query columns source_of
  Found-global = elim (Option-cases (flag db slug (codes "global") none)) [
    | inl e ↦ inr (rw e refl, refl, rw e refl)
    | inr (b, e) ↦ inl (everywhere, b, tt, rw e refl, rw e refl, rw e refl)
  ]

  -- One scope in front of the rest: its own row is found, or the rest decides.
  module _ (mk : ℤ → Ring)
      (named : (i : ℤ)
        → answer_at store db slug (mk i)
          ≡ scoped_answer (source_of (mk i)) (flag db slug (scope_name (mk i)) (some i)))
      (next : List Fault → Row) (answer : Option ResolvedFeature)
      (rest : Found (next []) answer) where
    Found-step :
        (id : Option ℤ) (scope : Text)
        → ((i : ℤ) → id ≡ some i → InContext (mk i) × (scope ≡ scope_name (mk i)))
        → Found
            (or_next (scoped_row store db slug scope id []) next)
            (or_else (at_ring store db slug mk id) answer)
    unfolding or_next scoped_row query columns or_else
    Found-step none scope inside = rest
    Found-step (some i) scope inside =
        elim (Option-cases (flag db slug (scope_name (mk i)) (some i))) [
          | inl e ↦ rw ((inside i refl).1, named i, e) rest
          | inr (b, e) ↦ inl (
            mk i,
            b,
            (inside i refl).0,
            rw ((inside i refl).1, e) refl,
            rw (named i, e) refl,
            rw (named i, e) refl,
          )
        ]

  -- The query finds the row of the most specific ring that has one.
  Found-row :
      Found
        (query_most_specific_override store db slug class_id campus_id grade_id [])
        (effective store db slug class_id campus_id grade_id)
  unfolding query_most_specific_override source_of
  Found-row =
      Found-step class_ring (λ i. refl) _ _
        (Found-step grade_ring (λ i. refl) _ _
          (Found-step campus_ring (λ i. refl) _ _ Found-global campus_id (codes "campus")
            (λ i e. (e, refl)))
          grade_id (codes "grade") (λ i e. (e, refl)))
        class_id (codes "class") (λ i e. (e, refl))

module _ (store : FlagStore) (svc : Service (store.Db)) (slug : Text)
    (class_id campus_id grade_id : Option ℤ) where
  -- The state behind an answer that was cached at a ring.
  abbrev pub cached_at : Ring → ResolvedFeature → Service (store.Db)
  cached_at ring r = record svc {
    cache = insert (cache_key slug (segment ring)) r svc.cache;
    faults = [];
  }

  cache_row_at :
      (ring : Ring) (e : Bool)
      → InContext store svc.db slug class_id campus_id grade_id ring
      → cache_row store svc slug class_id campus_id grade_id (some (e, scope_name ring), []) ≡ (
        record { enabled = e; source = source_of ring },
        cached_at ring (record { enabled = e; source = source_of ring }),
      )
  unfolding cache_row from_scope_str text_eq get_or cache_scope segment source_of
  cache_row_at everywhere e ctx = refl
  cache_row_at (campus_ring i) e ctx = rw ctx refl
  cache_row_at (grade_ring i) e ctx = rw ctx refl
  cache_row_at (class_ring i) e ctx = rw ctx refl

  cache_row_default :
      let r : ResolvedFeature = record {
        enabled = registered (store.registry svc.db slug);
        source = default;
      } in
      cache_row store svc slug class_id campus_id grade_id (none, []) ≡ (r, cached_at everywhere r)
  unfolding cache_row query_registry_default query get_or segment
  cache_row_default = elim (Option-cases (store.registry svc.db slug)) [
    | inl e ↦ rw e refl
    | inr (b, e) ↦ rw e refl
  ]

  -- With the database up, resolve_from_db answers the effective value of the context and caches it
  -- at one ring, at which the tables say the same.
  pub resolve_from_db_lem :
      svc.faults ≡ []
      → (ring : Ring) × (r : ResolvedFeature) × (resolve_from_db store svc slug class_id campus_id
            grade_id
          ≡ (r, cached_at ring r))
        × (answer_at store svc.db slug ring ≡ some r)
        × (effective store svc.db slug class_id campus_id grade_id ≡ some r)
  unfolding resolve_from_db
  resolve_from_db_lem up = elim (Found-row store svc.db slug class_id campus_id grade_id) [
    | inl (ring, e, ctx, row, ans, eff) ↦ (
      ring,
      record { enabled = e; source = source_of ring },
      rw (up, row) (cache_row_at ring e ctx),
      ans,
      eff,
    )
    | inr (row, ans, eff) ↦ (
      everywhere,
      record { enabled = registered (store.registry svc.db slug); source = default },
      rw (up, row) cache_row_default,
      ans ∙ eff,
      eff,
    )
  ]
