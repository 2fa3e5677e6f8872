-- ===== src/Gateway/Service/Visibility.antt =====
-- When a write of service.rs is seen by the next read, and when an older entry hides it.
use mathlib.Core.Path.{subst}
use mathlib.Core.Option.{some-injective}
use codenexus.Prelude.{
  ap, ℤ, ◌≡◌, refl, sym, ◌∙◌, Bool, true, Option, none, some, [], arith, Text, codes, text_eq,
  text_eq_refl, id_eq_iff,
}
use codenexus.Gateway.Models.{class_override}
use codenexus.Gateway.Key.{cache_key, scope_cache_segment}
use codenexus.Gateway.Key.Injective.{Ring, everywhere, campus_ring, grade_ring, class_ring, segment}
use codenexus.Gateway.Store.{FlagStore}
use codenexus.Gateway.Service.{
  Service, Cache, done, evict, invalidate, invalidate_scope, apply_write, execute, set_flag,
  resolve_for_class, or_else,
}
use codenexus.Gateway.Service.Precedence.{cached_ring, hit, resolve-effective}

evict_self : (key : Text) (cache : Cache) → evict key cache key ≡ none
unfolding evict
evict_self key cache = rw (text_eq_refl key)

evict-none : (key k : Text) (cache : Cache) → cache k ≡ none → evict key cache k ≡ none
unfolding evict
evict-none key k cache h = ground arith

cached_ring-evict :
    (key : Text) (cache : Cache) (slug : Text) (mk : ℤ → Ring) (id : Option ℤ)
    → cached_ring cache slug mk id ≡ none
    → cached_ring (evict key cache) slug mk id ≡ none
unfolding cached_ring
cached_ring-evict key cache slug mk none h = refl
cached_ring-evict key cache slug mk (some i) h = evict-none key _ cache h

module _ (store : FlagStore) (svc : Service (store.Db)) (slug : Text) (class_id : ℤ) (e : Bool)
    (db : store.Db) (up : svc.faults ≡ []) (on : svc.enabled ≡ true)
    (stored : store.upsert svc.db slug (codes "class") (some class_id) e ≡ some db) where
  class_key : Text
  class_key = cache_key slug (segment (class_ring class_id))

  global_key : Text
  global_key = cache_key slug (segment everywhere)

  -- The state behind a class override that the database took.
  abbrev after : Service (store.Db)
  after = (set_flag store svc slug (codes "class") (some class_id) e).1

  set_flag-after : set_flag store svc slug (codes "class") (some class_id) e ≡ (
    done,
    record svc { db = db; cache = evict global_key (evict class_key svc.cache); faults = [] },
  )
  unfolding set_flag execute apply_write invalidate_scope invalidate text_eq scope_cache_segment
      segment class_key global_key
  set_flag-after = rw (up, stored) refl

  after_cache : Cache
  after_cache = evict global_key (evict class_key svc.cache)

  class_entry_gone : after_cache class_key ≡ none
  unfolding after_cache
  class_entry_gone = evict-none global_key class_key _ (evict_self class_key svc.cache)

  row_is_new : store.flag db slug (codes "class") (some class_id) ≡ some e
  unfolding text_eq
  row_is_new =
      store.flag-upsert svc.db db slug (codes "class") (some class_id) e stored slug (codes "class")
        (some class_id)
      ∙ rw (text_eq_refl slug, (id_eq_iff (some class_id) (some class_id)).1 refl) refl

  ring_still_none :
      (mk : ℤ → Ring) (id : Option ℤ)
      → cached_ring svc.cache slug mk id ≡ none
      → cached_ring after_cache slug mk id ≡ none
  unfolding after_cache
  ring_still_none mk id h =
      cached_ring-evict global_key _ slug mk id (cached_ring-evict class_key svc.cache slug mk id h)

  miss :
      (campus_id grade_id : Option ℤ)
      → cached_ring svc.cache slug grade_ring grade_id ≡ none
      → cached_ring svc.cache slug campus_ring campus_id ≡ none
      → hit after_cache slug (some class_id) campus_id grade_id ≡ none
  unfolding hit or_else class_key global_key
  miss campus_id grade_id no_grade no_campus =
      rw
        (
          class_entry_gone,
          ring_still_none grade_ring grade_id no_grade,
          ring_still_none campus_ring campus_id no_campus,
        )
        (unfold after_cache in evict_self global_key (evict class_key svc.cache))

  post : Service (store.Db)
  post = record svc { db = db; cache = after_cache; faults = [] }

  -- To show something of the state behind the write, show it of `post`.
  at_after : (P : Service (store.Db) → Type 0) → P post → P after
  unfolding post after_cache
  at_after P h = subst P (sym (ap (λ p. p.1) set_flag-after)) h

  -- After set_flag stored a class override, with the gateway on and the database up,
  -- resolve_for_class answers it for the class if no entry for the grade or the campus of the read
  -- was cached.
  pub class_override_seen :
      (campus_id grade_id : Option ℤ)
      → cached_ring svc.cache slug grade_ring grade_id ≡ none
      → cached_ring svc.cache slug campus_ring campus_id ≡ none
      → (resolve_for_class store after slug class_id campus_id grade_id).0
        ≡ record { enabled = e; source = class_override }
  unfolding post or_else
  class_override_seen campus_id grade_id no_grade no_campus =
      let seen =
        (resolve-effective store post slug class_id campus_id grade_id on refl
          (miss campus_id grade_id no_grade no_campus)).1 in
      at_after
        (λ s.
          (resolve_for_class store s slug class_id campus_id grade_id).0
          ≡ record { enabled = e; source = class_override })
        (some-injective _ _ (seen ∙ rw row_is_new refl))
