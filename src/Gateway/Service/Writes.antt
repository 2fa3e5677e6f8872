-- ===== src/Gateway/Service/Writes.antt =====
-- The writes of service.rs, `set_flag` and `delete_flag`, and what is read after them.
use mathlib.Core.Bool.{false≢true}
use mathlib.Core.Path.{subst}
use mathlib.Core.Option.{some-injective}
use codenexus.Prelude.{
  ℤ, ◌≡◌, refl, sym, ◌∙◌, inl, inr, Bool, true, false, ◌&&◌, Option, none, some, List, [], ◌∷◌,
  arith, both_true, Text, codes, text_eq, text_eq_iff, text_eq_refl, id_eq, id_eq_iff, Bool-cases,
}
use codenexus.Gateway.Models.{ResolvedFeature, class_override, grade_override, campus_override}
use codenexus.Gateway.Key.{cache_key, scope_cache_segment}
use codenexus.Gateway.Key.Injective.{Ring, everywhere, campus_ring, grade_ring, class_ring, segment}
use codenexus.Gateway.Store.{FlagStore, same_row}
use codenexus.Gateway.Service.{
  Service, Fault, works, refused, lost, Cache, evict, invalidate, invalidate_scope, apply_write,
  execute, set_flag, delete_flag,
}
use codenexus.Gateway.Service.Coherence.{
  scope_name, ring_id, scoped_answer, global_answer, answer_at, Coherent,
}

-- A ring's answer in terms of its row and the registry.
unfoldable pub answer_from : Ring → Option Bool → Option Bool → Option ResolvedFeature
answer_from everywhere row d = global_answer row d
answer_from (campus_ring i) row d = scoped_answer campus_override row
answer_from (grade_ring i) row d = scoped_answer grade_override row
answer_from (class_ring i) row d = scoped_answer class_override row

segment_of_row : (ring : Ring) → scope_cache_segment (scope_name ring) (ring_id ring) ≡ segment ring
unfolding scope_cache_segment text_eq segment
segment_of_row everywhere = refl
segment_of_row (campus_ring i) = refl
segment_of_row (grade_ring i) = refl
segment_of_row (class_ring i) = refl

same_row→ :
    (s c : Text) (i : Option ℤ) (s' c' : Text) (i' : Option ℤ)
    → same_row s c i s' c' i' ≡ true
    → (s ≡ s') × (c ≡ c') × (i ≡ i')
same_row→ s c i s' c' i' h =
    let (p, r) = both_true (text_eq s s') (text_eq c c' && id_eq i i') h in
    let (q, t) = both_true (text_eq c c') (id_eq i i') r in
    ((text_eq_iff s s').0 p, (text_eq_iff c c').0 q, (id_eq_iff i i').0 t)

evict-some :
    (key k : Text) (cache : Cache) {r : ResolvedFeature}
    → evict key cache k ≡ some r
    → (text_eq key k ≡ false) × (cache k ≡ some r)
unfolding evict
evict-some key k cache h = ground arith

module _ (store : FlagStore) where
  open store use {Db, flag, registry, upsert, remove}

  pub answer_at-from :
      (db : Db) (slug : Text) (ring : Ring)
      → answer_at store db slug ring
        ≡ answer_from ring (flag db slug (scope_name ring) (ring_id ring)) (registry db slug)
  unfolding answer_from
  answer_at-from db slug everywhere = refl
  answer_at-from db slug (campus_ring i) = refl
  answer_at-from db slug (grade_ring i) = refl
  answer_at-from db slug (class_ring i) = refl

  -- What stays in the cache behind a write was there before, and is not the entry of the row.
  stays :
      (svc : Service Db) (slug scope : Text) (id : Option ℤ) (k : Text) {r : ResolvedFeature}
      → (invalidate_scope store svc slug scope id).cache k ≡ some r
      → (text_eq (cache_key slug (scope_cache_segment scope id)) k ≡ false) × (svc.cache k ≡ some r)
  unfolding invalidate_scope invalidate
  stays svc slug scope id k h = elim (Bool-cases (text_eq scope (codes "global"))) [
    | inl e ↦ evict-some _ k svc.cache (rw e at h)
    | inr e ↦ evict-some _ k svc.cache (evict-some _ k (evict _ svc.cache) (rw e at h)).1
  ]

  pub db-invalidate_scope :
      (svc : Service Db) (slug scope : Text) (id : Option ℤ)
      → (invalidate_scope store svc slug scope id).db ≡ svc.db
  unfolding invalidate_scope invalidate
  db-invalidate_scope svc slug scope id = elim (Bool-cases (text_eq scope (codes "global"))) [
    | inl e ↦ rw e refl
    | inr e ↦ rw e refl
  ]

  -- A write of one row, with its entry evicted, leaves a coherent cache.
  write-Coherent :
      (svc : Service Db) (db : Db) (slug scope : Text) (id : Option ℤ)
      → ((s c : Text) (i : Option ℤ)
          → same_row slug scope id s c i ≡ false
          → flag db s c i ≡ flag svc.db s c i)
      → ((s : Text) → registry db s ≡ registry svc.db s)
      → Coherent store svc
      → Coherent store (invalidate_scope store (record svc { db = db }) slug scope id)
  write-Coherent svc db slug scope id rows defaults coh slug' ring r h =
      let (other, old) =
        stays (record svc { db = db }) slug scope id (cache_key slug' (segment ring)) h in
      let row : same_row slug scope id slug' (scope_name ring) (ring_id ring) ≡ false =
        distinct other in
      rw
        (
          db-invalidate_scope,
          answer_at-from,
          rows slug' (scope_name ring) (ring_id ring) row,
          defaults,
        )
        (sym (answer_at-from svc.db slug' ring) ∙ coh slug' ring r old)
    where
      distinct :
          text_eq (cache_key slug (scope_cache_segment scope id)) (cache_key slug' (segment ring))
            ≡ false
          → same_row slug scope id slug' (scope_name ring) (ring_id ring) ≡ false
      distinct other =
          elim (Bool-cases (same_row slug scope id slug' (scope_name ring) (ring_id ring))) [
            | inr no_row ↦ no_row
            | inl row ↦
                let (p, q, t) =
                  same_row→ slug scope id slug' (scope_name ring) (ring_id ring) row in
                absurd (
                  false≢true (
                    sym other
                    ∙ (rw (p, q, t, segment_of_row)
                        (text_eq_refl (cache_key slug' (segment ring))))))
          ]

  -- The rows besides the written one, and the registry, are as before.
  abbrev pub KeepsRest : Db → Db → Text → Text → Option ℤ → Type 0
  KeepsRest db db' slug scope id =
      ((s c : Text) (i : Option ℤ)
        → same_row slug scope id s c i ≡ false
        → flag db' s c i ≡ flag db s c i)
      × ((s : Text) → registry db' s ≡ registry db s)

  apply_write-Coherent :
      (svc : Service Db) (o : Option Db) (slug scope : Text) (id : Option ℤ)
      → ((db : Db) → o ≡ some db → KeepsRest svc.db db slug scope id)
      → Coherent store svc
      → Coherent store (apply_write store svc o slug scope id).1
  unfolding apply_write
  apply_write-Coherent svc none slug scope id keeps coh = coh
  apply_write-Coherent svc (some db) slug scope id keeps coh =
      let (rows, defaults) = keeps db refl in write-Coherent svc db slug scope id rows defaults coh

  pub upsert-KeepsRest :
      (db db' : Db) (slug scope : Text) (id : Option ℤ) (e : Bool)
      → upsert db slug scope id e ≡ some db'
      → KeepsRest db db' slug scope id
  upsert-KeepsRest db db' slug scope id e h = (
    λ s c i other. store.flag-upsert db db' slug scope id e h s c i ∙ (rw other refl),
    store.registry-upsert db db' slug scope id e h,
  )

  remove-KeepsRest :
      (db : Db) (slug scope : Text) (id : Option ℤ)
      → KeepsRest db (remove db slug scope id) slug scope id
  remove-KeepsRest db slug scope id = (
    λ s c i other. store.flag-remove db slug scope id s c i ∙ (rw other refl),
    store.registry-remove db slug scope id,
  )

  -- Every cached entry but that of one row is what its ring says now.
  abbrev pub CoherentBeside : Text → Text → Option ℤ → Service Db → Type 0
  CoherentBeside slug scope id svc =
      (slug' : Text) (ring : Ring) (r : ResolvedFeature)
      → same_row slug scope id slug' (scope_name ring) (ring_id ring) ≡ false
      → svc.cache (cache_key slug' (segment ring)) ≡ some r
      → answer_at store svc.db slug' ring ≡ some r

  -- The cache behind the write of a row: coherent, but for the entry of the row if the write took
  -- effect and was reported as failed.
  abbrev pub CoherentBehind : List Fault → Text → Text → Option ℤ → Service Db → Type 0
  CoherentBehind [] slug scope id svc = Coherent store svc
  CoherentBehind (works ∷ faults) slug scope id svc = Coherent store svc
  CoherentBehind (refused ∷ faults) slug scope id svc = Coherent store svc
  CoherentBehind (lost ∷ faults) slug scope id svc = CoherentBeside slug scope id svc

  execute-Coherent :
      (faults : List Fault) (svc : Service Db) (o : Option Db) (slug scope : Text) (id : Option ℤ)
      → ((db : Db) → o ≡ some db → KeepsRest svc.db db slug scope id)
      → Coherent store svc
      → CoherentBehind faults slug scope id (execute store faults svc o slug scope id).1
  unfolding execute
  execute-Coherent [] svc o slug scope id keeps coh =
      apply_write-Coherent (record svc { faults = [] }) o slug scope id keeps coh
  execute-Coherent (works ∷ faults) svc o slug scope id keeps coh =
      apply_write-Coherent (record svc { faults = faults }) o slug scope id keeps coh
  execute-Coherent (refused ∷ faults) svc o slug scope id keeps coh = coh
  execute-Coherent (lost ∷ faults) svc none slug scope id keeps coh =
      λ slug' ring r other h. coh slug' ring r h
  execute-Coherent (lost ∷ faults) svc (some db) slug scope id keeps coh = λ slug' ring r other h.
      let (rows, defaults) = keeps db refl in
      rw
        (
          answer_at-from db slug' ring,
          rows slug' (scope_name ring) (ring_id ring) other,
          defaults slug',
        )
        (sym (answer_at-from svc.db slug' ring) ∙ coh slug' ring r h)

  -- If every cached entry says what the tables say at its ring, the same holds after set_flag and
  -- after delete_flag, whether the write is answered or fails without an effect; if the connection
  -- is lost behind it, it holds at every ring but that of the written row.
  pub writes-Coherent :
      (svc : Service Db) (slug scope : Text) (id : Option ℤ) (e : Bool)
      → Coherent store svc
      → CoherentBehind svc.faults slug scope id (set_flag store svc slug scope id e).1
        × CoherentBehind svc.faults slug scope id (delete_flag store svc slug scope id).1
  unfolding set_flag delete_flag
  writes-Coherent svc slug scope id e coh = (
    execute-Coherent svc.faults svc _ slug scope id
        (λ db h. upsert-KeepsRest svc.db db slug scope id e h) coh,
    execute-Coherent svc.faults svc _ slug scope id
        (λ db h.
          subst (λ d. KeepsRest svc.db d slug scope id) (some-injective _ _ h)
            (remove-KeepsRest svc.db slug scope id))
        coh,
  )
