-- ===== src/Gateway/Service/Precedence.antt =====
-- What `resolve` and `resolve_for_class` of service.rs answer.
use codenexus.Prelude.{
  ℤ, ◌≡◌, refl, sym, ◌∙◌, inl, inr, true, false, Option, none, some, [], Text, text_eq, text_eq_iff,
  Bool-cases,
}
use codenexus.Gateway.Models.{ResolvedFeature}
use codenexus.Gateway.Key.{cache_key}
use codenexus.Gateway.Key.Injective.{
  Ring, everywhere, campus_ring, grade_ring, class_ring, segment, cache_key-injective,
}
use codenexus.Gateway.Store.{FlagStore}
use codenexus.Gateway.Service.{
  Service, or_else, insert, answer, resolve, resolve_for_class, emergency_off, Cache,
}
use codenexus.Gateway.Service.Coherence.{answer_at, effective, Coherent}
use codenexus.Gateway.Service.Database.{resolve_from_db_lem, cached_at}

-- The entry that a cache holds for the most specific ring of a context.
unfoldable pub cached_ring : Cache → Text → (ℤ → Ring) → Option ℤ → Option ResolvedFeature
cached_ring cache slug mk none = none
cached_ring cache slug mk (some i) = cache (cache_key slug (segment (mk i)))

unfoldable pub hit : Cache → Text → Option ℤ → Option ℤ → Option ℤ → Option ResolvedFeature
unfolding cached_ring or_else
hit cache slug class_id campus_id grade_id = or_else (cached_ring cache slug class_ring class_id) (
    or_else (cached_ring cache slug grade_ring grade_id) (
      or_else (cached_ring cache slug campus_ring campus_id)
        (cache (cache_key slug (segment everywhere)))))

or_else-none {ℓ} : {A : Type ℓ} (a b : Option A) → or_else a b ≡ none → b ≡ none
unfolding or_else
or_else-none none b h = h
or_else-none (some a) b h = cc

-- Without a hit for a class there is none for what lies around it.
hit_outer :
    (cache : Cache) (slug : Text) (class_id : ℤ) (campus_id grade_id : Option ℤ)
    → hit cache slug (some class_id) campus_id grade_id ≡ none
    → hit cache slug none campus_id grade_id ≡ none
unfolding hit
hit_outer cache slug class_id campus_id grade_id h =
    or_else-none (cache (cache_key slug (segment (class_ring class_id)))) _ h

module _ (store : FlagStore) where
  -- With the gateway switched off, resolve and resolve_for_class answer off by the emergency
  -- switch and leave the state as it is.
  emergency_off-resolve :
      (svc : Service (store.Db)) (slug : Text) (class_id : ℤ) (campus_id grade_id : Option ℤ)
      → svc.enabled ≡ false
      → (resolve store svc slug campus_id grade_id ≡ (emergency_off, svc))
        × (resolve_for_class store svc slug class_id campus_id grade_id ≡ (emergency_off, svc))
  unfolding resolve resolve_for_class
  emergency_off-resolve svc slug class_id campus_id grade_id off = (rw off refl, rw off refl)

  -- Both methods look for a hit, and then ask the database.
  resolve-hit :
      (svc : Service (store.Db)) (slug : Text) (campus_id grade_id : Option ℤ)
      → svc.enabled ≡ true
      → resolve store svc slug campus_id grade_id
        ≡ answer store (hit svc.cache slug none campus_id grade_id) svc slug none campus_id grade_id
  unfolding resolve hit segment
  resolve-hit svc slug none none on = rw on refl
  resolve-hit svc slug none (some g) on = rw on refl
  resolve-hit svc slug (some c) none on = rw on refl
  resolve-hit svc slug (some c) (some g) on = rw on refl

  pub resolve_for_class-hit :
      (svc : Service (store.Db)) (slug : Text) (class_id : ℤ) (campus_id grade_id : Option ℤ)
      → svc.enabled ≡ true
      → resolve_for_class store svc slug class_id campus_id grade_id
        ≡ answer store
            (hit svc.cache slug (some class_id) campus_id grade_id)
            svc
            slug
            (some class_id)
            campus_id
            grade_id
  unfolding resolve_for_class hit segment
  resolve_for_class-hit svc slug c none none on = rw on refl
  resolve_for_class-hit svc slug c none (some g) on = rw on refl
  resolve_for_class-hit svc slug c (some d) none on = rw on refl
  resolve_for_class-hit svc slug c (some d) (some g) on = rw on refl

  answer_miss :
      (svc : Service (store.Db)) (slug : Text) (class_id campus_id grade_id : Option ℤ)
      → svc.faults ≡ []
      → hit svc.cache slug class_id campus_id grade_id ≡ none
      → some
          (answer store
            (hit svc.cache slug class_id campus_id grade_id)
            svc
            slug
            class_id
            campus_id
            grade_id).0
        ≡ effective store svc.db slug class_id campus_id grade_id
  unfolding answer
  answer_miss svc slug class_id campus_id grade_id up miss =
      let (ring, r, e, a, f) = resolve_from_db_lem store svc slug class_id campus_id grade_id up in
      rw (miss, e) (sym f)

  -- With the gateway on, the database up and nothing cached for the context, resolve and
  -- resolve_for_class answer the override of the most specific ring that has one (class, grade,
  -- campus, global), and else the default of the registry, which is off for an unknown feature.
  pub resolve-effective :
      (svc : Service (store.Db)) (slug : Text) (class_id : ℤ) (campus_id grade_id : Option ℤ)
      → svc.enabled ≡ true
      → svc.faults ≡ []
      → hit svc.cache slug (some class_id) campus_id grade_id ≡ none
      → (some (resolve store svc slug campus_id grade_id).0
          ≡ effective store svc.db slug none campus_id grade_id)
        × (some (resolve_for_class store svc slug class_id campus_id grade_id).0
            ≡ effective store svc.db slug (some class_id) campus_id grade_id)
  resolve-effective svc slug class_id campus_id grade_id on up miss = (
    rw (resolve-hit svc slug campus_id grade_id on) (
        answer_miss svc slug none campus_id grade_id up
          (hit_outer _ slug class_id campus_id grade_id miss)),
    rw (resolve_for_class-hit svc slug class_id campus_id grade_id on)
        (answer_miss svc slug (some class_id) campus_id grade_id up miss),
  )

  cached_at-Coherent :
      (svc : Service (store.Db)) (slug : Text) (c g d : Option ℤ) (ring : Ring)
      (r : ResolvedFeature)
      → answer_at store svc.db slug ring ≡ some r
      → Coherent store svc
      → Coherent store (cached_at store svc slug c g d ring r)
  unfolding insert
  cached_at-Coherent svc slug c g d ring r says coh slug' ring' r' h =
      elim (Bool-cases
        (text_eq (cache_key slug (segment ring)) (cache_key slug' (segment ring')))) [
          | inl same ↦
              let keys =
                (text_eq_iff (cache_key slug (segment ring)) (cache_key slug' (segment ring'))).0
                  same in
              let (s, q) = cache_key-injective slug slug' ring ring' keys in
              rw (← s, ← q) (says ∙ (rw same at h))
          | inr other ↦ coh slug' ring' r' (rw other at h)
        ]

  -- The state behind an answer is coherent if the one before was.
  answer-Coherent :
      (svc : Service (store.Db)) (o : Option ResolvedFeature) (slug : Text) (c d g : Option ℤ)
      → svc.faults ≡ []
      → Coherent store svc
      → Coherent store (answer store o svc slug c d g).1
  unfolding answer
  answer-Coherent svc (some r) slug c d g up coh = coh
  answer-Coherent svc none slug c d g up coh =
      let (ring, r, e, a, f) = resolve_from_db_lem store svc slug c d g up in
      rw e (cached_at-Coherent svc slug c d g ring r a coh)

  -- With the gateway on and the database up, resolve and resolve_for_class keep every cached entry
  -- equal to what the tables say at its ring.
  pub resolve-Coherent :
      (svc : Service (store.Db)) (slug : Text) (class_id : ℤ) (campus_id grade_id : Option ℤ)
      → svc.enabled ≡ true
      → svc.faults ≡ []
      → Coherent store svc
      → Coherent store (resolve store svc slug campus_id grade_id).1
        × Coherent store (resolve_for_class store svc slug class_id campus_id grade_id).1
  resolve-Coherent svc slug class_id campus_id grade_id on up coh = (
    rw (resolve-hit svc slug campus_id grade_id on)
        (answer-Coherent svc _ slug none campus_id grade_id up coh),
    rw (resolve_for_class-hit svc slug class_id campus_id grade_id on)
        (answer-Coherent svc _ slug (some class_id) campus_id grade_id up coh),
  )
