-- ===== src/Gateway/Service/Coherence.antt =====
-- What the cache of service.rs may hold, and what an answer from the database is.
use codenexus.Prelude.{ℤ, ◌≡◌, Bool, false, Option, none, some, Text, codes}
use codenexus.Gateway.Models.{
  FeatureSource, default, global_override, campus_override, grade_override, class_override,
  ResolvedFeature,
}
use codenexus.Gateway.Key.{cache_key}
use codenexus.Gateway.Key.Injective.{Ring, everywhere, campus_ring, grade_ring, class_ring, segment}
use codenexus.Gateway.Store.{FlagStore}
use codenexus.Gateway.Service.{Service, or_else}

-- The scope text and the identifier of the rows of a ring.
abbrev pub scope_name : Ring → Text
scope_name everywhere = codes "global"
scope_name (campus_ring i) = codes "campus"
scope_name (grade_ring i) = codes "grade"
scope_name (class_ring i) = codes "class"

abbrev pub ring_id : Ring → Option ℤ
ring_id everywhere = none
ring_id (campus_ring i) = some i
ring_id (grade_ring i) = some i
ring_id (class_ring i) = some i

-- What a ring says of a feature: its override. The outermost ring falls back to the registry, and
-- to "disabled" for an unknown feature.
abbrev pub scoped_answer : FeatureSource → Option Bool → Option ResolvedFeature
scoped_answer source none = none
scoped_answer source (some e) = some (record { enabled = e; source = source })

abbrev pub registered : Option Bool → Bool
registered none = false
registered (some e) = e

abbrev pub global_answer : Option Bool → Option Bool → Option ResolvedFeature
global_answer (some e) d = some (record { enabled = e; source = global_override })
global_answer none d = some (record { enabled = registered d; source = default })

module _ (store : FlagStore) where
  open store use {Db, flag, registry}

  abbrev pub answer_at : Db → Text → Ring → Option ResolvedFeature
  answer_at db slug everywhere =
      global_answer (flag db slug (codes "global") none) (registry db slug)
  answer_at db slug (campus_ring i) =
      scoped_answer campus_override (flag db slug (codes "campus") (some i))
  answer_at db slug (grade_ring i) =
      scoped_answer grade_override (flag db slug (codes "grade") (some i))
  answer_at db slug (class_ring i) =
      scoped_answer class_override (flag db slug (codes "class") (some i))

  -- The precedence of the gateway: class, grade, campus, everywhere.
  abbrev pub at_ring : Db → Text → (ℤ → Ring) → Option ℤ → Option ResolvedFeature
  at_ring db slug ring none = none
  at_ring db slug ring (some i) = answer_at db slug (ring i)

  abbrev pub effective : Db → Text → Option ℤ → Option ℤ → Option ℤ → Option ResolvedFeature
  effective db slug class_id campus_id grade_id = or_else (at_ring db slug class_ring class_id) (
      or_else (at_ring db slug grade_ring grade_id)
        (or_else (at_ring db slug campus_ring campus_id) (answer_at db slug everywhere)))

  -- Every cached entry is what its ring says now.
  abbrev pub Coherent : Service Db → Type 0
  Coherent svc =
      (slug : Text) (ring : Ring) (r : ResolvedFeature)
      → svc.cache (cache_key slug (segment ring)) ≡ some r
      → answer_at svc.db slug ring ≡ some r
