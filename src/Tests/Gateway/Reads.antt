-- ===== src/Tests/Gateway/Reads.antt =====
-- Reads of the gateway on concrete inputs.
use codenexus.Prelude.{pos, ◌≡◌, refl, true, false, none, some, codes, text_eq, int_eq, id_eq}
use codenexus.Gateway.Models.{ResolvedFeature, grade_override, default, from_scope_str}
use codenexus.Gateway.Key.Injective.{Ring, grade_ring, cache_key-injective}
use codenexus.Gateway.Service.{
  resolve, resolve_for_class, resolve_from_db, query, query_most_specific_override,
  query_registry_default, get_or, or_else,
}
use codenexus.Gateway.Service.Coherence.{answer_at, effective, Coherent}
use codenexus.Gateway.Service.Database.{resolve_from_db_lem, cached_at}
use codenexus.Gateway.Service.Precedence.{hit, cached_ring, resolve-effective, resolve-Coherent}
use codenexus.Tests.Gateway.{tables, school, fresh}

grade_has_it_off :
    (resolve tables fresh (codes "hints") none (some (pos 3))).0
    ≡ record { enabled = false; source = grade_override }
unfolding resolve resolve_from_db query query_most_specific_override get_or or_else from_scope_str
    text_eq int_eq id_eq
grade_has_it_off = refl

others_have_it_on :
    (resolve tables fresh (codes "hints") none (some (pos 4))).0
    ≡ record { enabled = true; source = default }
unfolding resolve resolve_from_db query query_most_specific_override query_registry_default get_or
    or_else text_eq int_eq id_eq
others_have_it_on = refl

cache_key-injective_example :
    (codes "hints" ≡ codes "hints") × (grade_ring (pos 3) ≡ grade_ring (pos 3))
cache_key-injective_example =
    cache_key-injective (codes "hints") (codes "hints") (grade_ring (pos 3)) (grade_ring (pos 3))
      refl

resolve_from_db_lem_example :
    (ring : Ring) × (r : ResolvedFeature) × (resolve_from_db tables fresh
        (codes "hints")
        none
        none
        (some (pos 3))
      ≡ (r, cached_at tables fresh (codes "hints") none none (some (pos 3)) ring r))
    × (answer_at tables school (codes "hints") ring ≡ some r)
    × (effective tables school (codes "hints") none none (some (pos 3)) ≡ some r)
resolve_from_db_lem_example =
    resolve_from_db_lem tables fresh (codes "hints") none none (some (pos 3)) refl

resolve-effective_example :
    (some (resolve tables fresh (codes "hints") none (some (pos 3))).0
      ≡ effective tables school (codes "hints") none none (some (pos 3)))
    × (some (resolve_for_class tables fresh (codes "hints") (pos 1) none (some (pos 3))).0
        ≡ effective tables school (codes "hints") (some (pos 1)) none (some (pos 3)))
unfolding hit cached_ring or_else
resolve-effective_example =
    resolve-effective tables fresh (codes "hints") (pos 1) none (some (pos 3)) refl refl refl

resolve-Coherent_example :
    Coherent tables (resolve tables fresh (codes "hints") none (some (pos 3))).1
    × Coherent tables (resolve_for_class tables fresh (codes "hints") (pos 1) none (some (pos 3))).1
resolve-Coherent_example =
    resolve-Coherent tables fresh (codes "hints") (pos 1) none (some (pos 3)) refl refl
      (λ slug ring r h. cc)
