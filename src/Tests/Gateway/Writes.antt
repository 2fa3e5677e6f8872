-- ===== src/Tests/Gateway/Writes.antt =====
-- Writes of the gateway on concrete inputs.
use codenexus.Prelude.{
  pos, ◌≡◌, ◌≢◌, refl, true, false, none, some, [], ◌∷◌, codes, if◌then◌else◌, text_eq, text_eq_iff,
  decimal, display_int, id_eq, int_eq,
}
use mathlib.Core.Bool.{false≢true}
use codenexus.Gateway.Models.{grade_override, class_override}
use codenexus.Gateway.Key.{cache_key, scope_with_id}
use codenexus.Gateway.Key.Injective.{grade_ring, segment}
use codenexus.Gateway.Store.{same_row}
use codenexus.Gateway.Service.{
  Service, refused, lost, done, failed, set_flag, delete_flag, insert, resolve_for_class,
  resolve_from_db, query_most_specific_override,
}
use codenexus.Gateway.Service.Precedence.{cached_ring}
use codenexus.Gateway.Service.Writes.{writes-Coherent, CoherentBehind}
use codenexus.Gateway.Service.Visibility.{class_override_seen}
use codenexus.Gateway.Service.Unscoped.{unscoped_override_ignored}
use codenexus.Tests.Gateway.{Tables, tables, school, empty_cache, fresh}

-- The tables once the class 1 has it on.
abbrev class_on : Tables
class_on = record school {
  flags = λ s c i.
      if same_row (codes "hints") (codes "class") (some (pos 1)) s c i
      then some true
      else school.flags s c i;
}

-- The tables once a class override was stored without saying which class.
abbrev some_class_on : Tables
some_class_on = record school {
  flags = λ s c i.
      if same_row (codes "hints") (codes "class") none s c i then some true else school.flags s c i;
}

-- The connection is lost behind the commit of a write.
abbrev cut_off : Service Tables
cut_off = record fresh { faults = lost ∷ [] }

written_unreported :
    ((set_flag tables cut_off (codes "hints") (codes "class") (some (pos 1)) true).0 ≡ failed)
    × ((set_flag tables cut_off (codes "hints") (codes "class") (some (pos 1)) true).1.db.flags
          (codes "hints")
          (codes "class")
          (some (pos 1))
        ≡ some true)
unfolding set_flag text_eq id_eq int_eq
written_unreported = (refl, refl)

writes-Coherent_example :
    CoherentBehind tables []
      (codes "hints")
      (codes "class")
      (some (pos 1))
      (set_flag tables fresh (codes "hints") (codes "class") (some (pos 1)) true).1
    × CoherentBehind tables []
        (codes "hints")
        (codes "class")
        (some (pos 1))
        (delete_flag tables fresh (codes "hints") (codes "class") (some (pos 1))).1
writes-Coherent_example =
    writes-Coherent tables fresh (codes "hints") (codes "class") (some (pos 1)) true
      (λ slug ring r h. cc)

-- The grade's override was read before.
abbrev warm : Service Tables
warm = record fresh {
  cache =
      insert (cache_key (codes "hints") (segment (grade_ring (pos 3))))
        (record { enabled = false; source = grade_override }) empty_cache;
}

class_override_seen_example :
    (resolve_for_class tables
      (set_flag tables warm (codes "hints") (codes "class") (some (pos 1)) true).1
      (codes "hints")
      (pos 1)
      (some (pos 2))
      (some (pos 4))).0
    ≡ record { enabled = true; source = class_override }
unfolding insert cache_key segment scope_with_id decimal display_int text_eq cached_ring
class_override_seen_example =
    class_override_seen tables warm (codes "hints") (pos 1) true class_on refl refl refl
      (some (pos 2)) (some (pos 4)) refl refl

not_global : codes "class" ≢ codes "global"
unfolding text_eq
not_global e = false≢true ((text_eq_iff (codes "class") (codes "global")).1 e)

unscoped_override_ignored_example :
    let (written, after) = set_flag tables fresh (codes "hints") (codes "class") none true in
    (written ≡ done)
    × (after.db.flags (codes "hints") (codes "class") none ≡ some true)
    × (query_most_specific_override tables after.db
          (codes "hints")
          (some (pos 1))
          none
          (some (pos 3))
          (refused ∷ [])
        ≡ query_most_specific_override tables school
            (codes "hints")
            (some (pos 1))
            none
            (some (pos 3))
            (refused ∷ []))
    × ((resolve_from_db tables
          (record after { faults = refused ∷ [] })
          (codes "hints")
          (some (pos 1))
          none
          (some (pos 3))).0
        ≡ (resolve_from_db tables
            (record fresh { faults = refused ∷ [] })
            (codes "hints")
            (some (pos 1))
            none
            (some (pos 3))).0)
unscoped_override_ignored_example =
    unscoped_override_ignored tables fresh some_class_on (codes "hints") (codes "class") true
      not_global refl refl (codes "hints") (some (pos 1)) none (some (pos 3)) (refused ∷ [])
