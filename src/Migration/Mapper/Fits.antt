-- ===== src/Migration/Mapper/Fits.antt =====
-- What backend/migration-tool/src/mapper.rs gives is what backend/domain-submissions/src/service.rs knows.
use mathlib.Core.Path.{subst}
use codenexus.Prelude.{
  ◌≡◌, refl, Bool, true, false, Option, none, some, Text, codes, text_eq, any, if◌then◌else◌, ◌||◌,
}
use codenexus.Submissions.Status.{is_terminal_status, normalize_submission_language}
use codenexus.Migration.Mapper.{map_language, map_status_verdict}

abbrev pub has_verdict : Option Text → Bool
has_verdict none = false
has_verdict (some t) = true

abbrev Agrees : Text × Option Text → Type 0
Agrees p = is_terminal_status p.0 ≡ has_verdict p.1

verdict-Agrees : (result : Text) → Agrees (map_status_verdict (some result))
unfolding map_status_verdict is_terminal_status text_eq any
verdict-Agrees result =
    by_test (text_eq result (codes "Accepted")) (text_eq result (codes "Wrong Answer"))
      (text_eq result (codes "Runtime Error")) (text_eq result (codes "Time Limit Exceeded"))
      (text_eq result (codes "Memory Limit Exceeded"))
      (text_eq result (codes "Output Limit Exceeded")) (text_eq result (codes "Compile Error"))
      (text_eq result (codes "System Error"))
  where
    by_test :
        (a b c d e f g h : Bool)
        → Agrees (
            if a
            then (codes "judged", some (codes "ac"))
            else if b
            then (codes "judged", some (codes "wa"))
            else if c
            then (codes "judged", some (codes "rte"))
            else if d
            then (codes "judged", some (codes "tle"))
            else if e
            then (codes "judged", some (codes "mle"))
            else if f
            then (codes "judged", some (codes "ole"))
            else if g
            then (codes "failed", some (codes "ce"))
            else if h
            then (codes "failed", some (codes "ie"))
            else (codes "queued", none))
    by_test true b c d e f g h = refl
    by_test false true c d e f g h = refl
    by_test false false true d e f g h = refl
    by_test false false false true e f g h = refl
    by_test false false false false true f g h = refl
    by_test false false false false false true g h = refl
    by_test false false false false false false true h = refl
    by_test false false false false false false false true = refl
    by_test false false false false false false false false = refl

-- A migrated result gets a verdict exactly if its status is one that the submission service treats
-- as terminal.
pub map_status_verdict-terminal :
    (result : Option Text)
    → is_terminal_status (map_status_verdict result).0 ≡ has_verdict (map_status_verdict result).1
unfolding map_status_verdict is_terminal_status text_eq any
map_status_verdict-terminal none = refl
map_status_verdict-terminal (some result) = verdict-Agrees result

-- A language that submissions are stored with.
abbrev Stored : Option Text → Type 0
Stored none = Unit
Stored (some x) = normalize_submission_language x ≡ some x

language-Stored : (lang : Text) → Stored (map_language lang)
unfolding map_language normalize_submission_language text_eq
language-Stored lang =
    by_test (text_eq lang (codes "C"))
      (text_eq lang (codes "C++")
        || (text_eq lang (codes "C++11")
            || (text_eq lang (codes "C++17") || text_eq lang (codes "C++20"))))
      (text_eq lang (codes "Python3"))
  where
    by_test :
        (a b c : Bool)
        → Stored (
            if a
            then some (codes "c")
            else if b
            then some (codes "cpp")
            else if c
            then some (codes "python3")
            else none)
    by_test true b c = refl
    by_test false true c = refl
    by_test false false true = refl
    by_test false false false = tt

map_language-normalized :
    (lang x : Text) → map_language lang ≡ some x → normalize_submission_language x ≡ some x
map_language-normalized lang x h = subst Stored h (language-Stored lang)
