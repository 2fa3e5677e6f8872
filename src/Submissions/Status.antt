-- ===== src/Submissions/Status.antt =====
-- The texts of backend/domain-submissions/src/service.rs: statuses, verdicts, languages and streams.
use codenexus.Prelude.{
  ◌≡◌, refl, ℤ, Bool, true, false, ◌||◌, Option, none, some, List, [], ◌∷◌, Text, codes, text_eq,
  ascii_lower, map, any, if◌then◌else◌,
}

-- `matches!(s, "..." | ..)`
abbrev pub one_of : List Text → Text → Bool
one_of names s = any (text_eq s) names

abbrev pub terminal_statuses : List Text
terminal_statuses =
    codes "accepted"
    ∷ codes "wrong_answer"
    ∷ codes "runtime_error"
    ∷ codes "compile_error"
    ∷ codes "compilation_error"
    ∷ codes "time_limit_exceeded"
    ∷ codes "memory_limit_exceeded"
    ∷ codes "system_error"
    ∷ codes "judged"
    ∷ codes "failed"
    ∷ []

unfoldable pub is_terminal_status : Text → Bool
unfolding any
is_terminal_status status = one_of terminal_statuses status

abbrev pub judged_statuses : List Text
judged_statuses =
    codes "accepted"
    ∷ codes "wrong_answer"
    ∷ codes "runtime_error"
    ∷ codes "time_limit_exceeded"
    ∷ codes "memory_limit_exceeded"
    ∷ codes "compile_error"
    ∷ codes "compilation_error"
    ∷ []

unfoldable pub normalize_judge_status : Text → Text
unfolding any
normalize_judge_status status =
    if one_of judged_statuses status
    then codes "judged"
    else if text_eq status (codes "failed")
    then codes "failed"
    else status

unfoldable pub map_verdict : Text → Option Text
map_verdict status =
    if text_eq status (codes "accepted")
    then some (codes "ac")
    else if text_eq status (codes "wrong_answer")
    then some (codes "wa")
    else if text_eq status (codes "runtime_error")
    then some (codes "rte")
    else if text_eq status (codes "time_limit_exceeded")
    then some (codes "tle")
    else if text_eq status (codes "memory_limit_exceeded")
    then some (codes "mle")
    else if text_eq status (codes "compile_error") || text_eq status (codes "compilation_error")
    then some (codes "ce")
    else if text_eq status (codes "system_error") || text_eq status (codes "failed")
    then some (codes "ie")
    else none

unfoldable pub normalize_submission_language : Text → Option Text
normalize_submission_language language =
    if text_eq language (codes "python") || text_eq language (codes "python3")
    then some (codes "python3")
    else if text_eq language (codes "c")
    then some (codes "c")
    else if text_eq language (codes "cpp") || text_eq language (codes "c++")
    then some (codes "cpp")
    else none

-- An error is `none`.
unfoldable pub resolve_queue_stream_name : Option ℤ → Bool → Option Text
resolve_queue_stream_name (some cid) true = some (codes "submissions:contest")
resolve_queue_stream_name (some cid) false = none
resolve_queue_stream_name none contest_active = some (codes "submissions")

unfoldable pub eq_ignore_ascii_case : Text → Text → Bool
eq_ignore_ascii_case s t = text_eq (map ascii_lower s) (map ascii_lower t)

pub terminal_judged : is_terminal_status (codes "judged") ≡ true
unfolding is_terminal_status text_eq
terminal_judged = refl

pub terminal_failed : is_terminal_status (codes "failed") ≡ true
unfolding is_terminal_status text_eq
terminal_failed = refl
