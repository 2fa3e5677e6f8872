-- ===== src/Tests/Submissions.antt =====
-- The results of submissions on concrete inputs, in tables that are functions.
use codenexus.Prelude.{
  ℕ, ℤ, pos, int_eq, ◌≡◌, ◌⊎◌, ◌↔◌, refl, true, ◌&&◌, Option, none, some, List, [], ◌∷◌, codes,
  text_eq, ascii_lower, any, if◌then◌else◌,
}
use codenexus.Submissions.Status.{
  is_terminal_status, normalize_judge_status, map_verdict, eq_ignore_ascii_case,
}
use codenexus.Submissions.Results.{
  Row, TestRow, Tables, TestCaseResultInput, updated, changed, status_of,
  update_judge_result_transactional,
}
use codenexus.Submissions.Results.Written.{Done, Waiting, target_row, update-Done}
use codenexus.Submissions.Results.Written.Stays.{Callback, Same, call, calls, judged_once}
use codenexus.Submissions.Routes.{
  JudgeResultCallback, ok_updated, auth_error, or_empty, secret_valid, update_judge_result,
}
use codenexus.Submissions.Routes.Secret.{secret_valid_iff}
use codenexus.Submissions.Routes.Guarded.{update_judge_result-guarded}

abbrev Store : Type 0
Store = (ℤ → Option Row) × (ℤ → ℤ → Option TestRow)

abbrev tables : Tables
tables = record {
  Db = Store;
  submission = λ db. db.0;
  test_result = λ db. db.1;
  update =
      λ db id r. ((λ other. if int_eq id other then changed r (db.0 other) else db.0 other), db.1);
  upsert = λ db id tc r.
      (db.0, (λ other t. if int_eq id other && int_eq tc t then some r else db.1 other t));
  submission-update = λ db id r other. refl;
  test_result-update = λ db id r other t. refl;
  submission-upsert = λ db id tc r other. refl;
  test_result-upsert = λ db id tc r other t. refl;
}

-- Submission 7 is judged at the moment.
abbrev start : Store
start = (
  (λ id.
      if int_eq id (pos 7)
      then some (record {
        status = some (codes "judging");
        verdict = none;
        score = none;
        time_ms = none;
        memory_kb = none;
      })
      else none),
  λ id tc. none,
)

abbrev passed : TestCaseResultInput
passed = record {
  test_case_id = pos 1;
  status = codes "accepted";
  expected_output = none;
  actual_output = none;
  error_message = none;
  runtime_ms = some 5;
  memory_kb = none;
}

abbrev accepted_callback : Callback tables
accepted_callback = record {
  submission_id = pos 7;
  faults = [];
  status = codes "accepted";
  score = some 100;
  runtime_ms = none;
  memory_kb = none;
  tests = passed ∷ [];
}

abbrev failed_callback : Callback tables
failed_callback = record {
  submission_id = pos 7;
  faults = [];
  status = codes "failed";
  score = none;
  runtime_ms = none;
  memory_kb = none;
  tests = [];
}

accepted_is_updated : (call tables accepted_callback start).0 ≡ updated
unfolding update_judge_result_transactional normalize_judge_status is_terminal_status map_verdict
    eq_ignore_ascii_case ascii_lower text_eq any int_eq status_of
accepted_is_updated = refl

accepted_is_terminal : is_terminal_status (codes "accepted") ≡ true
unfolding is_terminal_status text_eq
accepted_is_terminal = refl

judged_once_example :
    Same tables
      (pos 7)
      (call tables accepted_callback start).1
      (calls tables (failed_callback ∷ []) (call tables accepted_callback start).1)
judged_once_example =
    judged_once tables accepted_callback start (failed_callback ∷ []) accepted_is_updated
      accepted_is_terminal

update-Done_example :
    Done tables
      (pos 7)
      start
      (update_judge_result_transactional tables [] start
        (pos 7)
        (codes "accepted")
        (some 100)
        none
        none
        (passed ∷ []))
      (target_row tables (pos 7) start (codes "accepted") (some 100) none none)
      (passed ∷ [])
update-Done_example =
    update-Done tables (pos 7) start [] (codes "accepted") (some 100) none none (passed ∷ [])

abbrev posted_result : JudgeResultCallback
posted_result = record {
  submission_id = pos 7;
  status = codes "accepted";
  score = some 100;
  runtime_ms = none;
  memory_kb = none;
  test_case_results = passed ∷ [];
}

without_secret :
    update_judge_result tables [] (1 ∷ 2 ∷ []) (some (1 ∷ 3 ∷ [])) (pos 7) posted_result start
    ≡ (auth_error, start)
unfolding update_judge_result or_empty secret_valid
without_secret = refl

abbrev secret : List ℕ
secret = 1 ∷ 2 ∷ []

abbrev guess : List ℕ
guess = 1 ∷ 3 ∷ []

secret_valid_iff_example : (secret_valid guess secret ≡ true) ↔ (guess ≡ secret)
secret_valid_iff_example = secret_valid_iff guess secret

update_judge_result-guarded_example :
    ((update_judge_result tables [] (1 ∷ 2 ∷ []) (some (1 ∷ 2 ∷ [])) (pos 7) posted_result start).1
      ≡ start)
    ⊎ ((or_empty (some (1 ∷ 2 ∷ [])) ≡ 1 ∷ 2 ∷ [])
        × (pos 7 ≡ pos 7)
        × Waiting tables (pos 7) start (status_of (start.0 (pos 7)))
        × ((update_judge_result tables []
              (1 ∷ 2 ∷ [])
              (some (1 ∷ 2 ∷ []))
              (pos 7)
              posted_result
              start).0
            ≡ ok_updated))
update_judge_result-guarded_example =
    update_judge_result-guarded tables [] (1 ∷ 2 ∷ []) (some (1 ∷ 2 ∷ [])) (pos 7) posted_result
      start
