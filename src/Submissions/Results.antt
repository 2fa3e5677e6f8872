-- ===== src/Submissions/Results.antt =====
-- `update_judge_result_transactional` of backend/domain-submissions/src/service.rs, with the two tables
-- and their statements as the manual of PostgreSQL has them. Each statement takes one element of
-- `faults`: `true` means that it fails. When the list is used up, statements succeed. A transaction
-- that ends in an error is rolled back; a commit that takes effect and is reported as failed is not
-- modelled.
pub mod Written
use codenexus.Prelude.{
  ℕ, ℤ, int_eq, ◌≡◌, Bool, true, false, ◌&&◌, Option, none, some, List, [], ◌∷◌, Text, codes,
  if◌then◌else◌,
}
use codenexus.Submissions.Status.{
  one_of, is_terminal_status, normalize_judge_status, map_verdict, eq_ignore_ascii_case,
}

-- The columns of `submissions` that the update sets; an `i32` is its 32 bits.
pub record Row : Type 0 where
  pub status : Option Text
  pub verdict : Option Text
  pub score : Option ℕ
  pub time_ms : Option ℕ
  pub memory_kb : Option ℕ

pub record TestRow : Type 0 where
  pub verdict : Text
  pub expected_output : Option Text
  pub actual_output : Option Text
  pub error_message : Option Text
  pub time_ms : Option ℕ
  pub memory_kb : Option ℕ

-- Only a row that is there is changed.
abbrev pub changed : Row → Option Row → Option Row
changed new none = none
changed new (some old) = some new

pub record Tables : Type 1 where
  pub Db : Type 0
  pub submission : Db → ℤ → Option Row
  pub test_result : Db → ℤ → ℤ → Option TestRow
  -- UPDATE submissions SET .. WHERE id
  pub update : Db → ℤ → Row → Db
  -- INSERT INTO test_case_results .. ON CONFLICT (submission_id, test_case_id) DO UPDATE
  pub upsert : Db → ℤ → ℤ → TestRow → Db
  pub submission-update :
      (db : Db) (id : ℤ) (r : Row) (id' : ℤ)
      → submission (update db id r) id'
        ≡ (if int_eq id id' then changed r (submission db id') else submission db id')
  pub test_result-update :
      (db : Db) (id : ℤ) (r : Row) (id' tc' : ℤ)
      → test_result (update db id r) id' tc' ≡ test_result db id' tc'
  pub submission-upsert :
      (db : Db) (id tc : ℤ) (r : TestRow) (id' : ℤ)
      → submission (upsert db id tc r) id' ≡ submission db id'
  pub test_result-upsert :
      (db : Db) (id tc : ℤ) (r : TestRow) (id' tc' : ℤ)
      → test_result (upsert db id tc r) id' tc'
        ≡ (if int_eq id id' && int_eq tc tc' then some r else test_result db id' tc')

pub record TestCaseResultInput : Type 0 where
  pub test_case_id : ℤ
  pub status : Text
  pub expected_output : Option Text
  pub actual_output : Option Text
  pub error_message : Option Text
  pub runtime_ms : Option ℕ
  pub memory_kb : Option ℕ

-- `JudgeUpdateOutcome` and `JudgeUpdateError`; the database's error is left out.
pub data JudgeUpdate : Type 0 where
  updated already_processed not_found database : JudgeUpdate
  terminal_state : Text → JudgeUpdate
  invalid_transition : Text → Text → JudgeUpdate
  invalid_test_case_status : Text → JudgeUpdate

-- `fetch_optional(..).flatten()`
unfoldable pub status_of : Option Row → Option Text
status_of none = none
status_of (some row) = row.status

abbrev pub open_statuses : List Text
open_statuses = codes "pending" ∷ codes "queued" ∷ codes "judging" ∷ []

abbrev pub test_row : Text → TestCaseResultInput → TestRow
test_row verdict tc = record {
  verdict = verdict;
  expected_output = tc.expected_output;
  actual_output = tc.actual_output;
  error_message = tc.error_message;
  time_ms = tc.runtime_ms;
  memory_kb = tc.memory_kb;
}

module _ (tables : Tables) where
  open tables use {Db, submission, update, upsert}

  -- A statement within the transaction that began at `db`, and what follows it.
  statement : Db → List Bool → (List Bool → JudgeUpdate × Db) → JudgeUpdate × Db
  statement db [] next = next []
  statement db (true ∷ faults) next = (database, db)
  statement db (false ∷ faults) next = next faults

  module _ (submission_id : ℤ) (db : Db) where
    with_verdict : Option Text → TestCaseResultInput → (Text → JudgeUpdate × Db) → JudgeUpdate × Db
    with_verdict none tc next = (invalid_test_case_status tc.status, db)
    with_verdict (some verdict) tc next = next verdict

    -- The loop over the test cases, on the tables as the transaction sees them, and the commit.
    insert_all : List TestCaseResultInput → List Bool → Db → JudgeUpdate × Db
    unfolding statement with_verdict
    insert_all [] faults seen = statement db faults λ f. (updated, seen)
    insert_all (tc ∷ tcs) faults seen = with_verdict (map_verdict tc.status) tc λ verdict.
        statement db faults
          λ f. insert_all tcs f (upsert seen submission_id tc.test_case_id (test_row verdict tc))

    write : Row → List TestCaseResultInput → List Bool → JudgeUpdate × Db
    unfolding insert_all
    write row tcs faults = statement db faults λ f. insert_all tcs f (update db submission_id row)

    -- Behind the SELECT .. FOR UPDATE.
    decide : Option Text → Text → Row → List TestCaseResultInput → List Bool → JudgeUpdate × Db
    unfolding write
    decide none target row tcs faults = (not_found, db)
    decide (some current) target row tcs faults =
        if eq_ignore_ascii_case current target
        then (already_processed, db)
        else if is_terminal_status current
        then (terminal_state current, db)
        else if one_of open_statuses current
        then write row tcs faults
        else (invalid_transition current target, db)

  unfoldable pub update_judge_result_transactional :
      List Bool
      → Db
      → ℤ
      → Text
      → Option ℕ
      → Option ℕ
      → Option ℕ
      → List TestCaseResultInput
      → JudgeUpdate × Db
  unfolding decide status_of
  update_judge_result_transactional faults db submission_id status score runtime_ms memory_kb tcs =
      let row : Row = record {
        status = some (normalize_judge_status status);
        verdict = map_verdict status;
        score = score;
        time_ms = runtime_ms;
        memory_kb = memory_kb;
      } in
      statement db faults λ begun. statement db begun λ selected.
        decide submission_id db (status_of (submission db submission_id))
          (normalize_judge_status status) row tcs selected
