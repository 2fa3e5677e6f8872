-- ===== src/Submissions/Routes.antt =====
-- `update_judge_result` of backend/domain-submissions/src/routes.rs, the callback of the judge worker.
-- A secret is the list of its bytes. The texts of the answers are left out.
pub mod Secret
pub mod Guarded
use Prim.Native.Nat.{bit_or, bit_xor}
use codenexus.Prelude.{
  ℕ, ◌==◌, ℤ, int_eq, Bool, true, false, ◌&&◌, Option, none, some, List, [], ◌∷◌, Text, length,
  if◌then◌else◌,
}
use codenexus.Submissions.Results.{
  Tables, TestCaseResultInput, JudgeUpdate, updated, already_processed, not_found, database,
  terminal_state, invalid_transition, invalid_test_case_status, update_judge_result_transactional,
}

pub record JudgeResultCallback : Type 0 where
  pub submission_id : ℤ
  pub status : Text
  pub score : Option ℕ
  pub runtime_ms : Option ℕ
  pub memory_kb : Option ℕ
  pub test_case_results : List TestCaseResultInput

pub data Answer : Type 0 where
  ok_updated ok_already_processed auth_error validation_error database_error : Answer

-- `unwrap_or("")`
unfoldable pub or_empty : Option (List ℕ) → List ℕ
or_empty none = []
or_empty (some bytes) = bytes

fold_differences : ℕ → List ℕ → List ℕ → ℕ
fold_differences acc (a ∷ rest) (b ∷ others) =
    fold_differences (bit_or acc (bit_xor a b)) rest others
fold_differences acc _ _ = acc

unfoldable pub secret_valid : List ℕ → List ℕ → Bool
unfolding fold_differences
secret_valid provided expected =
    length provided == length expected && fold_differences 0 provided expected == 0

respond : JudgeUpdate → Answer
respond updated = ok_updated
respond already_processed = ok_already_processed
respond database = database_error
respond _ = validation_error

module _ (tables : Tables) where
  open tables use {Db}

  answered : JudgeUpdate × Db → Answer × Db
  unfolding respond
  answered (outcome, db) = (respond outcome, db)

  unfoldable pub update_judge_result :
      List Bool → List ℕ → Option (List ℕ) → ℤ → JudgeResultCallback → Db → Answer × Db
  unfolding or_empty secret_valid answered
  update_judge_result faults worker_secret header id result db =
      if secret_valid (or_empty header) worker_secret
      then if int_eq id result.submission_id
        then answered (
            update_judge_result_transactional tables faults db id result.status result.score
              result.runtime_ms result.memory_kb result.test_case_results)
        else (validation_error, db)
      else (auth_error, db)
