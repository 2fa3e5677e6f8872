-- ===== src/Judge/Processor.antt =====
-- backend/judge-worker/src/processor/service.rs: judging a submission over its test cases. An error
-- that ends a function is `none`. An `i32` is its 32 bits, as a number below 2^32.
pub mod Output
pub mod Execute
pub mod Compile
pub mod Verdict
pub mod Report
pub mod Score
pub mod Memory
use codenexus.Prelude.{
  ℕ, ℤ, ◌+◌, ◌%◌, ◌^◌, Bool, true, false, ◌&&◌, ◌||◌, not, Option, none, some, List, [], ◌∷◌, ◌++◌,
  Text, codes, text_eq, leb, if◌then◌else◌,
}
use codenexus.Judge.Queue.{SubmissionMessage, TestCaseResult, JudgeResult}
use codenexus.Judge.Processor.Output.{normalize_output, is_blank}
use codenexus.Judge.Processor.Compile.{save_source_code, compile_code}
use codenexus.Judge.Processor.Execute.{Machine, TestCase, ExecutionOutput, execute_program}

-- The order of `i32` on its bits, and `max`, which takes the second of two equals.
unfoldable pub rank : ℕ → ℕ
rank n = (n + 2 ^ 31) % 2 ^ 32

unfoldable pub max_i32 : ℕ → ℕ → ℕ
unfolding rank
max_i32 a b = if leb (rank a) (rank b) then b else a

abbrev pub default_memory_kb : ℕ
default_memory_kb = 262_144

abbrev pub accepted : Text
accepted = codes "accepted"

get_or : ℕ → Option ℕ → ℕ
get_or d none = d
get_or d (some n) = n

-- The locals of `process_submission_inner` that its loop changes.
pub record Tally : Type 0 where
  pub final_status : Text
  pub passed_score : ℕ
  pub max_runtime_ms : ℕ
  pub max_memory_kb : ℕ
  pub test_case_results : List TestCaseResult

-- The body of the loop, behind `run_test_case`.
unfoldable pub count : Tally → TestCase → TestCaseResult → Tally
unfolding get_or
count t test_case result = record {
  final_status =
      if not (text_eq result.status accepted) && text_eq t.final_status accepted
      then result.status
      else t.final_status;
  passed_score =
      if text_eq result.status accepted
      then (t.passed_score + test_case.score) % 2 ^ 32
      else t.passed_score;
  max_runtime_ms = max_i32 t.max_runtime_ms (get_or 0 result.runtime_ms);
  max_memory_kb = max_i32 t.max_memory_kb (get_or default_memory_kb result.memory_kb);
  test_case_results = t.test_case_results ++ result ∷ [];
}

abbrev new_tally : Tally
new_tally = record {
  final_status = accepted;
  passed_score = 0;
  max_runtime_ms = 0;
  max_memory_kb = 0;
  test_case_results = [];
}

-- The result of a submission that was not run.
unrun : SubmissionMessage → Text → JudgeResult
unrun submission status = record {
  submission_id = submission.submission_id;
  status = status;
  score = some 0;
  runtime_ms = none;
  memory_kb = some default_memory_kb;
  test_case_results = [];
}

judged : SubmissionMessage → Tally → JudgeResult
judged submission t = record {
  submission_id = submission.submission_id;
  status = t.final_status;
  score = some t.passed_score;
  runtime_ms = some t.max_runtime_ms;
  memory_kb = some (max_i32 t.max_memory_kb default_memory_kb);
  test_case_results = t.test_case_results;
}

is_compiled : Text → Bool
is_compiled language =
    text_eq language (codes "c")
    || text_eq language (codes "cpp")
    || text_eq language (codes "rust")
    || text_eq language (codes "go")
    || text_eq language (codes "java")

unfoldable pub status_of : ExecutionOutput → TestCase → Text
status_of output test_case =
    if not (text_eq output.status accepted)
    then output.status
    else if text_eq (normalize_output output.stdout) (normalize_output test_case.expected_output)
    then accepted
    else codes "wrong_answer"

error_message : Text → Text → Option Text
error_message status stderr =
    if text_eq status (codes "runtime_error") || text_eq status (codes "compilation_error")
    then some stderr
    else if is_blank stderr
    then none
    else some stderr

to_result : TestCase → ExecutionOutput → TestCaseResult
unfolding error_message
to_result test_case output =
    let status = status_of output test_case in
    record {
      test_case_id = test_case.id;
      status = status;
      expected_output = some test_case.expected_output;
      actual_output = some output.stdout;
      error_message = error_message status output.stderr;
      runtime_ms = some output.runtime_ms;
      memory_kb = some output.memory_kb;
    }

module _ (machine : Machine) where
  open machine use {World, fetch_test_cases}

  tested : TestCase → Option ExecutionOutput × World → Option TestCaseResult × World
  unfolding to_result
  tested test_case (none, w) = (none, w)
  tested test_case (some output, w) = (some (to_result test_case output), w)

  unfoldable pub run_test_case :
      SubmissionMessage → Text → Option Text → TestCase → World → Option TestCaseResult × World
  unfolding tested
  run_test_case submission source_file executable_path test_case w =
      tested test_case
        (execute_program machine submission source_file executable_path test_case.input w)

  pub and_then {ℓ κ} :
      {A : Type ℓ}
      → {B : Type κ} → Option A × World
      → (A → World → Option B × World)
      → Option B × World
  and_then (none, w) next = (none, w)
  and_then (some a, w) next = next a w

  unfoldable pub run_tests :
      SubmissionMessage → Text → Option Text → List TestCase → Tally → World → Option Tally × World
  unfolding and_then
  run_tests submission source_file executable_path [] t w = (some t, w)
  run_tests submission source_file executable_path (c ∷ cs) t w =
      and_then (run_test_case submission source_file executable_path c w)
        λ result w₁. run_tests submission source_file executable_path cs (count t c result) w₁

  finish : SubmissionMessage → Option Tally × World → Option JudgeResult × World
  unfolding judged
  finish submission (none, w) = (none, w)
  finish submission (some t, w) = (some (judged submission t), w)

  run_all :
      SubmissionMessage → Text → Option Text → List TestCase → World → Option JudgeResult × World
  unfolding finish
  run_all submission source_file executable_path cs w =
      finish submission (run_tests submission source_file executable_path cs new_tally w)

  compiled :
      SubmissionMessage → Text → List TestCase → Option Text × World → Option JudgeResult × World
  unfolding unrun run_all
  compiled submission source_file cs (none, w) =
      (some (unrun submission (codes "compilation_error")), w)
  compiled submission source_file cs (some path, w) =
      run_all submission source_file (some path) cs w

  with_tests : Text → SubmissionMessage → Text → List TestCase → World → Option JudgeResult × World
  unfolding compiled unrun run_all is_compiled
  with_tests work_dir submission source_file [] w =
      (some (unrun submission (codes "runtime_error")), w)
  with_tests work_dir submission source_file (c ∷ cs) w =
      if is_compiled submission.language
      then compiled submission source_file (c ∷ cs)
          (compile_code machine work_dir source_file submission.language w)
      else run_all submission source_file none (c ∷ cs) w

  unfoldable pub process_submission_inner :
      Text → SubmissionMessage → World → Option JudgeResult × World
  unfolding and_then with_tests
  process_submission_inner work_dir submission w =
      and_then (save_source_code machine work_dir submission w) λ source_file w₁.
        and_then (fetch_test_cases submission.problem_id w₁)
          λ test_cases w₂. with_tests work_dir submission source_file test_cases w₂
