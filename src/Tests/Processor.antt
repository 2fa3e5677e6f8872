-- ===== src/Tests/Processor.antt =====
-- Judging on concrete inputs, on a machine that prints the number three.
use codenexus.Prelude.{
  ℕ, pos, ◌%◌, ◌^◌, ◌≤◌, ◌≡◌, refl, ◌⊎◌, true, false, none, some, List, [], ◌∷◌, map, codes,
  text_eq, is_whitespace, trim_start_matches, All,
}
use codenexus.Judge.Queue.{SubmissionMessage, TestCaseResult, JudgeResult}
use codenexus.Judge.Processor.Execute.{
  TestCase, Report, exited, Machine, execute_program, effective_time_limit, build_runtime_command,
  waited, measured_memory_kb,
}
use codenexus.Judge.Processor.Compile.{save_source_code}
use codenexus.Judge.Processor.Output.{normalize_output, trim_end, trim, is_blank}
use codenexus.Judge.Processor.{
  accepted, rank, max_i32, default_memory_kb, count, status_of, run_test_case, run_tests,
  process_submission_inner,
}
use codenexus.Judge.Processor.Report.{Judged, NotRun, process_submission_inner-Judged}
use codenexus.Judge.Processor.Score.{total, process_submission_inner-full}
use codenexus.Judge.Processor.Memory.{process_submission_inner-memory}

abbrev printed : Report
printed = record {
  stdout = codes "3 \n";
  stderr = [];
  elapsed_ms = 12;
  memory_peak = some 2_097_152;
}

abbrev cases : List TestCase
cases =
    record {
      id = pos 10;
      input = codes "1 2";
      expected_output = codes "3";
      is_hidden = false;
      score = 40;
    }
    ∷ record {
      id = pos 11;
      input = codes "0 3";
      expected_output = codes "3\n";
      is_hidden = true;
      score = 60;
    }
    ∷ []

abbrev three : Machine
three = record {
  World = Unit {0};
  write_file = λ path content w. (true, w);
  fetch_test_cases = λ problem w. (some cases, w);
  run_compiler = λ command w. (true, w);
  prepare = λ input limit bytes w. (true, w);
  run = λ command limit w. (exited true printed, w);
}

abbrev solution : SubmissionMessage
solution = record {
  submission_id = pos 42;
  problem_id = pos 1;
  user_id = 7;
  language = codes "python3";
  source_code = codes "print(3)";
  time_limit_ms = 1000;
  memory_limit_mb = 256;
  contest_id = none;
}

spaces_ignored : normalize_output (codes " a  \n\nb\n\n") ≡ codes "a\n\nb"
unfolding normalize_output trim_end trim trim_start_matches is_whitespace
spaces_ignored = refl

abbrev case_result : TestCase → TestCaseResult
case_result c = record {
  test_case_id = c.id;
  status = accepted;
  expected_output = some c.expected_output;
  actual_output = some (codes "3 \n");
  error_message = none;
  runtime_ms = some 12;
  memory_kb = some 2048;
}

abbrev all_passed : JudgeResult
all_passed = record {
  submission_id = pos 42;
  status = accepted;
  score = some 100;
  runtime_ms = some 12;
  memory_kb = some 262_144;
  test_case_results = map case_result cases;
}

judged_three :
    process_submission_inner three (codes "/tmp/judge/1") solution tt ≡ (some all_passed, tt)
unfolding process_submission_inner save_source_code run_tests run_test_case execute_program
    effective_time_limit build_runtime_command waited measured_memory_kb status_of normalize_output
    trim_end trim trim_start_matches is_whitespace is_blank count max_i32 rank text_eq
judged_three = refl

process_submission_inner-Judged_example :
    (cs : List TestCase) × (w₁ : Unit {0}) × (w₂ : Unit {0}) × (three.fetch_test_cases (pos 1) w₁
      ≡ (some cs, w₂))
    × (NotRun all_passed ⊎ Judged cs all_passed)
process_submission_inner-Judged_example =
    process_submission_inner-Judged three solution (codes "/tmp/judge/1") tt tt all_passed
      judged_three

process_submission_inner-full_example :
    (cs : List TestCase) × (w₁ : Unit {0}) × (w₂ : Unit {0}) × (three.fetch_test_cases (pos 1) w₁
      ≡ (some cs, w₂))
    × All (λ (r : TestCaseResult). r.status ≡ accepted) all_passed.test_case_results
    × (all_passed.score ≡ some (total cs % 2 ^ 32))
process_submission_inner-full_example =
    process_submission_inner-full three solution (codes "/tmp/judge/1") tt tt all_passed
      judged_three refl

process_submission_inner-memory_example :
    (k : ℕ) × (all_passed.memory_kb ≡ some k) × (rank default_memory_kb ≤ rank k)
process_submission_inner-memory_example =
    process_submission_inner-memory three solution (codes "/tmp/judge/1") tt tt all_passed
      judged_three
