-- ===== src/Judge/Processor/Report.antt =====
-- What service.rs reports for a submission.
use mathlib.Core.Path.{subst}
use mathlib.Core.Option.{some-injective}
use codenexus.Prelude.{
  ℕ, ◌+◌, ◌%◌, ◌^◌, ◌≡◌, refl, ap, ◌∙◌, ◌⊎◌, inl, inr, Option, none, some, List, [], ◌∷◌, map,
  arith, Text, codes, text_eq_refl, Bool-cases,
}
use codenexus.Judge.Queue.{SubmissionMessage, TestCaseResult, JudgeResult}
use codenexus.Judge.Processor.Execute.{Machine, TestCase}
use codenexus.Judge.Processor.Compile.{save_source_code, compile_code}
use codenexus.Judge.Processor.{
  Tally, accepted, run_tests, new_tally, judged, unrun, finish, run_all, compiled, with_tests,
  is_compiled, and_then, process_submission_inner,
}
use codenexus.Judge.Processor.Verdict.{first_failure, earned, Adds, run_tests-Adds, and_then-some}

-- A result for test cases that were run: one for each, in their order; the status of the first
-- failure; the points of those that were accepted, in 32 bits.
pub record Judged (cs : List TestCase) (result : JudgeResult) : Type 0 where
  pub ids :
      map (λ (r : TestCaseResult). r.test_case_id) result.test_case_results
      ≡ map (λ (c : TestCase). c.id) cs
  pub status : result.status ≡ first_failure result.test_case_results
  pub score : result.score ≡ some (earned cs result.test_case_results % 2 ^ 32)

-- A result for a submission without test cases, or one that does not compile.
pub record NotRun (result : JudgeResult) : Type 0 where
  pub results : result.test_case_results ≡ []
  pub status : (result.status ≡ codes "runtime_error") ⊎ (result.status ≡ codes "compilation_error")
  pub score : result.score ≡ some 0

zero_plus : (n : ℕ) → (0 + n) % 2 ^ 32 ≡ n % 2 ^ 32
zero_plus n = omega arith

Adds-Judged :
    (submission : SubmissionMessage) (cs : List TestCase) (rs : List TestCaseResult) (t : Tally)
    → Adds cs rs new_tally t
    → Judged cs (judged submission t)
unfolding judged
Adds-Judged submission cs rs t a = record {
  ids = rw a.results a.ids;
  status = rw a.results (a.status ∙ rw (text_eq_refl accepted) refl);
  score = rw a.results (ap (λ n. some n) (a.score ∙ zero_plus (earned cs rs)));
}

module _ (machine : Machine) (submission : SubmissionMessage) where
  open machine use {World, fetch_test_cases}

  run_all-Judged :
      (source : Text) (exe : Option Text) (cs : List TestCase) (w w' : World) (result : JudgeResult)
      → run_all machine submission source exe cs w ≡ (some result, w')
      → Judged cs result
  unfolding run_all finish
  run_all-Judged source exe cs w w' result h =
      go (run_tests machine submission source exe cs new_tally w) refl h
    where
      go :
          (x : Option Tally × World)
          → run_tests machine submission source exe cs new_tally w ≡ x
          → finish machine submission x ≡ (some result, w')
          → Judged cs result
      go (none, w₁) e q = cc
      go (some t, w₁) e q =
          let (rs, a) =
            run_tests-Adds machine submission source exe cs new_tally t w w₁ (omega arith) e in
          subst (Judged cs) (some-injective _ _ (ap (λ p. p.0) q))
            (Adds-Judged submission cs rs t a)

  -- Whatever the compiler does, the submission is judged on the test cases, or not run.
  with_tests_lem :
      (work_dir source : Text) (cs : List TestCase) (w w' : World) (result : JudgeResult)
      → with_tests machine work_dir submission source cs w ≡ (some result, w')
      → NotRun result ⊎ Judged cs result
  unfolding with_tests unrun compiled
  with_tests_lem work_dir source [] w w' result h = inl (
      subst NotRun (some-injective _ _ (ap (λ p. p.0) h))
        (record { results = refl; status = inl refl; score = refl }))
  with_tests_lem work_dir source (c ∷ cs) w w' result h =
      elim (Bool-cases (is_compiled submission.language)) [
        | inl e ↦ go (compile_code machine work_dir source submission.language w) (rw e at h)
        | inr e ↦ inr (run_all-Judged source none (c ∷ cs) w w' result (rw e at h))
      ]
    where
      go :
          (x : Option Text × World)
          → compiled machine submission source (c ∷ cs) x ≡ (some result, w')
          → NotRun result ⊎ Judged (c ∷ cs) result
      go (none, w₁) q = inl (
          subst NotRun (some-injective _ _ (ap (λ p. p.0) q))
            (record { results = refl; status = inr refl; score = refl }))
      go (some path, w₁) q = inr (run_all-Judged source (some path) (c ∷ cs) w₁ w' result q)

  -- If process_submission_inner gives a result, the test cases of the problem were fetched, and
  -- either the submission was not run, with score 0, no results and a runtime or compilation
  -- error, or there is one result for each test case in their order, the status is that of the
  -- first one not accepted, and the score is the sum of the points of the accepted ones in 32
  -- bits.
  pub process_submission_inner-Judged :
      (work_dir : Text) (w w' : World) (result : JudgeResult)
      → process_submission_inner machine work_dir submission w ≡ (some result, w')
      → (cs : List TestCase) × (w₁ : World) × (w₂ : World) × (fetch_test_cases submission.problem_id
            w₁
          ≡ (some cs, w₂))
        × (NotRun result ⊎ Judged cs result)
  unfolding process_submission_inner
  process_submission_inner-Judged work_dir w w' result h =
      let (source, w₁, saved, h₁) =
        and_then-some machine (save_source_code machine work_dir submission w)
          (λ f v.
            and_then machine (fetch_test_cases submission.problem_id v)
              (with_tests machine work_dir submission f))
          result w' h in
      let (cs, w₂, fetched, h₂) =
        and_then-some machine (fetch_test_cases submission.problem_id w₁)
          (with_tests machine work_dir submission source) result w' h₁ in
      (cs, w₁, w₂, fetched, with_tests_lem work_dir source cs w₂ w' result h₂)
