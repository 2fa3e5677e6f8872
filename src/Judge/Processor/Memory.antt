-- ===== src/Judge/Processor/Memory.antt =====
-- The memory that service.rs reports.
use mathlib.Core.Path.{subst}
use mathlib.Core.Option.{some-injective}
use codenexus.Prelude.{
  ℕ, ◌≤◌, ◌≡◌, refl, ap, Option, none, some, List, [], ◌∷◌, arith, Text, codes, Bool-cases, inl,
  inr,
}
use codenexus.Judge.Queue.{SubmissionMessage, JudgeResult}
use codenexus.Judge.Processor.Execute.{Machine, TestCase}
use codenexus.Judge.Processor.Compile.{save_source_code, compile_code}
use codenexus.Judge.Processor.{
  Tally, rank, max_i32, default_memory_kb, run_tests, new_tally, judged, unrun, finish, run_all,
  compiled, with_tests, is_compiled, and_then, process_submission_inner,
}
use codenexus.Judge.Processor.Verdict.{and_then-some}

max_i32-ge : (a b : ℕ) → rank b ≤ rank (max_i32 a b)
unfolding max_i32
max_i32-ge a b = ground arith

abbrev Floor : JudgeResult → Type 0
Floor result = (k : ℕ) × (result.memory_kb ≡ some k) × (rank default_memory_kb ≤ rank k)

module _ (machine : Machine) (submission : SubmissionMessage) where
  open machine use {World, fetch_test_cases}

  unrun-Floor : (status : Text) → Floor (unrun submission status)
  unfolding unrun
  unrun-Floor status = (default_memory_kb, refl, omega arith)

  finish-Floor :
      (x : Option Tally × World) (w' : World) (result : JudgeResult)
      → finish machine submission x ≡ (some result, w')
      → Floor result
  unfolding finish judged
  finish-Floor (none, w) w' result h = cc
  finish-Floor (some t, w) w' result h = subst Floor (some-injective _ _ (ap (λ p. p.0) h)) (
    max_i32 t.max_memory_kb default_memory_kb,
    refl,
    max_i32-ge t.max_memory_kb default_memory_kb,
  )

  compiled-Floor :
      (source : Text) (cs : List TestCase) (x : Option Text × World) (w' : World)
      (result : JudgeResult)
      → compiled machine submission source cs x ≡ (some result, w')
      → Floor result
  unfolding compiled run_all
  compiled-Floor source cs (none, w) w' result h =
      subst Floor (some-injective _ _ (ap (λ p. p.0) h)) (unrun-Floor (codes "compilation_error"))
  compiled-Floor source cs (some path, w) w' result h =
      finish-Floor (run_tests machine submission source (some path) cs new_tally w) w' result h

  with_tests-Floor :
      (work_dir source : Text) (cs : List TestCase) (w w' : World) (result : JudgeResult)
      → with_tests machine work_dir submission source cs w ≡ (some result, w')
      → Floor result
  unfolding with_tests run_all
  with_tests-Floor work_dir source [] w w' result h =
      subst Floor (some-injective _ _ (ap (λ p. p.0) h)) (unrun-Floor (codes "runtime_error"))
  with_tests-Floor work_dir source (c ∷ cs) w w' result h =
      elim (Bool-cases (is_compiled submission.language)) [
        | inl e ↦
            compiled-Floor source (c ∷ cs)
              (compile_code machine work_dir source submission.language w) w' result (rw e at h)
        | inr e ↦
            finish-Floor (run_tests machine submission source none (c ∷ cs) new_tally w) w' result
              (rw e at h)
      ]

  -- If process_submission_inner gives a result, the memory that it reports is at least 262144 KB,
  -- in the order of i32.
  pub process_submission_inner-memory :
      (work_dir : Text) (w w' : World) (result : JudgeResult)
      → process_submission_inner machine work_dir submission w ≡ (some result, w')
      → (k : ℕ) × (result.memory_kb ≡ some k) × (rank default_memory_kb ≤ rank k)
  unfolding process_submission_inner
  process_submission_inner-memory work_dir w w' result h =
      let (source, w₁, saved, h₁) =
        and_then-some machine (save_source_code machine work_dir submission w)
          (λ f v.
            and_then machine (fetch_test_cases submission.problem_id v)
              (with_tests machine work_dir submission f))
          result w' h in
      let (cs, w₂, fetched, h₂) =
        and_then-some machine (fetch_test_cases submission.problem_id w₁)
          (with_tests machine work_dir submission source) result w' h₁ in
      with_tests-Floor work_dir source cs w₂ w' result h₂
