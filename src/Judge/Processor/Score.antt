-- ===== src/Judge/Processor/Score.antt =====
-- The score that service.rs gives to an accepted submission.
use mathlib.Core.Bool.{false≢true}
use codenexus.Prelude.{
  ℕ, ◌+◌, ◌%◌, ◌^◌, ◌≤◌, ◌≡◌, refl, sym, ap, ◌∙◌, ◌⊎◌, some, List, [], ◌∷◌, map, arith, Text, codes,
  text_eq, text_eq_iff, text_eq_refl, inl, inr, All, Bool-cases,
}
use codenexus.Judge.Queue.{SubmissionMessage, TestCaseResult, JudgeResult}
use codenexus.Judge.Processor.Execute.{Machine, TestCase}
use codenexus.Judge.Processor.{accepted, process_submission_inner}
use codenexus.Judge.Processor.Verdict.{first_failure, earned}
use codenexus.Judge.Processor.Report.{Judged, NotRun, process_submission_inner-Judged}

abbrev pub total : List TestCase → ℕ
total [] = 0
total (c ∷ cs) = c.score + total cs

first_failure-accepted :
    (rs : List TestCaseResult)
    → first_failure rs ≡ accepted
    → All (λ (r : TestCaseResult). r.status ≡ accepted) rs
unfolding first_failure
first_failure-accepted [] h = tt
first_failure-accepted (r ∷ rs) h = elim (Bool-cases (text_eq r.status accepted)) [
  | inl e ↦ ((text_eq_iff _ _).0 e, first_failure-accepted rs (rw e at h))
  | inr e ↦
      let same : r.status ≡ accepted = rw e at h in
      absurd (false≢true (sym e ∙ (text_eq_iff _ _).1 same))
]

-- Points are earned within the total.
pub earned-le-total : (cs : List TestCase) (rs : List TestCaseResult) → earned cs rs ≤ total cs
unfolding earned
earned-le-total [] rs = omega arith
earned-le-total (c ∷ cs) [] = omega arith
earned-le-total (c ∷ cs) (r ∷ rs) = ground (arith, earned-le-total cs rs)

earned-total :
    (cs : List TestCase) (rs : List TestCaseResult)
    → map (λ (r : TestCaseResult). r.test_case_id) rs ≡ map (λ (c : TestCase). c.id) cs
    → All (λ (r : TestCaseResult). r.status ≡ accepted) rs
    → earned cs rs ≡ total cs
unfolding earned
earned-total [] rs e h = refl
earned-total (c ∷ cs) [] e h = cc
earned-total (c ∷ cs) (r ∷ rs) e h =
    rw (h.0, text_eq_refl accepted, earned-total cs rs (cc) h.1) refl

Judged-full :
    (cs : List TestCase) (result : JudgeResult)
    → Judged cs result
    → result.status ≡ accepted
    → All (λ (r : TestCaseResult). r.status ≡ accepted) result.test_case_results
      × (result.score ≡ some (total cs % 2 ^ 32))
Judged-full cs result j h =
    let all = first_failure-accepted result.test_case_results (sym j.status ∙ h) in
    (
      all,
      j.score ∙ ap (λ n. some (n % 2 ^ 32)) (earned-total cs result.test_case_results j.ids all),
    )

NotRun-rejected : (result : JudgeResult) → NotRun result → result.status ≡ accepted → ⊥
unfolding text_eq
NotRun-rejected result n h = elim n.status [
  | inl e ↦ false≢true ((text_eq_iff (codes "runtime_error") accepted).1 (sym e ∙ h))
  | inr e ↦ false≢true ((text_eq_iff (codes "compilation_error") accepted).1 (sym e ∙ h))
]

full_marks :
    (cs : List TestCase) (result : JudgeResult)
    → NotRun result ⊎ Judged cs result
    → result.status ≡ accepted
    → All (λ (r : TestCaseResult). r.status ≡ accepted) result.test_case_results
      × (result.score ≡ some (total cs % 2 ^ 32))
full_marks cs result (inl n) acc = absurd (NotRun-rejected result n acc)
full_marks cs result (inr j) acc = Judged-full cs result j acc

module _ (machine : Machine) (submission : SubmissionMessage) where
  open machine use {World, fetch_test_cases}

  -- If process_submission_inner gives an accepted result, every test case was accepted and the
  -- score is the total of the points of the fetched test cases in 32 bits.
  pub process_submission_inner-full :
      (work_dir : Text) (w w' : World) (result : JudgeResult)
      → process_submission_inner machine work_dir submission w ≡ (some result, w')
      → result.status ≡ accepted
      → (cs : List TestCase) × (w₁ : World) × (w₂ : World) × (fetch_test_cases submission.problem_id
            w₁
          ≡ (some cs, w₂))
        × All (λ (r : TestCaseResult). r.status ≡ accepted) result.test_case_results
        × (result.score ≡ some (total cs % 2 ^ 32))
  process_submission_inner-full work_dir w w' result h acc =
      let (cs, w₁, w₂, fetched, r) =
        process_submission_inner-Judged machine submission work_dir w w' result h in
      let full = full_marks cs result r acc in (cs, w₁, w₂, fetched, full.0, full.1)
