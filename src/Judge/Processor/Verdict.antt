-- ===== src/Judge/Processor/Verdict.antt =====
-- The result that service.rs reports for a submission, in terms of the results of its test cases.
use mathlib.Core.List.{append_assoc, append-nil}
use mathlib.Core.Path.{subst}
use mathlib.Core.Option.{some-injective}
use codenexus.Prelude.{
  ℕ, ◌+◌, ◌%◌, ◌^◌, ◌<◌, ◌≡◌, refl, sym, ap, ◌∙◌, inl, inr, Option, none, some, List, [], ◌∷◌, ◌++◌,
  map, arith, Text, text_eq, text_eq_iff, Bool-cases, if◌then◌else◌,
}
use codenexus.Judge.Queue.{SubmissionMessage, TestCaseResult}
use codenexus.Judge.Processor.Execute.{Machine, TestCase, ExecutionOutput, execute_program}
use codenexus.Judge.Processor.{Tally, count, accepted, tested, run_test_case, and_then, run_tests}

-- The status of the first test case that is not accepted.
unfoldable pub first_failure : List TestCaseResult → Text
first_failure [] = accepted
first_failure (r ∷ rs) =
    let rest = first_failure rs in if text_eq r.status accepted then rest else r.status

-- The points of the accepted test cases.
unfoldable pub earned : List TestCase → List TestCaseResult → ℕ
earned [] rs = 0
earned (c ∷ cs) [] = 0
earned (c ∷ cs) (r ∷ rs) =
    let rest = earned cs rs in if text_eq r.status accepted then c.score + rest else rest

pub record Adds (cs : List TestCase) (rs : List TestCaseResult) (t t' : Tally) : Type 0 where
  pub results : t'.test_case_results ≡ t.test_case_results ++ rs
  pub ids : map (λ (r : TestCaseResult). r.test_case_id) rs ≡ map (λ (c : TestCase). c.id) cs
  pub status :
      t'.final_status
      ≡ (if text_eq t.final_status accepted then first_failure rs else t.final_status)
  pub score : t'.passed_score ≡ (t.passed_score + earned cs rs) % 2 ^ 32

count-status :
    (t : Tally) (c : TestCase) (r : TestCaseResult) (rs : List TestCaseResult)
    → (if text_eq (count t c r).final_status accepted
        then first_failure rs
        else (count t c r).final_status)
      ≡ (if text_eq t.final_status accepted then first_failure (r ∷ rs) else t.final_status)
unfolding count first_failure
count-status t c r rs = elim (Bool-cases (text_eq r.status accepted)) [
  | inl e ↦ rw e refl
  | inr e ↦ elim (Bool-cases (text_eq t.final_status accepted)) [
    | inl f ↦ rw (e, f, e) refl
    | inr f ↦ rw (e, f, f) refl
  ]
]

count-score :
    (t : Tally) (c : TestCase) (r : TestCaseResult) (cs : List TestCase) (rs : List TestCaseResult)
    → ((count t c r).passed_score + earned cs rs) % 2 ^ 32
      ≡ (t.passed_score + earned (c ∷ cs) (r ∷ rs)) % 2 ^ 32
unfolding count earned
count-score t c r cs rs = elim (Bool-cases (text_eq r.status accepted)) [
  | inl e ↦ rw e (omega arith)
  | inr e ↦ rw e refl
]

count-small :
    (t : Tally) (c : TestCase) (r : TestCaseResult)
    → t.passed_score < 2 ^ 32
    → (count t c r).passed_score < 2 ^ 32
unfolding count
count-small t c r h = ground arith

unchanged : (t : Tally) → t.passed_score < 2 ^ 32 → Adds [] [] t t
unfolding first_failure earned
unchanged t small = record {
  results = sym (append-nil t.test_case_results);
  ids = refl;
  status = elim (Bool-cases (text_eq t.final_status accepted)) [
    | inl e ↦ rw e ((text_eq_iff _ _).0 e)
    | inr e ↦ rw e refl
  ];
  score = omega arith;
}

added :
    (c : TestCase) (cs : List TestCase) (r : TestCaseResult) (rs : List TestCaseResult)
    (t t' : Tally)
    → r.test_case_id ≡ c.id
    → Adds cs rs (count t c r) t'
    → Adds (c ∷ cs) (r ∷ rs) t t'
unfolding count
added c cs r rs t t' same a = record {
  results = a.results ∙ append_assoc t.test_case_results (r ∷ []) rs;
  ids = rw (same, a.ids) refl;
  status = a.status ∙ count-status t c r rs;
  score = a.score ∙ count-score t c r cs rs;
}

module _ (machine : Machine) where
  open machine use {World}

  pub and_then-some {ℓ κ} :
      {A : Type ℓ} {B : Type κ} (x : Option A × World) (next : A → World → Option B × World) (b : B)
      (w' : World)
      → and_then machine x next ≡ (some b, w')
      → (a : A) × (w₁ : World) × (x ≡ (some a, w₁)) × (next a w₁ ≡ (some b, w'))
  unfolding and_then
  and_then-some (none, w) next b w' h = cc
  and_then-some (some a, w) next b w' h = (a, w, refl, h)

  tested-id :
      (c : TestCase) (x : Option ExecutionOutput × World) (r : TestCaseResult) (w' : World)
      → tested machine c x ≡ (some r, w')
      → r.test_case_id ≡ c.id
  unfolding tested
  tested-id c (none, w) r w' h = cc
  tested-id c (some o, w) r w' h =
      sym (ap (λ q. q.test_case_id) (some-injective _ _ (ap (λ p. p.0) h)))

  module _ (submission : SubmissionMessage) (source_file : Text)
      (executable_path : Option Text) where
    run_test_case-id :
        (c : TestCase) (r : TestCaseResult) (w w₁ : World)
        → run_test_case machine submission source_file executable_path c w ≡ (some r, w₁)
        → r.test_case_id ≡ c.id
    unfolding run_test_case
    run_test_case-id c r w w₁ h =
        tested-id c (execute_program machine submission source_file executable_path c.input w) r w₁
          h

    pub run_tests-Adds :
        (cs : List TestCase) (t t' : Tally) (w w' : World)
        → t.passed_score < 2 ^ 32
        → run_tests machine submission source_file executable_path cs t w ≡ (some t', w')
        → (rs : List TestCaseResult) × Adds cs rs t t'
    unfolding run_tests
    run_tests-Adds [] t t' w w' small h =
        let same : t ≡ t' = some-injective _ _ (ap (λ p. p.0) h) in
        ([], subst (λ u. Adds [] [] t u) same (unchanged t small))
    run_tests-Adds (c ∷ cs) t t' w w' small h =
        let (r, w₁, ran, rest) = and_then-some _ _ t' w' h in
        let (rs, a) = run_tests-Adds cs (count t c r) t' w₁ w' (count-small t c r small) rest in
        (r ∷ rs, added c cs r rs t t' (run_test_case-id c r w w₁ ran) a)
