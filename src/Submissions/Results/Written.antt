-- ===== src/Submissions/Results/Written.antt =====
-- What a callback of the judge leaves in the tables, by `update_judge_result_transactional` of
-- backend/domain-submissions/src/service.rs.
pub mod Stays
use codenexus.Prelude.{
  ℕ, ℤ, int_eq, int_eq_iff, ◌≡◌, ◌≢◌, ◌⊎◌, inl, inr, refl, sym, ap, ◌∙◌, Bool, true, false, ◌&&◌,
  Bool-cases, Option, none, some, Option-cases, List, [], ◌∷◌, Text, arith, if◌then◌else◌, All,
}
use codenexus.Submissions.Status.{
  one_of, is_terminal_status, normalize_judge_status, map_verdict, eq_ignore_ascii_case,
}
use codenexus.Submissions.Results.{
  Row, TestRow, Tables, TestCaseResultInput, JudgeUpdate, updated, already_processed, not_found,
  database, terminal_state, invalid_transition, invalid_test_case_status, status_of, open_statuses,
  test_row, changed, statement, with_verdict, insert_all, write, decide,
  update_judge_result_transactional,
}

module _ (tables : Tables) where
  open tables use {
    Db, submission, test_result, update, upsert, submission-update, submission-upsert,
    test_result-update, test_result-upsert,
  }

  module _ (submission_id : ℤ) where
    stored_with : Option Text → TestCaseResultInput → Db → Db
    stored_with none tc seen = seen
    stored_with (some verdict) tc seen =
        upsert seen submission_id tc.test_case_id (test_row verdict tc)

    -- The results of test cases, stored one after the other.
    unfoldable pub stored : List TestCaseResultInput → Db → Db
    unfolding stored_with
    stored [] seen = seen
    stored (tc ∷ tcs) seen = stored tcs (stored_with (map_verdict tc.status) tc seen)

    module _ (db : Db) where
      -- Done, with tables that are known, or not done, with the tables as before.
      abbrev pub Ends : JudgeUpdate × Db → Db → Type 0
      Ends x after = (x ≡ (updated, after)) ⊎ ((x.0 ≢ updated) × (x.1 ≡ db))

      statement-Ends :
          (faults : List Bool) (next : List Bool → JudgeUpdate × Db) (after : Db)
          → ((f : List Bool) → Ends (next f) after)
          → Ends (statement tables db faults next) after
      unfolding statement
      statement-Ends [] next after k = k []
      statement-Ends (true ∷ faults) next after k = inr (λ e. cc, refl)
      statement-Ends (false ∷ faults) next after k = k faults

      insert_all-Ends :
          (tcs : List TestCaseResultInput) (faults : List Bool) (seen : Db)
          → Ends (insert_all tables submission_id db tcs faults seen) (stored tcs seen)
      unfolding insert_all stored with_verdict stored_with
      insert_all-Ends [] faults seen = statement-Ends faults _ seen (λ f. inl refl)
      insert_all-Ends (tc ∷ tcs) faults seen =
          by_verdict (map_verdict tc.status) (insert_all-Ends tcs)
        where
          by_verdict :
              (v : Option Text)
              → ((f : List Bool) (s : Db)
                  → Ends (insert_all tables submission_id db tcs f s) (stored tcs s))
              → Ends
                  (with_verdict tables submission_id db v tc λ verdict.
                    statement tables db faults λ f.
                      insert_all tables submission_id db tcs f
                        (upsert seen submission_id tc.test_case_id (test_row verdict tc)))
                  (stored tcs (stored_with v tc seen))
          by_verdict none ih = inr (λ e. cc, refl)
          by_verdict (some verdict) ih = statement-Ends faults _ _ (λ f. ih f _)

      -- Was the submission waiting for a result?
      abbrev pub Waiting : Option Text → Type 0
      Waiting o = (current : Text) × (o ≡ some current) × (is_terminal_status current ≡ false)

      -- The branches of `decide`, by the outcomes of its tests.
      abbrev chosen :
          Text
          → Text
          → Row
          → List TestCaseResultInput
          → List Bool
          → Bool
          → Bool
          → Bool
          → JudgeUpdate × Db
      chosen current target row tcs faults same terminal opens =
          if same
          then (already_processed, db)
          else if terminal
          then (terminal_state current, db)
          else if opens
          then write tables submission_id db row tcs faults
          else (invalid_transition current target, db)

      decide-Ends :
          (o : Option Text) (target : Text) (row : Row) (tcs : List TestCaseResultInput)
          (faults : List Bool)
          → (Waiting o
              × Ends
                  (decide tables submission_id db o target row tcs faults)
                  (stored tcs (update db submission_id row)))
            ⊎ (((decide tables submission_id db o target row tcs faults).0 ≢ updated)
                × ((decide tables submission_id db o target row tcs faults).1 ≡ db))
      unfolding decide write
      decide-Ends none target row tcs faults = inr (λ e. cc, refl)
      decide-Ends (some current) target row tcs faults =
          by_test (eq_ignore_ascii_case current target) (is_terminal_status current)
            (one_of open_statuses current) refl
        where
          by_test :
              (same terminal opens : Bool)
              → is_terminal_status current ≡ terminal
              → (Waiting (some current)
                  × Ends
                      (chosen current target row tcs faults same terminal opens)
                      (stored tcs (update db submission_id row)))
                ⊎ (((chosen current target row tcs faults same terminal opens).0 ≢ updated)
                    × ((chosen current target row tcs faults same terminal opens).1 ≡ db))
          by_test true terminal opens e = inr (λ f. cc, refl)
          by_test false true opens e = inr (λ f. cc, refl)
          by_test false false false e = inr (λ f. cc, refl)
          by_test false false true e =
              inl ((current, refl, e), statement-Ends faults _ _ (λ f. insert_all-Ends tcs f _))

      abbrev pub target_row : Text → Option ℕ → Option ℕ → Option ℕ → Row
      target_row status score runtime_ms memory_kb = record {
        status = some (normalize_judge_status status);
        verdict = map_verdict status;
        score = score;
        time_ms = runtime_ms;
        memory_kb = memory_kb;
      }

      -- Done for a submission that was waiting, or not done at all.
      abbrev pub Done : JudgeUpdate × Db → Row → List TestCaseResultInput → Type 0
      Done x row tcs =
          (Waiting (status_of (submission db submission_id))
            × (x ≡ (updated, stored tcs (update db submission_id row))))
          ⊎ ((x.0 ≢ updated) × (x.1 ≡ db))

      statement-Done :
          (row : Row) (tcs : List TestCaseResultInput) (faults : List Bool)
          (next : List Bool → JudgeUpdate × Db)
          → ((f : List Bool) → Done (next f) row tcs)
          → Done (statement tables db faults next) row tcs
      unfolding statement
      statement-Done row tcs [] next k = k []
      statement-Done row tcs (true ∷ faults) next k = inr (λ e. cc, refl)
      statement-Done row tcs (false ∷ faults) next k = k faults

      decide-Done :
          (target : Text) (row : Row) (tcs : List TestCaseResultInput) (faults : List Bool)
          → Done
              (decide tables submission_id db
                (status_of (submission db submission_id))
                target
                row
                tcs
                faults)
              row
              tcs
      decide-Done target row tcs faults =
          elim (decide-Ends (status_of (submission db submission_id)) target row tcs faults) [
            | inl (w, inl e) ↦ inl (w, e)
            | inl (w, inr f) ↦ inr f
            | inr f ↦ inr f
          ]

      -- update_judge_result_transactional either answers that it updated, and then the submission
      -- had a status that is not terminal, and the tables are those with its row and the results
      -- of its test cases written one after the other; or it answers something else, at whatever
      -- statement it failed, and the tables are as before.
      pub update-Done :
          (faults : List Bool) (status : Text) (score runtime_ms memory_kb : Option ℕ)
          (tcs : List TestCaseResultInput)
          → Done
              (update_judge_result_transactional tables faults db submission_id status score
                runtime_ms memory_kb tcs)
              (target_row status score runtime_ms memory_kb)
              tcs
      unfolding update_judge_result_transactional
      update-Done faults status score runtime_ms memory_kb tcs =
          let row = target_row status score runtime_ms memory_kb in
          statement-Done row tcs faults _ (λ f.
            statement-Done row tcs f _ (λ g. decide-Done (normalize_judge_status status) row tcs g))
