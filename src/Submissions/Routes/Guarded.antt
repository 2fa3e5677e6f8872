-- ===== src/Submissions/Routes/Guarded.antt =====
-- Who may change a result by `update_judge_result` of backend/domain-submissions/src/routes.rs.
use codenexus.Prelude.{
  ℕ, ℤ, int_eq, int_eq_iff, ◌≡◌, ◌⊎◌, inl, inr, refl, ap, Bool, true, false, Option, List,
  if◌then◌else◌,
}
use codenexus.Submissions.Results.{
  Tables, JudgeUpdate, status_of, update_judge_result_transactional,
}
use codenexus.Submissions.Results.Written.{Waiting, update-Done}
use codenexus.Submissions.Routes.Secret.{secret_valid_iff}
use codenexus.Submissions.Routes.{
  JudgeResultCallback, Answer, ok_updated, auth_error, validation_error, or_empty, secret_valid,
  respond, answered, update_judge_result,
}

module _ (tables : Tables) (faults : List Bool) (worker_secret : List ℕ) (header : Option (List ℕ))
    (id : ℤ) (result : JudgeResultCallback) where
  open tables use {Db, submission}

  -- Nothing was changed, or it was by a worker with the secret, for a submission that was waiting.
  abbrev pub Guarded : Db → Answer × Db → Type 0
  Guarded db x =
      (x.1 ≡ db)
      ⊎ ((or_empty header ≡ worker_secret)
          × (id ≡ result.submission_id)
          × Waiting tables id db (status_of (submission db id))
          × (x.0 ≡ ok_updated))

  abbrev run : Db → JudgeUpdate × Db
  run db =
      update_judge_result_transactional tables faults db id result.status result.score
        result.runtime_ms result.memory_kb result.test_case_results

  answered-Guarded :
      (db : Db)
      → or_empty header ≡ worker_secret
      → id ≡ result.submission_id
      → Guarded db (answered tables (run db))
  unfolding answered respond
  answered-Guarded db s e =
      elim (update-Done tables id db faults result.status result.score result.runtime_ms
        result.memory_kb result.test_case_results) [
          | inl (waiting, done) ↦
              inr (s, e, waiting, ap (λ (x : JudgeUpdate × Db). respond x.0) done)
          | inr (refused, unchanged) ↦ inl unchanged
        ]

  -- The callback route leaves the tables as they are, or the secret of the header is that of the
  -- worker, the identifiers of path and body agree, the submission had a status that is not
  -- terminal, and the answer says that it was updated.
  pub update_judge_result-guarded :
      (db : Db)
      → (((update_judge_result tables faults worker_secret header id result db).1 ≡ db)
          ⊎ ((or_empty header ≡ worker_secret)
              × (id ≡ result.submission_id)
              × Waiting tables id db (status_of (submission db id))
              × ((update_judge_result tables faults worker_secret header id result db).0
                  ≡ ok_updated)))
  unfolding update_judge_result
  update_judge_result-guarded db =
      by_test (secret_valid (or_empty header) worker_secret) (int_eq id result.submission_id) refl
        refl
    where
      by_test :
          (s e : Bool)
          → secret_valid (or_empty header) worker_secret ≡ s
          → int_eq id result.submission_id ≡ e
          → Guarded db (
              if s
              then (if e then answered tables (run db) else (validation_error, db))
              else (auth_error, db))
      by_test false e p q = inl refl
      by_test true false p q = inl refl
      by_test true true p q =
          answered-Guarded db ((secret_valid_iff (or_empty header) worker_secret).0 p)
            ((int_eq_iff id result.submission_id).0 q)
