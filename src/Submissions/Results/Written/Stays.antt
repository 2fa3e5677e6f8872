-- ===== src/Submissions/Results/Written/Stays.antt =====
-- Callbacks one after the other, by `update_judge_result_transactional` of
-- backend/domain-submissions/src/service.rs: the first result of a submission stays.
use mathlib.Core.Option.{some-injective}
use mathlib.Core.Bool.{false≢true}
use codenexus.Prelude.{
  ℕ, ℤ, int_eq, int_eq_iff, ◌≡◌, ◌≢◌, inl, inr, refl, sym, ap, ◌∙◌, Bool, true, false, Bool-cases,
  Option, none, some, List, [], ◌∷◌, Text, if◌then◌else◌, text_eq, codes,
}
use codenexus.Submissions.Status.{
  terminal_judged, terminal_failed, one_of, is_terminal_status, normalize_judge_status, map_verdict,
  judged_statuses,
}
use codenexus.Submissions.Results.{
  Row, Tables, TestCaseResultInput, JudgeUpdate, updated, status_of, test_row, changed,
  update_judge_result_transactional,
}
use codenexus.Submissions.Results.Written.{stored_with, stored, target_row, update-Done}

-- A status that is terminal is stored as one.
normalize-terminal :
    (status : Text)
    → is_terminal_status status ≡ true
    → is_terminal_status (normalize_judge_status status) ≡ true
unfolding normalize_judge_status
normalize-terminal status h =
    by_test (one_of judged_statuses status) (text_eq status (codes "failed"))
  where
    by_test :
        (a b : Bool)
        → is_terminal_status (if a then codes "judged" else if b then codes "failed" else status)
          ≡ true
    by_test true b = terminal_judged
    by_test false true = terminal_failed
    by_test false false = h

module _ (tables : Tables) where
  open tables use {
    Db, submission, test_result, update, upsert, submission-update, submission-upsert,
    test_result-update, test_result-upsert,
  }

  -- The two tables say the same of a submission.
  abbrev pub Same : ℤ → Db → Db → Type 0
  Same id db db' =
      (submission db' id ≡ submission db id)
      × ((tc : ℤ) → test_result db' id tc ≡ test_result db id tc)

  abbrev pub Final : Db → ℤ → Type 0
  Final db id =
      (current : Text) × (status_of (submission db id) ≡ some current)
      × (is_terminal_status current ≡ true)

  Same-refl : (id : ℤ) (db db' : Db) → db' ≡ db → Same id db db'
  Same-refl id db db' e = (ap (λ d. submission d id) e, λ tc. ap (λ d. test_result d id tc) e)

  Same-trans : (id : ℤ) (a b c : Db) → Same id a b → Same id b c → Same id a c
  Same-trans id a b c p q = (q.0 ∙ p.0, λ tc. q.1 tc ∙ p.1 tc)

  other_false : (id other : ℤ) → id ≢ other → int_eq id other ≡ false
  other_false id other ne = elim (Bool-cases (int_eq id other)) [
    | inl e ↦ absurd (ne ((int_eq_iff id other).0 e))
    | inr e ↦ e
  ]

  module _ (id other : ℤ) (ne : id ≢ other) where
    stored_with-Same :
        (v : Option Text) (tc : TestCaseResultInput) (db : Db)
        → Same other db (stored_with tables id v tc db)
    unfolding stored_with
    stored_with-Same none tc db = Same-refl other db db refl
    stored_with-Same (some v) tc db = (
      submission-upsert db id tc.test_case_id (test_row v tc) other,
      λ t.
          test_result-upsert db id tc.test_case_id (test_row v tc) other t
          ∙ rw (other_false id other ne) refl,
    )

    stored-Same :
        (tcs : List TestCaseResultInput) (db : Db) → Same other db (stored tables id tcs db)
    unfolding stored
    stored-Same [] db = Same-refl other db db refl
    stored-Same (tc ∷ tcs) db =
        Same-trans other db _ _ (stored_with-Same (map_verdict tc.status) tc db) (stored-Same tcs _)

    update-Same : (row : Row) (db : Db) → Same other db (update db id row)
    update-Same row db = (
      submission-update db id row other ∙ rw (other_false id other ne) refl,
      λ t. test_result-update db id row other t,
    )

  stored_with-submission :
      (id : ℤ) (v : Option Text) (tc : TestCaseResultInput) (db : Db)
      → submission (stored_with tables id v tc db) id ≡ submission db id
  unfolding stored_with
  stored_with-submission id none tc db = refl
  stored_with-submission id (some v) tc db =
      submission-upsert db id tc.test_case_id (test_row v tc) id

  stored-submission :
      (id : ℤ) (tcs : List TestCaseResultInput) (db : Db)
      → submission (stored tables id tcs db) id ≡ submission db id
  unfolding stored
  stored-submission id [] db = refl
  stored-submission id (tc ∷ tcs) db =
      stored-submission id tcs _ ∙ stored_with-submission id (map_verdict tc.status) tc db

  -- A callback: a submission, the faults of its statements, and what it says.
  pub record Callback : Type 0 where
    pub submission_id : ℤ
    pub faults : List Bool
    pub status : Text
    pub score : Option ℕ
    pub runtime_ms : Option ℕ
    pub memory_kb : Option ℕ
    pub tests : List TestCaseResultInput

  abbrev pub call : Callback → Db → JudgeUpdate × Db
  call c db =
      update_judge_result_transactional tables c.faults db c.submission_id c.status c.score
        c.runtime_ms c.memory_kb c.tests

  abbrev pub calls : List Callback → Db → Db
  calls [] db = db
  calls (c ∷ cs) db = calls cs (call c db).1

  own-Same :
      (id : ℤ) (c : Callback) (db : Db)
      → c.submission_id ≡ id
      → Final db id
      → Same id db (call c db).1
  own-Same id c db same (current, e, t) =
      elim (update-Done tables c.submission_id db c.faults c.status c.score c.runtime_ms c.memory_kb
        c.tests) [
          | inl ((waiting, f, open_status), done) ↦ absurd (
              false≢true (
                sym open_status
                ∙ ap is_terminal_status
                    (some-injective _ _ (sym f ∙ ap (λ i. status_of (submission db i)) same ∙ e))
                ∙ t))
          | inr (refused, unchanged) ↦ Same-refl id db _ unchanged
        ]

  other-Same : (id : ℤ) (c : Callback) (db : Db) → c.submission_id ≢ id → Same id db (call c db).1
  other-Same id c db ne =
      elim (update-Done tables c.submission_id db c.faults c.status c.score c.runtime_ms c.memory_kb
        c.tests) [
          | inl (waiting, done) ↦
              Same-trans id db _ _
                (update-Same c.submission_id id ne
                  (target_row tables c.submission_id db c.status c.score c.runtime_ms c.memory_kb)
                  db)
                (Same-trans id _ _ _ (stored-Same c.submission_id id ne c.tests _)
                  (Same-refl id _ _ (ap (λ (x : JudgeUpdate × Db). x.1) done)))
          | inr (refused, unchanged) ↦ Same-refl id db _ unchanged
        ]

  call-Same : (id : ℤ) (c : Callback) (db : Db) → Final db id → Same id db (call c db).1
  call-Same id c db final = elim (Bool-cases (int_eq c.submission_id id)) [
    | inl e ↦ own-Same id c db ((int_eq_iff c.submission_id id).0 e) final
    | inr e ↦
        other-Same id c db (λ same. false≢true (sym e ∙ (int_eq_iff c.submission_id id).1 same))
  ]

  calls-Same : (id : ℤ) (cs : List Callback) (db : Db) → Final db id → Same id db (calls cs db)
  calls-Same id [] db final = Same-refl id db db refl
  calls-Same id (c ∷ cs) db (current, e, t) =
      let one = call-Same id c db (current, e, t) in
      Same-trans id db _ _ one (calls-Same id cs (call c db).1 (current, ap status_of one.0 ∙ e, t))

  status-changed :
      (new : Row) (o : Option Row) (current : Text)
      → status_of o ≡ some current
      → status_of (changed new o) ≡ new.status
  unfolding status_of
  status-changed new none current e = cc
  status-changed new (some old) current e = refl

  own_update :
      (id : ℤ) (row : Row) (db : Db)
      → submission (update db id row) id ≡ changed row (submission db id)
  own_update id row db = submission-update db id row id ∙ rw ((int_eq_iff id id).1 refl) refl

  updated-Final :
      (c : Callback) (db : Db)
      → (call c db).0 ≡ updated
      → is_terminal_status c.status ≡ true
      → Final (call c db).1 c.submission_id
  updated-Final c db h t =
      elim (update-Done tables c.submission_id db c.faults c.status c.score c.runtime_ms c.memory_kb
        c.tests) [
          | inl ((current, e, open_status), done) ↦ (
            normalize_judge_status c.status,
            ap (λ (x : JudgeUpdate × Db). status_of (submission x.1 c.submission_id)) done
                ∙ ap status_of
                    (stored-submission c.submission_id c.tests _ ∙ own_update c.submission_id _ db)
                ∙ status-changed _ (submission db c.submission_id) current e,
            normalize-terminal c.status t,
          )
          | inr (refused, unchanged) ↦ absurd (refused h)
        ]

  -- Behind a callback that updated a submission with a terminal status, any later callbacks, for
  -- this and other submissions, with any contents and any failing statements, leave the row of the
  -- submission and its test results as they are.
  pub judged_once :
      (c : Callback) (db : Db) (later : List Callback)
      → (call c db).0 ≡ updated
      → is_terminal_status c.status ≡ true
      → Same c.submission_id (call c db).1 (calls later (call c db).1)
  judged_once c db later h t =
      calls-Same c.submission_id later (call c db).1 (updated-Final c db h t)
