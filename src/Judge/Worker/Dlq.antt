-- ===== src/Judge/Worker/Dlq.antt =====
-- `write_to_dlq` of backend/judge-worker/src/queue/dlq.rs.
use codenexus.Prelude.{ℤ, Bool, false, Option, none, some, List, [], ◌∷◌, Text, codes, display_int}
use codenexus.Judge.Queue.{JudgeResult}
use codenexus.Judge.Worker.{Outside, Worker, logged, stored}

abbrev pub dlq_stream : Text
dlq_stream = codes "submissions:dlq"

or_text : Text → Option Text → Text
or_text d none = d
or_text d (some t) = t

school_field : Option ℤ → List (Text × Text)
school_field none = []
school_field (some sid) = (codes "school_id", display_int sid) ∷ []

-- The fields of an entry, with the time as text.
unfoldable pub dlq_fields :
    JudgeResult
    → Text
    → Text
    → Text
    → Option Text
    → Option Text
    → Option Text
    → Option ℤ
    → List (Text × Text)
unfolding or_text school_field
dlq_fields result result_json error_reason failed_at source_stream submitted_at original_message
      school_id =
    (codes "submission_id", display_int result.submission_id)
    ∷ (codes "result_json", result_json)
    ∷ (codes "error_reason", error_reason)
    ∷ (codes "failed_at", failed_at)
    ∷ (codes "source_stream", or_text (codes "submissions") source_stream)
    ∷ (codes "submitted_at", or_text [] submitted_at)
    ∷ (codes "original_message", or_text [] original_message)
    ∷ school_field school_id

module _ (outside : Outside) where
  open outside use {Env, xadd, now, rfc3339, result_json}

  unfoldable pub write_fields : List (Text × Text) → Worker Env → Bool × Worker Env
  write_fields fields w =
      let (ok, env) = xadd dlq_stream fields w.env in (ok, logged w env (stored fields ok))

  unfoldable pub with_json :
      Option Text
      → JudgeResult
      → Text
      → Option Text
      → Option Text
      → Option Text
      → Option ℤ
      → Worker Env
      → Bool × Worker Env
  unfolding write_fields
  with_json none result error_reason source_stream submitted_at original_message school_id w =
      (false, w)
  with_json (some json) result error_reason source_stream submitted_at original_message school_id
        w =
      write_fields
        (dlq_fields result json error_reason (rfc3339 (now w.env)) source_stream submitted_at
          original_message school_id)
        w

  -- `false` is an error.
  unfoldable pub write_to_dlq :
      JudgeResult
      → Text
      → Option Text
      → Option Text
      → Option Text
      → Option ℤ
      → Worker Env
      → Bool × Worker Env
  unfolding with_json
  write_to_dlq result error_reason source_stream submitted_at original_message school_id w =
      with_json (result_json result) result error_reason source_stream submitted_at original_message
        school_id w
