-- ===== src/Judge/Worker/Task.antt =====
-- The task that judges one message, and the recovery of one message at the start, in
-- backend/judge-worker/src/main.rs.
pub mod Settled
use codenexus.Prelude.{
  ℕ, ◌+◌, ◌-◌, ◌*◌, ◌/◌, ◌%◌, ◌^◌, ℤ, ◌==◌, Bool, true, false, Option, none, some, List, [], ◌∷◌,
  Text, ltb, if◌then◌else◌,
}
use codenexus.Judge.Queue.{SubmissionMessage, JudgeResult}
use codenexus.Judge.Queue.Consumer.{PriorityMessage}
use codenexus.Judge.Worker.{Outside, Worker}
use codenexus.Judge.Worker.Send.{
  DeliveryOutcome, delivered, stored_in_dlq, send_result_with_retry_breaker, send_result_with_retry,
}
use codenexus.Judge.Worker.Acknowledge.{acknowledge_with_retry_breaker, acknowledge_with_retry}

-- `unwrap_or_default`
or_empty : Option Text → Text
or_empty none = []
or_empty (some t) = t

-- The moving average of the waits, in `usize`.
unfoldable pub new_avg : ℕ → ℕ → ℕ
new_avg prev wait_ms = if prev == 0 then wait_ms else ((prev * 7 + wait_ms * 3) % 2 ^ 64) / 10

module _ (outside : Outside) where
  open outside use {Env, now, parse_rfc3339, message_json, process_submission}

  -- Nanoseconds to milliseconds; a negative wait is zero.
  wait_since : Option ℕ → ℕ → ℕ
  wait_since none dequeue = 0
  wait_since (some enqueue) dequeue = (dequeue - enqueue) / 1_000_000

  unfoldable pub compute_wait_ms : Option Text → ℕ → ℕ
  unfolding wait_since
  compute_wait_ms none dequeue = 0
  compute_wait_ms (some ts) dequeue = wait_since (parse_rfc3339 ts) dequeue

  module _ (api_url group : Text) where
    -- Behind the acknowledgement: the counters of the heartbeat.
    finished : Option Text → ℕ → Bool × Worker Env → Worker Env
    finished submitted_at dequeue (false, w) = w
    finished submitted_at dequeue (true, w) = record w {
      total_processed = (w.total_processed + 1) % 2 ^ 64;
      avg_wait_ms = new_avg w.avg_wait_ms (compute_wait_ms submitted_at dequeue);
    }

    acknowledge : PriorityMessage → ℕ → Option DeliveryOutcome × Worker Env → Worker Env
    unfolding finished
    acknowledge m dequeue (none, w) = w
    acknowledge m dequeue (some outcome, w) =
        finished m.submitted_at dequeue
          (acknowledge_with_retry_breaker outside m.origin_stream group m.message_id w)

    report : PriorityMessage → ℕ → Option JudgeResult × Env → Worker Env → Worker Env
    unfolding acknowledge or_empty
    report m dequeue (none, env) w = record w { env = env }
    report m dequeue (some result, env) w = acknowledge m dequeue (
        send_result_with_retry_breaker outside api_url result m.origin_stream m.submitted_at
          (or_empty (message_json m.submission)) m.school_id (record w { env = env }))

    -- The body of the spawned task.
    unfoldable pub handle_message : PriorityMessage → Worker Env → Worker Env
    unfolding report
    handle_message m w = report m (now w.env) (process_submission m.submission w.env) w

    -- The body of the loop of `recover_stream`.
    settle : Text → Text → Option DeliveryOutcome × Worker Env → Worker Env
    settle stream message_id (none, w) = w
    settle stream message_id (some outcome, w) =
        (acknowledge_with_retry outside stream group message_id w).1

    unfoldable pub recovered :
        Text
        → Text × SubmissionMessage × Option ℤ
        → Option JudgeResult × Env
        → Worker Env
        → Worker Env
    unfolding settle or_empty
    recovered stream (message_id, submission, school_id) (none, env) w = record w { env = env }
    recovered stream (message_id, submission, school_id) (some result, env) w =
        settle stream message_id (
          send_result_with_retry outside api_url result stream none
            (or_empty (message_json submission)) school_id (record w { env = env }))

    unfoldable pub recover_stream :
        Text → List (Text × SubmissionMessage × Option ℤ) → Worker Env → Worker Env
    unfolding recovered
    recover_stream stream [] w = w
    recover_stream stream (m ∷ ms) w =
        recover_stream stream ms (recovered stream m (process_submission m.1 w.env) w)
