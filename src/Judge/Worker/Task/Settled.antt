-- ===== src/Judge/Worker/Task/Settled.antt =====
-- The requests of a task of backend/judge-worker/src/main.rs.
use codenexus.Prelude.{ℕ, ℤ, Bool, true, false, Option, none, some, List, arith, Text}
use codenexus.Judge.Queue.{SubmissionMessage, JudgeResult}
use codenexus.Judge.Queue.Consumer.{PriorityMessage}
use codenexus.Judge.Worker.{Outside, Worker, Event}
use codenexus.Judge.Worker.Requests.{Run, Run-here, Run-trans, Run-weaken}
use codenexus.Judge.Worker.Send.{DeliveryOutcome}
use codenexus.Judge.Worker.Send.Settled.{
  Sends, send_result_with_retry_breaker-Run, send_result_with_retry-Run,
}
use codenexus.Judge.Worker.Acknowledge.Settled.{
  acknowledge_with_retry-Run, acknowledge_with_retry_breaker-Run,
}
use codenexus.Judge.Worker.Task.{
  finished, acknowledge, report, handle_message, settle, recovered, or_empty,
}

module _ (outside : Outside) (api_url group : Text) where
  open outside use {Env}

  -- The log grew by requests in a safe order, at most so many.
  abbrev pub Safely : List Event → List Event → ℕ → Type 0
  Safely l l' n = (seen : Bool) × Run l l' false seen n

  finished-Run :
      (l : List Event) (submitted_at : Option Text) (dequeue : ℕ) (x : Bool × Worker Env)
      → Run l x.1.log true true 3
      → Run l (finished outside api_url group submitted_at dequeue x).log true true 3
  unfolding finished
  finished-Run l submitted_at dequeue (true, w) r = r
  finished-Run l submitted_at dequeue (false, w) r = r

  acknowledge-Run :
      (l : List Event) (m : PriorityMessage) (dequeue : ℕ) (x : Option DeliveryOutcome × Worker Env)
      → Sends outside l x 4
      → Safely l (acknowledge outside api_url group m dequeue x).log 7
  unfolding acknowledge
  acknowledge-Run l m dequeue (none, w) r =
      (false, Run-weaken l w.log false false 4 7 (omega arith) r)
  acknowledge-Run l m dequeue (some o, w) r = (
    true,
    Run-trans l w.log _ false true true 4 3 r (
        finished-Run w.log m.submitted_at dequeue _
          (acknowledge_with_retry_breaker-Run outside m.origin_stream group m.message_id w)),
  )

  report-Run :
      (m : PriorityMessage) (dequeue : ℕ) (x : Option JudgeResult × Env) (w : Worker Env)
      → Safely w.log (report outside api_url group m dequeue x w).log 7
  unfolding report
  report-Run m dequeue (none, env) w = (false, Run-here w.log false 7)
  report-Run m dequeue (some result, env) w = acknowledge-Run w.log m dequeue _ (
      send_result_with_retry_breaker-Run outside api_url result m.origin_stream m.submitted_at
        (or_empty (outside.message_json m.submission)) m.school_id (record w { env = env }))

  -- Whatever the API, Redis and the judging answer, the task of a message appends at most seven
  -- requests to the log, and it acknowledges the message only behind a result that the API took or
  -- an entry that the dead letter queue took.
  pub handle_message-Run :
      (m : PriorityMessage) (w : Worker Env)
      → (seen : Bool) × Run w.log (handle_message outside api_url group m w).log false seen 7
  unfolding handle_message
  handle_message-Run m w =
      report-Run m (outside.now w.env) (outside.process_submission m.submission w.env) w

  settle-Run :
      (l : List Event) (stream message_id : Text) (x : Option DeliveryOutcome × Worker Env)
      → Sends outside l x 4
      → Safely l (settle outside api_url group stream message_id x).log 7
  unfolding settle
  settle-Run l stream message_id (none, w) r =
      (false, Run-weaken l w.log false false 4 7 (omega arith) r)
  settle-Run l stream message_id (some o, w) r = (
    true,
    Run-trans l w.log _ false true true 4 3 r
        (acknowledge_with_retry-Run outside stream group message_id w),
  )

  -- For a message that recovery found, and whatever its judging, the API and Redis answer, at most
  -- seven requests are appended to the log, and the message is acknowledged only behind a result
  -- that the API took or an entry that the dead letter queue took.
  pub recovered-Run :
      (stream message_id : Text) (submission : SubmissionMessage) (school_id : Option ℤ)
      (x : Option JudgeResult × Env) (w : Worker Env)
      → (seen : Bool) × Run w.log
          (recovered outside api_url group stream (message_id, submission, school_id) x w).log
          false
          seen
          7
  unfolding recovered
  recovered-Run stream message_id submission school_id (none, env) w =
      (false, Run-here w.log false 7)
  recovered-Run stream message_id submission school_id (some result, env) w =
      settle-Run w.log stream message_id _ (
        send_result_with_retry-Run outside api_url result stream none
          (or_empty (outside.message_json submission)) school_id (record w { env = env }))
