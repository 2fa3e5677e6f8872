-- ===== src/Judge/Worker.antt =====
-- backend/judge-worker/src/main.rs and queue/dlq.rs: what a worker tells the API and Redis. The state
-- keeps the world outside, the two breakers, the counters of the heartbeat, and a log of the requests
-- that were made, the oldest first. One task runs at a time.
pub mod Dlq
pub mod Send
pub mod Acknowledge
pub mod Task
pub mod Loop
pub mod Requests
use codenexus.Prelude.{ℕ, ℤ, Bool, Option, List, [], ◌∷◌, ◌++◌, Text}
use codenexus.Judge.Queue.{SubmissionMessage, JudgeResult}
use codenexus.Judge.CircuitBreaker.{CircuitBreaker}

-- What the API says to a result: no response, with the error's text, or a status and a body.
pub data Reply : Type 0 where
  unreachable : Text → Reply
  replied : ℕ → Text → Reply

-- The HTTP client, the Redis connection, the clock, the environment variables and the encoders.
pub record Outside : Type 1 where
  pub Env : Type 0
  -- `WORKER_SECRET`
  pub worker_secret : Env → Option Text
  -- POST of a result to a URL with a secret
  pub post : Text → Text → JudgeResult → Env → Reply × Env
  -- XADD of fields to a stream; `false` is an error
  pub xadd : Text → List (Text × Text) → Env → Bool × Env
  -- XACK of a message of a stream for the group: how many were acknowledged, or an error
  pub xack : Text → Text → Text → Env → Option ℕ × Env
  -- The clock in nanoseconds, and its time as text
  pub now : Env → ℕ
  pub rfc3339 : ℕ → Text
  pub parse_rfc3339 : Text → Option ℕ
  -- `sleep` of so many milliseconds
  pub sleep : ℕ → Env → Env
  -- `serde_json::to_string`
  pub result_json : JudgeResult → Option Text
  pub message_json : SubmissionMessage → Option Text
  -- `process_submission`
  pub process_submission : SubmissionMessage → Env → Option JudgeResult × Env

-- A request that was made, and whether it was done.
pub data Event : Type 0 where
  posted : JudgeResult → Bool → Event
  stored : List (Text × Text) → Bool → Event
  acked : Text → Text → Bool → Event

pub record Worker (Env : Type 0) : Type 0 where
  pub env : Env
  pub log : List Event
  pub api : CircuitBreaker
  pub redis : CircuitBreaker
  pub total_processed : ℕ
  pub avg_wait_ms : ℕ

-- The state behind a request.
abbrev pub logged : {Env : Type 0} → Worker Env → Env → Event → Worker Env
logged w env event = record w { env = env; log = w.log ++ event ∷ [] }
