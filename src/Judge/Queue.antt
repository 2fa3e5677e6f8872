-- ===== src/Judge/Queue.antt =====
-- The messages of backend/judge-worker/src/queue/mod.rs, and the Redis streams that they come from.
pub mod Consumer
pub mod Recovery
use codenexus.Prelude.{ℕ, ℤ, ◌≡◌, ◌≢◌, ◌⊎◌, Option, none, some, List, [], ◌∷◌, ◌++◌, Text}

pub record SubmissionMessage : Type 0 where
  pub submission_id : ℤ
  pub problem_id : ℤ
  pub user_id : ℕ
  pub language : Text
  pub source_code : Text
  pub time_limit_ms : ℕ
  pub memory_limit_mb : ℕ
  pub contest_id : Option ℤ

-- An `i32` is its 32 bits, as a number below 2^32.
pub record TestCaseResult : Type 0 where
  pub test_case_id : ℤ
  pub status : Text
  pub expected_output : Option Text
  pub actual_output : Option Text
  pub error_message : Option Text
  pub runtime_ms : Option ℕ
  pub memory_kb : Option ℕ

pub record JudgeResult : Type 0 where
  pub submission_id : ℤ
  pub status : Text
  pub score : Option ℕ
  pub runtime_ms : Option ℕ
  pub memory_kb : Option ℕ
  pub test_case_results : List TestCaseResult

-- The types of the crate `redis`: an entry with its fields, the entries of a stream, a reply.
pub record StreamId (Value : Type 0) : Type 0 where
  pub id : Text
  pub map : Text → Option Value

pub record StreamKey (Value : Type 0) : Type 0 where
  pub key : Text
  pub ids : List (StreamId Value)

-- The server and the crates that decode its values. `read_group` is XREADGROUP with COUNT 1 for the
-- consumer, with BLOCK or without; `none` is a failed command.
pub record Redis : Type 1 where
  pub Value : Type 0
  -- `redis::from_redis_value::<String>`
  pub from_redis_value : Value → Option Text
  -- `serde_json::from_str::<SubmissionMessage>`
  pub from_json : Text → Option SubmissionMessage
  pub Server : Type 0
  pub read_group : Server → Text → Option ℕ → Option (List (StreamKey Value)) × Server
  -- The entries of a stream that the group has given to the consumer, the oldest first, and those
  -- that it has given to no consumer yet.
  pub given : Server → Text → List (StreamId Value)
  pub waiting : Server → Text → List (StreamId Value)
  -- A reply has nothing, when nothing waits, or one entry, which is from then on a given one.
  pub read-given :
      (s s' : Server) (stream : Text) (block : Option ℕ) (keys : List (StreamKey Value))
      → read_group s stream block ≡ (some keys, s')
      → ((keys ≡ []) × (given s' stream ≡ given s stream) × (waiting s' stream ≡ []))
        ⊎ ((e : StreamId Value) × (keys ≡ record { key = stream; ids = e ∷ [] } ∷ [])
            × (given s' stream ≡ given s stream ++ e ∷ []))
  -- A command on one stream gives nothing from another.
  pub read-other :
      (s : Server) (stream other : Text) (block : Option ℕ)
      → other ≢ stream
      → given (read_group s stream block).1 other ≡ given s other
