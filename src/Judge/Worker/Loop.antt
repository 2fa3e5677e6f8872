-- ===== src/Judge/Worker/Loop.antt =====
-- `consume_and_process` and `run_processing_loop` of backend/judge-worker/src/main.rs. The tasks that
-- are spawned for the messages run one after the other, each to its end.
pub mod Probes
use codenexus.Prelude.{
  ℕ, zero, suc, ◌+◌, ◌*◌, ◌%◌, ◌^◌, Bool, true, false, Option, none, some, List, [], ◌∷◌, Text, leb,
  length, if◌then◌else◌,
}
use codenexus.Judge.Queue.{Redis}
use codenexus.Judge.Queue.Consumer.{PriorityMessage, consume_priority}
use codenexus.Judge.CircuitBreaker.{CircuitBreaker, allow_request, record_success, record_failure}
use codenexus.Judge.Worker.{Outside, Worker}
use codenexus.Judge.Worker.Task.{handle_message}

-- What came of the attempt to consume: the breaker was open, an error, or messages and what is parked.
pub data Consumed : Type 0 where
  skipped failed : Consumed
  got : List PriorityMessage → Option PriorityMessage → Consumed

-- Milliseconds behind so many errors in a row.
unfoldable pub retry_delay : ℕ → ℕ
retry_delay error_count =
    let delay = 1000 * 2 ^ (if leb error_count 6 then error_count else 6) in
    if leb delay 60_000 then delay else 60_000

module _ (outside : Outside) (redis : Redis) where
  open outside use {Env, now, sleep}
  open redis use {Server}

  -- The variables of the loop, with the server behind the connection.
  pub record Loop : Type 0 where
    pub worker : Worker Env
    pub server : Server
    pub error_count : ℕ  -- u32
    pub parked_normal : Option PriorityMessage

  module _ (api_url contest_stream stream_name group : Text) where
    -- The breaker of Redis is told what came of the read.
    tell :
        Option (List PriorityMessage × Option PriorityMessage) × Server
        → Worker Env
        → Consumed × Worker Env × Server
    tell (some (msgs, parked), s) w =
        (got msgs parked, record w { redis = record_success w.redis }, s)
    tell (none, s) w = (failed, record w { redis = record_failure w.redis (now w.env) }, s)

    allowed :
        Bool × CircuitBreaker
        → Option PriorityMessage
        → Worker Env
        → Server
        → Consumed × Worker Env × Server
    unfolding tell
    allowed (false, cb) parked w s = (skipped, record w { env = sleep 1000 w.env; redis = cb }, s)
    allowed (true, cb) parked w s =
        tell (consume_priority redis s contest_stream stream_name parked) (record w { redis = cb })

    unfoldable pub consume :
        Option PriorityMessage → Worker Env → Server → Consumed × Worker Env × Server
    unfolding allowed
    consume parked w s = allowed (allow_request w.redis (now w.env)) parked w s

    unfoldable pub dispatch : List PriorityMessage → Worker Env → Worker Env
    dispatch [] w = w
    dispatch (m ∷ ms) w = dispatch ms (handle_message outside api_url group m w)

    started :
        Option PriorityMessage
        → Consumed × Worker Env × Server
        → Option (ℕ × Option PriorityMessage) × Worker Env × Server
    unfolding dispatch
    started parked (skipped, w, s) = (some (0, parked), w, s)
    started parked (failed, w, s) = (none, w, s)
    started parked (got ms later, w, s) = (some (length ms, later), dispatch ms w, s)

    -- `none` is an error.
    unfoldable pub consume_and_process :
        Option PriorityMessage
        → Worker Env
        → Server
        → Option (ℕ × Option PriorityMessage) × Worker Env × Server
    unfolding consume started
    consume_and_process parked w s = started parked (consume parked w s)

    turned : ℕ → Option (ℕ × Option PriorityMessage) × Worker Env × Server → Loop
    unfolding retry_delay
    turned error_count (some (count, parked), w, s) = record {
      worker = w;
      server = s;
      error_count = 0;
      parked_normal = parked;
    }
    turned error_count (none, w, s) =
        let errors = (error_count + 1) % 2 ^ 32 in
        record {
          worker = record w { env = sleep (retry_delay errors) w.env };
          server = s;
          error_count = errors;
          parked_normal = none;
        }

    -- A turn of the loop, and so many turns.
    unfoldable pub turn : Loop → Loop
    unfolding consume_and_process turned
    turn l = turned l.error_count (consume_and_process l.parked_normal l.worker l.server)

    unfoldable pub run_processing_loop : ℕ → Loop → Loop
    unfolding turn
    run_processing_loop zero l = l
    run_processing_loop (suc n) l = run_processing_loop n (turn l)
