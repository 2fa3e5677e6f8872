-- ===== src/Judge/Worker/Send.antt =====
-- `send_result_to_api`, `send_result_with_retry_breaker` and `send_result_with_retry` of
-- backend/judge-worker/src/main.rs.
pub mod Settled
pub mod Probes
use codenexus.Prelude.{
  ℕ, zero, suc, ◌+◌, ◌-◌, ◌*◌, ◌%◌, ◌^◌, ℤ, Bool, true, false, ◌&&◌, Option, none, some, List, [],
  ◌∷◌, ◌++◌, Text, codes, display_int, decimal, leb, ltb, if◌then◌else◌,
}
use codenexus.Judge.Queue.{JudgeResult}
use codenexus.Judge.CircuitBreaker.{CircuitBreaker, allow_request, record_success, record_failure}
use codenexus.Judge.Worker.{Outside, Reply, unreachable, replied, Worker, logged, posted}
use codenexus.Judge.Worker.Dlq.{write_to_dlq}

pub data DeliveryOutcome : Type 0 where
  delivered stored_in_dlq : DeliveryOutcome

-- What a request came to: accepted, or the text of the error.
pub data Sent : Type 0 where
  accepted : Sent
  refused : Text → Sent

-- `response.status().is_success()`
sent : Reply → Sent
sent (unreachable e) = refused (codes "Failed to send result to API: " ++ e)
sent (replied status body) =
    if leb 200 status && ltb status 300
    then accepted
    else refused (codes "API returned error status " ++ (decimal status ++ (codes ": " ++ body)))

is_accepted : Sent → Bool
is_accepted accepted = true
is_accepted (refused e) = false

-- Milliseconds before the next attempt: `1 << attempt.min(3)` seconds, and up to 499 ms by the clock.
unfoldable pub backoff_ms : ℕ → ℕ → ℕ
backoff_ms attempt nanos = 2 ^ (if leb attempt 3 then attempt else 3) * 1000 + nanos % 500

-- The number of attempts, and of those that are left behind the first.
abbrev pub max_retries : ℕ
max_retries = 3

module _ (outside : Outside) where
  open outside use {Env, worker_secret, post, now, sleep}

  post_with : Option Text → Text → JudgeResult → Worker Env → Sent × Worker Env
  unfolding sent is_accepted
  post_with none api_url result w =
      (refused (codes "WORKER_SECRET must be set for judge result callback"), w)
  post_with (some secret) api_url result w =
      let url : Text =
        api_url
        ++ (codes "/submissions/" ++ (display_int result.submission_id ++ codes "/results")) in
      let (reply, env) = post url secret result w.env in
      (sent reply, logged w env (posted result (is_accepted (sent reply))))

  unfoldable pub send_result_to_api : Text → JudgeResult → Worker Env → Sent × Worker Env
  unfolding post_with
  send_result_to_api api_url result w = post_with (worker_secret w.env) api_url result w

  -- Where the result goes when the API does not take it.
  dead_letter : Bool × Worker Env → Option DeliveryOutcome × Worker Env
  dead_letter (true, w) = (some stored_in_dlq, w)
  dead_letter (false, w) = (none, w)

  module _ (api_url : Text) (result : JudgeResult) (stream : Text) (submitted_at : Option Text)
      (original_message : Text) (school_id : Option ℤ) where
    store : Text → Worker Env → Option DeliveryOutcome × Worker Env
    unfolding dead_letter
    store reason w = dead_letter (
        write_to_dlq outside result reason (some stream) submitted_at (some original_message)
          school_id w)

    wait : ℕ → Worker Env → Worker Env
    wait left w = record w { env = sleep (backoff_ms (max_retries - left) (now w.env)) w.env }

    on_success : Worker Env → Worker Env
    on_success w = record w { api = record_success w.api }

    on_failure : Worker Env → Worker Env
    on_failure w = record w { api = record_failure w.api (now w.env) }

    -- A round of the loop, with the rounds left behind it: the breaker, the request, and on a failure
    -- the next round or the dead letter.
    behind :
        (Worker Env → Option DeliveryOutcome × Worker Env)
        → Sent × Worker Env
        → Option DeliveryOutcome × Worker Env
    unfolding on_success on_failure
    behind next (accepted, w) = (some delivered, on_success w)
    behind next (refused e, w) = next (on_failure w)

    gate :
        (Worker Env → Option DeliveryOutcome × Worker Env)
        → Bool × CircuitBreaker
        → Worker Env
        → Option DeliveryOutcome × Worker Env
    unfolding store
    gate next (false, cb) w = store (codes "API circuit breaker open") (record w { api = cb })
    gate next (true, cb) w = next (record w { api = cb })

    last : Sent × Worker Env → Option DeliveryOutcome × Worker Env
    unfolding store on_success on_failure
    last (accepted, w) = (some delivered, on_success w)
    last (refused e, w) = store e (on_failure w)

    unfoldable pub rounds : ℕ → Worker Env → Option DeliveryOutcome × Worker Env
    unfolding gate behind last wait
    rounds zero w =
        gate (λ v. last (send_result_to_api api_url result v)) (allow_request w.api (now w.env)) w
    rounds (suc left) w =
        gate
          (λ v. behind (λ u. rounds left (wait (suc left) u)) (send_result_to_api api_url result v))
          (allow_request w.api (now w.env)) w

    unfoldable pub send_result_with_retry_breaker : Worker Env → Option DeliveryOutcome × Worker Env
    send_result_with_retry_breaker w = rounds 2 w

    -- The same without a breaker and without jitter, for recovery.
    plain_wait : ℕ → Worker Env → Worker Env
    plain_wait left w = record w { env = sleep (backoff_ms (max_retries - left) 0) w.env }

    plain_last : Sent × Worker Env → Option DeliveryOutcome × Worker Env
    unfolding store
    plain_last (accepted, w) = (some delivered, w)
    plain_last (refused e, w) = store e w

    plain_behind :
        (Worker Env → Option DeliveryOutcome × Worker Env)
        → Sent × Worker Env
        → Option DeliveryOutcome × Worker Env
    plain_behind next (accepted, w) = (some delivered, w)
    plain_behind next (refused e, w) = next w

    unfoldable pub plain_rounds : ℕ → Worker Env → Option DeliveryOutcome × Worker Env
    unfolding plain_wait plain_last plain_behind
    plain_rounds zero w = plain_last (send_result_to_api api_url result w)
    plain_rounds (suc left) w =
        plain_behind (λ u. plain_rounds left (plain_wait (suc left) u))
          (send_result_to_api api_url result w)

    unfoldable pub send_result_with_retry : Worker Env → Option DeliveryOutcome × Worker Env
    send_result_with_retry w = plain_rounds 2 w
