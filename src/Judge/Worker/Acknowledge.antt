-- ===== src/Judge/Worker/Acknowledge.antt =====
-- `acknowledge_with_retry_breaker` and `acknowledge_with_retry` of backend/judge-worker/src/main.rs,
-- with `acknowledge_submission` of queue/consumer.rs. `false` is an error.
pub mod Settled
pub mod Probes
use codenexus.Prelude.{
  ℕ, zero, suc, Bool, true, false, Option, none, some, List, [], ◌∷◌, ◌++◌, Text, if◌then◌else◌,
}
use codenexus.Judge.CircuitBreaker.{CircuitBreaker, allow_request, record_success, record_failure}
use codenexus.Judge.Worker.{Outside, Worker, logged, acked}

-- Was a message acknowledged?
counted : Option ℕ → Bool
counted none = false
counted (some zero) = false
counted (some (suc n)) = true

module _ (outside : Outside) where
  open outside use {Env, xack, now, sleep}

  module _ (stream group message_id : Text) where
    unfoldable pub acknowledge_submission : Worker Env → Option ℕ × Worker Env
    unfolding counted
    acknowledge_submission w =
        let (count, env) = xack stream group message_id w.env in
        (count, logged w env (acked stream message_id (counted count)))

    pause : Worker Env → Worker Env
    pause w = record w { env = sleep 200 w.env }

    -- One attempt: done, refused by the server, or an error, behind which comes what `next` says.
    attempt : (Worker Env → Bool × Worker Env) → Option ℕ × Worker Env → Bool × Worker Env
    attempt next (none, w) = next w
    attempt next (some zero, w) = (false, w)
    attempt next (some (suc n), w) = (true, w)

    unfoldable pub attempts : ℕ → Worker Env → Bool × Worker Env
    unfolding attempt pause
    attempts zero w = attempt (λ v. (false, v)) (acknowledge_submission w)
    attempts (suc left) w = attempt (λ v. attempts left (pause v)) (acknowledge_submission w)

    unfoldable pub acknowledge_with_retry : Worker Env → Bool × Worker Env
    acknowledge_with_retry w = attempts 2 w

    -- The breaker is told of the end of the attempts.
    report : Bool × Worker Env → Bool × Worker Env
    report (true, w) = (true, record w { redis = record_success w.redis })
    report (false, w) = (false, record w { redis = record_failure w.redis (now w.env) })

    gate : Bool × CircuitBreaker → Worker Env → Bool × Worker Env
    unfolding report
    gate (false, cb) w = (false, record w { redis = cb })
    gate (true, cb) w = report (attempts 2 (record w { redis = cb }))

    unfoldable pub acknowledge_with_retry_breaker : Worker Env → Bool × Worker Env
    unfolding gate
    acknowledge_with_retry_breaker w = gate (allow_request w.redis (now w.env)) w
