-- ===== src/Judge/Worker/Acknowledge/Settled.antt =====
-- The requests of acknowledging a message, in backend/judge-worker/src/main.rs.
use codenexus.Prelude.{
  ℕ, zero, suc, ◌+◌, refl, Bool, true, false, Option, none, some, List, arith, Text,
}
use codenexus.Judge.CircuitBreaker.{CircuitBreaker, allow_request}
use codenexus.Judge.Worker.{Outside, Worker, Event}
use codenexus.Judge.Worker.Requests.{Run, Run-here, Run-one, Run-trans, Run-weaken}
use codenexus.Judge.Worker.Acknowledge.{
  acknowledge_submission, pause, attempt, attempts, acknowledge_with_retry, report, gate,
  acknowledge_with_retry_breaker,
}

module _ (outside : Outside) (stream group message_id : Text) where
  open outside use {Env}

  abbrev ask : Worker Env → Option ℕ × Worker Env
  ask v = acknowledge_submission outside stream group message_id v

  ask-Run : (w : Worker Env) → Run w.log (ask w).1.log true true 1
  unfolding acknowledge_submission
  ask-Run w = Run-one w.log true _ refl

  attempt-Run :
      (l : List Event) (n : ℕ) (next : Worker Env → Bool × Worker Env) (x : Option ℕ × Worker Env)
      → ((v : Worker Env) → Run v.log (next v).1.log true true n)
      → Run l x.1.log true true 1
      → Run l (attempt outside stream group message_id next x).1.log true true (1 + n)
  unfolding attempt
  attempt-Run l n next (none, w) k r = Run-trans l w.log _ true true true 1 n r (k w)
  attempt-Run l n next (some zero, w) k r = Run-weaken l w.log true true 1 (1 + n) (omega arith) r
  attempt-Run l n next (some (suc m), w) k r =
      Run-weaken l w.log true true 1 (1 + n) (omega arith) r

  abbrev more : ℕ → Worker Env → Bool × Worker Env
  more k v = attempts outside stream group message_id k (pause outside stream group message_id v)

  attempts-Run :
      (k : ℕ) (w : Worker Env)
      → Run w.log (attempts outside stream group message_id k w).1.log true true (1 + k)
  unfolding attempts pause
  attempts-Run zero w =
      attempt-Run w.log 0 (λ v. (false, v)) (ask w) (λ v. Run-here v.log true 0) (ask-Run w)
  attempts-Run (suc k) w = Run-weaken w.log _ true true (1 + (1 + k)) (1 + suc k) (omega arith) (
      attempt-Run w.log (1 + k) (more k) (ask w)
        (λ v. attempts-Run k (pause outside stream group message_id v)) (ask-Run w))

  report-Run :
      (l : List Event) (n : ℕ) (x : Bool × Worker Env)
      → Run l x.1.log true true n
      → Run l (report outside stream group message_id x).1.log true true n
  unfolding report
  report-Run l n (true, w) r = r
  report-Run l n (false, w) r = r

  gate-Run :
      (p : Bool × CircuitBreaker) (w : Worker Env)
      → Run w.log (gate outside stream group message_id p w).1.log true true 3
  unfolding gate
  gate-Run (false, cb) w = Run-here w.log true 3
  gate-Run (true, cb) w =
      report-Run w.log 3 (attempts outside stream group message_id 2 (record w { redis = cb }))
        (attempts-Run 2 (record w { redis = cb }))

  pub acknowledge_with_retry-Run :
      (w : Worker Env)
      → Run w.log (acknowledge_with_retry outside stream group message_id w).1.log true true 3
  unfolding acknowledge_with_retry
  acknowledge_with_retry-Run w = attempts-Run 2 w

  pub acknowledge_with_retry_breaker-Run :
      (w : Worker Env)
      → Run w.log
          (acknowledge_with_retry_breaker outside stream group message_id w).1.log
          true
          true
          3
  unfolding acknowledge_with_retry_breaker
  acknowledge_with_retry_breaker-Run w = gate-Run (allow_request w.redis (outside.now w.env)) w
