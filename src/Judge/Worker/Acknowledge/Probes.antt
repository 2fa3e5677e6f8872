-- ===== src/Judge/Worker/Acknowledge/Probes.antt =====
-- The breaker of Redis in backend/judge-worker/src/main.rs while a message is acknowledged.
use mathlib.Core.Path.{subst}
use codenexus.Prelude.{
  ℕ, zero, suc, ◌+◌, ◌^◌, ◌<◌, ◌≡◌, refl, sym, ap, ◌∙◌, inl, inr, Bool, true, false, Option, none,
  some, arith, Text,
}
use codenexus.Judge.CircuitBreaker.{CircuitBreaker, allow_request}
use codenexus.Judge.CircuitBreaker.Resting.{
  Resting, Granted, Answered, allow-Answered, success-Resting, failure-Resting,
}
use codenexus.Judge.Worker.{Outside, Worker}
use codenexus.Judge.Worker.Acknowledge.{
  acknowledge_submission, pause, attempt, attempts, report, gate, acknowledge_with_retry_breaker,
}

module _ (outside : Outside) (stream group message_id : Text) where
  open outside use {Env}

  abbrev ask : Worker Env → Option ℕ × Worker Env
  ask v = acknowledge_submission outside stream group message_id v

  ask-redis : (w : Worker Env) → (ask w).1.redis ≡ w.redis
  unfolding acknowledge_submission
  ask-redis w = refl

  attempt-redis :
      (next : Worker Env → Bool × Worker Env) (x : Option ℕ × Worker Env) (cb : CircuitBreaker)
      → ((v : Worker Env) → v.redis ≡ cb → (next v).1.redis ≡ cb)
      → x.1.redis ≡ cb
      → (attempt outside stream group message_id next x).1.redis ≡ cb
  unfolding attempt
  attempt-redis next (none, w) cb k e = k w e
  attempt-redis next (some zero, w) cb k e = e
  attempt-redis next (some (suc n), w) cb k e = e

  attempts-redis :
      (k : ℕ) (w : Worker Env) (cb : CircuitBreaker)
      → w.redis ≡ cb
      → (attempts outside stream group message_id k w).1.redis ≡ cb
  unfolding attempts pause
  attempts-redis zero w cb e = attempt-redis _ (ask w) cb (λ v f. f) (ask-redis w ∙ e)
  attempts-redis (suc k) w cb e =
      attempt-redis _ (ask w) cb
        (λ v f. attempts-redis k (pause outside stream group message_id v) cb f) (ask-redis w ∙ e)

  report-Resting :
      (x : Bool × Worker Env)
      → Granted x.1.redis
      → x.1.redis.failure_count + 1 < 2 ^ 64
      → Resting (report outside stream group message_id x).1.redis
  unfolding report
  report-Resting (true, w) g small = success-Resting w.redis
  report-Resting (false, w) g small = (failure-Resting w.redis (outside.now w.env) small g).0

  gate-Resting :
      (p : Bool × CircuitBreaker) (w : Worker Env)
      → Answered w.redis p
      → w.redis.failure_count + 1 < 2 ^ 64
      → Resting (gate outside stream group message_id p w).1.redis
  unfolding gate
  gate-Resting (false, cb) w (inl (e, g), c) small = cc
  gate-Resting (false, cb) w (inr (e, r), c) small = r
  gate-Resting (true, cb) w (inr (e, r), c) small = cc
  gate-Resting (true, cb) w (inl (e, g), c) small =
      let same : (attempts outside stream group message_id 2 (record w { redis = cb })).1.redis
          ≡ cb =
        attempts-redis 2 (record w { redis = cb }) cb refl in
      report-Resting _ (subst Granted (sym same) g)
        (omega (arith, ap (λ (b : CircuitBreaker). b.failure_count) same, c))

  -- If no probe of the breaker of Redis is under way, and the breaker is open only with its
  -- threshold reached, the same holds after acknowledge_with_retry_breaker, whatever Redis
  -- answers, as long as the failure count stays below 2^64.
  pub acknowledge_with_retry_breaker-Resting :
      (w : Worker Env)
      → Resting w.redis
      → w.redis.failure_count + 1 < 2 ^ 64
      → Resting (acknowledge_with_retry_breaker outside stream group message_id w).1.redis
  unfolding acknowledge_with_retry_breaker
  acknowledge_with_retry_breaker-Resting w r small =
      gate-Resting (allow_request w.redis (outside.now w.env)) w (allow-Answered w.redis _ r) small
