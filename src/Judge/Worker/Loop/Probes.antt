-- ===== src/Judge/Worker/Loop/Probes.antt =====
-- The breaker of Redis in `consume_and_process` of backend/judge-worker/src/main.rs.
use codenexus.Prelude.{
  ◌+◌, ◌^◌, ◌<◌, inl, inr, Bool, true, false, Option, none, some, List, arith, Text,
}
use codenexus.Judge.CircuitBreaker.{CircuitBreaker, allow_request}
use codenexus.Judge.CircuitBreaker.Resting.{
  Resting, Granted, Answered, allow-Answered, success-Resting, failure-Resting,
}
use codenexus.Judge.Queue.{Redis}
use codenexus.Judge.Queue.Consumer.{PriorityMessage}
use codenexus.Judge.Worker.{Outside, Worker}
use codenexus.Judge.Worker.Loop.{tell, allowed, consume}

module _ (outside : Outside) (redis : Redis) (api_url contest_stream stream_name group : Text) where
  open outside use {Env}
  open redis use {Server}

  tell-Resting :
      (x : Option (List PriorityMessage × Option PriorityMessage) × Server) (w : Worker Env)
      → Granted w.redis
      → w.redis.failure_count + 1 < 2 ^ 64
      → Resting (tell outside redis api_url contest_stream stream_name group x w).1.redis
  unfolding tell
  tell-Resting (some (msgs, parked), s) w g small = success-Resting w.redis
  tell-Resting (none, s) w g small = (failure-Resting w.redis (outside.now w.env) small g).0

  allowed-Resting :
      (p : Bool × CircuitBreaker) (parked : Option PriorityMessage) (w : Worker Env) (s : Server)
      → Answered w.redis p
      → w.redis.failure_count + 1 < 2 ^ 64
      → Resting
          (allowed outside redis api_url contest_stream stream_name group p parked w s).1.redis
  unfolding allowed
  allowed-Resting (false, cb) parked w s (inl (e, g), c) small = cc
  allowed-Resting (false, cb) parked w s (inr (e, r), c) small = r
  allowed-Resting (true, cb) parked w s (inr (e, r), c) small = cc
  allowed-Resting (true, cb) parked w s (inl (e, g), c) small =
      tell-Resting _ (record w { redis = cb }) g (omega (arith, c))

  -- If no probe of the breaker of Redis is under way, and the breaker is open only with its
  -- threshold reached, the same holds after the read at the start of consume_and_process, whether
  -- it is skipped, fails or gives messages, as long as the failure count stays below 2^64.
  pub consume-Resting :
      (parked : Option PriorityMessage) (w : Worker Env) (s : Server)
      → Resting w.redis
      → w.redis.failure_count + 1 < 2 ^ 64
      → Resting (consume outside redis api_url contest_stream stream_name group parked w s).1.redis
  unfolding consume
  consume-Resting parked w s r small =
      allowed-Resting (allow_request w.redis (outside.now w.env)) parked w s
        (allow-Answered w.redis _ r) small
