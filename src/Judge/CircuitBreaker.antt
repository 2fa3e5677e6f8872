-- ===== src/Judge/CircuitBreaker.antt =====
-- backend/judge-worker/src/circuit_breaker.rs: the circuit breaker, called from one thread. An
-- `Instant` is a number of nanoseconds, and the clock is an argument. The mutex is never poisoned,
-- since no code that holds it panics. Interleavings of calls are in the module `Probe`.
pub mod Machine
pub mod Behaviour
pub mod Probe
pub mod Resting
use codenexus.Prelude.{
  ℕ, ◌+◌, ◌-◌, ◌/◌, ◌%◌, ◌^◌, Bool, true, false, Option, none, some, leb, if◌then◌else◌,
}

pub data BreakerState : Type 0 where
  closed opened half_open : BreakerState

pub record CircuitBreaker : Type 0 where
  pub failure_count : ℕ  -- AtomicUsize
  pub is_open : Bool
  pub half_open_in_progress : Bool
  pub last_failure_time : Option ℕ
  pub failure_threshold : ℕ
  pub half_open_timeout_secs : ℕ

unfoldable pub new : ℕ → ℕ → CircuitBreaker
new failure_threshold half_open_timeout_secs = record {
  failure_count = 0;
  is_open = false;
  half_open_in_progress = false;
  last_failure_time = none;
  failure_threshold = failure_threshold;
  half_open_timeout_secs = half_open_timeout_secs;
}

-- `fetch_add` wraps on 64 bits.
abbrev pub usize : ℕ → ℕ
usize n = n % 2 ^ 64

-- `last.elapsed().as_secs()`: `elapsed` is zero if the clock is behind `last`.
abbrev pub elapsed_secs : ℕ → ℕ → ℕ
elapsed_secs last now = (now - last) / 1_000_000_000

-- The branch of `allow_request` for the open state, under the lock; the compare-and-exchange on
-- `half_open_in_progress` succeeds if it is `false`.
try_half_open : CircuitBreaker → Option ℕ → ℕ → Bool × CircuitBreaker
try_half_open cb none now = (false, cb)
try_half_open cb (some last) now =
    if leb cb.half_open_timeout_secs (elapsed_secs last now)
    then if cb.half_open_in_progress
      then (false, cb)
      else (true, record cb { half_open_in_progress = true; is_open = false })
    else (false, cb)

unfoldable pub allow_request : CircuitBreaker → ℕ → Bool × CircuitBreaker
unfolding try_half_open
allow_request cb now =
    if cb.is_open
    then try_half_open cb cb.last_failure_time now
    else if cb.half_open_in_progress
    then (false, cb)
    else (true, cb)

unfoldable pub record_success : CircuitBreaker → CircuitBreaker
record_success cb = record cb {
  failure_count = 0;
  is_open = false;
  half_open_in_progress = false;
  last_failure_time = none;
}

unfoldable pub record_failure : CircuitBreaker → ℕ → CircuitBreaker
record_failure cb now =
    let count = usize (cb.failure_count + 1) in
    if leb cb.failure_threshold count
    then record cb {
      failure_count = count;
      is_open = true;
      half_open_in_progress = false;
      last_failure_time = some now;
    }
    else record cb { failure_count = count }

unfoldable pub state : CircuitBreaker → BreakerState
state cb = if cb.is_open then opened else if cb.half_open_in_progress then half_open else closed

-- The calls on a breaker, and the answers to `allow_request` in their order.
pub data Call : Type 0 where
  allow success failure : Call
