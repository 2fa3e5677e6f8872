-- ===== src/Judge/CircuitBreaker/Resting.antt =====
-- Breakers of circuit_breaker.rs that have no probe under way, and what one request does to them.
use codenexus.Prelude.{
  ℕ, ◌+◌, ◌^◌, ◌≤◌, ◌<◌, ◌≡◌, ◌⊎◌, Bool, true, false, Option, none, some, arith,
}
use codenexus.Judge.CircuitBreaker.{
  CircuitBreaker, try_half_open, allow_request, record_success, record_failure,
}

-- No probe is under way, and an open breaker has counted its failures.
abbrev pub Resting : CircuitBreaker → Type 0
Resting cb =
    (cb.half_open_in_progress ≡ false)
    × ((cb.is_open ≡ false) ⊎ (cb.failure_threshold ≤ cb.failure_count))

-- A request was let through, as a probe or not.
abbrev pub Granted : CircuitBreaker → Type 0
Granted cb =
    (cb.is_open ≡ false)
    × ((cb.half_open_in_progress ≡ false) ⊎ (cb.failure_threshold ≤ cb.failure_count))

-- An answer of `allow_request`, which leaves the counter.
abbrev pub Answered : CircuitBreaker → Bool × CircuitBreaker → Type 0
Answered cb p =
    (((p.0 ≡ true) × Granted p.1) ⊎ ((p.0 ≡ false) × Resting p.1))
    × (p.1.failure_count ≡ cb.failure_count)

try-Answered :
    (cb : CircuitBreaker) (last : Option ℕ) (now : ℕ)
    → cb.is_open ≡ true
    → Resting cb
    → Answered cb (try_half_open cb last now)
unfolding try_half_open
try-Answered cb none now e r = ground arith
try-Answered cb (some last) now e r = ground arith

pub allow-Answered :
    (cb : CircuitBreaker) (now : ℕ) → Resting cb → Answered cb (allow_request cb now)
unfolding allow_request
allow-Answered cb now r = ground (arith, try-Answered cb cb.last_failure_time now)

pub success-Resting : (cb : CircuitBreaker) → Resting (record_success cb)
unfolding record_success
success-Resting cb = ground arith

pub failure-Resting :
    (cb : CircuitBreaker) (now : ℕ)
    → cb.failure_count + 1 < 2 ^ 64
    → Granted cb
    → Resting (record_failure cb now)
      × ((record_failure cb now).failure_count ≡ cb.failure_count + 1)
unfolding record_failure
failure-Resting cb now small g = ground arith
