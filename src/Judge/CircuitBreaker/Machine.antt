-- ===== src/Judge/CircuitBreaker/Machine.antt =====
-- The breaker of circuit_breaker.rs beside a machine of three modes. It counts failures, and admits
-- every request; it is tripped, and refuses them until the time-out has passed, when it admits one as
-- a probe; while it probes it refuses them. A success leads from any mode back to counting.
use mathlib.Core.Path.{subst}
use codenexus.Prelude.{
  ◌∙◌, ℕ, ◌+◌, ◌^◌, ◌≤◌, ◌<◌, ◌≡◌, refl, Bool, true, false, Option, none, some, List, [], ◌∷◌,
  arith, leb, length, if◌then◌else◌,
}
use codenexus.Judge.CircuitBreaker.{
  BreakerState, closed, opened, half_open, CircuitBreaker, new, elapsed_secs, allow_request,
  record_success, record_failure, state, Call, allow, success, failure,
}

-- Closed with a number of consecutive failures; open since a time; probing.
pub data Mode : Type 0 where
  counting : ℕ → Mode
  tripped : ℕ → Mode
  probing : Mode

module _ (threshold timeout : ℕ) where
  fail : ℕ → Mode → Mode
  fail now (counting n) = if leb threshold (n + 1) then tripped now else counting (n + 1)
  fail now (tripped t) = tripped now
  fail now probing = tripped now

  ask : ℕ → Mode → Bool × Mode
  ask now (counting n) = (true, counting n)
  ask now (tripped t) =
      if leb timeout (elapsed_secs t now) then (true, probing) else (false, tripped t)
  ask now probing = (false, probing)

  -- One call: the answer, for `allow`, and the mode behind it.
  unfoldable pub move : ℕ × Call → Mode → Option Bool × Mode
  unfolding fail ask
  move (now, allow) m = let (b, m') = ask now m in (some b, m')
  move (now, success) m = (none, counting 0)
  move (now, failure) m = (none, fail now m)

  unfoldable pub moves : List (ℕ × Call) → Mode → List (Option Bool)
  moves [] m = []
  moves (c ∷ cs) m = let (b, m') = move c m in b ∷ moves cs m'

abbrev pub shown : Mode → BreakerState
shown (counting n) = closed
shown (tripped t) = opened
shown probing = half_open

unfoldable pub call : ℕ × Call → CircuitBreaker → Option Bool × CircuitBreaker
call (now, allow) cb = let (b, cb') = allow_request cb now in (some b, cb')
call (now, success) cb = (none, record_success cb)
call (now, failure) cb = (none, record_failure cb now)

unfoldable pub calls : List (ℕ × Call) → CircuitBreaker → List (Option Bool)
calls [] cb = []
calls (c ∷ cs) cb = let (b, cb') = call c cb in b ∷ calls cs cb'

-- The fields of a breaker in a mode.
abbrev pub InMode : CircuitBreaker → Mode → Type 0
InMode cb (counting n) =
    (cb.is_open ≡ false) × (cb.half_open_in_progress ≡ false) × (cb.failure_count ≡ n)
InMode cb (tripped t) =
    (cb.is_open ≡ true)
    × (cb.half_open_in_progress ≡ false)
    × (cb.last_failure_time ≡ some t)
    × (cb.failure_threshold ≤ cb.failure_count)
InMode cb probing =
    (cb.is_open ≡ false)
    × (cb.half_open_in_progress ≡ true)
    × (cb.failure_threshold ≤ cb.failure_count)

-- One call does to the breaker what it does to the machine, as long as the counter does not wrap.
abbrev Refines : CircuitBreaker → Mode → ℕ × Call → Type 0
Refines cb m c =
    let (b, cb') = call c cb in
    let (b', m') = move cb.failure_threshold cb.half_open_timeout_secs c m in
    (b ≡ b')
    × InMode cb' m'
    × (cb'.failure_threshold ≡ cb.failure_threshold)
    × (cb'.half_open_timeout_secs ≡ cb.half_open_timeout_secs)
    × (cb'.failure_count ≤ cb.failure_count + 1)

call-move :
    (cb : CircuitBreaker) (m : Mode) (c : ℕ × Call)
    → cb.failure_count + 1 < 2 ^ 64
    → InMode cb m
    → Refines cb m c
unfolding call move allow_request record_success record_failure
call-move cb (counting n) (now, allow) small h = ground arith
call-move cb (counting n) (now, success) small h = ground arith
call-move cb (counting n) (now, failure) small h = ground arith
call-move cb (tripped t) (now, allow) small h = ground arith
call-move cb (tripped t) (now, success) small h = ground arith
call-move cb (tripped t) (now, failure) small h = ground arith
call-move cb probing (now, allow) small h = ground arith
call-move cb probing (now, success) small h = ground arith
call-move cb probing (now, failure) small h = ground arith

InMode-state : (cb : CircuitBreaker) (m : Mode) → InMode cb m → state cb ≡ shown m
unfolding state
InMode-state cb (counting n) h = ground arith
InMode-state cb (tripped t) h = ground arith
InMode-state cb probing h = ground arith

-- The breaker and the machine after a list of calls.
unfoldable pub after : List (ℕ × Call) → CircuitBreaker → CircuitBreaker
after [] cb = cb
after (c ∷ cs) cb = after cs (call c cb).1

unfoldable pub mode_after : ℕ → ℕ → List (ℕ × Call) → Mode → Mode
mode_after threshold timeout [] m = m
mode_after threshold timeout (c ∷ cs) m =
    mode_after threshold timeout cs (move threshold timeout c m).1

module _ (threshold timeout : ℕ) where
  pub run_refines :
      (cs : List (ℕ × Call)) (cb : CircuitBreaker) (m : Mode)
      → cb.failure_count + length cs < 2 ^ 64
      → cb.failure_threshold ≡ threshold
      → cb.half_open_timeout_secs ≡ timeout
      → InMode cb m
      → (calls cs cb ≡ moves threshold timeout cs m)
        × (state (after cs cb) ≡ shown (mode_after threshold timeout cs m))
  unfolding calls moves after mode_after
  run_refines [] cb m small e f h = (refl, InMode-state cb m h)
  run_refines (c ∷ cs) cb m small e f h =
      let one : Refines cb m c = call-move cb m c (omega arith) h in
      let same : move cb.failure_threshold cb.half_open_timeout_secs c m
          ≡ move threshold timeout c m =
        rw (e, f) refl in
      let rest =
        run_refines cs (call c cb).1 (move threshold timeout c m).1 (omega (arith, one.4))
          (one.2 ∙ e) (one.3 ∙ f) (subst (λ p. InMode (call c cb).1 p.1) same one.1) in
      (cc (one.0, same, rest.0), rest.1)

  -- Over fewer than 2^64 calls at any times, a new breaker gives the answers of a machine of three
  -- modes and reports its state. The machine counts failures in a row and admits requests; at the
  -- threshold it trips, and refuses until the time-out has passed since the last failure, when it
  -- admits one as a probe; it refuses while it probes. A failure trips it again from the last two
  -- modes, and a success leads from any mode back to counting.
  pub breaker_refines :
      (cs : List (ℕ × Call))
      → length cs < 2 ^ 64
      → (calls cs (new threshold timeout) ≡ moves threshold timeout cs (counting 0))
        × (state (after cs (new threshold timeout))
            ≡ shown (mode_after threshold timeout cs (counting 0)))
  unfolding new
  breaker_refines cs small =
      run_refines cs (new threshold timeout) (counting 0) (omega arith) refl refl (refl, refl, refl)
