-- ===== src/Tests/Breaker.antt =====
-- The circuit breaker on concrete inputs.
use codenexus.Prelude.{ℕ, ◌≤◌, ◌≡◌, refl, true, false, none, some, List, [], ◌∷◌, arith}
use codenexus.Judge.CircuitBreaker.{
  CircuitBreaker, new, allow_request, record_success, record_failure, state, Call, allow, success,
  failure,
}
use codenexus.Judge.CircuitBreaker.Machine.{
  counting, calls, call, after, moves, mode_after, breaker_refines, shown,
}
use codenexus.Judge.CircuitBreaker.Probe.{
  World, start, waiting, Reach, here, then, next, load_open, sum, is_granted,
  one_probe_among_threads,
}

-- Five failures at second 1; a request at second 20, two at second 40, a success, one at 41.
abbrev outage : List (ℕ × Call)
outage =
    (1_000_000_000, failure)
    ∷ (1_000_000_000, failure)
    ∷ (20_000_000_000, allow)
    ∷ (40_000_000_000, allow)
    ∷ (40_000_000_000, allow)
    ∷ (40_000_000_000, success)
    ∷ (41_000_000_000, allow)
    ∷ []

outage_answers :
    calls outage (new 2 30)
    ≡ none ∷ none ∷ some false ∷ some true ∷ some false ∷ none ∷ some true ∷ []
unfolding calls call new allow_request record_success record_failure
outage_answers = refl

breaker_refines_example :
    (calls outage (new 2 30) ≡ moves 2 30 outage (counting 0))
    × (state (after outage (new 2 30)) ≡ shown (mode_after 2 30 outage (counting 0)))
breaker_refines_example = breaker_refines 2 30 outage (omega arith)

abbrev open_breaker : CircuitBreaker
open_breaker = record {
  failure_count = 5;
  is_open = true;
  half_open_in_progress = false;
  last_failure_time = some 0;
  failure_threshold = 5;
  half_open_timeout_secs = 30;
}

abbrev three_threads : World
three_threads = record {
  shared = record {
    is_open = true;
    half_open_in_progress = false;
    last_failure_time = some 0;
    locked = false;
  };
  threads = start ∷ start ∷ start ∷ [];
}

-- The first thread has gone ahead to the lock.
abbrev one_waits : World
one_waits = record three_threads { threads = waiting ∷ start ∷ start ∷ [] }

first_waits : Reach 30 three_threads one_waits
first_waits =
    then here
      (next [] start waiting (start ∷ start ∷ []) _ refl (load_open refl refl refl refl) refl)

one_probe_among_threads_example : sum is_granted one_waits.threads ≤ 1
one_probe_among_threads_example =
    one_probe_among_threads 30 three_threads one_waits refl refl ((refl, (refl, (refl, tt))))
      first_waits
