-- ===== src/Judge/CircuitBreaker/Behaviour.antt =====
-- Runs of circuit_breaker.rs with failures only, and with requests only.
use native.Mathlib.Nat.{zero-add}
use codenexus.Prelude.{
  ℕ, suc, ◌+◌, ◌^◌, ◌≤◌, ◌<◌, ◌≡◌, refl, ◌∙◌, Bool, true, false, Option, none, some, List, [], ◌∷◌,
  arith, leb, length, map, if◌then◌else◌,
}
use codenexus.Judge.CircuitBreaker.{
  closed, opened, CircuitBreaker, new, state, Call, allow, failure,
}
use codenexus.Judge.CircuitBreaker.Machine.{
  counting, tripped, probing, InMode, move, moves, calls, after, mode_after, breaker_refines, shown,
  run_refines,
}

-- A failed call at each of the times.
abbrev pub failures : List ℕ → List (ℕ × Call)
failures = map (λ t. (t, failure))

abbrev pub asks : List ℕ → List (ℕ × Call)
asks = map (λ t. (t, allow))

tripped_stays :
    (threshold timeout : ℕ) (ts : List ℕ) (t : ℕ)
    → shown (mode_after threshold timeout (failures ts) (tripped t)) ≡ opened
unfolding mode_after move
tripped_stays threshold timeout [] t = refl
tripped_stays threshold timeout (u ∷ ts) t = tripped_stays threshold timeout ts u

trips :
    (threshold timeout : ℕ) (ts : List ℕ) (n : ℕ)
    → n < threshold
    → shown (mode_after threshold timeout (failures ts) (counting n))
      ≡ (if leb threshold (n + length ts) then opened else closed)
unfolding mode_after move
trips threshold timeout [] n h = ground arith
trips threshold timeout (t ∷ ts) n h =
    ground (arith, tripped_stays threshold timeout ts t, trips threshold timeout ts (n + 1))

length-failures : (ts : List ℕ) → length (failures ts) ≡ length ts
length-failures [] = refl
length-failures (t ∷ ts) = omega (arith, length-failures ts)

-- A new breaker with a positive threshold is open after a number of consecutive failures (fewer
-- than 2^64) if that number has reached the threshold, and closed otherwise.
opens_at_threshold :
    (threshold timeout : ℕ) (ts : List ℕ)
    → 0 < threshold
    → length ts < 2 ^ 64
    → state (after (failures ts) (new threshold timeout))
      ≡ (if leb threshold (length ts) then opened else closed)
opens_at_threshold threshold timeout ts h small =
    (breaker_refines threshold timeout (failures ts) (omega (arith, length-failures ts))).1
    ∙ (rw zero-add at (trips threshold timeout ts 0 h))

-- How many requests were let through.
unfoldable pub granted : List (Option Bool) → ℕ
granted [] = 0
granted (some true ∷ bs) = suc (granted bs)
granted (some false ∷ bs) = granted bs
granted (none ∷ bs) = granted bs

probing_denies :
    (threshold timeout : ℕ) (ts : List ℕ) → granted (moves threshold timeout (asks ts) probing) ≡ 0
unfolding granted moves move
probing_denies threshold timeout [] = refl
probing_denies threshold timeout (t ∷ ts) = probing_denies threshold timeout ts

one_granted :
    (threshold timeout : ℕ) (ts : List ℕ) (t : ℕ)
    → granted (moves threshold timeout (asks ts) (tripped t)) ≤ 1
unfolding granted moves move
one_granted threshold timeout [] t = omega arith
one_granted threshold timeout (u ∷ ts) t =
    ground (arith, probing_denies threshold timeout ts, one_granted threshold timeout ts t)

length-asks : (ts : List ℕ) → length (asks ts) ≡ length ts
length-asks [] = refl
length-asks (t ∷ ts) = omega (arith, length-asks ts)

-- While no result is recorded, a breaker that is open and has no probe lets at most one request
-- through, whenever it is asked, as long as the number of calls added to its failure count stays
-- below 2^64.
one_probe :
    (cb : CircuitBreaker) (t : ℕ) (ts : List ℕ)
    → InMode cb (tripped t)
    → cb.failure_count + length ts < 2 ^ 64
    → granted (calls (asks ts) cb) ≤ 1
one_probe cb t ts h small =
    let same =
      (run_refines cb.failure_threshold cb.half_open_timeout_secs (asks ts) cb (tripped t)
        (omega (arith, length-asks ts)) refl refl h).0 in
    rw same (one_granted cb.failure_threshold cb.half_open_timeout_secs ts t)
