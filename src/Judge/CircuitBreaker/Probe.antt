-- ===== src/Judge/CircuitBreaker/Probe.antt =====
-- circuit_breaker.rs under concurrency: any number of threads inside `allow_request`, each of its
-- loads, stores, lock operations and the compare-and-exchange a step of its own. No thread records
-- a result meanwhile.
use codenexus.Prelude.{
  ℕ, ◌+◌, ◌≤◌, ◌≡◌, refl, ◌⊎◌, inr, Bool, true, false, not, Option, none, some, List, [], ◌∷◌, ◌++◌,
  arith, All, leb,
}
use codenexus.Judge.CircuitBreaker.{elapsed_secs}

-- The fields of the breaker that the method reads or writes, and whether the mutex is held.
pub record Shared : Type 0 where
  pub is_open : Bool
  pub half_open_in_progress : Bool
  pub last_failure_time : Option ℕ
  pub locked : Bool

-- Where a thread stands: before the first load; behind it, with what it read; holding the lock;
-- behind a successful exchange; returned.
pub data Thread : Type 0 where
  start checking waiting holding won : Thread
  returned : Bool → Thread

pub record World : Type 0 where
  pub shared : Shared
  pub threads : List Thread

module _ (timeout : ℕ) where
  -- Has the timeout elapsed? The clock is read at the step.
  pub due : Option ℕ → ℕ → Bool
  due none now = false
  due (some last) now = leb timeout (elapsed_secs last now)

  -- One step of one thread.
  pub data Step (s : Shared) (p : Thread) (s' : Shared) (p' : Thread) : Type 0 where
    load_closed : s.is_open ≡ false → p ≡ start → s' ≡ s → p' ≡ checking → Step s p s' p'
    load_open : s.is_open ≡ true → p ≡ start → s' ≡ s → p' ≡ waiting → Step s p s' p'
    load_half : p ≡ checking → s' ≡ s → p' ≡ returned (not s.half_open_in_progress) → Step s p s' p'
    lock :
        s.locked ≡ false
        → p ≡ waiting
        → s' ≡ record s { locked = true }
        → p' ≡ holding
        → Step s p s' p'
    too_early :
        (now : ℕ)
        → due s.last_failure_time now ≡ false
        → p ≡ holding
        → s' ≡ record s { locked = false }
        → p' ≡ returned false
        → Step s p s' p'
    exchange :
        (now : ℕ)
        → due s.last_failure_time now ≡ true
        → s.half_open_in_progress ≡ false
        → p ≡ holding
        → s' ≡ record s { half_open_in_progress = true }
        → p' ≡ won
        → Step s p s' p'
    exchange_lost :
        (now : ℕ)
        → due s.last_failure_time now ≡ true
        → s.half_open_in_progress ≡ true
        → p ≡ holding
        → s' ≡ record s { locked = false }
        → p' ≡ returned false
        → Step s p s' p'
    publish :
        p ≡ won
        → s' ≡ record s { is_open = false; locked = false }
        → p' ≡ returned true
        → Step s p s' p'

  -- Some thread makes a step.
  pub data Next (w w' : World) : Type 0 where
    next :
        (xs : List Thread) (p p' : Thread) (ys : List Thread) (s' : Shared)
        → w.threads ≡ xs ++ p ∷ ys
        → Step w.shared p s' p'
        → w' ≡ record { shared = s'; threads = xs ++ p' ∷ ys }
        → Next w w'

  pub data Reach (w : World) : World → Type 0 where
    here : Reach w w
    then : {u v : World} → Reach w u → Next u v → Reach w v

-- A thread that was let through, or is about to be.
abbrev through : Thread → ℕ
through won = 1
through (returned b) = elim b [ true ↦ 1 | false ↦ 0 ]
through start = 0
through checking = 0
through waiting = 0
through holding = 0

abbrev in_check : Thread → ℕ
in_check checking = 1
in_check won = 0
in_check (returned b) = 0
in_check start = 0
in_check waiting = 0
in_check holding = 0

abbrev pub sum : (Thread → ℕ) → List Thread → ℕ
sum f [] = 0
sum f (p ∷ ps) = f p + sum f ps

sum-append :
    (f : Thread → ℕ) (xs : List Thread) (p : Thread) (ys : List Thread)
    → sum f (xs ++ p ∷ ys) ≡ sum f xs + sum f ys + f p
sum-append f [] p ys = omega arith
sum-append f (x ∷ xs) p ys = omega (arith, sum-append f xs p ys)

-- Either a thread won the exchange, or the breaker is as it was opened and no thread found it
-- otherwise.
abbrev Inv : Shared → ℕ → ℕ → Type 0
Inv s won_by checked_by =
    ((s.half_open_in_progress ≡ true) × (won_by ≤ 1))
    ⊎ ((s.half_open_in_progress ≡ false) × (s.is_open ≡ true) × (won_by ≡ 0) × (checked_by ≡ 0))

Step-Inv :
    (timeout : ℕ) (s : Shared) (p : Thread) (s' : Shared) (p' : Thread) (a b : ℕ)
    → Step timeout s p s' p'
    → Inv s (a + through p) (b + in_check p)
    → Inv s' (a + through p') (b + in_check p')
Step-Inv timeout s p s' p' a b (load_closed o e f g) h = ground arith
Step-Inv timeout s p s' p' a b (load_open o e f g) h = ground arith
Step-Inv timeout s p s' p' a b (load_half e f g) h = ground arith
Step-Inv timeout s p s' p' a b (lock l e f g) h = ground arith
Step-Inv timeout s p s' p' a b (too_early now d e f g) h = ground arith
Step-Inv timeout s p s' p' a b (exchange now d x e f g) h = ground arith
Step-Inv timeout s p s' p' a b (exchange_lost now d x e f g) h = ground arith
Step-Inv timeout s p s' p' a b (publish e f g) h = ground arith

abbrev Holds : World → Type 0
Holds w = Inv w.shared (sum through w.threads) (sum in_check w.threads)

Next-Holds : (timeout : ℕ) {w w' : World} → Next timeout w w' → Holds w → Holds w'
Next-Holds timeout {w} {w'} (next xs p p' ys s' e st f) h =
    rw (f, sum-append through xs p' ys, sum-append in_check xs p' ys)
      (Step-Inv timeout w.shared p s' p' (sum through xs + sum through ys)
        (sum in_check xs + sum in_check ys) st
        (rw (e, sum-append through xs p ys, sum-append in_check xs p ys) at h))

Reach-Holds : (timeout : ℕ) {w w' : World} → Holds w → Reach timeout w w' → Holds w'
Reach-Holds timeout h here = h
Reach-Holds timeout h (then r n) = Next-Holds timeout n (Reach-Holds timeout h r)

All-start :
    (f : Thread → ℕ) → f start ≡ 0 → (ps : List Thread) → All (λ p. p ≡ start) ps → sum f ps ≡ 0
All-start f z [] h = refl
All-start f z (p ∷ ps) h = rw h.0 (omega (arith, All-start f z ps h.1))

-- A call that returned `true`.
abbrev pub is_granted : Thread → ℕ
is_granted (returned b) = elim b [ true ↦ 1 | false ↦ 0 ]
is_granted start = 0
is_granted checking = 0
is_granted waiting = 0
is_granted holding = 0
is_granted won = 0

granted-le-through : (ps : List Thread) → sum is_granted ps ≤ sum through ps
granted-le-through [] = omega arith
granted-le-through (p ∷ ps) = ground (arith, granted-le-through ps)

-- However the steps of any number of threads inside allow_request interleave, starting from an
-- open breaker without a probe and with every thread before its first load, at most one thread is
-- let through, as long as no result is recorded meanwhile.
pub one_probe_among_threads :
    (timeout : ℕ) (w w' : World)
    → w.shared.is_open ≡ true
    → w.shared.half_open_in_progress ≡ false
    → All (λ p. p ≡ start) w.threads
    → Reach timeout w w'
    → sum is_granted w'.threads ≤ 1
one_probe_among_threads timeout w w' o hf ps r =
    let zero_through = All-start through refl w.threads ps in
    let zero_check = All-start in_check refl w.threads ps in
    let h : Holds w = inr (hf, o, zero_through, zero_check) in
    omega (arith, Reach-Holds timeout h r, granted-le-through w'.threads)
