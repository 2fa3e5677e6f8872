-- ===== src/Judge/Worker/Requests.antt =====
-- Logs of the requests in backend/judge-worker/src/main.rs: which orders are safe.
use mathlib.Core.List.{append_assoc, append-nil}
use codenexus.Prelude.{
  ℕ, ◌+◌, ◌≤◌, ◌≡◌, refl, sym, ap, ◌∙◌, Bool, true, ◌&&◌, ◌||◌, List, [], ◌∷◌, ◌++◌, arith, length,
  length-append,
}
use codenexus.Judge.Worker.{Event, posted, stored, acked}

-- Is the result with the API or in the dead letter queue, once it was so or not?
abbrev pub settles : Bool → Event → Bool
settles seen (posted r ok) = seen || ok
settles seen (stored fields ok) = seen || ok
settles seen (acked stream id ok) = seen

-- A message is acknowledged only when its result is.
abbrev pub allowed : Bool → Event → Bool
allowed seen (posted r ok) = true
allowed seen (stored fields ok) = true
allowed seen (acked stream id ok) = seen

unfoldable pub settled : Bool → List Event → Bool
settled seen [] = seen
settled seen (e ∷ es) = settled (settles seen e) es

unfoldable pub in_order : Bool → List Event → Bool
in_order seen [] = true
in_order seen (e ∷ es) = let rest = in_order (settles seen e) es in allowed seen e && rest

settled-append :
    (seen : Bool) (es fs : List Event) → settled seen (es ++ fs) ≡ settled (settled seen es) fs
unfolding settled
settled-append seen [] fs = refl
settled-append seen (e ∷ es) fs = settled-append (settles seen e) es fs

in_order-append :
    (seen : Bool) (es fs : List Event)
    → in_order seen es ≡ true
    → in_order (settled seen es) fs ≡ true
    → in_order seen (es ++ fs) ≡ true
unfolding settled in_order
in_order-append seen [] fs h k = k
in_order-append seen (e ∷ es) fs h k = ground (arith, in_order-append (settles seen e) es fs)

-- From one log to a later one: some new requests, in a safe order, at most `n` of them.
pub record Run (l l' : List Event) (seen seen' : Bool) (n : ℕ) : Type 0 where
  pub new : List Event
  pub grown : l' ≡ l ++ new
  pub ordered : in_order seen new ≡ true
  pub settling : settled seen new ≡ seen'
  pub few : length new ≤ n

pub Run-here : (l : List Event) (seen : Bool) (n : ℕ) → Run l l seen seen n
unfolding in_order settled
Run-here l seen n = record {
  new = [];
  grown = sym (append-nil l);
  ordered = refl;
  settling = refl;
  few = omega arith;
}

pub Run-one :
    (l : List Event) (seen : Bool) (e : Event)
    → allowed seen e ≡ true
    → Run l (l ++ e ∷ []) seen (settles seen e) 1
unfolding in_order settled
Run-one l seen e h = record {
  new = e ∷ [];
  grown = refl;
  ordered = ground arith;
  settling = refl;
  few = omega arith;
}

pub Run-trans :
    (l l₁ l₂ : List Event) (a b c : Bool) (n m : ℕ)
    → Run l l₁ a b n
    → Run l₁ l₂ b c m
    → Run l l₂ a c (n + m)
Run-trans l l₁ l₂ a b c n m r s = record {
  new = r.new ++ s.new;
  grown = s.grown ∙ ap (λ t. t ++ s.new) r.grown ∙ append_assoc l r.new s.new;
  ordered = in_order-append a r.new s.new r.ordered (rw r.settling s.ordered);
  settling = settled-append a r.new s.new ∙ rw r.settling s.settling;
  few = omega (arith, length-append r.new s.new, r.few, s.few);
}

pub Run-weaken :
    (l l' : List Event) (a b : Bool) (n m : ℕ) → n ≤ m → Run l l' a b n → Run l l' a b m
Run-weaken l l' a b n m le r = record {
  new = r.new;
  grown = r.grown;
  ordered = r.ordered;
  settling = r.settling;
  few = omega (arith, r.few);
}
