-- ===== src/Infra/WebSocket/Tally.antt =====
-- Counting the clients of backend/api-infra/src/websocket/server.rs, and the maps that count them.
use mathlib.Core.Path.{subst}
use codenexus.Prelude.{
  ℕ, suc, ◌+◌, ◌-◌, ◌≤◌, ◌==◌, ==_iff, ◌≡◌, refl, ap, ◌∙◌, Bool, true, false, Option, none, some,
  List, [], ◌∷◌, arith, if◌then◌else◌,
}
use codenexus.Infra.WebSocket.{Client, set, or_zero, decremented, find_client, without_client}

-- How many clients have a property.
unfoldable pub tally : (Client → Bool) → List Client → ℕ
tally p [] = 0
tally p (c ∷ cs) = let rest = tally p cs in if p c then suc rest else rest

abbrev one_if : Bool → ℕ
one_if b = if b then 1 else 0

pub without-absent :
    (id : ℕ) (cs : List Client) → find_client id cs ≡ none → without_client id cs ≡ cs
unfolding find_client without_client
without-absent id [] h = refl
without-absent id (c ∷ cs) h = ground (arith, without-absent id cs)

without-none :
    (id : ℕ) (cs : List Client) → tally (λ c. c.client_id == id) cs ≡ 0 → without_client id cs ≡ cs
unfolding tally without_client
without-none id [] h = refl
without-none id (c ∷ cs) h = ground (arith, without-none id cs)

pub tally-without-le :
    (p : Client → Bool) (id : ℕ) (cs : List Client) → tally p (without_client id cs) ≤ tally p cs
unfolding tally without_client
tally-without-le p id [] = omega arith
tally-without-le p id (c ∷ cs) = ground (arith, tally-without-le p id cs)

tally-found :
    (p : Client → Bool) (id : ℕ) (c : Client) (cs : List Client)
    → tally (λ d. d.client_id == id) cs ≤ 1
    → find_client id cs ≡ some c
    → tally p cs ≡ tally p (without_client id cs) + one_if (p c)
unfolding tally find_client without_client
tally-found p id c [] one h = cc
tally-found p id c (d ∷ cs) one h = ground (arith, tally-found p id c cs, without-none id cs)

-- A map that is set at one key.
set-cases :
    (P : ℕ → Option ℕ → Type 0) (u : ℕ) (v : Option ℕ) (f : ℕ → Option ℕ)
    → P u v
    → ((k : ℕ) → (u == k) ≡ false → P k (f k))
    → (k : ℕ) → P k (set u v f k)
set-cases P u v f here there k = by_test (u == k) refl
  where
    by_test : (b : Bool) → (u == k) ≡ b → P k (if b then v else f k)
    by_test true e = subst (λ j. P j v) ((==_iff u k).0 e) here
    by_test false e = there k e

pub self_eq : (u : ℕ) → (u == u) ≡ true
self_eq u = (==_iff u u).1 refl

decremented-zero : (o : Option ℕ) → or_zero (decremented o) ≡ or_zero o - 1
unfolding decremented
decremented-zero none = refl
decremented-zero (some n) = ground arith

module _ (key_of : Client → ℕ) where
  -- The map counts the clients of each key.
  abbrev pub Tallies : (ℕ → Option ℕ) → List Client → Type 0
  Tallies f cs = (k : ℕ) → or_zero (f k) ≡ tally (λ c. key_of c == k) cs

  pub same-Tallies :
      (u : ℕ) (f : ℕ → Option ℕ) (cs : List Client)
      → Tallies f cs
      → Tallies (set u (some (or_zero (f u))) f) cs
  same-Tallies u f cs h =
      set-cases (λ k o. or_zero o ≡ tally (λ c. key_of c == k) cs) u _ f (h u) (λ k e. h k)

  pub add-Tallies :
      (c : Client) (f : ℕ → Option ℕ) (cs : List Client)
      → Tallies f cs
      → Tallies (set (key_of c) (some (or_zero (f (key_of c)) + 1)) f) (c ∷ cs)
  unfolding tally
  add-Tallies c f cs h =
      set-cases (λ k o. or_zero o ≡ tally (λ d. key_of d == k) (c ∷ cs)) (key_of c) _ f
        (rw (self_eq (key_of c)) (omega (arith, h (key_of c)))) (λ k e. rw e (h k))

  pub undo-Tallies :
      (u : ℕ) (f : ℕ → Option ℕ) (cs : List Client)
      → Tallies f cs
      → Tallies
          (set u
            (decremented (set u (some (or_zero (f u) + 1)) f u))
            (set u (some (or_zero (f u) + 1)) f))
          cs
  undo-Tallies u f cs h =
      set-cases (λ k o. or_zero o ≡ tally (λ d. key_of d == k) cs) u _ _
        (rw (self_eq u) (decremented-zero _ ∙ omega (arith, h u))) (λ k e. rw e (h k))

  pub remove-Tallies :
      (id : ℕ) (c : Client) (f : ℕ → Option ℕ) (cs : List Client)
      → tally (λ d. d.client_id == id) cs ≤ 1
      → find_client id cs ≡ some c
      → Tallies f cs
      → Tallies (set (key_of c) (decremented (f (key_of c))) f) (without_client id cs)
  remove-Tallies id c f cs one found h =
      set-cases (λ k o. or_zero o ≡ tally (λ d. key_of d == k) (without_client id cs)) (key_of c) _
        f
        (decremented-zero (f (key_of c))
          ∙ omega
              (arith, h (key_of c), found_as (λ d. key_of d == key_of c) true (self_eq (key_of c))))
        (λ k e. omega (arith, h k, found_as (λ d. key_of d == k) false e))
    where
      found_as :
          (p : Client → Bool) (b : Bool)
          → p c ≡ b
          → tally p cs ≡ tally p (without_client id cs) + one_if b
      found_as p b e =
          tally-found p id c cs one found ∙ ap (λ t. tally p (without_client id cs) + one_if t) e
