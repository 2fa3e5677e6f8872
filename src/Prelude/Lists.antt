-- ===== src/Prelude/Lists.antt =====
-- Lists measured by native numbers, and predicates on all members of a list.
use Prim.Native.Nat.{ℕ, suc, ◌+◌}
use mathlib.Core.Path.{◌≡◌, refl}
use mathlib.Core.Bool.{Bool, true, false, ◌&&◌, ◌||◌, false≢true}
use mathlib.Core.Logic.{◌↔◌, ◌⊎◌, inl, inr}
use mathlib.Core.List.{List, [], ◌∷◌, ◌++◌}
use native.Mathlib.Omega.{arith}
use codenexus.Prelude.Tests.{both_true}

module _ {ℓ} {A : Type ℓ} where
  abbrev pub length : List A → ℕ
  length [] = 0
  length (x ∷ xs) = suc (length xs)

  abbrev pub is_empty : List A → Bool
  is_empty [] = true
  is_empty (x ∷ xs) = false

  pub length-append : (xs ys : List A) → length (xs ++ ys) ≡ length xs + length ys
  length-append [] ys = omega arith
  length-append (x ∷ xs) ys = omega (arith, length-append xs ys)

-- A predicate on every member.
abbrev pub All {ℓ κ} : {A : Type ℓ} → (A → Type κ) → List A → Type κ
All P [] = Unit
All P (x ∷ xs) = P x × All P xs

module _ {ℓ κ} {A : Type ℓ} (P : A → Type κ) where
  pub All-append : (xs ys : List A) → All P xs → All P ys → All P (xs ++ ys)
  All-append [] ys hx hy = hy
  All-append (x ∷ xs) ys hx hy = (hx.0, All-append xs ys hx.1 hy)

-- Rust's `iter().all` and `iter().any`.
module _ {ℓ} {A : Type ℓ} where
  unfoldable pub all : (A → Bool) → List A → Bool
  all p [] = true
  all p (x ∷ xs) = p x && all p xs

  unfoldable pub any : (A → Bool) → List A → Bool
  any p [] = false
  any p (x ∷ xs) = p x || any p xs

-- A predicate on some member.
abbrev pub Any {ℓ} : {A : Type ℓ} → (A → Type 0) → List A → Type 0
Any P [] = ⊥
Any P (x ∷ xs) = P x ⊎ Any P xs

module _ {ℓ} {A : Type ℓ} (p : A → Bool) where
  pub all_iff : (xs : List A) → (all p xs ≡ true) ↔ All (λ x. p x ≡ true) xs
  unfolding all
  all_iff [] = (λ _. tt, λ _. refl)
  all_iff (x ∷ xs) = (
    λ h. let (a, b) = both_true (p x) (all p xs) h in (a, (all_iff xs).0 b),
    λ (a, b). rw a ((all_iff xs).1 b),
  )

  pub any_iff : (xs : List A) → (any p xs ≡ true) ↔ Any (λ x. p x ≡ true) xs
  unfolding any
  any_iff [] = (λ h. absurd (false≢true h), λ e. absurd e)
  any_iff (x ∷ xs) = (λ h. split (any_iff xs).0 (p x) h refl, join (any_iff xs).1)
    where
      split :
          (any p xs ≡ true → Any (λ y. p y ≡ true) xs)
          → (b : Bool) → (b || any p xs) ≡ true
          → p x ≡ b
          → Any (λ y. p y ≡ true) (x ∷ xs)
      split ih true h e = inl e
      split ih false h e = inr (ih h)

      join :
          (Any (λ y. p y ≡ true) xs → any p xs ≡ true)
          → Any (λ y. p y ≡ true) (x ∷ xs)
          → (p x || any p xs) ≡ true
      join ih (inl e) = rw e refl
      join ih (inr r) = ground (arith, ih r)
