-- ===== src/Prelude/Colons.antt =====
-- Texts cut at colons.
use Prim.Native.Nat.{ℕ, suc, ◌≤◌}
use mathlib.Core.Path.{◌≡◌, refl}
use mathlib.Core.Logic.{◌≢◌}
use mathlib.Core.List.{[], ◌∷◌, ◌++◌}
use native.Mathlib.Omega.{arith}
use codenexus.Prelude.Lists.{All}
use codenexus.Prelude.Texts.{Text}
use codenexus.Prelude.Int.{ℤ, pos, negsuc}
use codenexus.Prelude.Decimal.{IsDigit, decimal, decimal-digits, display_int}

abbrev pub IsColon : ℕ → Type 0
IsColon c = c ≡ b':'

abbrev pub NoColon : Text → Type 0
NoColon = All (λ c. c ≢ b':')

pub NoColon-inside : (xs v u : Text) → NoColon u → u ≢ xs ++ b':' ∷ v
NoColon-inside [] v [] n = λ e. cc
NoColon-inside [] v (c ∷ u) n = λ e. ground arith
NoColon-inside (x ∷ xs) v [] n = λ e. cc
NoColon-inside (x ∷ xs) v (c ∷ u) n = λ e. NoColon-inside xs v u n.1 (cc)

-- A text is cut at its last colon in one way.
pub last_colon :
    (xs ys u v : Text)
    → NoColon u
    → NoColon v
    → xs ++ b':' ∷ u ≡ ys ++ b':' ∷ v
    → (xs ≡ ys) × (u ≡ v)
last_colon [] [] u v nu nv e = (refl, cc)
last_colon [] (y ∷ ys) u v nu nv e = absurd (NoColon-inside ys v u nu (cc))
last_colon (x ∷ xs) [] u v nu nv e = absurd (NoColon-inside xs u v nv (cc))
last_colon (x ∷ xs) (y ∷ ys) u v nu nv e =
    let tails : xs ++ b':' ∷ u ≡ ys ++ b':' ∷ v = cc in
    let (p, q) = last_colon xs ys u v nu nv tails in (cc, q)

pub low-NoColon : (s : Text) → All (λ c. c ≤ 57) s → NoColon s
low-NoColon [] d = tt
low-NoColon (c ∷ s) d = (λ e. omega arith, low-NoColon s d.1)

pub digits_low : (s : Text) → All IsDigit s → All (λ c. c ≤ 57) s
digits_low [] d = tt
digits_low (c ∷ s) d = (d.0.1, digits_low s d.1)

pub display_int_low : (i : ℤ) → All (λ c. c ≤ 57) (display_int i)
unfolding display_int
display_int_low (pos n) = digits_low (decimal n) (decimal-digits n)
display_int_low (negsuc n) = (omega arith, digits_low (decimal (suc n)) (decimal-digits (suc n)))

-- A text is cut at its first colon in one way.
pub first_colon :
    (u v xs ys : Text)
    → NoColon u
    → NoColon v
    → u ++ b':' ∷ xs ≡ v ++ b':' ∷ ys
    → (u ≡ v) × (xs ≡ ys)
first_colon [] [] xs ys nu nv e = (refl, cc)
first_colon [] (y ∷ v) xs ys nu nv e = absurd (nv.0 (cc))
first_colon (x ∷ u) [] xs ys nu nv e = absurd (nu.0 (cc))
first_colon (x ∷ u) (y ∷ v) xs ys nu nv e =
    let tails : u ++ b':' ∷ xs ≡ v ++ b':' ∷ ys = cc in
    let (p, q) = first_colon u v xs ys nu.1 nv.1 tails in (cc, q)
