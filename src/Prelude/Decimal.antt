-- ===== src/Prelude/Decimal.antt =====
-- Decimal numerals: `Display` of the unsigned and signed integers, and their value read back.
use mathlib.Core.Path.{◌≡◌, refl, sym, ap, ◌∙◌}
use mathlib.Core.Logic.{◌≢◌}
use mathlib.Core.Bool.{Bool, true, false}
use mathlib.Core.List.{[], ◌∷◌, ◌++◌}
use Prim.Native.Nat.{ℕ, zero, suc, ◌+◌, ◌-◌, ◌*◌, ◌/◌, ◌%◌, ◌≤◌, ◌<◌}
use native.Mathlib.Omega.{arith}
use codenexus.Prelude.Tests.{ltb, if◌then◌else◌}
use codenexus.Prelude.Lists.{All, All-append}
use codenexus.Prelude.Texts.{Text}
use codenexus.Prelude.Int.{ℤ, pos, negsuc}

abbrev pub IsDigit : ℕ → Type 0
IsDigit c = (48 ≤ c) × (c ≤ 57)

-- The fuel is one more than the number: each round divides it by ten.
decimal_from : ℕ → ℕ → Text
decimal_from zero n = []
decimal_from (suc fuel) n =
    let rest = decimal_from fuel (n / 10) in
    if ltb n 10 then (48 + n) ∷ [] else rest ++ (48 + n % 10) ∷ []

unfoldable pub decimal : ℕ → Text
unfolding decimal_from
decimal n = decimal_from (suc n) n

unfoldable pub display_int : ℤ → Text
unfolding decimal
display_int (pos n) = decimal n
display_int (negsuc n) = b'-' ∷ decimal (suc n)

unfoldable pub value_from : ℕ → Text → ℕ
value_from acc [] = acc
value_from acc (c ∷ s) = value_from (acc * 10 + (c - 48)) s

value_from-append :
    (acc : ℕ) (s t : Text) → value_from acc (s ++ t) ≡ value_from (value_from acc s) t
unfolding value_from
value_from-append acc [] t = refl
value_from-append acc (c ∷ s) t = value_from-append (acc * 10 + (c - 48)) s t

value-decimal_from : (fuel n : ℕ) → n < fuel → value_from 0 (decimal_from fuel n) ≡ n
unfolding decimal_from value_from
value-decimal_from zero n h = elim h [ ]
value-decimal_from (suc fuel) n h = ground (
  arith,
  value-decimal_from fuel (n / 10),
  value_from-append 0 (decimal_from fuel (n / 10)) ((48 + n % 10) ∷ []),
)

pub value-decimal : (n : ℕ) → value_from 0 (decimal n) ≡ n
unfolding decimal
value-decimal n = value-decimal_from (suc n) n (omega arith)

decimal_from-full : (fuel n : ℕ) → decimal_from (suc fuel) n ≢ []
unfolding decimal_from
decimal_from-full fuel n e = full (ltb n 10) (decimal_from fuel (n / 10)) e
  where
    full : (b : Bool) (t : Text) → (if b then (48 + n) ∷ [] else t ++ (48 + n % 10) ∷ []) ≢ []
    full true t f = cc
    full false [] f = cc
    full false (c ∷ t) f = cc

-- A numeral has a digit.
pub decimal-full : (n : ℕ) → decimal n ≢ []
unfolding decimal
decimal-full n = decimal_from-full n n

-- A numeral has one value.
pub decimal-injective : (m n : ℕ) → decimal m ≡ decimal n → m ≡ n
unfolding decimal
decimal-injective m n e =
    sym (value-decimal_from (suc m) m (omega arith))
    ∙ ap (value_from 0) e
    ∙ value-decimal_from (suc n) n (omega arith)

decimal_from-digits : (fuel n : ℕ) → All IsDigit (decimal_from fuel n)
unfolding decimal_from
decimal_from-digits zero n = tt
decimal_from-digits (suc fuel) n = go (ltb n 10) (decimal_from-digits fuel (n / 10)) refl
  where
    go :
        (b : Bool)
        → All IsDigit (decimal_from fuel (n / 10))
        → ltb n 10 ≡ b
        → All IsDigit
            (if b then (48 + n) ∷ [] else decimal_from fuel (n / 10) ++ (48 + n % 10) ∷ [])
    go true ih e = ((omega arith, ground arith), tt)
    go false ih e =
        All-append IsDigit (decimal_from fuel (n / 10)) _ ih ((omega arith, omega arith), tt)

-- A numeral holds digits only.
pub decimal-digits : (n : ℕ) → All IsDigit (decimal n)
unfolding decimal
decimal-digits n = decimal_from-digits (suc n) n

minus_no_digit : (n : ℕ) (s : Text) → decimal n ≢ b'-' ∷ s
minus_no_digit n s e = go (decimal n) (decimal-digits n) e
  where
    go : (t : Text) → All IsDigit t → t ≢ b'-' ∷ s
    go [] d e = cc
    go (c ∷ t) d e = ground arith

pub display_int-injective : (a b : ℤ) → display_int a ≡ display_int b → a ≡ b
unfolding display_int
display_int-injective (pos m) (pos n) e = ap pos (decimal-injective m n e)
display_int-injective (pos m) (negsuc n) e = absurd (minus_no_digit m _ e)
display_int-injective (negsuc m) (pos n) e = absurd (minus_no_digit n _ (sym e))
display_int-injective (negsuc m) (negsuc n) e = ground (arith, decimal-injective (suc m) (suc n))
