-- ===== src/Prelude/Unsigned.antt =====
-- Rust's `str::parse` into `u64`, and the numerals that it reads.
use Prim.Native.Nat.{ℕ, ◌+◌, ◌-◌, ◌*◌, ◌^◌, ◌<◌}
use mathlib.Core.Path.{◌≡◌, refl}
use mathlib.Core.Logic.{◌≢◌}
use mathlib.Core.Option.{Option, none, some}
use mathlib.Core.List.{[], ◌∷◌}
use native.Mathlib.Omega.{arith}
use codenexus.Prelude.Tests.{ltb, ◌==◌, if◌then◌else◌}
use codenexus.Prelude.Texts.{Text}
use codenexus.Prelude.Lists.{All}
use codenexus.Prelude.Parse.{digits, magnitude}
use codenexus.Prelude.Decimal.{
  IsDigit, decimal, decimal-digits, decimal-full, value_from, value-decimal,
}

to_u64 : Option ℕ → Option ℕ
to_u64 none = none
to_u64 (some n) = if ltb n (2 ^ 64) then some n else none

-- An optional plus sign and at least one digit, below 2^64.
unfoldable pub parse_u64 : Text → Option ℕ
unfolding magnitude to_u64
parse_u64 [] = none
parse_u64 (c ∷ s) = if c == b'+' then to_u64 (magnitude s) else to_u64 (magnitude (c ∷ s))

digits-value : (acc : ℕ) (t : Text) → All IsDigit t → digits acc t ≡ some (value_from acc t)
unfolding digits value_from
digits-value acc [] d = refl
digits-value acc (c ∷ t) d = ground (arith, digits-value (10 * acc + (c - 48)) t d.1)

parse-digits :
    (t : Text) (n : ℕ)
    → All IsDigit t
    → t ≢ []
    → value_from 0 t ≡ n
    → n < 2 ^ 64
    → parse_u64 t ≡ some n
unfolding parse_u64 magnitude to_u64
parse-digits [] n d ne e small = absurd (ne refl)
parse-digits (c ∷ t) n d ne e small = ground (arith, digits-value 0 (c ∷ t) d)

-- Reading a numeral gives the number.
pub parse_u64-decimal : (n : ℕ) → n < 2 ^ 64 → parse_u64 (decimal n) ≡ some n
parse_u64-decimal n small =
    parse-digits (decimal n) n (decimal-digits n) (decimal-full n) (value-decimal n) small
