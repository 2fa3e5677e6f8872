-- ===== src/Prelude/Parse.antt =====
-- Rust's `str::parse` into `i64`.
use Prim.Native.Nat.{ℕ, ◌+◌, ◌-◌, ◌*◌, ◌^◌}
use mathlib.Core.Bool.{◌&&◌}
use mathlib.Core.Option.{Option, none, some}
use mathlib.Core.List.{[], ◌∷◌}
use codenexus.Prelude.Tests.{leb, ltb, ◌==◌, if◌then◌else◌}
use codenexus.Prelude.Texts.{Text}
use codenexus.Prelude.Int.{ℤ, pos, negsuc}

-- The value of digits behind a value that was read; `none` at any other code point.
unfoldable pub digits : ℕ → Text → Option ℕ
digits acc [] = some acc
digits acc (c ∷ s) =
    let rest = digits (10 * acc + (c - b'0')) s in if leb b'0' c && leb c b'9' then rest else none

unfoldable pub magnitude : Text → Option ℕ
unfolding digits
magnitude [] = none
magnitude (c ∷ s) = digits 0 (c ∷ s)

to_positive : Option ℕ → Option ℤ
to_positive none = none
to_positive (some n) = if ltb n (2 ^ 63) then some (pos n) else none

to_negative : Option ℕ → Option ℤ
to_negative none = none
to_negative (some n) =
    if n == 0 then some (pos 0) else if leb n (2 ^ 63) then some (negsuc (n - 1)) else none

-- An optional sign and at least one digit, within the range of 64 bits.
unfoldable pub parse_i64 : Text → Option ℤ
unfolding magnitude to_positive to_negative
parse_i64 [] = none
parse_i64 (c ∷ s) =
    if c == b'+'
    then to_positive (magnitude s)
    else if c == b'-'
    then to_negative (magnitude s)
    else to_positive (magnitude (c ∷ s))
