-- ===== src/Prelude/Int.antt =====
-- Signed integers over the native numbers, for the identifiers (`i64`) of the source.
use Prim.Native.Nat.{ℕ}
use mathlib.Core.Path.{◌≡◌}
use mathlib.Core.Logic.{◌↔◌}
use mathlib.Core.Bool.{Bool, true, false}
use mathlib.Core.Option.{Option, none, some}
use native.Mathlib.Omega.{arith}
use codenexus.Prelude.Tests.{◌==◌}

-- `negsuc n` is -(n + 1).
pub data ℤ : Type 0 where
  pos : ℕ → ℤ
  negsuc : ℕ → ℤ

unfoldable pub int_eq : ℤ → ℤ → Bool
int_eq (pos a) (pos b) = a == b
int_eq (negsuc a) (negsuc b) = a == b
int_eq _ _ = false

pub int_eq_iff : (a b : ℤ) → (int_eq a b ≡ true) ↔ (a ≡ b)
unfolding int_eq
int_eq_iff a b = ground arith

-- `==` on `Option<i64>`.
unfoldable pub id_eq : Option ℤ → Option ℤ → Bool
id_eq none none = true
id_eq (some a) (some b) = int_eq a b
id_eq _ _ = false

pub id_eq_iff : (a b : Option ℤ) → (id_eq a b ≡ true) ↔ (a ≡ b)
unfolding id_eq
id_eq_iff (some a) (some b) = ground (arith, int_eq_iff a b)
id_eq_iff none none = ground arith
id_eq_iff none (some b) = ground arith
id_eq_iff (some a) none = ground arith
