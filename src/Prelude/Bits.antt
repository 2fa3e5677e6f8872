-- ===== src/Prelude/Bits.antt =====
-- Binary or and exclusive or: when they are zero.
use Prim.Native.Nat.{
  ℕ, zero, suc, two, ◌/◌, ◌%◌, ◌≤◌, max, differ, digits, bit_or, bit_xor, bit_or-bitwise,
  bit_xor-bitwise,
}
use mathlib.Core.Path.{◌≡◌, refl, sym, ap, ◌∙◌}
use native.Mathlib.Omega.{arith}

max-zero : (x y : ℕ) → max x y ≡ 0 → (x ≡ 0) × (y ≡ 0)
max-zero x y h = (omega arith, omega arith)

differ-zero : (x y : ℕ) → differ x y ≡ 0 → x ≡ y
differ-zero zero y h = sym h
differ-zero (suc x) zero h = absurd (omega arith)
differ-zero (suc x) (suc y) h = ap suc (differ-zero x y h)

or-zero : (n a b : ℕ) → a ≤ n → digits (λ c. c) max n a b ≡ 0 → (a ≡ 0) × (b ≡ 0)
or-zero zero zero b le h = (refl, h)
or-zero zero (suc a) b le h = absurd (omega arith)
or-zero (suc n) zero b le h = (refl, h)
or-zero (suc n) (suc a) b le h =
    let (high, high') = or-zero n (suc a / two) (b / two) (omega arith) (omega arith) in
    let (low, low') = max-zero (suc a % two) (b % two) (omega arith) in
    (omega (arith, high, low), omega (arith, high', low'))

xor-zero : (n a b : ℕ) → a ≤ n → digits (λ c. c) differ n a b ≡ 0 → a ≡ b
xor-zero zero zero b le h = sym h
xor-zero zero (suc a) b le h = absurd (omega arith)
xor-zero (suc n) zero b le h = sym h
xor-zero (suc n) (suc a) b le h =
    let high = xor-zero n (suc a / two) (b / two) (omega arith) (omega arith) in
    let low = differ-zero (suc a % two) (b % two) (omega arith) in omega (arith, high, low)

pub bit_or-zero : (a b : ℕ) → bit_or a b ≡ 0 → (a ≡ 0) × (b ≡ 0)
bit_or-zero a b h = or-zero a a b (omega arith) (sym (λ i. bit_or-bitwise a b i) ∙ h)

pub bit_xor-zero : (a b : ℕ) → bit_xor a b ≡ 0 → a ≡ b
bit_xor-zero a b h = xor-zero a a b (omega arith) (sym (λ i. bit_xor-bitwise a b i) ∙ h)

differ_self : (x : ℕ) → differ x x ≡ 0
differ_self zero = refl
differ_self (suc x) = differ_self x

xor_self : (n a : ℕ) → a ≤ n → digits (λ c. c) differ n a a ≡ 0
xor_self zero zero le = refl
xor_self zero (suc a) le = absurd (omega arith)
xor_self (suc n) zero le = refl
xor_self (suc n) (suc a) le =
    omega (arith, xor_self n (suc a / two) (omega arith), differ_self (suc a % two))

pub bit_xor_self : (a : ℕ) → bit_xor a a ≡ 0
bit_xor_self a = (λ i. bit_xor-bitwise a a i) ∙ xor_self a a (omega arith)
