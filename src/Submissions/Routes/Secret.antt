-- ===== src/Submissions/Routes/Secret.antt =====
-- The comparison of secrets in backend/domain-submissions/src/routes.rs.
use Prim.Native.Nat.{bit_or, bit_xor}
use codenexus.Prelude.{
  ℕ, ==_iff, ◌≡◌, ◌↔◌, refl, true, both_true, List, [], ◌∷◌, arith, length, bit_or-zero,
  bit_xor-zero, bit_xor_self,
}
use codenexus.Submissions.Routes.{fold_differences, secret_valid}

fold-zero :
    (acc : ℕ) (xs ys : List ℕ)
    → length xs ≡ length ys
    → fold_differences acc xs ys ≡ 0
    → (acc ≡ 0) × (xs ≡ ys)
unfolding fold_differences
fold-zero acc [] [] e h = (h, refl)
fold-zero acc [] (y ∷ ys) e h = absurd (omega arith)
fold-zero acc (x ∷ xs) [] e h = absurd (omega arith)
fold-zero acc (x ∷ xs) (y ∷ ys) e h =
    let (here, same) = fold-zero (bit_or acc (bit_xor x y)) xs ys (omega arith) h in
    let (none_yet, differs) = bit_or-zero acc (bit_xor x y) here in
    let head = bit_xor-zero x y differs in (none_yet, cc)

fold_self : (xs : List ℕ) → fold_differences 0 xs xs ≡ 0
unfolding fold_differences
fold_self [] = refl
fold_self (x ∷ xs) = rw (bit_xor_self x) (fold_self xs)

-- The comparison of a secret with the expected one, by the length and the folded exclusive ors of
-- its bytes, holds exactly if the two are equal.
pub secret_valid_iff :
    (provided expected : List ℕ) → (secret_valid provided expected ≡ true) ↔ (provided ≡ expected)
unfolding secret_valid
secret_valid_iff provided expected = (
  λ h.
      let (lengths, differences) = both_true _ _ h in
      (fold-zero 0 provided expected ((==_iff _ _).0 lengths) ((==_iff _ _).0 differences)).1,
  λ e. rw (e, fold_self expected) (rw ((==_iff (length expected) (length expected)).1 refl) refl),
)
