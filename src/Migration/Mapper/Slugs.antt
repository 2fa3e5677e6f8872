-- ===== src/Migration/Mapper/Slugs.antt =====
-- The slugs of backend/migration-tool/src/mapper.rs tell identifiers apart.
use codenexus.Prelude.{
  ℕ, ◌≡◌, Bool, pos, [], ◌∷◌, ◌++◌, arith, Text, All, IsDigit, decimal, decimal-digits,
  decimal-injective, display_int, ◌≢◌,
}
use codenexus.Migration.Mapper.{generate_slug}

dash-inside : (xs v u : Text) → All IsDigit u → u ≢ xs ++ b'-' ∷ v
dash-inside [] v [] d = λ e. cc
dash-inside [] v (c ∷ u) d = λ e. ground arith
dash-inside (x ∷ xs) v [] d = λ e. cc
dash-inside (x ∷ xs) v (c ∷ u) d = λ e. dash-inside xs v u d.1 (cc)

last_dash :
    (xs ys u v : Text) → All IsDigit u → All IsDigit v → xs ++ b'-' ∷ u ≡ ys ++ b'-' ∷ v → u ≡ v
last_dash [] [] u v d d' e = cc
last_dash [] (y ∷ ys) u v d d' e = absurd (dash-inside ys v u d (cc))
last_dash (x ∷ xs) [] u v d d' e = absurd (dash-inside xs u v d' (cc))
last_dash (x ∷ xs) (y ∷ ys) u v d d' e =
    let tails : xs ++ b'-' ∷ u ≡ ys ++ b'-' ∷ v = cc in last_dash xs ys u v d d' tails

module _ (to_lowercase : Text → Text) (is_alphanumeric : ℕ → Bool) where
  -- Two slugs of problems whose identifiers are not negative are equal only if the identifiers
  -- are, whatever the titles, the lower case and the alphanumeric characters.
  pub generate_slug-injective :
      (title title' : Text) (m n : ℕ)
      → generate_slug to_lowercase is_alphanumeric title (pos m)
        ≡ generate_slug to_lowercase is_alphanumeric title' (pos n)
      → m ≡ n
  unfolding generate_slug display_int
  generate_slug-injective title title' m n e =
      decimal-injective m n
        (last_dash _ _ (decimal m) (decimal n) (decimal-digits m) (decimal-digits n) e)
