-- ===== src/Infra/GatewayClient/Keys.antt =====
-- The cache keys of backend/api-infra/src/feature_gateway/client.rs: one for each context.
use codenexus.Prelude.{
  ℕ, ◌≡◌, ◌≢◌, refl, ap, ℤ, Option, none, some, [], ◌∷◌, ◌++◌, arith, All-append, Text, codes,
  display_int, display_int-injective, display_int_low, NoColon, low-NoColon, last_colon,
  first_colon,
}
use codenexus.Infra.GatewayClient.{debug_id, resolve_key}

debug-NoColon : (id : Option ℤ) → NoColon (debug_id id)
unfolding debug_id
debug-NoColon none = omega arith
debug-NoColon (some id) =
    All-append (λ c. c ≢ b':') (codes "Some(") _ (omega arith)
      (All-append (λ c. c ≢ b':') (display_int id) (codes ")") (low-NoColon _ (display_int_low id))
        (omega arith))

same_but_last : (c : ℕ) (s t : Text) → s ++ c ∷ [] ≡ t ++ c ∷ [] → s ≡ t
same_but_last c [] [] e = refl
same_but_last c [] (y ∷ []) e = cc
same_but_last c [] (y ∷ z ∷ t) e = cc
same_but_last c (x ∷ []) [] e = cc
same_but_last c (x ∷ z ∷ s) [] e = cc
same_but_last c (x ∷ s) (y ∷ t) e =
    let tails : s ++ c ∷ [] ≡ t ++ c ∷ [] = cc in let same = same_but_last c s t tails in cc

debug_id-injective : (a b : Option ℤ) → debug_id a ≡ debug_id b → a ≡ b
unfolding debug_id
debug_id-injective none none e = refl
debug_id-injective none (some j) e = cc
debug_id-injective (some i) none e = cc
debug_id-injective (some i) (some j) e =
    let same : display_int i ++ codes ")" ≡ display_int j ++ codes ")" = cc in
    ap some (display_int-injective i j (same_but_last _ (display_int i) (display_int j) same))

pub resolve_key-injective :
    (t t' : ℤ) (s s' : Text) (c c' g g' : Option ℤ)
    → resolve_key t s c g ≡ resolve_key t' s' c' g'
    → (t ≡ t') × (s ≡ s') × (c ≡ c') × (g ≡ g')
unfolding resolve_key
resolve_key-injective t t' s s' c c' g g' e =
    let (tenants, rest) =
      first_colon (display_int t) (display_int t') _ _ (low-NoColon _ (display_int_low t))
        (low-NoColon _ (display_int_low t')) e in
    let (fronts, grades) =
      last_colon (s ++ b':' ∷ debug_id c) (s' ++ b':' ∷ debug_id c') _ _ (debug-NoColon g)
        (debug-NoColon g') rest in
    let (slugs, campuses) = last_colon s s' _ _ (debug-NoColon c) (debug-NoColon c') fronts in
    (
      display_int-injective t t' tenants,
      slugs,
      debug_id-injective c c' campuses,
      debug_id-injective g g' grades,
    )
