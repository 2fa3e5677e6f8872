-- ===== src/Gateway/Key/Injective.antt =====
-- The rings of the hierarchy in backend/feature-gateway/src/service.rs, and their cache keys.
use mathlib.Core.Bool.{false≢true}
use mathlib.Core.List.{append_assoc}
use codenexus.Prelude.{
  ℤ, ◌≡◌, ◌≢◌, refl, sym, ap, ◌∙◌, false, [], ◌∷◌, ◌++◌, ◌≤◌, arith, All, Text, codes, text_eq,
  text_eq_iff, display_int, display_int-injective,
}
use codenexus.Prelude.{NoColon, last_colon, low-NoColon, display_int_low}
use codenexus.Gateway.Key.{cache_key, scope_with_id}

-- The rings of the hierarchy, each with the identifier that an override at it carries.
pub data Ring : Type 0 where
  everywhere : Ring
  campus_ring grade_ring class_ring : ℤ → Ring

unfoldable pub segment : Ring → Text
segment everywhere = codes "global"
segment (campus_ring id) = scope_with_id (codes "campus") id
segment (grade_ring id) = scope_with_id (codes "grade") id
segment (class_ring id) = scope_with_id (codes "class") id

-- The part of a key behind its last colon, and the part before it.
last_part : Ring → Text
last_part everywhere = codes "global"
last_part (campus_ring id) = display_int id
last_part (grade_ring id) = display_int id
last_part (class_ring id) = display_int id

front : Text → Ring → Text
front slug everywhere = slug
front slug (campus_ring id) = slug ++ b':' ∷ codes "campus"
front slug (grade_ring id) = slug ++ b':' ∷ codes "grade"
front slug (class_ring id) = slug ++ b':' ∷ codes "class"

cut : (slug : Text) (r : Ring) → cache_key slug (segment r) ≡ front slug r ++ b':' ∷ last_part r
unfolding cache_key segment scope_with_id front last_part
cut slug everywhere = refl
cut slug (campus_ring id) = sym (append_assoc slug _ _)
cut slug (grade_ring id) = sym (append_assoc slug _ _)
cut slug (class_ring id) = sym (append_assoc slug _ _)

last-NoColon : (r : Ring) → NoColon (last_part r)
unfolding last_part
last-NoColon everywhere = omega arith
last-NoColon (campus_ring id) = low-NoColon _ (display_int_low id)
last-NoColon (grade_ring id) = low-NoColon _ (display_int_low id)
last-NoColon (class_ring id) = low-NoColon _ (display_int_low id)

global_ne_int : (i : ℤ) → codes "global" ≢ display_int i
global_ne_int i e = go (display_int i) (display_int_low i) e
  where
    go : (s : Text) → All (λ c. c ≤ 57) s → codes "global" ≢ s
    go [] d e = cc
    go (c ∷ s) d e = ground arith

distinct : (a b : Text) → text_eq a b ≡ false → a ≢ b
distinct a b h e = false≢true (sym h ∙ (text_eq_iff a b).1 e)

-- Fronts with two scope names.
front_eq : (s t a b : Text) → NoColon a → NoColon b → s ++ b':' ∷ a ≡ t ++ b':' ∷ b → a ≡ b
front_eq s t a b na nb f = (last_colon s t a b na nb f).1

same_parts :
    (s t : Text) (r q : Ring)
    → front s r ≡ front t q
    → last_part r ≡ last_part q
    → (s ≡ t) × (r ≡ q)
unfolding front last_part text_eq
same_parts s t everywhere everywhere f l = (f, refl)
same_parts s t everywhere (campus_ring j) f l = absurd (global_ne_int j l)
same_parts s t everywhere (grade_ring j) f l = absurd (global_ne_int j l)
same_parts s t everywhere (class_ring j) f l = absurd (global_ne_int j l)
same_parts s t (campus_ring i) everywhere f l = absurd (global_ne_int i (sym l))
same_parts s t (grade_ring i) everywhere f l = absurd (global_ne_int i (sym l))
same_parts s t (class_ring i) everywhere f l = absurd (global_ne_int i (sym l))
same_parts s t (campus_ring i) (campus_ring j) f l = (
  (last_colon s t _ _ (omega arith) (omega arith) f).0,
  ap campus_ring (display_int-injective i j l),
)
same_parts s t (grade_ring i) (grade_ring j) f l = (
  (last_colon s t _ _ (omega arith) (omega arith) f).0,
  ap grade_ring (display_int-injective i j l),
)
same_parts s t (class_ring i) (class_ring j) f l = (
  (last_colon s t _ _ (omega arith) (omega arith) f).0,
  ap class_ring (display_int-injective i j l),
)
same_parts s t (campus_ring i) (grade_ring j) f l = absurd (
    distinct (codes "campus") (codes "grade") refl (front_eq s t _ _ (omega arith) (omega arith) f))
same_parts s t (campus_ring i) (class_ring j) f l = absurd (
    distinct (codes "campus") (codes "class") refl (front_eq s t _ _ (omega arith) (omega arith) f))
same_parts s t (grade_ring i) (campus_ring j) f l = absurd (
    distinct (codes "grade") (codes "campus") refl (front_eq s t _ _ (omega arith) (omega arith) f))
same_parts s t (grade_ring i) (class_ring j) f l =
    absurd (
      distinct (codes "grade") (codes "class") refl
        (front_eq s t _ _ (omega arith) (omega arith) f))
same_parts s t (class_ring i) (campus_ring j) f l = absurd (
    distinct (codes "class") (codes "campus") refl (front_eq s t _ _ (omega arith) (omega arith) f))
same_parts s t (class_ring i) (grade_ring j) f l =
    absurd (
      distinct (codes "class") (codes "grade") refl
        (front_eq s t _ _ (omega arith) (omega arith) f))

-- Two cache keys of features at rings are equal only if the features and the rings are.
pub cache_key-injective :
    (s t : Text) (r q : Ring)
    → cache_key s (segment r) ≡ cache_key t (segment q)
    → (s ≡ t) × (r ≡ q)
cache_key-injective s t r q e =
    let (f, l) =
      last_colon (front s r) (front t q) (last_part r) (last_part q) (last-NoColon r)
        (last-NoColon q) (sym (cut s r) ∙ e ∙ cut t q) in
    same_parts s t r q f l
