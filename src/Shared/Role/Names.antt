-- ===== src/Shared/Role/Names.antt =====
-- Role names: what `from_str` of role.rs accepts, and the round trip with `as_str`.
use codenexus.Prelude.{
  ◌≡◌, refl, ◌↔◌, ◌⊎◌, inl, inr, true, some, List, [], ◌∷◌, arith, Text, codes, text_eq,
  text_eq_iff, to_lowercase,
}
use codenexus.Shared.Role.{
  Role, root, campus_admin, grade_admin, teacher, teaching_assistant, student, as_str, role_of_name,
  from_str,
}

-- from_str reads what as_str writes.
pub from_str-as_str : (r : Role) → from_str (as_str r) ≡ some r
unfolding from_str as_str text_eq
from_str-as_str root = refl
from_str-as_str campus_admin = refl
from_str-as_str grade_admin = refl
from_str-as_str teacher = refl
from_str-as_str teaching_assistant = refl
from_str-as_str student = refl

-- The names of a role: its own, and the aliases that are kept for old clients.
abbrev pub names : Role → List Text
names root = as_str root ∷ []
names campus_admin = as_str campus_admin ∷ []
names grade_admin = as_str grade_admin ∷ codes "organizationadmin" ∷ codes "orgadmin" ∷ []
names teacher = as_str teacher ∷ []
names teaching_assistant = as_str teaching_assistant ∷ codes "ta" ∷ []
names student = as_str student ∷ []

abbrev pub OneOf : Text → List Text → Type 0
OneOf s [] = ⊥
OneOf s (x ∷ []) = s ≡ x
OneOf s (x ∷ y ∷ xs) = (s ≡ x) ⊎ OneOf s (y ∷ xs)

named : (r : Role) (s : Text) → OneOf s (names r) → role_of_name s ≡ some r
unfolding role_of_name as_str text_eq
named root s e = rw e
named campus_admin s e = rw e
named grade_admin s (inl e) = rw e
named grade_admin s (inr (inl e)) = rw e
named grade_admin s (inr (inr e)) = rw e
named teacher s e = rw e
named teaching_assistant s (inl e) = rw e
named teaching_assistant s (inr e) = rw e
named student s e = rw e

text_eq→ : (s t : Text) → text_eq s t ≡ true → s ≡ t
text_eq→ s t = (text_eq_iff s t).0

only_named : (s : Text) (r : Role) → role_of_name s ≡ some r → OneOf s (names r)
unfolding role_of_name as_str
only_named s root h = grind (arith, text_eq→)
only_named s grade_admin h = ground (
  arith,
  text_eq→ s (codes "gradeadmin"),
  text_eq→ s (codes "organizationadmin"),
  text_eq→ s (codes "orgadmin"),
)
only_named s teaching_assistant h =
    ground (arith, text_eq→ s (codes "teachingassistant"), text_eq→ s (codes "ta"))
only_named s student h = ground (arith, text_eq→ s (codes "student"))
only_named s _ h = grind (arith, text_eq→)

-- from_str reads a text as a role exactly if the text in lower case is one of the names of that
-- role.
from_str-names : (s : Text) (r : Role) → (from_str s ≡ some r) ↔ OneOf (to_lowercase s) (names r)
unfolding from_str
from_str-names s r = (only_named (to_lowercase s) r, named r (to_lowercase s))
