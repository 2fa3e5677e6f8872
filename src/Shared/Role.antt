-- ===== src/Shared/Role.antt =====
-- backend/shared/src/models/role.rs: the roles, their names and their hierarchy.
pub mod Order
pub mod Names
use codenexus.Prelude.{
  ℕ, ◌+◌, Bool, true, false, ◌||◌, Option, none, some, List, [], ◌∷◌, Text, codes, text_eq,
  to_lowercase, leb, if◌then◌else◌,
}

pub data Role : Type 0 where
  root campus_admin grade_admin teacher teaching_assistant student : Role

-- The derived `==`.
unfoldable pub role_eq : Role → Role → Bool
role_eq root root = true
role_eq campus_admin campus_admin = true
role_eq grade_admin grade_admin = true
role_eq teacher teacher = true
role_eq teaching_assistant teaching_assistant = true
role_eq student student = true
role_eq _ _ = false

unfoldable pub as_str : Role → Text
as_str root = codes "root"
as_str campus_admin = codes "campusadmin"
as_str grade_admin = codes "gradeadmin"
as_str teacher = codes "teacher"
as_str teaching_assistant = codes "teachingassistant"
as_str student = codes "student"

-- `iter().position(..).unwrap_or(0)`
position_from : ℕ → Role → List Role → ℕ
unfolding role_eq
position_from i r [] = 0
position_from i r (x ∷ xs) =
    let rest = position_from (i + 1) r xs in if role_eq x r then i else rest

abbrev hierarchy : List Role
hierarchy = student ∷ teaching_assistant ∷ teacher ∷ grade_admin ∷ campus_admin ∷ root ∷ []

unfoldable pub is_higher_or_equal : Role → Role → Bool
unfolding position_from
is_higher_or_equal self other =
    leb (position_from 0 other hierarchy) (position_from 0 self hierarchy)

-- The `match` on the lowercased name; `none` is the error `Invalid role`.
unfoldable pub role_of_name : Text → Option Role
role_of_name name =
    if text_eq name (codes "root")
    then some root
    else if text_eq name (codes "campusadmin")
    then some campus_admin
    else if text_eq name (codes "gradeadmin")
        || text_eq name (codes "organizationadmin")
        || text_eq name (codes "orgadmin")
    then some grade_admin
    else if text_eq name (codes "teacher")
    then some teacher
    else if text_eq name (codes "teachingassistant") || text_eq name (codes "ta")
    then some teaching_assistant
    else if text_eq name (codes "student")
    then some student
    else none

unfoldable pub from_str : Text → Option Role
unfolding role_of_name to_lowercase
from_str s = role_of_name (to_lowercase s)
