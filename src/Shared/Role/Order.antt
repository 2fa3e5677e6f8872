-- ===== src/Shared/Role/Order.antt =====
-- The hierarchy test of role.rs and the levels of the roles.
use codenexus.Prelude.{ℕ, ◌≡◌, arith, leb}
use codenexus.Shared.Role.{
  Role, root, campus_admin, grade_admin, teacher, teaching_assistant, student, is_higher_or_equal,
}

-- The levels as the module's comment lists them, independent of the search in an array.
unfoldable pub level : Role → ℕ
level root = 5
level campus_admin = 4
level grade_admin = 3
level teacher = 2
level teaching_assistant = 1
level student = 0

-- is_higher_or_equal compares the levels of the two roles.
pub is_higher_or_equal-level : (a b : Role) → is_higher_or_equal a b ≡ leb (level b) (level a)
unfolding is_higher_or_equal level
is_higher_or_equal-level a b = ground arith
