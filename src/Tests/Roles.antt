-- ===== src/Tests/Roles.antt =====
-- Roles, permissions and guards on concrete inputs.
use codenexus.Prelude.{◌≡◌, refl, false, none, some, codes, pos, text_eq, to_lowercase, any}
use codenexus.Shared.Role.{
  campus_admin, grade_admin, student, as_str, from_str, role_of_name, is_higher_or_equal,
}
use codenexus.Shared.Role.Names.{from_str-as_str}
use codenexus.Shared.Permission.{permission_eq, manage_users, submit_solution, category, user}
use codenexus.Shared.Claims.{Claims}
use codenexus.Infra.Rbac.{role_has_permission, get_role_permissions}
use codenexus.Infra.Rbac.Hierarchy.{role_has_permission-rises}
use codenexus.Infra.Authz.{forbidden, require_permission}

legacy_name : from_str (codes "OrgAdmin") ≡ some grade_admin
unfolding from_str role_of_name to_lowercase text_eq
legacy_name = refl

unknown_name : from_str (codes "admin") ≡ none
unfolding from_str role_of_name to_lowercase text_eq
unknown_name = refl

users_category : category manage_users ≡ user
unfolding category
users_category = refl

from_str-as_str_example : from_str (as_str campus_admin) ≡ some campus_admin
from_str-as_str_example = from_str-as_str campus_admin

abbrev teacher_claims : Claims
teacher_claims = record {
  sub = 1;
  email = codes "t@example.com";
  role = codes "teacher";
  school_id = pos 7;
  campus_id = some (pos 1);
  grade_id = none;
  iat = pos 0;
  exp = pos 1;
  jti = 2;
  token_type = codes "access";
}

teacher_may_not_manage_users : require_permission manage_users (some teacher_claims) ≡ forbidden
unfolding require_permission role_has_permission get_role_permissions any permission_eq from_str
    role_of_name to_lowercase text_eq
teacher_may_not_manage_users = refl

role_has_permission-rises_example : role_has_permission campus_admin submit_solution ≡ false
unfolding is_higher_or_equal role_has_permission get_role_permissions any permission_eq
role_has_permission-rises_example =
    role_has_permission-rises campus_admin student submit_solution refl refl
