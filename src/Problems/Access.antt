-- ===== src/Problems/Access.antt =====
-- backend/domain-problems/src/access.rs and problem_access.rs: the access decisions on problems.
-- The row of the query in `fetch_problem_access_record` is an argument: `none` is a failed query,
-- `some none` no row with the id.
pub mod Spec
pub mod Isolation
use codenexus.Prelude.{
  ℕ, ℤ, Bool, true, false, not, ◌&&◌, ◌||◌, ◌==◌, Option, none, some, Text, codes, text_eq, int_eq,
  id_eq, if◌then◌else◌,
}
use codenexus.Shared.Role.{
  Role, root, campus_admin, grade_admin, teacher, teaching_assistant, student, role_eq, from_str,
  is_higher_or_equal,
}
use codenexus.Shared.Claims.{Claims}

pub data StatusCode : Type 0 where
  forbidden not_found internal_server_error : StatusCode

pub data Result {ℓ} (A : Type ℓ) : Type ℓ where
  ok : A → Result A
  err : StatusCode → Result A

pub record ProblemAccessRecord : Type 0 where
  pub id : ℤ
  pub organization_id : ℤ
  pub campus_id : Option ℤ
  pub author_id : Option ℕ
  pub visibility : Text

-- The fields of `ListProblemsQuery` that are read here.
pub record ListProblemsQuery : Type 0 where
  pub is_public : Option Bool
  pub visibility : Option Text

ok_or {ℓ} : {A : Type ℓ} → StatusCode → Option A → Result A
ok_or e none = err e
ok_or e (some a) = ok a

unfoldable pub parse_role : Text → Result Role
unfolding ok_or
parse_role role = ok_or forbidden (from_str role)

is_some_false : Option Bool → Bool
is_some_false (some false) = true
is_some_false (some true) = false
is_some_false none = false

is_restricted : Option Text → Bool
is_restricted none = false
is_restricted (some v) =
    text_eq v (codes "private") || text_eq v (codes "campus") || text_eq v (codes "class")

unfoldable pub requests_management_problem_view : ListProblemsQuery → Bool
unfolding is_some_false is_restricted
requests_management_problem_view query =
    is_some_false query.is_public || is_restricted query.visibility

unfoldable pub can_create_problem_in_organization : Role → Claims → ℤ → Bool
can_create_problem_in_organization role claims organization_id =
    role_eq role root
    || (is_higher_or_equal role teacher && int_eq claims.school_id organization_id)

-- `let Some(cid) = claims.campus_id else { return false }; problem.campus_id == Some(cid)`
unfoldable pub same_campus : Option ℤ → Option ℤ → Bool
same_campus none campus_id = false
same_campus (some cid) campus_id = id_eq campus_id (some cid)

unfoldable pub is_author : Option ℕ → ℕ → Bool
is_author none sub = false
is_author (some author) sub = author == sub

-- The `match role` of `can_view_management_problem_data`.
view_by_role : Role → Claims → ProblemAccessRecord → Bool
view_by_role campus_admin claims problem = same_campus claims.campus_id problem.campus_id
view_by_role grade_admin claims problem = same_campus claims.campus_id problem.campus_id
view_by_role role claims problem = is_higher_or_equal role teacher

unfoldable pub can_view_management_problem_data : Role → Claims → ProblemAccessRecord → Bool
unfolding view_by_role
can_view_management_problem_data role claims problem =
    if role_eq role root
    then true
    else if not (int_eq claims.school_id problem.organization_id)
    then false
    else view_by_role role claims problem

unfoldable pub can_read_problem : Role → Claims → ProblemAccessRecord → Bool
unfolding can_view_management_problem_data
can_read_problem role claims problem =
    text_eq problem.visibility (codes "public")
    || can_view_management_problem_data role claims problem

-- The `match role` of `can_mutate_problem`.
mutate_by_role : Role → Claims → ProblemAccessRecord → Bool
mutate_by_role campus_admin claims problem = same_campus claims.campus_id problem.campus_id
mutate_by_role grade_admin claims problem = same_campus claims.campus_id problem.campus_id
mutate_by_role teacher claims problem = is_author problem.author_id claims.sub
mutate_by_role role claims problem = false

unfoldable pub can_mutate_problem : Role → Claims → ProblemAccessRecord → Bool
unfolding mutate_by_role
can_mutate_problem role claims problem =
    if role_eq role root
    then true
    else if not (is_higher_or_equal role teacher)
        || not (int_eq claims.school_id problem.organization_id)
    then false
    else mutate_by_role role claims problem

unfoldable pub fetch_problem_access_record :
    Option (Option ProblemAccessRecord) → Result ProblemAccessRecord
unfolding ok_or
fetch_problem_access_record none = err internal_server_error
fetch_problem_access_record (some row) = ok_or not_found row

check_level : Result Role → Result Role
check_level (ok role) = if not (is_higher_or_equal role teacher) then err forbidden else ok role
check_level (err e) = err e

unfoldable pub management_role_from_claims : Claims → Result Role
unfolding parse_role check_level
management_role_from_claims claims = check_level (parse_role claims.role)

-- The shape that the `ensure_` functions share.
ensure : Bool → Result (Unit {0})
ensure allowed = if allowed then ok tt else err forbidden

unfoldable pub ensure_problem_create_access : Role → Claims → ℤ → Result (Unit {0})
unfolding ensure
ensure_problem_create_access role claims organization_id =
    ensure (can_create_problem_in_organization role claims organization_id)

unfoldable pub ensure_problem_read_access : Role → Claims → ProblemAccessRecord → Result (Unit {0})
unfolding ensure
ensure_problem_read_access role claims problem = ensure (can_read_problem role claims problem)

unfoldable pub ensure_management_problem_read_access :
    Role → Claims → ProblemAccessRecord → Result (Unit {0})
unfolding ensure
ensure_management_problem_read_access role claims problem =
    ensure (can_view_management_problem_data role claims problem)

unfoldable pub ensure_problem_mutation_access :
    Role → Claims → ProblemAccessRecord → Result (Unit {0})
unfolding ensure
ensure_problem_mutation_access role claims problem = ensure (can_mutate_problem role claims problem)
