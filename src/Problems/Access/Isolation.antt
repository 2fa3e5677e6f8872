-- ===== src/Problems/Access/Isolation.antt =====
-- The decisions of access.rs between tenants, and between the rights of one role.
use codenexus.Prelude.{◌≡◌, ◌≢◌, refl, true, false, some, arith, int_eq_iff, text_eq, codes}
use codenexus.Shared.Role.{
  Role, root, campus_admin, grade_admin, teacher, teaching_assistant, student, role_eq, from_str,
  is_higher_or_equal,
}
use codenexus.Shared.Claims.{Claims}
use codenexus.Problems.Access.{
  ProblemAccessRecord, ok, can_create_problem_in_organization, can_view_management_problem_data,
  can_read_problem, can_mutate_problem, management_role_from_claims,
}
use codenexus.Problems.Access.Spec.{
  MayManage, MayMutate, can_view_management_problem_data_iff, can_mutate_problem_iff,
}

-- A caller who is not root and whose school is not the one of the problem may not create in that
-- school, nor view, nor change the problem, and may read it only if it is public.
pub tenants_isolated :
    (role : Role) (claims : Claims) (problem : ProblemAccessRecord)
    → role ≢ root
    → claims.school_id ≢ problem.organization_id
    → (can_create_problem_in_organization role claims problem.organization_id ≡ false)
      × (can_view_management_problem_data role claims problem ≡ false)
      × (can_mutate_problem role claims problem ≡ false)
      × (can_read_problem role claims problem ≡ text_eq problem.visibility (codes "public"))
unfolding can_create_problem_in_organization can_view_management_problem_data can_mutate_problem
    can_read_problem role_eq is_higher_or_equal
tenants_isolated root claims problem h other = absurd (h refl)
tenants_isolated _ claims problem h other =
    ground (arith, int_eq_iff claims.school_id problem.organization_id)

MayMutate-MayManage :
    (role : Role) (c : Claims) (p : ProblemAccessRecord) → MayMutate c p role → MayManage c p role
MayMutate-MayManage root c p m = m
MayMutate-MayManage campus_admin c p m = m
MayMutate-MayManage grade_admin c p m = m
MayMutate-MayManage teacher c p m = m.0
MayMutate-MayManage teaching_assistant c p m = m
MayMutate-MayManage student c p m = m

-- Who may change a problem may view its management data, and may read it.
rights_nested :
    (role : Role) (c : Claims) (p : ProblemAccessRecord)
    → can_mutate_problem role c p ≡ true
    → (can_view_management_problem_data role c p ≡ true) × (can_read_problem role c p ≡ true)
unfolding can_read_problem
rights_nested role c p h =
    let may = MayMutate-MayManage role c p ((can_mutate_problem_iff role c p).0 h) in
    let view : can_view_management_problem_data role c p ≡ true =
      (can_view_management_problem_data_iff role c p).1 may in
    (view, ground arith)

-- If management_role_from_claims answers a role, it is the one that the claims name, and it is at
-- least as high as a teacher.
management_role_from_claims-teacher :
    (claims : Claims) (role : Role)
    → management_role_from_claims claims ≡ ok role
    → (from_str claims.role ≡ some role) × (is_higher_or_equal role teacher ≡ true)
unfolding management_role_from_claims
management_role_from_claims-teacher claims role h = ground arith
