-- ===== src/Tests/Problems.antt =====
-- Access to problems on concrete inputs.
use codenexus.Prelude.{◌≡◌, refl, ◌≢◌, ◌↔◌, true, false, none, some, codes, pos, arith, text_eq}
use codenexus.Shared.Role.{root, teacher}
use codenexus.Shared.Claims.{Claims}
use codenexus.Problems.Access.{
  ProblemAccessRecord, can_create_problem_in_organization, can_view_management_problem_data,
  can_read_problem, can_mutate_problem, requests_management_problem_view,
}
use codenexus.Problems.Access.Spec.{MayMutate, can_mutate_problem_iff}
use codenexus.Problems.Access.Isolation.{tenants_isolated}

abbrev author : Claims
author = record {
  sub = 1;
  email = codes "t@example.com";
  role = codes "teacher";
  school_id = pos 7;
  campus_id = some (pos 1);
  grade_id = none;
  iat = pos 0;
  exp = pos 1;
  jti = 2;
  token_type = codes "access";
}

abbrev own_problem : ProblemAccessRecord
own_problem = record {
  id = pos 42;
  organization_id = pos 7;
  campus_id = some (pos 1);
  author_id = some 1;
  visibility = codes "private";
}

abbrev foreign_problem : ProblemAccessRecord
foreign_problem = record own_problem { organization_id = pos 9 }

private_view :
    requests_management_problem_view
      (record { is_public = none; visibility = some (codes "private") })
    ≡ true
unfolding requests_management_problem_view text_eq
private_view = refl

can_mutate_problem_iff_example :
    (can_mutate_problem teacher author own_problem ≡ true) ↔ MayMutate author own_problem teacher
can_mutate_problem_iff_example = can_mutate_problem_iff teacher author own_problem

not_root : teacher ≢ root
not_root e = cc

other_tenant : author.school_id ≢ foreign_problem.organization_id
other_tenant e = ground arith

tenants_isolated_example :
    (can_create_problem_in_organization teacher author foreign_problem.organization_id ≡ false)
    × (can_view_management_problem_data teacher author foreign_problem ≡ false)
    × (can_mutate_problem teacher author foreign_problem ≡ false)
    × (can_read_problem teacher author foreign_problem
        ≡ text_eq foreign_problem.visibility (codes "public"))
tenants_isolated_example = tenants_isolated teacher author foreign_problem not_root other_tenant
