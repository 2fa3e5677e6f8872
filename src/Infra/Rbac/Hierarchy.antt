-- ===== src/Infra/Rbac/Hierarchy.antt =====
-- How the permission matrix of rbac.rs relates to the role hierarchy of role.rs.
use codenexus.Prelude.{◌≡◌, refl, Bool, true, false, not, ◌&&◌, ◌||◌, arith, all, any}
use codenexus.Shared.Role.{
  Role, root, campus_admin, grade_admin, teacher, teaching_assistant, student, is_higher_or_equal,
}
use codenexus.Shared.Permission.{
  Permission, permission_eq, manage_users, submit_solution, register_contests, grade_submissions,
  view_class_stats, manage_tags,
}
use codenexus.Infra.Rbac.{role_has_permission, get_role_permissions}

-- Checks of every role and of every permission by evaluation.
abbrev at_roles : (Role → Bool) → Bool
at_roles f =
    f root
    && (f campus_admin && (f grade_admin && (f teacher && (f teaching_assistant && f student))))

at_roles→ : (f : Role → Bool) → at_roles f ≡ true → (r : Role) → f r ≡ true
at_roles→ f h root = ground arith
at_roles→ f h _ = ground arith

at_permissions→ :
    (f : Permission → Bool)
    → all f (get_role_permissions root) ≡ true
    → (p : Permission) → f p ≡ true
unfolding all get_role_permissions
at_permissions→ f h manage_users = ground arith
at_permissions→ f h _ = ground arith

-- The permissions that an administrator lacks although some role below has them.
abbrev pub missing : Role → Permission → Bool
missing grade_admin submit_solution = true
missing grade_admin register_contests = true
missing campus_admin submit_solution = true
missing campus_admin register_contests = true
missing campus_admin grade_submissions = true
missing campus_admin view_class_stats = true
missing campus_admin manage_tags = true
missing _ _ = false

-- "Granted below, so granted here unless it is missing" as a Boolean test.
test : Role → Role → Permission → Bool
test a b p =
    not (is_higher_or_equal a b && role_has_permission b p)
    || (role_has_permission a p && not (missing a p))
    || (not (role_has_permission a p) && missing a p)

test_table : at_roles (λ a. at_roles (λ b. all (test a b) (get_role_permissions root))) ≡ true
unfolding test role_has_permission is_higher_or_equal all any get_role_permissions permission_eq
test_table = refl

test_all : (a b : Role) (p : Permission) → test a b p ≡ true
test_all a b p =
    at_permissions→ (test a b)
      (at_roles→ (λ c. all (test a c) (get_role_permissions root))
        (at_roles→ (λ d. at_roles (λ c. all (test d c) (get_role_permissions root))) test_table a)
        b)
      p

-- A permission that some role has, every role at least as high has too, except those listed in
-- missing, which grade and campus admins lack.
pub role_has_permission-rises :
    (a b : Role) (p : Permission)
    → is_higher_or_equal a b ≡ true
    → role_has_permission b p ≡ true
    → role_has_permission a p ≡ not (missing a p)
role_has_permission-rises a b p h q = go (missing a p) (unfold test in test_all a b p)
  where
    go :
        (m : Bool)
        → (not (is_higher_or_equal a b && role_has_permission b p)
            || (role_has_permission a p && not m)
            || (not (role_has_permission a p) && m))
          ≡ true
        → role_has_permission a p ≡ not m
    go true e = ground arith
    go false e = ground arith

-- `Root` has every permission.
pub root_has_all : (p : Permission) → role_has_permission root p ≡ true
unfolding role_has_permission get_role_permissions any permission_eq
root_has_all manage_users = refl
root_has_all _ = refl
