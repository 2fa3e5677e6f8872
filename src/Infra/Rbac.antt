-- ===== src/Infra/Rbac.antt =====
-- backend/api-infra/src/rbac.rs: the role-permission matrix. A `HashSet` built by `insert` calls is
-- the list of what was inserted; it is read by `contains` only.
pub mod Hierarchy
use codenexus.Prelude.{Bool, List, [], ◌∷◌, all, any}
use codenexus.Shared.Role.{
  Role, root, campus_admin, grade_admin, teacher, teaching_assistant, student,
}
use codenexus.Shared.Permission.{
  Permission, permission_eq, manage_users, view_users, manage_problems, view_all_problems,
  submit_solution, manage_contests, register_contests, view_contest_problems, manage_classes,
  manage_assignments, grade_submissions, view_class_stats, manage_organization, manage_campus,
  view_leaderboard, view_statistics, moderate_content, manage_tags, manage_system, view_logs,
  manage_api_keys,
}

unfoldable pub get_role_permissions : Role → List Permission
get_role_permissions root =
    manage_users ∷ view_users ∷ manage_problems ∷ view_all_problems ∷ submit_solution
    ∷ manage_contests ∷ register_contests ∷ view_contest_problems ∷ manage_classes
    ∷ manage_assignments ∷ grade_submissions ∷ view_class_stats ∷ manage_organization
    ∷ manage_campus ∷ view_leaderboard ∷ view_statistics ∷ moderate_content ∷ manage_tags
    ∷ manage_system ∷ view_logs ∷ manage_api_keys ∷ []
get_role_permissions grade_admin =
    manage_users ∷ view_users ∷ manage_problems ∷ view_all_problems ∷ manage_contests
    ∷ manage_classes ∷ manage_assignments ∷ grade_submissions ∷ view_class_stats ∷ view_leaderboard
    ∷ view_statistics ∷ manage_tags ∷ []
get_role_permissions campus_admin =
    manage_users ∷ view_users ∷ manage_problems ∷ view_all_problems ∷ manage_contests
    ∷ manage_classes ∷ manage_assignments ∷ manage_campus ∷ view_leaderboard ∷ view_statistics ∷ []
get_role_permissions teacher =
    manage_problems ∷ view_all_problems ∷ submit_solution ∷ manage_contests ∷ register_contests
    ∷ manage_classes ∷ manage_assignments ∷ grade_submissions ∷ view_class_stats ∷ view_leaderboard
    ∷ view_statistics ∷ []
get_role_permissions teaching_assistant =
    view_all_problems ∷ submit_solution ∷ register_contests ∷ grade_submissions ∷ view_class_stats
    ∷ view_leaderboard ∷ []
get_role_permissions student = submit_solution ∷ register_contests ∷ view_leaderboard ∷ []

-- `HashSet::contains`
contains : List Permission → Permission → Bool
contains perms p = any (λ q. permission_eq q p) perms

unfoldable pub role_has_permission : Role → Permission → Bool
unfolding contains
role_has_permission role p = contains (get_role_permissions role) p

unfoldable pub role_has_all_permissions : Role → List Permission → Bool
unfolding contains
role_has_all_permissions role perms = all (contains (get_role_permissions role)) perms

unfoldable pub role_has_any_permission : Role → List Permission → Bool
unfolding contains
role_has_any_permission role perms = any (contains (get_role_permissions role)) perms
