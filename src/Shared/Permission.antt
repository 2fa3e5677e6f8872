-- ===== src/Shared/Permission.antt =====
-- backend/shared/src/models/permission.rs: the permissions and their categories.
use codenexus.Prelude.{Bool, ◌==◌, ℕ}

pub data Permission : Type 0 where
  manage_users view_users : Permission
  manage_problems view_all_problems submit_solution : Permission
  manage_contests register_contests view_contest_problems : Permission
  manage_classes manage_assignments grade_submissions view_class_stats : Permission
  manage_organization manage_campus : Permission
  view_leaderboard view_statistics : Permission
  moderate_content manage_tags : Permission
  manage_system view_logs manage_api_keys : Permission

pub data PermissionCategory : Type 0 where
  user problem contest class organization system : PermissionCategory

unfoldable pub category : Permission → PermissionCategory
category manage_users = user
category view_users = user
category manage_problems = problem
category view_all_problems = problem
category submit_solution = problem
category manage_contests = contest
category register_contests = contest
category view_contest_problems = contest
category manage_classes = class
category manage_assignments = class
category grade_submissions = class
category view_class_stats = class
category manage_organization = organization
category manage_campus = organization
category view_leaderboard = system
category view_statistics = system
category moderate_content = system
category manage_tags = system
category manage_system = system
category view_logs = system
category manage_api_keys = system

-- The discriminant of a constructor, by which the derived `==` and `Hash` tell permissions apart.
index : Permission → ℕ
index manage_users = 0
index view_users = 1
index manage_problems = 2
index view_all_problems = 3
index submit_solution = 4
index manage_contests = 5
index register_contests = 6
index view_contest_problems = 7
index manage_classes = 8
index manage_assignments = 9
index grade_submissions = 10
index view_class_stats = 11
index manage_organization = 12
index manage_campus = 13
index view_leaderboard = 14
index view_statistics = 15
index moderate_content = 16
index manage_tags = 17
index manage_system = 18
index view_logs = 19
index manage_api_keys = 20

unfoldable pub permission_eq : Permission → Permission → Bool
unfolding index
permission_eq p q = index p == index q
