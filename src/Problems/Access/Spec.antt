-- ===== src/Problems/Access/Spec.antt =====
-- Who may see a problem's management data and who may change it, as rules to compare with the
-- decisions of access.rs.
use mathlib.Core.Bool.{false≢true}
use codenexus.Prelude.{
  inl, inr, not, ◌||◌, if◌then◌else◌, ℕ, ℤ, ◌≡◌, refl, ◌↔◌, Bool, true, false, Option, none, some,
  arith, int_eq, int_eq_iff, id_eq_iff, codes, text_eq_iff, ◌⊎◌,
}
use codenexus.Shared.Role.{
  Role, root, campus_admin, grade_admin, teacher, teaching_assistant, student, role_eq,
  is_higher_or_equal,
}
use codenexus.Shared.Claims.{Claims}
use codenexus.Problems.Access.{
  ProblemAccessRecord, same_campus, is_author, can_view_management_problem_data, can_read_problem,
  can_mutate_problem,
}

module _ (claims : Claims) (problem : ProblemAccessRecord) where
  -- The user's organization owns the problem.
  abbrev pub SameTenant : Type 0
  SameTenant = claims.school_id ≡ problem.organization_id

  -- Both have a campus, and it is the same.
  abbrev pub SameCampus : Type 0
  SameCampus = (c : ℤ) × (claims.campus_id ≡ some c) × (problem.campus_id ≡ some c)

  abbrev pub IsAuthor : Type 0
  IsAuthor = problem.author_id ≡ some claims.sub

  abbrev pub MayManage : Role → Type 0
  MayManage root = Unit
  MayManage campus_admin = SameTenant × SameCampus
  MayManage grade_admin = SameTenant × SameCampus
  MayManage teacher = SameTenant
  MayManage teaching_assistant = ⊥
  MayManage student = ⊥

  abbrev pub MayMutate : Role → Type 0
  MayMutate root = Unit
  MayMutate campus_admin = SameTenant × SameCampus
  MayMutate grade_admin = SameTenant × SameCampus
  MayMutate teacher = SameTenant × IsAuthor
  MayMutate teaching_assistant = ⊥
  MayMutate student = ⊥

same_campus_iff :
    (a b : Option ℤ) → (same_campus a b ≡ true) ↔ ((c : ℤ) × (a ≡ some c) × (b ≡ some c))
unfolding same_campus
same_campus_iff none b = (λ h. cc, λ (c, e, f). cc)
same_campus_iff (some a) b =
    (λ h. (a, refl, (id_eq_iff b (some a)).0 h), λ (c, e, f). (id_eq_iff b (some a)).1 (cc))

is_author_iff : (a : Option ℕ) (sub : ℕ) → (is_author a sub ≡ true) ↔ (a ≡ some sub)
unfolding is_author
is_author_iff none sub = ground arith
is_author_iff (some a) sub = ground arith

or_iff : (b c : Bool) {P Q : Type 0} → (b ≡ true) ↔ P → (c ≡ true) ↔ Q → ((b || c) ≡ true) ↔ (P ⊎ Q)
or_iff true c f g = (λ h. inl (f.0 refl), λ _. refl)
or_iff false c {P} {Q} f g = (λ h. inr (g.0 h), right)
  where
    right : P ⊎ Q → c ≡ true
    right (inl p) = absurd (false≢true (f.1 p))
    right (inr q) = g.1 q

gate_iff :
    (b c : Bool) {P Q : Type 0}
    → (b ≡ true) ↔ P
    → (c ≡ true) ↔ Q
    → ((if not b then false else c) ≡ true) ↔ (P × Q)
gate_iff true c f g = (λ h. (f.0 refl, g.0 h), λ (p, q). g.1 q)
gate_iff false c f g = (λ h. absurd (false≢true h), λ (p, q). f.1 p)

module _ (claims : Claims) (problem : ProblemAccessRecord) where
  tenant_iff : (int_eq claims.school_id problem.organization_id ≡ true) ↔ SameTenant claims problem
  tenant_iff = int_eq_iff claims.school_id problem.organization_id

  campus_iff : (same_campus claims.campus_id problem.campus_id ≡ true) ↔ SameCampus claims problem
  campus_iff = same_campus_iff claims.campus_id problem.campus_id

  author_iff : (is_author problem.author_id claims.sub ≡ true) ↔ IsAuthor claims problem
  author_iff = is_author_iff problem.author_id claims.sub

-- can_view_management_problem_data holds exactly for root, for campus and grade admins of the
-- school and campus of the problem, and for teachers of the school.
pub can_view_management_problem_data_iff :
    (role : Role) (claims : Claims) (problem : ProblemAccessRecord)
    → (can_view_management_problem_data role claims problem ≡ true) ↔ MayManage claims problem role
unfolding can_view_management_problem_data role_eq is_higher_or_equal
can_view_management_problem_data_iff root c p = (λ _. tt, λ _. refl)
can_view_management_problem_data_iff campus_admin c p =
    gate_iff _ _ (tenant_iff c p) (campus_iff c p)
can_view_management_problem_data_iff grade_admin c p =
    gate_iff _ _ (tenant_iff c p) (campus_iff c p)
can_view_management_problem_data_iff _ c p = ground (arith, tenant_iff c p)

-- can_mutate_problem holds exactly for root, for campus and grade admins of the school and campus
-- of the problem, and for its author if a teacher of the school.
pub can_mutate_problem_iff :
    (role : Role) (claims : Claims) (problem : ProblemAccessRecord)
    → (can_mutate_problem role claims problem ≡ true) ↔ MayMutate claims problem role
unfolding can_mutate_problem role_eq is_higher_or_equal
can_mutate_problem_iff root c p = (λ _. tt, λ _. refl)
can_mutate_problem_iff campus_admin c p = gate_iff _ _ (tenant_iff c p) (campus_iff c p)
can_mutate_problem_iff grade_admin c p = gate_iff _ _ (tenant_iff c p) (campus_iff c p)
can_mutate_problem_iff teacher c p = gate_iff _ _ (tenant_iff c p) (author_iff c p)
can_mutate_problem_iff _ c p = (λ h. absurd (false≢true h), λ e. absurd e)

-- can_read_problem holds exactly if the problem is public or the caller may view its management
-- data.
can_read_problem_iff :
    (role : Role) (claims : Claims) (problem : ProblemAccessRecord)
    → (can_read_problem role claims problem ≡ true)
      ↔ ((problem.visibility ≡ codes "public") ⊎ MayManage claims problem role)
unfolding can_read_problem
can_read_problem_iff role c p =
    or_iff _ _ (text_eq_iff _ _) (can_view_management_problem_data_iff role c p)
