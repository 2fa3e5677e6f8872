-- ===== src/Infra/Authz/Guards.antt =====
-- What the guards of authz.rs let pass.
use codenexus.Prelude.{
  ◌≡◌, refl, ◌↔◌, Bool, true, Option, none, some, List, arith, All, Any, all_iff, any_iff, leb→le,
  ◌≤◌, sym, ◌∙◌,
}
use codenexus.Shared.Role.{Role, from_str, is_higher_or_equal}
use codenexus.Shared.Role.Order.{level, is_higher_or_equal-level}
use codenexus.Shared.Permission.{Permission}
use codenexus.Shared.Claims.{Claims}
use codenexus.Infra.Rbac.{role_has_permission, role_has_any_permission, role_has_all_permissions}
use codenexus.Infra.Authz.{
  passed, unauthorized, forbidden, check_role, check_claims, require_permission,
  require_any_permission, require_all_permissions, require_min_role,
}

-- The role that a request's claims name.
abbrev pub RoleOf : Option Claims → Role → Type 0
RoleOf c r = (cl : Claims) × (c ≡ some cl) × (from_str cl.role ≡ some r)

check_role-passed :
    (test : Role → Bool) (o : Option Role)
    → check_role test o ≡ passed
    → (r : Role) × (o ≡ some r) × (test r ≡ true)
unfolding check_role
check_role-passed test none h = cc
check_role-passed test (some r) h = (r, refl, ground arith)

check_claims-passed :
    (test : Role → Bool) (c : Option Claims)
    → check_claims test c ≡ passed
    → (r : Role) × RoleOf c r × (test r ≡ true)
unfolding check_claims
check_claims-passed test none h = cc
check_claims-passed test (some cl) h =
    let (r, e, t) = check_role-passed test (from_str cl.role) h in (r, (cl, refl, e), t)

RoleOf-passes :
    (test : Role → Bool) (c : Option Claims) (r : Role)
    → RoleOf c r
    → test r ≡ true
    → check_claims test c ≡ passed
unfolding check_claims check_role
RoleOf-passes test c r (cl, e, f) t = rw (e, check_claims) (rw (f, check_role) (rw t))

-- require_permission lets a request through exactly if its claims name a role with the permission.
require_permission-passed :
    (p : Permission) (c : Option Claims)
    → (require_permission p c ≡ passed)
      ↔ ((r : Role) × RoleOf c r × (role_has_permission r p ≡ true))
unfolding require_permission
require_permission-passed p c = (
  check_claims-passed (λ r. role_has_permission r p) c,
  λ (r, o, t). RoleOf-passes (λ r. role_has_permission r p) c r o t,
)

-- require_all_permissions lets a request through exactly if its claims name a role with each of
-- the permissions.
require_all_permissions-passed :
    (ps : List Permission) (c : Option Claims)
    → (require_all_permissions ps c ≡ passed)
      ↔ ((r : Role) × RoleOf c r × All (λ p. role_has_permission r p ≡ true) ps)
unfolding require_all_permissions role_has_all_permissions role_has_permission
require_all_permissions-passed ps c = (
  λ h.
      let (r, o, t) = check_claims-passed (λ r. role_has_all_permissions r ps) c h in
      (r, o, (all_iff (role_has_permission r) ps).0 t),
  λ (r, o, t).
      RoleOf-passes (λ r. role_has_all_permissions r ps) c r o
        ((all_iff (role_has_permission r) ps).1 t),
)

-- require_any_permission lets a request through exactly if its claims name a role with one of the
-- permissions.
require_any_permission-passed :
    (ps : List Permission) (c : Option Claims)
    → (require_any_permission ps c ≡ passed)
      ↔ ((r : Role) × RoleOf c r × Any (λ p. role_has_permission r p ≡ true) ps)
unfolding require_any_permission role_has_any_permission role_has_permission
require_any_permission-passed ps c = (
  λ h.
      let (r, o, t) = check_claims-passed (λ r. role_has_any_permission r ps) c h in
      (r, o, (any_iff (role_has_permission r) ps).0 t),
  λ (r, o, t).
      RoleOf-passes (λ r. role_has_any_permission r ps) c r o
        ((any_iff (role_has_permission r) ps).1 t),
)

-- require_min_role lets a request through exactly if its claims name a role of at least the level.
require_min_role-passed :
    (m : Role) (c : Option Claims)
    → ((require_min_role m c ≡ passed) ↔ ((r : Role) × RoleOf c r × (level m ≤ level r)))
unfolding require_min_role
require_min_role-passed m c = (
  λ h.
      let (r, o, t) = check_claims-passed (λ r. is_higher_or_equal r m) c h in
      (r, o, leb→le _ _ (sym (is_higher_or_equal-level r m) ∙ t)),
  λ (r, o, t).
      RoleOf-passes (λ r. is_higher_or_equal r m) c r o
        (is_higher_or_equal-level r m ∙ ground arith),
)

-- No guard passes without claims, and the status code is then 401; with claims a refusal is 403.
pub guard_refusals :
    (p : Permission) (c : Option Claims)
    → (require_permission p c ≡ unauthorized → c ≡ none)
      × (require_permission p none ≡ unauthorized)
      × ((cl : Claims) → from_str cl.role ≡ none → require_permission p (some cl) ≡ forbidden)
unfolding require_permission check_claims check_role
guard_refusals p c = (ground arith, refl, λ cl e. rw e)
