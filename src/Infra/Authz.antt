-- ===== src/Infra/Authz.antt =====
-- backend/api-infra/src/middleware/authz.rs: the guards in front of routes. `next.run(req)` is
-- outside: a guard answers whether the request goes on, or the status code that it is refused with.
pub mod Guards
use codenexus.Prelude.{Bool, Option, none, some, List, if◌then◌else◌}
use codenexus.Shared.Role.{Role, from_str, is_higher_or_equal}
use codenexus.Shared.Permission.{Permission}
use codenexus.Shared.Claims.{Claims}
use codenexus.Infra.Rbac.{role_has_permission, role_has_any_permission, role_has_all_permissions}

pub data Outcome : Type 0 where
  passed unauthorized forbidden : Outcome

-- What the four middlewares share: claims from the request's extensions, a role from the claims.
check_role : (Role → Bool) → Option Role → Outcome
check_role test none = forbidden
check_role test (some role) = if test role then passed else forbidden

check_claims : (Role → Bool) → Option Claims → Outcome
unfolding check_role
check_claims test none = unauthorized
check_claims test (some claims) = check_role test (from_str claims.role)

unfoldable pub require_permission : Permission → Option Claims → Outcome
unfolding check_claims
require_permission required = check_claims (λ role. role_has_permission role required)

unfoldable pub require_any_permission : List Permission → Option Claims → Outcome
unfolding check_claims
require_any_permission perms = check_claims (λ role. role_has_any_permission role perms)

unfoldable pub require_all_permissions : List Permission → Option Claims → Outcome
unfolding check_claims
require_all_permissions perms = check_claims (λ role. role_has_all_permissions role perms)

unfoldable pub require_min_role : Role → Option Claims → Outcome
unfolding check_claims
require_min_role min_role = check_claims (λ role. is_higher_or_equal role min_role)
