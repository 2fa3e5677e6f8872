-- ===== src/Gateway/Routes.antt =====
-- backend/feature-gateway/src/routes.rs: the routes that change flags, and the one that resolves
-- them. A request's `X-Caller-Role` header is its text, if it is there and is one.
pub mod Guards
use codenexus.Prelude.{
  ℕ, ℤ, Bool, true, false, not, ◌&&◌, ◌||◌, Option, none, some, Text, codes, text_eq, if◌then◌else◌,
}
use codenexus.Shared.Role.{
  Role, root, campus_admin, grade_admin, teacher, teaching_assistant, student, from_str,
}
use codenexus.Gateway.Models.{ResolvedFeature, SetFlagRequest}
use codenexus.Gateway.Store.{FlagStore}
use codenexus.Gateway.Service.{Service, Written, done, failed, resolve}
use codenexus.Gateway.Service

unfoldable pub check_scope_authorization : Role → Text → Bool
check_scope_authorization root scope =
    text_eq scope (codes "global") || text_eq scope (codes "campus")
check_scope_authorization campus_admin scope =
    text_eq scope (codes "campus") || text_eq scope (codes "grade")
check_scope_authorization grade_admin scope = text_eq scope (codes "grade")
check_scope_authorization teacher scope = text_eq scope (codes "class")
check_scope_authorization _ scope = false

-- `Ok(Json(..))`, or a `GatewayError` by its status.
pub data Response : Type 0 where
  ok : Response
  error : ℕ → Response

unfoldable pub parse_caller : Option Text → Option Role
parse_caller none = none
parse_caller (some header) = from_str header

is_scope : Text → Bool
is_scope scope =
    text_eq scope (codes "global")
    || text_eq scope (codes "campus")
    || text_eq scope (codes "grade")
    || text_eq scope (codes "class")

is_some {ℓ} : {A : Type ℓ} → Option A → Bool
is_some none = false
is_some (some a) = true

unfoldable pub respond : Written → Response
respond done = ok
respond failed = error 500

module _ (store : FlagStore) where
  -- What the handlers do once the caller's role is known.
  set_flag_as :
      Option Role → Service (store.Db) → Text → SetFlagRequest → Response × Service (store.Db)
  unfolding is_scope is_some respond
  set_flag_as none svc slug req = (error 400, svc)
  set_flag_as (some role) svc slug req =
      if not (check_scope_authorization role req.scope)
      then (error 403, svc)
      else if not (is_scope req.scope)
      then (error 400, svc)
      else if text_eq req.scope (codes "global") && is_some req.scope_id
      then (error 400, svc)
      else let (written, after) =
          Service.set_flag store svc slug req.scope req.scope_id req.enabled in
        (respond written, after)

  unfoldable pub set_flag :
      Option Text → Service (store.Db) → Text → SetFlagRequest → Response × Service (store.Db)
  unfolding set_flag_as parse_caller
  set_flag header svc slug req = set_flag_as (parse_caller header) svc slug req

  delete_flag_as :
      Option Role → Service (store.Db) → Text → Text → Option ℤ → Response × Service (store.Db)
  unfolding respond
  delete_flag_as none svc slug scope scope_id = (error 400, svc)
  delete_flag_as (some role) svc slug scope scope_id =
      if not (check_scope_authorization role scope)
      then (error 403, svc)
      else let (written, after) = Service.delete_flag store svc slug scope scope_id in
        (respond written, after)

  unfoldable pub delete_flag :
      Option Text → Service (store.Db) → Text → Text → Option ℤ → Response × Service (store.Db)
  unfolding delete_flag_as parse_caller
  delete_flag header svc slug scope scope_id =
      delete_flag_as (parse_caller header) svc slug scope scope_id

  unfoldable pub resolve_feature :
      Service (store.Db) → Text → Option ℤ → Option ℤ → ResolvedFeature × Service (store.Db)
  resolve_feature svc slug campus_id grade_id = resolve store svc slug campus_id grade_id
