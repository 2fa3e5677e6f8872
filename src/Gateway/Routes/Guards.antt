-- ===== src/Gateway/Routes/Guards.antt =====
-- What the routes of routes.rs let through.
use codenexus.Prelude.{
  ℤ, ◌≡◌, ◌≢◌, refl, ◌⊎◌, inl, inr, true, false, ◌&&◌, Option, none, some, arith, Text, codes,
  text_eq, text_eq_iff, Bool-cases,
}
use codenexus.Shared.Role.{
  Role, root, campus_admin, grade_admin, teacher, teaching_assistant, student,
}
use codenexus.Gateway.Models.{SetFlagRequest}
use codenexus.Gateway.Store.{FlagStore}
use codenexus.Gateway.Service.{Service, Written, done, failed}
use codenexus.Gateway.Service
use codenexus.Gateway.Routes.{
  respond, Response, error, parse_caller, is_scope, is_some, check_scope_authorization, set_flag_as,
  set_flag, delete_flag_as, delete_flag,
}

-- The scopes that a role may change, by the table in the route's comment.
abbrev pub MayChange : Role → Text → Type 0
MayChange root scope = (scope ≡ codes "global") ⊎ (scope ≡ codes "campus")
MayChange campus_admin scope = (scope ≡ codes "campus") ⊎ (scope ≡ codes "grade")
MayChange grade_admin scope = scope ≡ codes "grade"
MayChange teacher scope = scope ≡ codes "class"
MayChange teaching_assistant scope = ⊥
MayChange student scope = ⊥

authorized :
    (role : Role) (scope : Text)
    → check_scope_authorization role scope ≡ true
    → MayChange role scope
unfolding check_scope_authorization
authorized root scope h =
    ground (arith, text_eq_iff scope (codes "global"), text_eq_iff scope (codes "campus"))
authorized campus_admin scope h =
    ground (arith, text_eq_iff scope (codes "campus"), text_eq_iff scope (codes "grade"))
authorized grade_admin scope h = (text_eq_iff scope (codes "grade")).0 h
authorized teacher scope h = (text_eq_iff scope (codes "class")).0 h
authorized teaching_assistant scope h = cc
authorized student scope h = cc

-- The check for invalid scopes, behind the one for authorization.
authorized-is_scope :
    (role : Role) (scope : Text)
    → check_scope_authorization role scope ≡ true
    → is_scope scope ≡ true
unfolding check_scope_authorization is_scope
authorized-is_scope root scope h = ground arith
authorized-is_scope _ scope h = ground arith

-- The test on a global flag with an identifier, read back.
no_global_id :
    (scope : Text) (id : Option ℤ)
    → (text_eq scope (codes "global") && is_some id) ≡ false
    → (scope ≢ codes "global") ⊎ (id ≡ none)
unfolding is_some
no_global_id scope none h = inr refl
no_global_id scope (some i) h = inl λ e. ground (arith, text_eq_iff scope (codes "global"))

module _ (store : FlagStore) (svc : Service (store.Db)) (slug : Text) where
  -- A write that went through to the service, or a refusal that changed nothing.
  abbrev pub Handled :
      Option Role
      → Text
      → Type 0
      → Response × Service (store.Db)
      → Written × Service (store.Db)
      → Type 0
  Handled role scope valid out written =
      ((r : Role) × (role ≡ some r)
        × MayChange r scope
        × valid
        × (out ≡ (respond written.0, written.1)))
      ⊎ ((out.1 ≡ svc) × ((out.0 ≡ error 400) ⊎ (out.0 ≡ error 403)))

  set_flag_as_cases :
      (role : Option Role) (req : SetFlagRequest)
      → Handled role req.scope
          ((req.scope ≢ codes "global") ⊎ (req.scope_id ≡ none))
          (set_flag_as store role svc slug req)
          (Service.set_flag store svc slug req.scope req.scope_id req.enabled)
  unfolding set_flag_as
  set_flag_as_cases none req = inr (refl, inl refl)
  set_flag_as_cases (some role) req = elim (Bool-cases (check_scope_authorization role req.scope)) [
    | inr denied ↦ rw denied (inr (refl, inr refl))
    | inl allowed ↦ elim (Bool-cases (text_eq req.scope (codes "global") && is_some req.scope_id)) [
      | inl bad ↦
          rw (allowed, authorized-is_scope role req.scope allowed, bad) (inr (refl, inl refl))
      | inr fine ↦
          rw (allowed, authorized-is_scope role req.scope allowed, fine)
            (inl (
              role,
              refl,
              authorized role req.scope allowed,
              no_global_id req.scope req.scope_id fine,
              refl,
            ))
    ]
  ]

  -- The route set_flag either answers as the write to the service does, and then the caller has a
  -- role that may change the scope and a global flag has no identifier, or it refuses with 400 or
  -- 403 and changes nothing.
  pub set_flag_guarded :
      (header : Option Text) (req : SetFlagRequest)
      → Handled
          (parse_caller header)
          req.scope
          ((req.scope ≢ codes "global") ⊎ (req.scope_id ≡ none))
          (set_flag store header svc slug req)
          (Service.set_flag store svc slug req.scope req.scope_id req.enabled)
  unfolding set_flag
  set_flag_guarded header req = set_flag_as_cases (parse_caller header) req

  delete_flag_as_cases :
      (role : Option Role) (scope : Text) (id : Option ℤ)
      → Handled role scope
          (Unit {0})
          (delete_flag_as store role svc slug scope id)
          (Service.delete_flag store svc slug scope id)
  unfolding delete_flag_as
  delete_flag_as_cases none scope id = inr (refl, inl refl)
  delete_flag_as_cases (some role) scope id =
      elim (Bool-cases (check_scope_authorization role scope)) [
        | inr denied ↦ rw denied (inr (refl, inr refl))
        | inl allowed ↦ rw allowed (inl (role, refl, authorized role scope allowed, tt, refl))
      ]

  -- The route delete_flag either answers as the removal in the service does, and then the caller
  -- has a role that may change the scope, or it refuses with 400 or 403 and changes nothing.
  delete_flag_guarded :
      (header : Option Text) (scope : Text) (id : Option ℤ)
      → Handled
          (parse_caller header)
          scope
          (Unit {0})
          (delete_flag store header svc slug scope id)
          (Service.delete_flag store svc slug scope id)
  unfolding delete_flag
  delete_flag_guarded header scope id = delete_flag_as_cases (parse_caller header) scope id
