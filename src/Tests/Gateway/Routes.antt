-- ===== src/Tests/Gateway/Routes.antt =====
-- Requests to the gateway on concrete inputs.
use codenexus.Prelude.{◌≡◌, ◌≢◌, refl, ◌⊎◌, some, none, codes, true, text_eq, to_lowercase}
use codenexus.Shared.Role.{from_str, role_of_name}
use codenexus.Gateway.Models.{SetFlagRequest}
use codenexus.Gateway.Service
use codenexus.Gateway.Routes.{error, set_flag, parse_caller, check_scope_authorization}
use codenexus.Gateway.Routes.Guards.{Handled, set_flag_guarded}
use codenexus.Tests.Gateway.{tables, fresh}

abbrev turn_on : SetFlagRequest
turn_on = record { enabled = true; scope = codes "global"; scope_id = none }

teacher_refused :
    set_flag tables (some (codes "teacher")) fresh (codes "hints") turn_on ≡ (error 403, fresh)
unfolding set_flag parse_caller from_str role_of_name to_lowercase text_eq check_scope_authorization
teacher_refused = refl

set_flag_guarded_example :
    Handled tables fresh
      (codes "hints")
      (parse_caller (some (codes "root")))
      turn_on.scope
      ((turn_on.scope ≢ codes "global") ⊎ (turn_on.scope_id ≡ none))
      (set_flag tables (some (codes "root")) fresh (codes "hints") turn_on)
      (Service.set_flag tables fresh (codes "hints") turn_on.scope turn_on.scope_id turn_on.enabled)
set_flag_guarded_example =
    set_flag_guarded tables fresh (codes "hints") (some (codes "root")) turn_on
