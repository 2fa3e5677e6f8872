-- ===== src/Control/Consumers.antt =====
-- The services that obey control signals: backend/api/src/middleware/control_signal.rs and
-- backend/llm-worker/src/control_signal.rs, which decide alike.
pub mod Outlived
use codenexus.Prelude.{
  ℕ, zero, suc, ◌≡◌, refl, Bool, true, false, ◌&&◌, Option, none, some, Text, codes, text_eq,
  if◌then◌else◌,
}
use codenexus.Control.{
  ControlSignal, ControlSignalView, Stored, signal, corrupt, as_str, State, redis_key,
}

unfoldable pub should_pause : Option ControlSignalView → Option Bool
should_pause (some s) =
    if s.confirmed && text_eq s.action (codes "pause")
    then some true
    else if s.confirmed && text_eq s.action (codes "resume")
    then some false
    else none
should_pause none = none

-- `serde_json::from_str::<ControlSignalView>`: the fields of a signal that the monitor wrote, with
-- its action in lower case, or what the decoder makes of another value.
unfoldable pub view_of : Option Stored → Option ControlSignalView
view_of none = none
view_of (some (signal s)) =
    some (record { action = as_str s.action; target = s.target; confirmed = s.confirmed })
view_of (some (corrupt view)) = view

keep : Bool → Option Bool → Bool
keep is_paused none = is_paused
keep is_paused (some new_state) = new_state

-- A turn of the polling of the API, on its flag; `false` is a failure of Redis.
unfoldable pub poll : Bool → State → Bool → Bool
unfolding keep should_pause view_of
poll redis_ok s is_paused =
    if redis_ok
    then keep is_paused (should_pause (view_of (s.store (redis_key (codes "api")))))
    else is_paused

-- `pause_middleware`: is a request let through?
unfoldable pub pause_middleware : Bool → Bool
pause_middleware is_paused = if is_paused then false else true

or_running : Option Bool → Bool
or_running none = false
or_running (some b) = b

unfoldable pub check_paused : State → Bool
unfolding or_running should_pause view_of
check_paused s = or_running (should_pause (view_of (s.store (redis_key (codes "llm-worker")))))
