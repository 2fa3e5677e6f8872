-- ===== src/Tests/Control.antt =====
-- Control signals on concrete inputs.
use codenexus.Prelude.{
  trim_start_matches, is_whitespace, ◌≡◌, ◌⊎◌, refl, true, false, none, some, [], ◌∷◌, Text, codes,
  text_eq, any, if◌then◌else◌,
}
use codenexus.Control.{
  ControlSignal, pause, signal, corrupt, State, forbidden, internal_error, create_signal,
  confirm_signal, redis_key, is_valid_target, from_str, as_str, is_expired, recover_target,
}
use codenexus.Control.Sound.{confirm_signal-Activates}
use codenexus.Control.Consumers.{poll, check_paused, should_pause, view_of}
use codenexus.Control.Consumers.Outlived.{polls, pause_outlives_signal}

abbrev empty : State
empty = record { store = λ k. none; audit = [] }

abbrev waiting : State
waiting =
    (create_signal true 100 (codes "t-1") (codes "api") (codes "pause") (codes "root") empty).1

wrong_token_refused :
    (confirm_signal true true true (codes "api") (codes "pause") (codes "t-2") waiting).0
    ≡ forbidden
unfolding confirm_signal create_signal trim_start_matches is_whitespace is_valid_target from_str
    as_str redis_key text_eq any
wrong_token_refused = refl

right_token_pauses :
    poll true
      (confirm_signal true true true (codes "api") (codes "pause") (codes "t-1") waiting).1
      false
    ≡ true
unfolding confirm_signal create_signal trim_start_matches is_whitespace is_valid_target from_str
    as_str redis_key text_eq any poll should_pause view_of
right_token_pauses = refl

unconfirmed_ignored : poll true waiting false ≡ false
unfolding create_signal trim_start_matches is_whitespace is_valid_target from_str redis_key text_eq
    any poll should_pause view_of
unconfirmed_ignored = refl

-- A value without an operator or dates: the monitor refuses it, the API obeys it.
abbrev partial : State
partial = record {
  store = λ k.
      some (
        corrupt (some (record { action = codes "pause"; target = codes "api"; confirmed = true })));
  audit = [];
}

partial_obeyed :
    (poll true partial false ≡ true)
    × ((confirm_signal true true true (codes "api") (codes "pause") (codes "t-1") partial).0
        ≡ internal_error)
unfolding confirm_signal is_valid_target from_str redis_key text_eq any poll should_pause view_of
partial_obeyed = (refl, refl)

confirm_signal-Activates_example :
    ((confirm_signal true true true (codes "api") (codes "pause") (codes "t-1") waiting).1.store
      ≡ waiting.store)
    ⊎ ((existing : ControlSignal) × (waiting.store (redis_key (codes "api"))
          ≡ some (signal existing))
        × (existing.confirmed ≡ false)
        × (existing.confirmation_token ≡ some (codes "t-1")))
confirm_signal-Activates_example =
    confirm_signal-Activates true true true (codes "api") (codes "pause") (codes "t-1") waiting

abbrev paused : Text → ControlSignal
paused target = record {
  action = pause;
  target = target;
  operator = codes "root";
  created_at = 100;
  expires_at = some 1900;
  confirmed = true;
  confirmation_token = none;
}

-- Both services are paused.
abbrev both : State
both = record {
  store = λ k.
      if text_eq (redis_key (codes "api")) k
      then some (signal (paused (codes "api")))
      else if text_eq (redis_key (codes "llm-worker")) k
      then some (signal (paused (codes "llm-worker")))
      else none;
  audit = [];
}

api_stored : both.store (redis_key (codes "api")) ≡ some (signal (paused (codes "api")))
unfolding redis_key text_eq
api_stored = refl

llm_stored :
    both.store (redis_key (codes "llm-worker")) ≡ some (signal (paused (codes "llm-worker")))
unfolding redis_key text_eq
llm_stored = refl

expired_then : is_expired (some 1900) 2000 ≡ true
unfolding is_expired
expired_then = refl

pause_outlives_signal_example :
    (polls (true ∷ false ∷ true ∷ []) (recover_target 2000 (codes "api") both) true ≡ true)
    × (check_paused (recover_target 2000 (codes "llm-worker") both) ≡ false)
pause_outlives_signal_example =
    pause_outlives_signal 2000 both (paused (codes "api")) (paused (codes "llm-worker"))
      (true ∷ false ∷ true ∷ []) api_stored expired_then llm_stored expired_then
