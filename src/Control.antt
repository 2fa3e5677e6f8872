-- ===== src/Control.antt =====
-- The control signals: backend/monitor-server/src/control.rs and the handlers create_signal and
-- confirm_signal of its routes/control.rs. Redis holds a value under the key of a target, which is a
-- signal or does not parse as one; the texts of the answers are left out. Times are in seconds.
pub mod Consumers
pub mod Sound
use codenexus.Prelude.{
  ℕ, ◌+◌, ◌≡◌, refl, Bool, true, false, not, Option, none, some, List, [], ◌∷◌, ◌++◌, Text, codes,
  text_eq, any, leb, is_whitespace, trim_start_matches, is_empty, if◌then◌else◌,
}

abbrev pub allowed_targets : List Text
allowed_targets =
    codes "api"
    ∷ codes "judge-worker"
    ∷ codes "llm-worker"
    ∷ codes "domain-analysis"
    ∷ codes "monitor"
    ∷ []

unfoldable pub is_valid_target : Text → Bool
unfolding any
is_valid_target target = any (text_eq target) allowed_targets

pub data ControlAction : Type 0 where
  pause resume restart : ControlAction

unfoldable pub as_str : ControlAction → Text
as_str pause = codes "pause"
as_str resume = codes "resume"
as_str restart = codes "restart"

unfoldable pub from_str : Text → Option ControlAction
from_str s =
    if text_eq s (codes "pause")
    then some pause
    else if text_eq s (codes "resume")
    then some resume
    else if text_eq s (codes "restart")
    then some restart
    else none

pub record ControlSignal : Type 0 where
  pub action : ControlAction
  pub target : Text
  pub operator : Text
  pub created_at : ℕ
  pub expires_at : Option ℕ
  pub confirmed : Bool
  pub confirmation_token : Option Text

unfoldable pub redis_key : Text → Text
redis_key target = codes "control:signal:" ++ target

unfoldable pub is_expired : Option ℕ → ℕ → Bool
is_expired none now = false
is_expired (some exp) now = leb exp now

abbrev pub default_signal_timeout_secs : ℕ
default_signal_timeout_secs = 1800

-- What the API and the LLM worker read of a value, each with a type of its own of this shape.
pub record ControlSignalView : Type 0 where
  pub action : Text
  pub target : Text
  pub confirmed : Bool

-- A value of Redis: a signal that `from_json` reads, or a value that it refuses. The services may
-- read their view in a value that the monitor refuses: there it is whatever their decoder answers.
pub data Stored : Type 0 where
  signal : ControlSignal → Stored
  corrupt : Option ControlSignalView → Stored

-- An entry of the audit log: the target, the action, the operator, and whether it succeeded.
pub record Audit : Type 0 where
  pub target : Text
  pub action : ControlAction
  pub operator : Text
  pub success : Bool

pub record State : Type 0 where
  pub store : Text → Option Stored
  pub audit : List Audit

pub data Answer : Type 0 where
  bad_request internal_error pending_confirmation no_signal conflict forbidden active : Answer

-- SET, or DEL for `none`.
abbrev pub put : Text → Option Stored → State → State
put key value s = record s { store = λ k. if text_eq key k then value else s.store k }

abbrev pub recorded : Text → ControlAction → Text → Bool → State → State
recorded target action operator success s = record s {
  audit =
      s.audit
      ++ record { target = target; action = action; operator = operator; success = success } ∷ [];
}

-- `operator.trim().is_empty()`
is_blank : Text → Bool
is_blank operator = is_empty (trim_start_matches is_whitespace operator)

write_pending : Bool → ControlSignal → State → Answer × State
write_pending false new s = (internal_error, recorded new.target new.action new.operator false s)
write_pending true new s = (
  pending_confirmation,
  recorded new.target new.action new.operator true
      (put (redis_key new.target) (some (signal new)) s),
)

create : Option ControlAction → Bool → ℕ → Text → Text → Text → State → Answer × State
unfolding write_pending is_blank
create none redis_ok now token target operator s = (bad_request, s)
create (some action) redis_ok now token target operator s =
    if is_blank operator
    then (bad_request, s)
    else write_pending redis_ok
        (record {
          action = action;
          target = target;
          operator = operator;
          created_at = now;
          expires_at = some (now + default_signal_timeout_secs);
          confirmed = false;
          confirmation_token = some token;
        })
        s

-- Does the write to Redis succeed, the time, and the new token are given.
unfoldable pub create_signal : Bool → ℕ → Text → Text → Text → Text → State → Answer × State
unfolding create from_str
create_signal redis_ok now token target action_str operator s =
    if is_valid_target target
    then create (from_str action_str) redis_ok now token target operator s
    else (bad_request, s)

action_eq : ControlAction → ControlAction → Bool
action_eq a b = text_eq (as_str a) (as_str b)

write_confirmed : Bool → Text → ControlAction → ControlSignal → State → Answer × State
write_confirmed false target action existing s =
    (internal_error, recorded target action existing.operator false s)
write_confirmed true target action existing s = (
  active,
  recorded target action existing.operator true (
      put (redis_key target)
        (some (signal (record existing { confirmed = true; confirmation_token = none }))) s),
)

check_token :
    Option Text → Bool → Text → ControlAction → Text → ControlSignal → State → Answer × State
unfolding write_confirmed
check_token none redis_ok target action given existing s = (conflict, s)
check_token (some token) redis_ok target action given existing s =
    if text_eq token given
    then write_confirmed redis_ok target action existing s
    else (forbidden, s)

confirm : Option Stored → Bool → Text → ControlAction → Text → State → Answer × State
unfolding check_token action_eq
confirm none redis_ok target action given s = (no_signal, s)
confirm (some (corrupt view)) redis_ok target action given s = (internal_error, s)
confirm (some (signal existing)) redis_ok target action given s =
    if existing.confirmed
    then (conflict, s)
    else if action_eq existing.action action
    then check_token existing.confirmation_token redis_ok target action given existing s
    else (conflict, s)

-- `query_async(..).unwrap_or(None)`
read_or_none : Bool → Option Stored → Option Stored
read_or_none false stored = none
read_or_none true stored = stored

confirm_parsed : Option ControlAction → Bool → Bool → Bool → Text → Text → State → Answer × State
unfolding confirm read_or_none
confirm_parsed none pool_ok get_ok redis_ok target given s = (bad_request, s)
confirm_parsed (some action) pool_ok get_ok redis_ok target given s =
    if pool_ok
    then confirm (read_or_none get_ok (s.store (redis_key target))) redis_ok target action given s
    else (internal_error, s)

-- Whether there is a connection, and whether the read and the write succeed, are given.
unfoldable pub confirm_signal : Bool → Bool → Bool → Text → Text → Text → State → Answer × State
unfolding confirm_parsed
confirm_signal pool_ok get_ok redis_ok target action_str given s =
    if is_valid_target target
    then confirm_parsed (from_str action_str) pool_ok get_ok redis_ok target given s
    else (bad_request, s)

-- The body of the recovery loop for one target, when Redis and the audit log work.
recover : ℕ → Text → Option Stored → State → State
recover now target none s = s
recover now target (some (corrupt view)) s = put (redis_key target) none s
recover now target (some (signal existing)) s =
    if is_expired existing.expires_at now
    then recorded target existing.action (codes "system:auto-restore") true
        (put (redis_key target) none s)
    else s

unfoldable pub recover_target : ℕ → Text → State → State
unfolding recover
recover_target now target s = recover now target (s.store (redis_key target)) s
