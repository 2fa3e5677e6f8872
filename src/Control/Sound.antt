-- ===== src/Control/Sound.antt =====
-- Signals in the store of backend/monitor-server/src/control.rs: how they
-- become active.
use codenexus.Prelude.{
  ◌≡◌, ◌⊎◌, inl, inr, refl, ap, ◌∙◌, Bool, true, false, Option, none, some, Text, text_eq,
  text_eq_iff, either_branch, if◌then◌else◌,
}
use codenexus.Control.{
  ControlAction, ControlSignal, Stored, signal, corrupt, State, Answer, redis_key, from_str,
  is_valid_target, action_eq, write_confirmed, check_token, confirm, read_or_none, confirm_parsed,
  confirm_signal, bad_request, conflict, forbidden,
}

-- What confirming may do to the store: nothing, or the signal that waited for this token is active.
abbrev pub Activates : Text → Text → State → Answer × State → Type 0
Activates target given s x =
    (x.1.store ≡ s.store)
    ⊎ ((existing : ControlSignal) × (s.store (redis_key target) ≡ some (signal existing))
        × (existing.confirmed ≡ false)
        × (existing.confirmation_token ≡ some given))

check_token-Activates :
    (token : Option Text) (ok : Bool) (target : Text) (action : ControlAction) (given : Text)
    (existing : ControlSignal) (s : State)
    → existing.confirmation_token ≡ token
    → existing.confirmed ≡ false
    → s.store (redis_key target) ≡ some (signal existing)
    → Activates target given s (check_token token ok target action given existing s)
unfolding check_token
check_token-Activates none ok target action given existing s e c stored = inl refl
check_token-Activates (some token) ok target action given existing s e c stored =
    by_test (text_eq token given) refl
  where
    by_test :
        (b : Bool)
        → text_eq token given ≡ b
        → Activates target given s
            (if b then write_confirmed ok target action existing s else (forbidden, s))
    by_test true f = inr (existing, stored, c, e ∙ ap some ((text_eq_iff token given).0 f))
    by_test false f = inl refl

confirm-Activates :
    (o : Option Stored) (ok : Bool) (target : Text) (action : ControlAction) (given : Text)
    (s : State)
    → (o ≡ none) ⊎ (s.store (redis_key target) ≡ o)
    → Activates target given s (confirm o ok target action given s)
unfolding confirm
confirm-Activates none ok target action given s e = inl refl
confirm-Activates (some (corrupt view)) ok target action given s e = inl refl
confirm-Activates (some (signal existing)) ok target action given s (inl e) = cc
confirm-Activates (some (signal existing)) ok target action given s (inr e) =
    by_tests existing.confirmed (action_eq existing.action action) refl
  where
    by_tests :
        (a b : Bool)
        → existing.confirmed ≡ a
        → Activates target given s (
            if a
            then (conflict, s)
            else if b
            then check_token existing.confirmation_token ok target action given existing s
            else (conflict, s))
    by_tests true b c = inl refl
    by_tests false false c = inl refl
    by_tests false true c =
        check_token-Activates existing.confirmation_token ok target action given existing s refl c e

parsed-Activates :
    (a : Option ControlAction) (pool_ok get_ok ok : Bool) (target given : Text) (s : State)
    → Activates target given s (confirm_parsed a pool_ok get_ok ok target given s)
unfolding confirm_parsed read_or_none
parsed-Activates none pool_ok get_ok ok target given s = inl refl
parsed-Activates (some action) false get_ok ok target given s = inl refl
parsed-Activates (some action) true false ok target given s =
    confirm-Activates none ok target action given s (inl refl)
parsed-Activates (some action) true true ok target given s =
    confirm-Activates (s.store (redis_key target)) ok target action given s (inr refl)

-- confirm_signal leaves the store as it is, or the store held a signal for the target that was not
-- confirmed, and the token that was given is the one it waited for.
pub confirm_signal-Activates :
    (pool_ok get_ok ok : Bool) (target action_str given : Text) (s : State)
    → let x : Answer × State = confirm_signal pool_ok get_ok ok target action_str given s in
      (x.1.store ≡ s.store)
      ⊎ ((existing : ControlSignal) × (s.store (redis_key target) ≡ some (signal existing))
          × (existing.confirmed ≡ false)
          × (existing.confirmation_token ≡ some given))
unfolding confirm_signal
confirm_signal-Activates pool_ok get_ok ok target action_str given s =
    either_branch (Activates target given s) (is_valid_target target) _ (bad_request, s)
      (parsed-Activates (from_str action_str) pool_ok get_ok ok target given s) (inl refl)
