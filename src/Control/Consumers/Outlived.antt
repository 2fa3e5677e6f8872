-- ===== src/Control/Consumers/Outlived.antt =====
-- What the API and the worker of backend/llm-worker do when a pause has been cleared by the recovery task.
use codenexus.Prelude.{
  ℕ, ◌≡◌, refl, ap, ◌∙◌, Bool, true, false, none, some, Text, codes, text_eq_refl, List, [], ◌∷◌,
}
use codenexus.Control.{ControlSignal, signal, State, redis_key, is_expired, recover, recover_target}
use codenexus.Control.Consumers.{should_pause, view_of, keep, poll, check_paused, or_running}

recovered-none :
    (now : ℕ) (target : Text) (s : State) (sig : ControlSignal)
    → s.store (redis_key target) ≡ some (signal sig)
    → is_expired sig.expires_at now ≡ true
    → (recover_target now target s).store (redis_key target) ≡ none
unfolding recover_target recover
recovered-none now target s sig e f = rw (e, f, text_eq_refl (redis_key target)) refl

-- So many turns of the polling, each with Redis there or not.
abbrev pub polls : List Bool → State → Bool → Bool
polls [] s is_paused = is_paused
polls (redis_ok ∷ rest) s is_paused = polls rest s (poll redis_ok s is_paused)

poll-stays :
    (ok : Bool) (s : State) (paused : Bool)
    → s.store (redis_key (codes "api")) ≡ none
    → poll ok s paused ≡ paused
unfolding poll keep should_pause view_of
poll-stays true s paused e = rw e refl
poll-stays false s paused e = refl

polls-stay :
    (turns : List Bool) (s : State) (paused : Bool)
    → s.store (redis_key (codes "api")) ≡ none
    → polls turns s paused ≡ paused
polls-stay [] s paused e = refl
polls-stay (ok ∷ turns) s paused e =
    ap (polls turns s) (poll-stays ok s paused e) ∙ polls-stay turns s paused e

check-none : (s : State) → s.store (redis_key (codes "llm-worker")) ≡ none → check_paused s ≡ false
unfolding check_paused should_pause view_of or_running
check-none s e = rw e refl

-- When the recovery task has cleared the expired signals of both services, a paused API stays
-- paused for any number of polls, whether they reach Redis or not, while the LLM worker is not
-- paused.
pub pause_outlives_signal :
    (now : ℕ) (s : State) (api llm : ControlSignal) (turns : List Bool)
    → s.store (redis_key (codes "api")) ≡ some (signal api)
    → is_expired api.expires_at now ≡ true
    → s.store (redis_key (codes "llm-worker")) ≡ some (signal llm)
    → is_expired llm.expires_at now ≡ true
    → (polls turns (recover_target now (codes "api") s) true ≡ true)
      × (check_paused (recover_target now (codes "llm-worker") s) ≡ false)
pause_outlives_signal now s api llm turns stored expired stored' expired' = (
  polls-stay turns _ true (recovered-none now (codes "api") s api stored expired),
  check-none _ (recovered-none now (codes "llm-worker") s llm stored' expired'),
)
