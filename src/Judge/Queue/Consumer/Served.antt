-- ===== src/Judge/Queue/Consumer/Served.antt =====
-- The ways in which a call of `consume_priority` in consumer.rs can succeed.
use codenexus.Prelude.{◌≡◌, ◌≢◌, refl, sym, ap, ◌∙◌, Option, none, some, List, [], ◌∷◌, Text}
use mathlib.Core.Path.{subst}
use mathlib.Core.Option.{some-injective}
use codenexus.Judge.Queue.{StreamKey, Redis}
use codenexus.Judge.Queue.Consumer.{
  PriorityMessage, Outcome, parse_result, drain_contest, read_normal_blocking, prefer, with_normal,
  first, consume_priority,
}
use codenexus.Judge.Queue.Consumer.Delivered.{Given, read_lem}

module _ (redis : Redis) (contest normal : Text) (differ : contest ≢ normal) where
  open redis use {Server, Value, given, read_group}

  -- A read of one of the two streams, which leaves the other.
  abbrev pub FromContest : Server → Server → List PriorityMessage → Type 0
  FromContest s s₁ ms = Given redis s s₁ contest ms × (given s₁ normal ≡ given s normal)

  abbrev pub FromNormal : Server → Server → List PriorityMessage → Type 0
  FromNormal s s₁ ms = Given redis s s₁ normal ms × (given s₁ contest ≡ given s contest)

  -- Contest messages, with the parked one kept; the parked one, now that no contest message came;
  -- nothing; a contest message that came while a normal one was read, which is parked; a normal one.
  pub data Served (s : Server)
      : Option PriorityMessage
        → List PriorityMessage
        → Option PriorityMessage
        → Server
        → Type 0 where
    contest_first :
        {s' : Server} {parked : Option PriorityMessage} (m : PriorityMessage)
        (ms : List PriorityMessage)
        → FromContest s s' (m ∷ ms)
        → Served s parked (m ∷ ms) parked s'
    parked_released :
        {s' : Server} (p : PriorityMessage)
        → FromContest s s' []
        → Served s (some p) (p ∷ []) none s'
    nothing :
        {s₁ s' : Server} → FromContest s s₁ [] → FromNormal s₁ s' [] → Served s none [] none s'
    parked_late :
        {s₁ s₂ s' : Server} (n m : PriorityMessage) (ns ms : List PriorityMessage)
        → FromContest s s₁ []
        → FromNormal s₁ s₂ (n ∷ ns)
        → FromContest s₂ s' (m ∷ ms)
        → Served s none (m ∷ ms) (some n) s'
    normal_read :
        {s₁ s₂ s' : Server} (n : PriorityMessage) (ns : List PriorityMessage)
        → FromContest s s₁ []
        → FromNormal s₁ s₂ (n ∷ ns)
        → FromContest s₂ s' []
        → Served s none (n ∷ ns) none s'

  parse_result-state :
      (x : Option (List (StreamKey Value)) × Server) → (parse_result redis x).1 ≡ x.1
  unfolding parse_result
  parse_result-state (none, s) = refl
  parse_result-state (some reply, s) = refl

  drain_lem :
      (s s₁ : Server) (ms : List PriorityMessage)
      → drain_contest redis s contest ≡ (some ms, s₁)
      → FromContest s s₁ ms
  unfolding drain_contest
  drain_lem s s₁ ms h = (
    read_lem redis s s₁ contest none ms h,
    subst (λ t. given t normal ≡ given s normal) (sym (parse_result-state _) ∙ ap (λ p. p.1) h)
        (redis.read-other s contest normal none (λ e. differ (sym e))),
  )

  normal_lem :
      (s s₁ : Server) (ms : List PriorityMessage)
      → read_normal_blocking redis s normal 200 ≡ (some ms, s₁)
      → FromNormal s s₁ ms
  unfolding read_normal_blocking
  normal_lem s s₁ ms h = (
    read_lem redis s s₁ normal (some 200) ms h,
    subst (λ t. given t contest ≡ given s contest) (sym (parse_result-state _) ∙ ap (λ p. p.1) h)
        (redis.read-other s normal contest (some 200) differ),
  )

  -- The result of a call that succeeded.
  abbrev Ok : List PriorityMessage → Option PriorityMessage → Server → Outcome × Server
  Ok ms parked s = (some (ms, parked), s)

  parts :
      (ms ns : List PriorityMessage) (p q : Option PriorityMessage) (s t : Server)
      → Ok ms p s ≡ Ok ns q t
      → (P : List PriorityMessage → Option PriorityMessage → Server → Type 0) → P ms p s
      → P ns q t
  parts ms ns p q s t e P x =
      subst (λ w. P w.0 w.1 t) (some-injective _ _ (ap (λ o. o.0) e))
        (subst (λ u. P ms p u) (ap (λ o. o.1) e) x)

  after_drain :
      (s s' : Server) (parked parked' : Option PriorityMessage) (ms : List PriorityMessage)
      (x : Option (List PriorityMessage) × Server) (next : Server → Outcome × Server)
      → drain_contest redis s contest ≡ x
      → prefer redis x parked next ≡ Ok ms parked' s'
      → ((s₁ : Server)
          → FromContest s s₁ []
          → next s₁ ≡ Ok ms parked' s'
          → Served s parked ms parked' s')
      → Served s parked ms parked' s'
  unfolding prefer
  after_drain s s' parked parked' ms (none, s₁) next e h k = cc
  after_drain s s' parked parked' ms (some [], s₁) next e h k = k s₁ (drain_lem s s₁ [] e) h
  after_drain s s' parked parked' ms (some (c ∷ cs), s₁) next e h k =
      parts (c ∷ cs) ms parked parked' s₁ s' h (Served s parked)
        (contest_first c cs (drain_lem s s₁ _ e))

  recheck :
      (s s₁ s₂ s' : Server) (n : PriorityMessage) (ns ms : List PriorityMessage)
      (parked' : Option PriorityMessage) (x : Option (List PriorityMessage) × Server)
      → FromContest s s₁ []
      → FromNormal s₁ s₂ (n ∷ ns)
      → drain_contest redis s₂ contest ≡ x
      → prefer redis x (some n) (λ s₃. Ok (n ∷ ns) none s₃) ≡ Ok ms parked' s'
      → Served s none ms parked' s'
  unfolding prefer
  recheck s s₁ s₂ s' n ns ms parked' (none, s₃) f g e h = cc
  recheck s s₁ s₂ s' n ns ms parked' (some [], s₃) f g e h =
      parts (n ∷ ns) ms none parked' s₃ s' h (Served s none)
        (normal_read n ns f g (drain_lem s₂ s₃ [] e))
  recheck s s₁ s₂ s' n ns ms parked' (some (c ∷ cs), s₃) f g e h =
      parts (c ∷ cs) ms (some n) parked' s₃ s' h (Served s none)
        (parked_late n c ns cs f g (drain_lem s₂ s₃ _ e))

  after_normal :
      (s s₁ s' : Server) (ms : List PriorityMessage) (parked' : Option PriorityMessage)
      (x : Option (List PriorityMessage) × Server)
      → FromContest s s₁ []
      → read_normal_blocking redis s₁ normal 200 ≡ x
      → with_normal redis x
          (λ ns s₂. prefer redis (drain_contest redis s₂ contest) (first ns) λ s₃. Ok ns none s₃)
        ≡ Ok ms parked' s'
      → Served s none ms parked' s'
  unfolding with_normal first
  after_normal s s₁ s' ms parked' (none, s₂) f e h = cc
  after_normal s s₁ s' ms parked' (some [], s₂) f e h =
      parts [] ms none parked' s₂ s' h (Served s none) (nothing f (normal_lem s₁ s₂ [] e))
  after_normal s s₁ s' ms parked' (some (n ∷ ns), s₂) f e h =
      recheck s s₁ s₂ s' n ns ms parked' (drain_contest redis s₂ contest) f (normal_lem s₁ s₂ _ e)
        refl h

  pub consume_priority_lem :
      (s s' : Server) (parked parked' : Option PriorityMessage) (ms : List PriorityMessage)
      → consume_priority redis s contest normal parked ≡ (some (ms, parked'), s')
      → Served s parked ms parked' s'
  unfolding consume_priority
  consume_priority_lem s s' (some p) parked' ms h =
      after_drain s s' (some p) parked' ms (drain_contest redis s contest) _ refl h
        λ s₁ f e. parts (p ∷ []) ms none parked' s₁ s' e (Served s (some p)) (parked_released p f)
  consume_priority_lem s s' none parked' ms h =
      after_drain s s' none parked' ms (drain_contest redis s contest) _ refl h λ s₁ f e.
        after_normal s s₁ s' ms parked' (read_normal_blocking redis s₁ normal 200) f refl e
