-- ===== src/Infra/WebSocket/Topics.antt =====
-- The topics of clients in backend/api-infra/src/websocket/server.rs: the two indexes agree.
use codenexus.Prelude.{
  ℕ, ◌≤◌, ◌<◌, ◌==◌, ==_iff, ◌≡◌, refl, ap, ◌∙◌, Bool, true, false, not, ◌&&◌, ◌||◌, Option, none,
  some, List, [], ◌∷◌, ◌++◌, arith, leb, Bool-cases, inl, inr, if◌then◌else◌, Text, text_eq,
  text_eq_iff, any, length,
}
use codenexus.Infra.WebSocket.{
  Client, WebSocketServer, or_nothing, unless_empty, is_among, is_topic_among, retain_others,
  without_topic, left_by, left_topic, joined, subscribed,
}

-- `subscribe` changes nothing, or a client that is not yet there joins with topics to spare.
pub subscribed-cases :
    (P : WebSocketServer → Type 0) (id : ℕ) (topic : Text) (c : Client) (s : WebSocketServer)
    → P s
    → (is_among id (or_nothing (s.topic_subscriptions topic)) ≡ false
        → length (or_nothing (s.client_topics id)) < 16
        → P (joined id topic s))
    → P (subscribed id topic (some c) s).1
unfolding subscribed
subscribed-cases P id topic c s stay go =
    by_tests (is_among id (or_nothing (s.topic_subscriptions topic)))
      (leb 16 (length (or_nothing (s.client_topics id)))) refl refl
  where
    by_tests :
        (a b : Bool)
        → is_among id (or_nothing (s.topic_subscriptions topic)) ≡ a
        → leb 16 (length (or_nothing (s.client_topics id))) ≡ b
        → (λ (x : Bool × WebSocketServer). P x.1)
            (if a then (true, s) else if b then (false, s) else (true, joined id topic s))
    by_tests true b e f = stay
    by_tests false true e f = stay
    by_tests false false e f = go e (ground arith)

-- Is a client among those of a topic, by the two indexes?
abbrev pub in_topic : (Text → Option (List ℕ)) → ℕ → Text → Bool
in_topic topics id topic = is_among id (or_nothing (topics topic))

abbrev pub has_topic : (ℕ → Option (List Text)) → ℕ → Text → Bool
has_topic client_topics id topic = is_topic_among topic (or_nothing (client_topics id))

or_nothing-unless : {A : Type 0} (xs : List A) → or_nothing (unless_empty xs) ≡ xs
or_nothing-unless [] = refl
or_nothing-unless (x ∷ xs) = refl

among-retain :
    (id i : ℕ) (ids : List ℕ)
    → is_among i (retain_others id ids) ≡ (is_among i ids && not (id == i))
unfolding retain_others any
among-retain id i [] = refl
among-retain id i (j ∷ ids) = ground (arith, among-retain id i ids)

among-append : (i id : ℕ) (ids : List ℕ) → is_among i (ids ++ id ∷ []) ≡ (is_among i ids || id == i)
unfolding any
among-append i id [] = ground arith
among-append i id (j ∷ ids) = ground (arith, among-append i id ids)

topic-without :
    (t u : Text) (ts : List Text)
    → is_topic_among u (without_topic t ts) ≡ (is_topic_among u ts && not (text_eq t u))
unfolding without_topic any
topic-without t u [] = refl
topic-without t u (v ∷ ts) = elim (Bool-cases (text_eq v t)) [
  | inl e ↦ ground (arith, topic-without t u ts, e, ap (λ x. text_eq x u) ((text_eq_iff v t).0 e))
  | inr e ↦ elim (Bool-cases (text_eq t u)) [
    | inl f ↦ ground (arith, topic-without t u ts, e, f, ap (text_eq v) ((text_eq_iff t u).0 f))
    | inr f ↦ ground (arith, topic-without t u ts, e, f)
  ]
]

pub among-left :
    (id i : ℕ) (o : Option (List ℕ))
    → is_among i (or_nothing (left_by id o)) ≡ (is_among i (or_nothing o) && not (id == i))
unfolding left_by any
among-left id i none = refl
among-left id i (some ids) = rw (or_nothing-unless (retain_others id ids)) (among-retain id i ids)

pub topic-left :
    (t u : Text) (o : Option (List Text))
    → is_topic_among u (or_nothing (left_topic t o))
      ≡ (is_topic_among u (or_nothing o) && not (text_eq t u))
unfolding left_topic any
topic-left t u none = refl
topic-left t u (some ts) = rw (or_nothing-unless (without_topic t ts)) (topic-without t u ts)

pub length-without : (t : Text) (ts : List Text) → length (without_topic t ts) ≤ length ts
unfolding without_topic
length-without t [] = omega arith
length-without t (u ∷ ts) = ground (arith, length-without t ts)

pub length-left :
    (t : Text) (o : Option (List Text))
    → length (or_nothing (left_topic t o)) ≤ length (or_nothing o)
unfolding left_topic
length-left t none = omega arith
length-left t (some ts) = rw (or_nothing-unless (without_topic t ts)) (length-without t ts)

-- The two indexes agree, and no client has more topics than the limit.
abbrev pub Mirrored : WebSocketServer → Type 0
Mirrored s =
    ((id : ℕ) (topic : Text)
      → in_topic s.topic_subscriptions id topic ≡ has_topic s.client_topics id topic)
    × ((id : ℕ) → length (or_nothing (s.client_topics id)) ≤ 16)

-- The indexes behind a subscription, at a client and a topic.
pub in_topic-joined :
    (id : ℕ) (topic : Text) (s : WebSocketServer) (i : ℕ) (t : Text)
    → in_topic (joined id topic s).topic_subscriptions i t
      ≡ (in_topic s.topic_subscriptions i t || (id == i && text_eq topic t))
unfolding joined any
in_topic-joined id topic s i t = by_test (text_eq topic t) refl
  where
    by_test :
        (b : Bool)
        → text_eq topic t ≡ b
        → is_among i (
            or_nothing (
              if b
              then some (or_nothing (s.topic_subscriptions topic) ++ id ∷ [])
              else s.topic_subscriptions t))
          ≡ (is_among i (or_nothing (s.topic_subscriptions t)) || (id == i && b))
    by_test true e =
        among-append i id (or_nothing (s.topic_subscriptions topic))
        ∙ ap (λ (u : Text). is_among i (or_nothing (s.topic_subscriptions u)) || id == i)
            ((text_eq_iff topic t).0 e)
        ∙ ground arith
    by_test false e = ground arith

pub has_topic-joined :
    (id : ℕ) (topic : Text) (s : WebSocketServer) (i : ℕ) (t : Text)
    → has_topic (joined id topic s).client_topics i t
      ≡ (has_topic s.client_topics i t || (id == i && text_eq topic t))
unfolding joined any
has_topic-joined id topic s i t = by_test (id == i) refl
  where
    by_test :
        (b : Bool)
        → (id == i) ≡ b
        → is_topic_among t (
            or_nothing (
              if b
              then some (topic ∷ without_topic topic (or_nothing (s.client_topics id)))
              else s.client_topics i))
          ≡ (is_topic_among t (or_nothing (s.client_topics i)) || (b && text_eq topic t))
    by_test true e =
        ap (λ b. text_eq topic t || b) (topic-without topic t (or_nothing (s.client_topics id)))
        ∙ ap
            (λ j.
              text_eq topic t
              || (is_topic_among t (or_nothing (s.client_topics j)) && not (text_eq topic t)))
            ((==_iff id i).0 e)
        ∙ ground arith
    by_test false e = ground arith
