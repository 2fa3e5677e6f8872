-- ===== src/Judge/Queue/Consumer/Accounted.antt =====
-- What was dispatched and parked by `consume_priority` of consumer.rs against what the server gave.
use mathlib.Core.List.{append-nil}
use mathlib.Core.Path.{subst}
use codenexus.Prelude.{
  ◌≤◌, ◌≡◌, ◌≢◌, refl, sym, ◌∙◌, inl, inr, Option, none, some, List, [], ◌∷◌, ◌++◌, arith, Text,
  text_eq, text_eq_iff, text_eq_refl, length, All, Bool-cases, if◌then◌else◌,
}
use codenexus.Judge.Queue.{Redis}
use codenexus.Judge.Queue.Consumer.{PriorityMessage, first, consume_priority}
use codenexus.Judge.Queue.Consumer.Served.{
  Served, FromContest, contest_first, parked_released, nothing, parked_late, normal_read,
  consume_priority_lem,
}
use codenexus.Judge.Queue.Consumer.Delivered.{readable, Given}

-- The messages that came from a stream.
unfoldable pub from : Text → List PriorityMessage → List PriorityMessage
from stream [] = []
from stream (m ∷ ms) =
    let rest = from stream ms in if text_eq m.origin_stream stream then m ∷ rest else rest

abbrev pub held : Option PriorityMessage → List PriorityMessage
held none = []
held (some m) = m ∷ []

from-append :
    (stream : Text) (xs ys : List PriorityMessage)
    → from stream (xs ++ ys) ≡ from stream xs ++ from stream ys
unfolding from
from-append stream [] ys = refl
from-append stream (x ∷ xs) ys = elim (Bool-cases (text_eq x.origin_stream stream)) [
  | inl e ↦ rw (e, from-append stream xs ys) refl
  | inr e ↦ rw (e, from-append stream xs ys) refl
]

from-own :
    (stream : Text) (ms : List PriorityMessage)
    → All (λ m. m.origin_stream ≡ stream) ms
    → from stream ms ≡ ms
unfolding from
from-own stream [] h = refl
from-own stream (m ∷ ms) h = rw (h.0, text_eq_refl stream, from-own stream ms h.1) refl

from-other :
    (stream other : Text) (ms : List PriorityMessage)
    → other ≢ stream
    → All (λ m. m.origin_stream ≡ stream) ms
    → from other ms ≡ []
unfolding from
from-other stream other [] ne h = refl
from-other stream other (m ∷ ms) ne h = elim (Bool-cases (text_eq m.origin_stream other)) [
  | inl e ↦ absurd (ne (sym ((text_eq_iff _ _).0 e) ∙ h.0))
  | inr e ↦ rw (e, from-other stream other ms ne h.1) refl
]

module _ (redis : Redis) (contest normal : Text) (differ : contest ≢ normal) where
  open redis use {Server, given, read_group}

  -- What was dispatched and what is parked is what the server has given, stream by stream and in
  -- its order.
  pub record Accounted (out : List PriorityMessage) (parked : Option PriorityMessage) (s : Server)
      : Type 0 where
    pub contests : from contest out ≡ readable redis contest (given s contest)
    pub normals : from normal out ++ held parked ≡ readable redis normal (given s normal)
    pub parked_normal : All (λ m. m.origin_stream ≡ normal) (held parked)

  after_contest :
      (out ms : List PriorityMessage) (parked : Option PriorityMessage) (s s₁ : Server)
      → Accounted out parked s
      → Given redis s s₁ contest ms
      → given s₁ normal ≡ given s normal
      → Accounted (out ++ ms) parked s₁
  after_contest out ms parked s s₁ a g same = record {
    contests =
        rw (from-append contest out ms, from-own contest ms g.from_stream, a.contests)
          (sym g.grown);
    normals =
        rw
          (
            from-append normal out ms,
            from-other contest normal ms (λ e. differ (sym e)) g.from_stream,
            append-nil (from normal out),
            same,
          )
          a.normals;
    parked_normal = a.parked_normal;
  }

  held-first : (ms : List PriorityMessage) → length ms ≤ 1 → held (first ms) ≡ ms
  unfolding first
  held-first [] h = refl
  held-first (m ∷ []) h = refl
  held-first (m ∷ n ∷ ms) h = absurd (omega arith)

  after_normal :
      (out ms : List PriorityMessage) (s s₁ : Server)
      → Accounted out none s
      → Given redis s s₁ normal ms
      → given s₁ contest ≡ given s contest
      → Accounted out (first ms) s₁
  after_normal out ms s s₁ a g same = record {
    contests = rw same a.contests;
    normals =
        rw (held-first ms g.at_most_one, g.grown, sym a.normals, append-nil (from normal out)) refl;
    parked_normal = rw (held-first ms g.at_most_one) g.from_stream;
  }

  released :
      (out : List PriorityMessage) (parked : Option PriorityMessage) (s : Server)
      → Accounted out parked s
      → Accounted (out ++ held parked) none s
  released out parked s a = record {
    contests =
        rw
          (
            from-append contest out (held parked),
            from-other normal contest (held parked) differ a.parked_normal,
            append-nil (from contest out),
          )
          a.contests;
    normals =
        rw
          (
            from-append normal out (held parked),
            from-own normal (held parked) a.parked_normal,
            append-nil (from normal out ++ held parked),
          )
          a.normals;
    parked_normal = tt;
  }

  -- A read of the contest stream that gave nothing.
  quiet :
      (out : List PriorityMessage) (parked : Option PriorityMessage) (s s₁ : Server)
      → Accounted out parked s
      → FromContest redis contest normal differ s s₁ []
      → Accounted out parked s₁
  quiet out parked s s₁ a f =
      subst (λ l. Accounted l parked s₁) (append-nil out)
        (after_contest out [] parked s s₁ a f.0 f.1)

  served_lem :
      (out : List PriorityMessage) (s s' : Server) (parked parked' : Option PriorityMessage)
      (ms : List PriorityMessage)
      → Accounted out parked s
      → Served redis contest normal differ s parked ms parked' s'
      → Accounted (out ++ ms) parked' s'
  unfolding first
  served_lem out s s' parked parked' ms a (contest_first m cs f) =
      after_contest out (m ∷ cs) parked s s' a f.0 f.1
  served_lem out s s' parked parked' ms a (parked_released p f) =
      released out (some p) s' (quiet out (some p) s s' a f)
  served_lem out s s' parked parked' ms a (nothing f g) =
      rw (append-nil out) (after_normal out [] _ s' (quiet out none s _ a f) g.0 g.1)
  served_lem out s s' parked parked' ms a (parked_late n m ns cs f g h) =
      after_contest out (m ∷ cs) (some n) _ s'
        (after_normal out (n ∷ ns) _ _ (quiet out none s _ a f) g.0 g.1) h.0 h.1
  served_lem out s s' parked parked' ms a (normal_read n ns f g h) =
      subst (λ l. Accounted (out ++ l) none s') (held-first (n ∷ ns) g.0.at_most_one)
        (released out (some n) s' (
          quiet out (some n) _ s' (after_normal out (n ∷ ns) _ _ (quiet out none s _ a f) g.0 g.1)
            h))

  -- If, before a call of consume_priority that does not fail, the messages dispatched and the
  -- parked one are exactly the readable entries that the server has given, in the order of each
  -- stream, then so they are after it: no message is lost, doubled or reordered within its stream.
  pub consume_priority-Accounted :
      (out : List PriorityMessage) (s s' : Server) (parked parked' : Option PriorityMessage)
      (ms : List PriorityMessage)
      → Accounted out parked s
      → consume_priority redis s contest normal parked ≡ (some (ms, parked'), s')
      → Accounted (out ++ ms) parked' s'
  consume_priority-Accounted out s s' parked parked' ms a h =
      served_lem out s s' parked parked' ms a
        (consume_priority_lem redis contest normal differ s s' parked parked' ms h)
