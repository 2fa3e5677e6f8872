-- ===== src/Tests/Queue.antt =====
-- The consumer of the judge's queue on concrete inputs, over streams that are lists.
use mathlib.Core.Option.{some-injective}
use mathlib.Core.Bool.{false≢true}
use codenexus.Prelude.{
  pos, ◌≡◌, ◌≢◌, refl, sym, ap, ◌∙◌, ◌⊎◌, inl, inr, Option, none, some, List, [], ◌∷◌, ◌++◌, Text,
  codes, text_eq, text_eq_iff, text_eq_refl, if◌then◌else◌, Bool-cases, All,
}
use codenexus.Judge.Queue.{SubmissionMessage, StreamId, StreamKey, Redis}
use codenexus.Judge.Queue.Consumer.{
  PriorityMessage, consume_priority, drain_contest, parse_stream_reply, parse_entry,
}
use codenexus.Judge.Queue.Consumer.Delivered.{Drained, readable}
use codenexus.Judge.Queue.Consumer.Accounted.{from, Accounted, consume_priority-Accounted}
use codenexus.Judge.Queue.Consumer.Priority.{consume_priority-Drained}

-- For each stream, what was given and what waits.
abbrev Streams : Type 0
Streams = Text → List (StreamId Text) × List (StreamId Text)

abbrev set : Streams → Text → List (StreamId Text) × List (StreamId Text) → Streams
set s stream lists other = if text_eq stream other then lists else s other

abbrev give : Streams → Text → List (StreamId Text) → Option (List (StreamKey Text)) × Streams
give s stream [] = (some [], s)
give s stream (e ∷ es) =
    (some (record { key = stream; ids = e ∷ [] } ∷ []), set s stream ((s stream).0 ++ e ∷ [], es))

abbrev pub sample : SubmissionMessage
sample = record {
  submission_id = pos 42;
  problem_id = pos 1;
  user_id = 7;
  language = codes "cpp";
  source_code = codes "int main(){}";
  time_limit_ms = 1000;
  memory_limit_mb = 256;
  contest_id = none;
}

pub give-given :
    (s s' : Streams) (stream : Text) (w : List (StreamId Text)) (keys : List (StreamKey Text))
    → (s stream).1 ≡ w
    → give s stream w ≡ (some keys, s')
    → ((keys ≡ []) × ((s' stream).0 ≡ (s stream).0) × ((s' stream).1 ≡ []))
      ⊎ ((e : StreamId Text) × (keys ≡ record { key = stream; ids = e ∷ [] } ∷ [])
          × ((s' stream).0 ≡ (s stream).0 ++ e ∷ []))
give-given s s' stream [] keys e h =
    let same : s ≡ s' = ap (λ p. p.1) h in
    inl (
      sym (some-injective _ _ (ap (λ p. p.0) h)),
      ap (λ t. (t stream).0) (sym same),
      ap (λ t. (t stream).1) (sym same) ∙ e,
    )
give-given s s' stream (x ∷ xs) keys e h =
    let new = ap (λ p. p.1) h in
    inr (
      x,
      sym (some-injective _ _ (ap (λ p. p.0) h)),
      ap (λ t. (t stream).0) (sym new) ∙ rw (text_eq_refl stream) refl,
    )

pub give-other :
    (s : Streams) (stream other : Text) (w : List (StreamId Text))
    → other ≢ stream
    → ((give s stream w).1 other).0 ≡ (s other).0
give-other s stream other [] ne = refl
give-other s stream other (x ∷ xs) ne = elim (Bool-cases (text_eq stream other)) [
  | inl e ↦ absurd (ne (sym ((text_eq_iff stream other).0 e)))
  | inr e ↦ rw e refl
]

abbrev pub streams : Redis
streams = record {
  Value = Text;
  from_redis_value = λ v. some v;
  from_json = λ t. if text_eq t (codes "bad") then none else some sample;
  Server = Streams;
  read_group = λ s stream block. give s stream (s stream).1;
  given = λ s stream. (s stream).0;
  waiting = λ s stream. (s stream).1;
  read-given = λ s s' stream block keys h. give-given s s' stream (s stream).1 keys refl h;
  read-other = λ s stream other block ne. give-other s stream other (s stream).1 ne;
}

abbrev entry : Text → StreamId Text
entry id = record {
  id = id;
  map = λ f. if text_eq f (codes "data") then some (codes "{}") else none;
}

abbrev pub contest : Text
contest = codes "submissions:contest"

abbrev pub normal : Text
normal = codes "submissions"

-- One submission waits in each stream.
abbrev pub start : Streams
start stream =
    if text_eq contest stream
    then ([], entry (codes "1-0") ∷ [])
    else if text_eq normal stream
    then ([], entry (codes "2-0") ∷ [])
    else ([], [])

abbrev pub from_contest : PriorityMessage
from_contest = record {
  message_id = codes "1-0";
  submission = sample;
  origin_stream = contest;
  school_id = none;
  submitted_at = none;
}

differ : contest ≢ normal
unfolding text_eq
differ e = false≢true ((text_eq_iff contest normal).1 e)

abbrev after_first : Streams
after_first = (give start contest (entry (codes "1-0") ∷ [])).1

first_call :
    consume_priority streams start contest normal none
    ≡ (some (from_contest ∷ [], none), after_first)
unfolding consume_priority drain_contest parse_stream_reply parse_entry text_eq
first_call = refl

consume_priority-Accounted_example :
    Accounted streams contest normal differ (from_contest ∷ []) none after_first
unfolding readable text_eq from
consume_priority-Accounted_example =
    consume_priority-Accounted streams contest normal differ [] start after_first none none
      (from_contest ∷ []) (record { contests = refl; normals = refl; parked_normal = tt })
      first_call

consume_priority-Drained_example :
    All (λ m. m.origin_stream ≡ contest) (from_contest ∷ []) ⊎ Drained streams after_first contest
consume_priority-Drained_example =
    consume_priority-Drained streams contest normal differ start after_first none none
      (from_contest ∷ []) first_call
