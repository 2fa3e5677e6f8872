-- ===== src/Judge/Queue/Consumer.antt =====
-- backend/judge-worker/src/queue/consumer.rs: reading submissions from the streams, with contest
-- submissions first. An error that ends a function is `none`.
pub mod Delivered
pub mod Served
pub mod Accounted
pub mod Priority
use codenexus.Prelude.{
  ℕ, ℤ, Bool, map, Option, none, some, List, [], ◌∷◌, ◌++◌, Text, codes, parse_i64, is_empty,
  if◌then◌else◌,
}
use codenexus.Judge.Queue.{SubmissionMessage, StreamId, StreamKey, Redis}

pub record PriorityMessage : Type 0 where
  pub message_id : Text
  pub submission : SubmissionMessage
  pub origin_stream : Text
  pub school_id : Option ℤ
  pub submitted_at : Option Text

pub record ConsumedMessage : Type 0 where
  pub message_id : Text
  pub submission : SubmissionMessage
  pub school_id : Option ℤ
  pub submitted_at : Option Text

and_then : Option Text → (Text → Option ℤ) → Option ℤ
and_then none f = none
and_then (some t) f = f t

-- `.filter(|s| !s.is_empty())`
non_empty : Option Text → Option Text
non_empty none = none
non_empty (some t) = if is_empty t then none else some t

merge_contest_id : SubmissionMessage → Option ℤ → Option ℤ → SubmissionMessage
merge_contest_id submission (some c) field = submission
merge_contest_id submission none field = record submission { contest_id = field }

first : List PriorityMessage → Option PriorityMessage
first [] = none
first (m ∷ ms) = some m

abbrev pub Outcome : Type 0
Outcome = Option (List PriorityMessage × Option PriorityMessage)

module _ (redis : Redis) where
  open redis use {Value, from_redis_value, from_json, Server, read_group}

  text_of : Option Value → Option Text
  text_of none = none
  text_of (some v) = from_redis_value v

  decode_json : Option Text → Option SubmissionMessage
  decode_json none = none
  decode_json (some json) = from_json json

  message : Text → StreamId Value → Option SubmissionMessage → Option (Option PriorityMessage)
  unfolding and_then non_empty merge_contest_id text_of
  message origin_stream entry none = none
  message origin_stream entry (some submission) = some (
      some (record {
        message_id = entry.id;
        submission =
            merge_contest_id submission submission.contest_id
              (and_then (text_of (entry.map (codes "contest_id"))) parse_i64);
        origin_stream = origin_stream;
        school_id = and_then (text_of (entry.map (codes "school_id"))) parse_i64;
        submitted_at = non_empty (text_of (entry.map (codes "submitted_at")));
      }))

  -- The body of the inner loop: an error, an entry that is passed over, or a message.
  with_data : Text → StreamId Value → Option Value → Option (Option PriorityMessage)
  unfolding message decode_json
  with_data origin_stream entry none = some none
  with_data origin_stream entry (some data_value) =
      message origin_stream entry (decode_json (from_redis_value data_value))

  unfoldable pub parse_entry : Text → StreamId Value → Option (Option PriorityMessage)
  unfolding with_data
  parse_entry origin_stream entry = with_data origin_stream entry (entry.map (codes "data"))

  push :
      Option (Option PriorityMessage)
      → Option (List PriorityMessage)
      → Option (List PriorityMessage)
  push none rest = none
  push (some o) none = none
  push (some none) (some ms) = some ms
  push (some (some m)) (some ms) = some (m ∷ ms)

  parse_ids : Text → List (StreamId Value) → Option (List PriorityMessage)
  unfolding push
  parse_ids origin_stream [] = some []
  parse_ids origin_stream (e ∷ es) = push (parse_entry origin_stream e) (parse_ids origin_stream es)

  append :
      Option (List PriorityMessage) → Option (List PriorityMessage) → Option (List PriorityMessage)
  append none rest = none
  append (some xs) none = none
  append (some xs) (some ys) = some (xs ++ ys)

  unfoldable pub parse_stream_reply : List (StreamKey Value) → Option (List PriorityMessage)
  unfolding append parse_ids
  parse_stream_reply [] = some []
  parse_stream_reply (k ∷ ks) = append (parse_ids k.key k.ids) (parse_stream_reply ks)

  pub parse_result :
      Option (List (StreamKey Value)) × Server → Option (List PriorityMessage) × Server
  parse_result (none, s) = (none, s)
  parse_result (some reply, s) = (parse_stream_reply reply, s)

  unfoldable pub drain_contest : Server → Text → Option (List PriorityMessage) × Server
  unfolding parse_result
  drain_contest s contest_stream = parse_result (read_group s contest_stream none)

  unfoldable pub read_normal_blocking : Server → Text → ℕ → Option (List PriorityMessage) × Server
  unfolding parse_result
  read_normal_blocking s normal_stream block_ms =
      parse_result (read_group s normal_stream (some block_ms))

  -- `drain_contest(..).await?; if !contest_messages.is_empty() { return .. }`, and else what follows.
  prefer :
      Option (List PriorityMessage) × Server
      → Option PriorityMessage
      → (Server → Outcome × Server)
      → Outcome × Server
  prefer (none, s) parked next = (none, s)
  prefer (some [], s) parked next = next s
  prefer (some (m ∷ ms), s) parked next = (some (m ∷ ms, parked), s)

  -- `read_normal_blocking(..).await?; if normal_messages.is_empty() { return .. }`, and else.
  with_normal :
      Option (List PriorityMessage) × Server
      → (List PriorityMessage → Server → Outcome × Server)
      → Outcome × Server
  with_normal (none, s) next = (none, s)
  with_normal (some [], s) next = (some ([], none), s)
  with_normal (some (m ∷ ms), s) next = next (m ∷ ms) s

  unfoldable pub consume_priority : Server → Text → Text → Option PriorityMessage → Outcome × Server
  unfolding prefer with_normal first
  consume_priority s contest_stream normal_stream (some parked) =
      prefer (drain_contest s contest_stream) (some parked) λ s₁. (some (parked ∷ [], none), s₁)
  consume_priority s contest_stream normal_stream none =
      prefer (drain_contest s contest_stream) none λ s₁.
        with_normal (read_normal_blocking s₁ normal_stream 200) λ normal_messages s₂.
          prefer (drain_contest s₂ contest_stream) (first normal_messages)
            λ s₃. (some (normal_messages, none), s₃)

  -- The fields of `ConsumedMessage` are those of the tuple without the stream.
  consumed : PriorityMessage → ConsumedMessage
  consumed m = record {
    message_id = m.message_id;
    submission = m.submission;
    school_id = m.school_id;
    submitted_at = m.submitted_at;
  }

  -- The same two loops in a function of their own.
  consumed_all : Option (List PriorityMessage) × Server → Option (List ConsumedMessage) × Server
  unfolding consumed
  consumed_all (none, s) = (none, s)
  consumed_all (some ms, s) = (some (map consumed ms), s)

  unfoldable pub consume_submission :
      Server → Text → Option ℕ → Option (List ConsumedMessage) × Server
  unfolding parse_result consumed_all
  consume_submission s stream_name block_ms =
      consumed_all (parse_result (read_group s stream_name block_ms))
