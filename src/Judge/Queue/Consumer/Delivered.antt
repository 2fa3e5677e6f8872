-- ===== src/Judge/Queue/Consumer/Delivered.antt =====
-- What one read of a stream in consumer.rs gives, in terms of the entries that the server has given.
use mathlib.Core.List.{append_assoc, append-nil}
use mathlib.Core.Option.{some-injective}
use mathlib.Core.Path.{subst}
use codenexus.Prelude.{
  ℕ, ◌≤◌, ◌≡◌, refl, sym, ap, ◌⊎◌, inl, inr, Option, none, some, List, [], ◌∷◌, ◌++◌, arith, Text,
  codes, length, All,
}
use codenexus.Judge.Queue.{SubmissionMessage, StreamId, StreamKey, Redis}
use codenexus.Judge.Queue.Consumer.{
  PriorityMessage, with_data, message, parse_entry, push, parse_ids, append, parse_stream_reply,
  parse_result, decode_json,
}

module _ (redis : Redis) where
  open redis use {Value, Server, read_group, given, waiting, from_redis_value, from_json}

  seen : Option (Option PriorityMessage) → List PriorityMessage
  seen none = []
  seen (some none) = []
  seen (some (some m)) = m ∷ []

  -- The messages in entries, without the entries that cannot be read.
  unfoldable pub readable : Text → List (StreamId Value) → List PriorityMessage
  unfolding seen
  readable stream [] = []
  readable stream (e ∷ es) = seen (parse_entry redis stream e) ++ readable stream es

  readable-append :
      (stream : Text) (xs ys : List (StreamId Value))
      → readable stream (xs ++ ys) ≡ readable stream xs ++ readable stream ys
  unfolding readable
  readable-append stream [] ys = refl
  readable-append stream (x ∷ xs) ys =
      rw (readable-append stream xs ys) (sym (append_assoc (seen (parse_entry redis stream x)) _ _))

  message-origin :
      (stream : Text) (e : StreamId Value) (o : Option SubmissionMessage) (m : PriorityMessage)
      → message redis stream e o ≡ some (some m)
      → m.origin_stream ≡ stream
  unfolding message
  message-origin stream e none m h = cc
  message-origin stream e (some sub) m h = cc

  with_data-origin :
      (stream : Text) (e : StreamId Value) (d : Option Value) (m : PriorityMessage)
      → with_data redis stream e d ≡ some (some m)
      → m.origin_stream ≡ stream
  unfolding with_data
  with_data-origin stream e none m h = cc
  with_data-origin stream e (some v) m h =
      message-origin stream e (decode_json redis (from_redis_value v)) m h

  message-not_skipped :
      (stream : Text) (e : StreamId Value) (o : Option SubmissionMessage)
      → message redis stream e o ≡ some none
      → ⊥
  unfolding message
  message-not_skipped stream e none h = cc
  message-not_skipped stream e (some sub) h = cc

  with_data-skipped :
      (stream : Text) (e : StreamId Value) (d : Option Value)
      → with_data redis stream e d ≡ some none
      → d ≡ none
  unfolding with_data
  with_data-skipped stream e none h = refl
  with_data-skipped stream e (some v) h =
      absurd (message-not_skipped stream e (decode_json redis (from_redis_value v)) h)

  parse_entry-origin :
      (stream : Text) (e : StreamId Value) (m : PriorityMessage)
      → parse_entry redis stream e ≡ some (some m)
      → m.origin_stream ≡ stream
  unfolding parse_entry
  parse_entry-origin stream e = with_data-origin stream e (e.map (codes "data"))

  parse_entry-skipped :
      (stream : Text) (e : StreamId Value)
      → parse_entry redis stream e ≡ some none
      → e.map (codes "data") ≡ none
  unfolding parse_entry
  parse_entry-skipped stream e = with_data-skipped stream e (e.map (codes "data"))

  readable-one :
      (stream : Text) (e : StreamId Value) (o : Option (Option PriorityMessage))
      → parse_entry redis stream e ≡ o
      → readable stream (e ∷ []) ≡ seen o ++ []
  unfolding readable
  readable-one stream e o q = rw q refl

  -- Nothing waits in the stream, or its last given entry has no data and was passed over.
  abbrev pub Drained : Server → Text → Type 0
  Drained s stream =
      (waiting s stream ≡ [])
      ⊎ ((es : List (StreamId Value)) × (e : StreamId Value) × (given s stream ≡ es ++ e ∷ [])
          × (e.map (codes "data") ≡ none))

  -- What a read of a stream gave: the new messages, all from it, or none.
  pub record Given (s s' : Server) (stream : Text) (ms : List PriorityMessage) : Type 0 where
    pub grown : readable stream (given s' stream) ≡ readable stream (given s stream) ++ ms
    pub from_stream : All (λ m. m.origin_stream ≡ stream) ms
    pub at_most_one : length ms ≤ 1
    pub drained : ms ≡ [] → Drained s' stream

  one_entry :
      (s s' : Server) (stream : Text) (e : StreamId Value) (ms : List PriorityMessage)
      → given s' stream ≡ given s stream ++ e ∷ []
      → (o : Option (Option PriorityMessage)) → parse_entry redis stream e ≡ o
      → append redis (push redis o (some [])) (some []) ≡ some ms
      → Given s s' stream ms
  unfolding append push seen
  one_entry s s' stream e ms g none q h = cc
  one_entry s s' stream e ms g (some none) q h =
      subst (λ ms. Given s s' stream ms) (some-injective _ _ h)
        (record {
          grown =
              rw (g, readable-append stream (given s stream) (e ∷ []), readable-one stream e _ q)
                refl;
          from_stream = tt;
          at_most_one = omega arith;
          drained = λ _. inr (given s stream, e, g, parse_entry-skipped stream e q);
        })
  one_entry s s' stream e ms g (some (some m)) q h =
      subst (λ ms. Given s s' stream ms) (some-injective _ _ h)
        (record {
          grown =
              rw (g, readable-append stream (given s stream) (e ∷ []), readable-one stream e _ q)
                refl;
          from_stream = (parse_entry-origin stream e m q, tt);
          at_most_one = omega arith;
          drained = λ n. cc;
        })

  -- A read that does not fail gives what was new in its stream.
  pub read_lem :
      (s s' : Server) (stream : Text) (block : Option ℕ) (ms : List PriorityMessage)
      → parse_result redis (read_group s stream block) ≡ (some ms, s')
      → Given s s' stream ms
  unfolding parse_result parse_stream_reply parse_ids
  read_lem s s' stream block ms h = go (read_group s stream block) refl h
    where
      of_keys :
          (s₁ : Server) (keys : List (StreamKey Value))
          → ((keys ≡ []) × (given s₁ stream ≡ given s stream) × (waiting s₁ stream ≡ []))
            ⊎ ((e : StreamId Value) × (keys ≡ record { key = stream; ids = e ∷ [] } ∷ [])
                × (given s₁ stream ≡ given s stream ++ e ∷ []))
          → parse_stream_reply redis keys ≡ some ms
          → Given s s₁ stream ms
      of_keys s₁ keys (inl (e, g, w)) h =
          subst (λ ms. Given s s₁ stream ms) (some-injective _ _ (rw e at h))
            (record {
              grown = rw g (sym (append-nil _));
              from_stream = tt;
              at_most_one = omega arith;
              drained = λ _. inl w;
            })
      of_keys s₁ keys (inr (entry, e, g)) h =
          one_entry s s₁ stream entry ms g (parse_entry redis stream entry) refl (rw e at h)

      go :
          (x : Option (List (StreamKey Value)) × Server)
          → read_group s stream block ≡ x
          → parse_result redis x ≡ (some ms, s')
          → Given s s' stream ms
      go (none, s₁) e h = cc
      go (some keys, s₁) e h =
          subst (λ t. Given s t stream ms) (ap (λ p. p.1) h)
            (of_keys s₁ keys (redis.read-given s s₁ stream block keys e) (ap (λ p. p.0) h))
