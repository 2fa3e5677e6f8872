-- ===== src/Judge/Queue/Consumer/Priority.antt =====
-- The order between contest and normal submissions in consumer.rs.
use codenexus.Prelude.{◌≡◌, ◌≢◌, refl, ◌⊎◌, inl, inr, Option, some, List, All, Text}
use codenexus.Judge.Queue.{Redis}
use codenexus.Judge.Queue.Consumer.{PriorityMessage, consume_priority}
use codenexus.Judge.Queue.Consumer.Served.{
  Served, contest_first, parked_released, nothing, parked_late, normal_read, consume_priority_lem,
}
use codenexus.Judge.Queue.Consumer.Delivered.{Drained}

module _ (redis : Redis) (contest normal : Text) (differ : contest ≢ normal) where
  open redis use {Server}

  Served-Drained :
      (s s' : Server) (parked parked' : Option PriorityMessage) (ms : List PriorityMessage)
      → Served redis contest normal differ s parked ms parked' s'
      → All (λ m. m.origin_stream ≡ contest) ms ⊎ Drained redis s' contest
  Served-Drained s s' parked parked' ms (contest_first m cs f) = inl f.0.from_stream
  Served-Drained s s' parked parked' ms (parked_released p f) = inr (f.0.drained refl)
  Served-Drained s s' parked parked' ms (nothing f g) = inl tt
  Served-Drained s s' parked parked' ms (parked_late n m ns cs f g h) = inl h.0.from_stream
  Served-Drained s s' parked parked' ms (normal_read n ns f g h) = inr (h.0.drained refl)

  -- A call of consume_priority that does not fail answers only contest messages, or at its last
  -- look nothing waited in the contest stream, or the entry that it then found there has no data.
  pub consume_priority-Drained :
      (s s' : Server) (parked parked' : Option PriorityMessage) (ms : List PriorityMessage)
      → consume_priority redis s contest normal parked ≡ (some (ms, parked'), s')
      → All (λ m. m.origin_stream ≡ contest) ms ⊎ Drained redis s' contest
  consume_priority-Drained s s' parked parked' ms h =
      Served-Drained s s' parked parked' ms
        (consume_priority_lem redis contest normal differ s s' parked parked' ms h)
