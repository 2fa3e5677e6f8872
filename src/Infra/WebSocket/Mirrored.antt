-- ===== src/Infra/WebSocket/Mirrored.antt =====
-- The methods of backend/api-infra/src/websocket/server.rs keep the two indexes of topics in step.
use codenexus.Prelude.{
  ℕ, ◌+◌, ◌≤◌, ◌<◌, ◌==◌, ==_iff, ◌≡◌, refl, sym, ap, ◌∙◌, Bool, true, false, not, ◌&&◌, ◌||◌,
  Option, none, some, List, [], ◌∷◌, arith, leb, if◌then◌else◌, Text, text_eq, text_eq_iff, any,
  length, either_branch,
}
use codenexus.Infra.WebSocket.{
  Client, WebSocketServer, AddClientResult, set, set_topic, or_nothing, is_among, is_topic_among,
  find_client, left_by, left_topic, without_topic, leave_topics, removed, remove_client, joined,
  subscribed, unsubscribe, connect, reserve_ip, add_client, or_zero, decremented, limit_exceeded,
  ip_limit_exceeded, added,
}
use codenexus.Infra.WebSocket.Limits.{counted_user}
use codenexus.Infra.WebSocket.Topics.{
  subscribed-cases, in_topic, has_topic, Mirrored, in_topic-joined, has_topic-joined, among-left,
  topic-left, length-left, length-without,
}

joined-length :
    (id : ℕ) (topic : Text) (s : WebSocketServer) (i : ℕ)
    → length (or_nothing (s.client_topics id)) < 16
    → length (or_nothing (s.client_topics i)) ≤ 16
    → length (or_nothing ((joined id topic s).client_topics i)) ≤ 16
unfolding joined
joined-length id topic s i room h = by_test (id == i)
  where
    by_test :
        (b : Bool)
        → length (
            or_nothing (
              if b
              then some (topic ∷ without_topic topic (or_nothing (s.client_topics id)))
              else s.client_topics i))
          ≤ 16
    by_test true = omega (arith, length-without topic (or_nothing (s.client_topics id)))
    by_test false = h

joined-Mirrored :
    (id : ℕ) (topic : Text) (s : WebSocketServer)
    → length (or_nothing (s.client_topics id)) < 16
    → Mirrored s
    → Mirrored (joined id topic s)
joined-Mirrored id topic s room (same, short) = (
  (λ i t.
      in_topic-joined id topic s i t
      ∙ ap (λ b. b || (id == i && text_eq topic t)) (same i t)
      ∙ sym (has_topic-joined id topic s i t)),
  (λ i. joined-length id topic s i room (short i)),
)

pub subscribed-Mirrored :
    (id : ℕ) (topic : Text) (o : Option Client) (s : WebSocketServer)
    → Mirrored s
    → Mirrored (subscribed id topic o s).1
unfolding subscribed
subscribed-Mirrored id topic none s h = h
subscribed-Mirrored id topic (some c) s h =
    subscribed-cases Mirrored id topic c s h (λ e room. joined-Mirrored id topic s room h)

-- A topic is left by a client.
in_topic-left :
    (id : ℕ) (topic : Text) (topics : Text → Option (List ℕ)) (i : ℕ) (t : Text)
    → in_topic (set_topic topic (left_by id (topics topic)) topics) i t
      ≡ (in_topic topics i t && not (id == i && text_eq topic t))
in_topic-left id topic topics i t = by_test (text_eq topic t) refl
  where
    by_test :
        (b : Bool)
        → text_eq topic t ≡ b
        → is_among i (or_nothing (if b then left_by id (topics topic) else topics t))
          ≡ (is_among i (or_nothing (topics t)) && not (id == i && b))
    by_test true e =
        among-left id i (topics topic)
        ∙ ap (λ u. is_among i (or_nothing (topics u)) && not (id == i)) ((text_eq_iff topic t).0 e)
        ∙ ground arith
    by_test false e = ground arith

has_topic-left :
    (id : ℕ) (topic : Text) (f : ℕ → Option (List Text)) (i : ℕ) (t : Text)
    → has_topic (set id (left_topic topic (f id)) f) i t
      ≡ (has_topic f i t && not (id == i && text_eq topic t))
has_topic-left id topic f i t = by_test (id == i) refl
  where
    by_test :
        (b : Bool)
        → (id == i) ≡ b
        → is_topic_among t (or_nothing (if b then left_topic topic (f id) else f i))
          ≡ (is_topic_among t (or_nothing (f i)) && not (b && text_eq topic t))
    by_test true e =
        topic-left topic t (f id)
        ∙ ap (λ j. is_topic_among t (or_nothing (f j)) && not (text_eq topic t)) ((==_iff id i).0 e)
        ∙ ground arith
    by_test false e = ground arith

left-length :
    (id : ℕ) (o : Option (List Text)) (f : ℕ → Option (List Text)) (i : ℕ)
    → length (or_nothing o) ≤ 16
    → length (or_nothing (f i)) ≤ 16
    → length (or_nothing (set id o f i)) ≤ 16
left-length id o f i h k =
    either_branch (λ (x : Option (List Text)). length (or_nothing x) ≤ 16) (id == i) o (f i) h k

pub unsubscribe-Mirrored :
    (id : ℕ) (topic : Text) (s : WebSocketServer) → Mirrored s → Mirrored (unsubscribe id topic s)
unfolding unsubscribe
unsubscribe-Mirrored id topic s (same, short) = (
  (λ i t.
      in_topic-left id topic s.topic_subscriptions i t
      ∙ ap (λ b. b && not (id == i && text_eq topic t)) (same i t)
      ∙ sym (has_topic-left id topic s.client_topics i t)),
  (λ i.
      left-length id (left_topic topic (s.client_topics id)) s.client_topics i
        (omega (arith, length-left topic (s.client_topics id), short id)) (short i)),
)

-- All topics of a client are left.
in_topic-leave :
    (id : ℕ) (ts : List Text) (topics : Text → Option (List ℕ)) (i : ℕ) (t : Text)
    → in_topic (leave_topics id ts topics) i t
      ≡ (in_topic topics i t && not (id == i && is_topic_among t ts))
unfolding leave_topics any
in_topic-leave id [] topics i t = ground arith
in_topic-leave id (u ∷ ts) topics i t =
    in_topic-leave id ts _ i t
    ∙ ap (λ b. b && not (id == i && is_topic_among t ts)) (in_topic-left id u topics i t)
    ∙ ground arith

and_not : (b : Bool) → (b && not b) ≡ false
and_not b = ground arith

and_true : (b : Bool) → (b && true) ≡ b
and_true b = ground arith

removed-Mirrored :
    (id : ℕ) (o : Option Client) (s : WebSocketServer) → Mirrored s → Mirrored (removed id o s)
unfolding removed any
removed-Mirrored id none s h = h
removed-Mirrored id (some c) s (same, short) = (
  (λ i t.
      in_topic-leave id (or_nothing (s.client_topics id)) s.topic_subscriptions i t
      ∙ gone i t (id == i) refl),
  (λ i. left-length id none s.client_topics i (omega arith) (short i)),
)
  where
    gone :
        (i : ℕ) (t : Text) (b : Bool)
        → (id == i) ≡ b
        → (in_topic s.topic_subscriptions i t
            && not (b && is_topic_among t (or_nothing (s.client_topics id))))
          ≡ is_topic_among t (or_nothing (if b then none else s.client_topics i))
    gone i t true e =
        ap (λ x. x && not (is_topic_among t (or_nothing (s.client_topics id)))) (same i t)
        ∙ ap
            (λ j.
              is_topic_among t (or_nothing (s.client_topics i))
              && not (is_topic_among t (or_nothing (s.client_topics j))))
            ((==_iff id i).0 e)
        ∙ and_not (is_topic_among t (or_nothing (s.client_topics i)))
    gone i t false e = and_true (in_topic s.topic_subscriptions i t) ∙ same i t

pub remove_client-Mirrored :
    (id : ℕ) (s : WebSocketServer) → Mirrored s → Mirrored (remove_client id s)
unfolding remove_client
remove_client-Mirrored id s h = removed-Mirrored id (find_client id s.clients) s h

reserve_ip-Mirrored : (c : Client) (s : WebSocketServer) → Mirrored s → Mirrored (reserve_ip c s).1
unfolding reserve_ip connect
reserve_ip-Mirrored c s h = by_test (leb 20 (or_zero (s.ip_conn_counts c.ip_addr)))
  where
    by_test :
        (b : Bool)
        → (λ (x : AddClientResult × WebSocketServer). Mirrored x.1)
            (if b
              then (
                ip_limit_exceeded 20,
                record s {
                  ip_conn_counts =
                      set c.ip_addr (some (or_zero (s.ip_conn_counts c.ip_addr))) s.ip_conn_counts;
                  user_conn_counts =
                      set c.user_id (decremented (s.user_conn_counts c.user_id)) s.user_conn_counts;
                },
              )
              else (
                added,
                connect c (record s {
                  ip_conn_counts =
                      set c.ip_addr
                        (some (or_zero (s.ip_conn_counts c.ip_addr) + 1))
                        s.ip_conn_counts;
                }),
              ))
    by_test true = h
    by_test false = h

pub add_client-Mirrored :
    (c : Client) (s : WebSocketServer) → Mirrored s → Mirrored (add_client c s).1
unfolding add_client
add_client-Mirrored c s h = by_test (leb 5 (or_zero (s.user_conn_counts c.user_id)))
  where
    by_test :
        (b : Bool)
        → (λ (x : AddClientResult × WebSocketServer). Mirrored x.1)
            (if b
              then (
                limit_exceeded 5,
                record s {
                  user_conn_counts =
                      set c.user_id
                        (some (or_zero (s.user_conn_counts c.user_id)))
                        s.user_conn_counts;
                },
              )
              else reserve_ip c (record s {
                user_conn_counts =
                    set c.user_id
                      (some (or_zero (s.user_conn_counts c.user_id) + 1))
                      s.user_conn_counts;
              }))
    by_test true = h
    by_test false = reserve_ip-Mirrored c (counted_user c s) h
