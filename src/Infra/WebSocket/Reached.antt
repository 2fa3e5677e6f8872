-- ===== src/Infra/WebSocket/Reached.antt =====
-- The states that a server of backend/api-infra/src/websocket/server.rs comes to, and its limits.
use codenexus.Prelude.{ℕ, ◌≤◌, ◌==◌, ◌≡◌, refl, Option, none, some, arith, Text, any, length}
use codenexus.Infra.WebSocket.{
  Client, WebSocketServer, find_client, add_client, remove_client, new, subscribe, subscribed,
  joined, unsubscribe, user_connection_count, ip_connection_count, or_nothing,
}
use codenexus.Infra.WebSocket.Topics.{subscribed-cases, in_topic, has_topic, Mirrored}
use codenexus.Infra.WebSocket.Mirrored.{
  add_client-Mirrored, remove_client-Mirrored, subscribed-Mirrored, unsubscribe-Mirrored,
}
use codenexus.Infra.WebSocket.Tally.{tally}
use codenexus.Infra.WebSocket.Limits.{Counted, add_client-Counted, remove_client-Counted}

-- The calls that change the connections and the topics.
pub data Change : Type 0 where
  arrival : Client → Change
  departure : ℕ → Change
  join leave : ℕ → Text → Change

abbrev pub apply : Change → WebSocketServer → WebSocketServer
apply (arrival c) s = (add_client c s).1
apply (departure id) s = remove_client id s
apply (join id topic) s = (subscribe id topic s).1
apply (leave id topic) s = unsubscribe id topic s

abbrev pub Fresh : Change → WebSocketServer → Type 0
Fresh (arrival c) s = find_client c.client_id s.clients ≡ none
Fresh (departure id) s = Unit
Fresh (join id topic) s = Unit
Fresh (leave id topic) s = Unit

-- States that come about when each client that arrives has an identifier that nobody has.
pub data Reached : WebSocketServer → Type 0 where
  at_first : Reached new
  after :
      (s : WebSocketServer) (change : Change)
      → Reached s
      → Fresh change s
      → Reached (apply change s)

subscribed-Counted :
    (id : ℕ) (topic : Text) (o : Option Client) (s : WebSocketServer)
    → Counted s
    → Counted (subscribed id topic o s).1
unfolding subscribed joined
subscribed-Counted id topic none s h = h
subscribed-Counted id topic (some c) s h = subscribed-cases Counted id topic c s h (λ e room. h)

apply-Counted :
    (change : Change) (s : WebSocketServer) → Fresh change s → Counted s → Counted (apply change s)
unfolding subscribe unsubscribe
apply-Counted (arrival c) s fresh h = add_client-Counted c s fresh h
apply-Counted (departure id) s fresh h = remove_client-Counted id s h
apply-Counted (join id topic) s fresh h = subscribed-Counted id topic (find_client id s.clients) s h
apply-Counted (leave id topic) s fresh h = h

new-Counted : Counted new
unfolding new tally
new-Counted = ((λ k. refl), (λ k. refl), (λ i. omega arith), (λ u. omega arith), (λ a. omega arith))

Reached-Counted : (s : WebSocketServer) → Reached s → Counted s
Reached-Counted _ at_first = new-Counted
Reached-Counted _ (after s change r fresh) = apply-Counted change s fresh (Reached-Counted s r)

-- In every state that comes about from a new server by arrivals, departures, subscriptions and
-- their ends, where each client that arrives has an identifier that nobody connected has, the
-- counts of a user and of an address are the numbers of their connected clients, at most 5 and at
-- most 20.
pub connections_limited :
    (s : WebSocketServer)
    → Reached s
    → (k : ℕ)
    → (user_connection_count k s ≡ tally (λ c. c.user_id == k) s.clients)
      × (user_connection_count k s ≤ 5)
      × (ip_connection_count k s ≡ tally (λ c. c.ip_addr == k) s.clients)
      × (ip_connection_count k s ≤ 20)
unfolding user_connection_count ip_connection_count
connections_limited s r k =
    let (users, ips, distinct, user_limit, ip_limit) = Reached-Counted s r in
    (users k, omega (arith, users k, user_limit k), ips k, omega (arith, ips k, ip_limit k))

apply-Mirrored : (change : Change) (s : WebSocketServer) → Mirrored s → Mirrored (apply change s)
unfolding subscribe
apply-Mirrored (arrival c) s h = add_client-Mirrored c s h
apply-Mirrored (departure id) s h = remove_client-Mirrored id s h
apply-Mirrored (join id topic) s h = subscribed-Mirrored id topic (find_client id s.clients) s h
apply-Mirrored (leave id topic) s h = unsubscribe-Mirrored id topic s h

new-Mirrored : Mirrored new
unfolding new any
new-Mirrored = ((λ i t. refl), (λ i. omega arith))

Reached-Mirrored : (s : WebSocketServer) → Reached s → Mirrored s
Reached-Mirrored _ at_first = new-Mirrored
Reached-Mirrored _ (after s change r fresh) = apply-Mirrored change s (Reached-Mirrored s r)

-- In every state that comes about from a new server by arrivals, departures, subscriptions and
-- their ends, where each client that arrives has an identifier that nobody connected has, the
-- index of topics holds a client under a topic exactly if the index of clients holds the topic
-- under the client, and no client has more than 16 topics.
pub topics_mirrored :
    (s : WebSocketServer)
    → Reached s
    → (id : ℕ) (topic : Text)
    → (in_topic s.topic_subscriptions id topic ≡ has_topic s.client_topics id topic)
      × (length (or_nothing (s.client_topics id)) ≤ 16)
topics_mirrored s r id topic = let (same, short) = Reached-Mirrored s r in (same id topic, short id)
