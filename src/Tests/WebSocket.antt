-- ===== src/Tests/WebSocket.antt =====
-- The WebSocket server on concrete inputs.
use codenexus.Prelude.{ℕ, ◌≤◌, ◌==◌, pos, ◌≡◌, refl, none, [], ◌∷◌, codes, text_eq, any, length}
use codenexus.Infra.WebSocket.{
  Client, WebSocketServer, limit_exceeded, new, add_client, remove_client, subscribe, or_nothing,
  send_to_topic, find_client, without_client, user_connection_count, ip_connection_count,
  retain_others, without_topic, left_by, leave_topics,
}
use codenexus.Infra.WebSocket.Tally.{tally}
use codenexus.Infra.WebSocket.Topics.{in_topic, has_topic}
use codenexus.Infra.WebSocket.Reached.{
  arrival, join, apply, Reached, at_first, after, connections_limited, topics_mirrored,
}

-- A client of user 7 from one address.
abbrev client : ℕ → Client
client id = record { client_id = id; user_id = 7; school_id = pos 1; ip_addr = 9 }

abbrev joined_server : WebSocketServer
joined_server = apply (join 1 (codes "contest:3")) (apply (arrival (client 1)) new)

nobody_new : find_client 1 [] ≡ none
unfolding find_client
nobody_new = refl

joined_server-Reached : Reached joined_server
unfolding new
joined_server-Reached =
    after _ (join 1 (codes "contest:3")) (after new (arrival (client 1)) at_first nobody_new) tt

topic_delivered : send_to_topic (codes "contest:3") joined_server ≡ 1 ∷ []
unfolding send_to_topic new add_client subscribe find_client without_client text_eq any
    without_topic
topic_delivered = refl

departed_gets_nothing : send_to_topic (codes "contest:3") (remove_client 1 joined_server) ≡ []
unfolding send_to_topic new add_client subscribe find_client without_client text_eq any
    without_topic remove_client leave_topics left_by retain_others
departed_gets_nothing = refl

abbrev five : WebSocketServer
five = apply (arrival (client 5)) (
    apply (arrival (client 4))
      (apply (arrival (client 3)) (apply (arrival (client 2)) (apply (arrival (client 1)) new))))

sixth_refused : (add_client (client 6) five).0 ≡ limit_exceeded 5
unfolding new add_client without_client
sixth_refused = refl

connections_limited_example :
    (user_connection_count 7 joined_server ≡ tally (λ c. c.user_id == 7) joined_server.clients)
    × (user_connection_count 7 joined_server ≤ 5)
    × (ip_connection_count 7 joined_server ≡ tally (λ c. c.ip_addr == 7) joined_server.clients)
    × (ip_connection_count 7 joined_server ≤ 20)
connections_limited_example = connections_limited joined_server joined_server-Reached 7

topics_mirrored_example :
    (in_topic joined_server.topic_subscriptions 1 (codes "contest:3")
      ≡ has_topic joined_server.client_topics 1 (codes "contest:3"))
    × (length (or_nothing (joined_server.client_topics 1)) ≤ 16)
topics_mirrored_example = topics_mirrored joined_server joined_server-Reached 1 (codes "contest:3")
