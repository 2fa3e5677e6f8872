-- ===== src/Infra/WebSocket.antt =====
-- backend/api-infra/src/websocket/server.rs: the connections of the WebSocket server and their topics.
-- Each method runs as one step. A `HashMap` from users, addresses or topics is a function, the map of
-- the clients an association list, and a `HashSet` a list. Identifiers and addresses are numbers. The
-- channel of a client is named by its identifier, and a method that sends gives those it sends to.
pub mod Tally
pub mod Limits
pub mod Topics
pub mod Mirrored
pub mod Reached
use codenexus.Prelude.{
  ℕ, ◌+◌, ◌-◌, ◌==◌, ℤ, int_eq, Bool, true, false, not, ◌&&◌, Option, none, some, List, [], ◌∷◌,
  ◌++◌, Text, text_eq, leb, length, any, is_empty, if◌then◌else◌,
}

pub record Client : Type 0 where
  pub client_id : ℕ
  pub user_id : ℕ
  pub school_id : ℤ
  pub ip_addr : ℕ

pub record WebSocketServer : Type 0 where
  pub clients : List Client
  pub user_connections : ℕ → Option (List ℕ)
  pub topic_subscriptions : Text → Option (List ℕ)
  pub client_topics : ℕ → Option (List Text)
  pub user_conn_counts : ℕ → Option ℕ
  pub ip_conn_counts : ℕ → Option ℕ

pub data AddClientResult : Type 0 where
  added : AddClientResult
  limit_exceeded ip_limit_exceeded : ℕ → AddClientResult

abbrev pub max_connections_per_user : ℕ
max_connections_per_user = 5

abbrev pub max_connections_per_ip : ℕ
max_connections_per_ip = 20

abbrev pub max_topics_per_client : ℕ
max_topics_per_client = 16

unfoldable pub new : WebSocketServer
new = record {
  clients = [];
  user_connections = λ u. none;
  topic_subscriptions = λ t. none;
  client_topics = λ c. none;
  user_conn_counts = λ u. none;
  ip_conn_counts = λ a. none;
}

-- `HashMap::insert` and `remove` for a key: the new value is `none` where it is removed.
abbrev pub set : {A : Type 0} → ℕ → Option A → (ℕ → Option A) → ℕ → Option A
set key value f k = if key == k then value else f k

abbrev pub set_topic : {A : Type 0} → Text → Option A → (Text → Option A) → Text → Option A
set_topic key value f k = if text_eq key k then value else f k

abbrev pub or_zero : Option ℕ → ℕ
or_zero none = 0
or_zero (some n) = n

abbrev pub or_nothing : {A : Type 0} → Option (List A) → List A
or_nothing none = []
or_nothing (some xs) = xs

-- `clients.get` and `clients.remove`
unfoldable pub find_client : ℕ → List Client → Option Client
find_client id [] = none
find_client id (c ∷ cs) = let rest = find_client id cs in if c.client_id == id then some c else rest

unfoldable pub without_client : ℕ → List Client → List Client
without_client id [] = []
without_client id (c ∷ cs) =
    let rest = without_client id cs in if c.client_id == id then rest else c ∷ rest

-- `retain(|id| *id != client_id)`
unfoldable pub retain_others : ℕ → List ℕ → List ℕ
retain_others id [] = []
retain_others id (i ∷ is) = let rest = retain_others id is in if i == id then rest else i ∷ rest

unfoldable pub without_topic : Text → List Text → List Text
without_topic topic [] = []
without_topic topic (t ∷ ts) =
    let rest = without_topic topic ts in if text_eq t topic then rest else t ∷ rest

abbrev pub is_among : ℕ → List ℕ → Bool
is_among id ids = any (λ i. i == id) ids

abbrev pub is_topic_among : Text → List Text → Bool
is_topic_among topic ts = any (λ t. text_eq t topic) ts

-- `saturating_sub(1)`, and the entry goes when it is zero.
unfoldable pub decremented : Option ℕ → Option ℕ
decremented none = none
decremented (some n) = if n - 1 == 0 then none else some (n - 1)

-- A list goes when it is empty.
abbrev pub unless_empty : {A : Type 0} → List A → Option (List A)
unless_empty [] = none
unless_empty (x ∷ xs) = some (x ∷ xs)

-- The identifier leaves the list of a key.
unfoldable pub left_by : ℕ → Option (List ℕ) → Option (List ℕ)
unfolding retain_others
left_by id none = none
left_by id (some ids) = unless_empty (retain_others id ids)

connect : Client → WebSocketServer → WebSocketServer
unfolding without_client
connect c s = record s {
  clients = c ∷ without_client c.client_id s.clients;
  user_connections =
      set c.user_id (some (or_nothing (s.user_connections c.user_id) ++ c.client_id ∷ []))
        s.user_connections;
}

-- Behind the count of the user.
reserve_ip : Client → WebSocketServer → AddClientResult × WebSocketServer
unfolding connect decremented
reserve_ip c s =
    let current = or_zero (s.ip_conn_counts c.ip_addr) in
    if leb max_connections_per_ip current
    then (
      ip_limit_exceeded max_connections_per_ip,
      record s {
        ip_conn_counts = set c.ip_addr (some current) s.ip_conn_counts;
        user_conn_counts =
            set c.user_id (decremented (s.user_conn_counts c.user_id)) s.user_conn_counts;
      },
    )
    else (
      added,
      connect c (record s { ip_conn_counts = set c.ip_addr (some (current + 1)) s.ip_conn_counts }),
    )

unfoldable pub add_client : Client → WebSocketServer → AddClientResult × WebSocketServer
unfolding reserve_ip
add_client c s =
    let current = or_zero (s.user_conn_counts c.user_id) in
    if leb max_connections_per_user current
    then (
      limit_exceeded max_connections_per_user,
      record s { user_conn_counts = set c.user_id (some current) s.user_conn_counts },
    )
    else reserve_ip c
        (record s { user_conn_counts = set c.user_id (some (current + 1)) s.user_conn_counts })

-- The loop over the topics of a client that goes.
unfoldable pub leave_topics : ℕ → List Text → (Text → Option (List ℕ)) → Text → Option (List ℕ)
unfolding left_by
leave_topics id [] topics = topics
leave_topics id (t ∷ ts) topics = leave_topics id ts (set_topic t (left_by id (topics t)) topics)

removed : ℕ → Option Client → WebSocketServer → WebSocketServer
unfolding left_by decremented leave_topics without_client
removed id none s = s
removed id (some c) s = record s {
  clients = without_client id s.clients;
  user_conn_counts = set c.user_id (decremented (s.user_conn_counts c.user_id)) s.user_conn_counts;
  ip_conn_counts = set c.ip_addr (decremented (s.ip_conn_counts c.ip_addr)) s.ip_conn_counts;
  user_connections = set c.user_id (left_by id (s.user_connections c.user_id)) s.user_connections;
  topic_subscriptions = leave_topics id (or_nothing (s.client_topics id)) s.topic_subscriptions;
  client_topics = set id none s.client_topics;
}

unfoldable pub remove_client : ℕ → WebSocketServer → WebSocketServer
unfolding removed find_client
remove_client id s = removed id (find_client id s.clients) s

pub joined : ℕ → Text → WebSocketServer → WebSocketServer
unfolding without_topic
joined id topic s = record s {
  topic_subscriptions =
      set_topic topic (some (or_nothing (s.topic_subscriptions topic) ++ id ∷ []))
        s.topic_subscriptions;
  client_topics =
      set id (some (topic ∷ without_topic topic (or_nothing (s.client_topics id)))) s.client_topics;
}

pub subscribed : ℕ → Text → Option Client → WebSocketServer → Bool × WebSocketServer
unfolding joined any
subscribed id topic none s = (false, s)
subscribed id topic (some c) s =
    if is_among id (or_nothing (s.topic_subscriptions topic))
    then (true, s)
    else if leb max_topics_per_client (length (or_nothing (s.client_topics id)))
    then (false, s)
    else (true, joined id topic s)

unfoldable pub subscribe : ℕ → Text → WebSocketServer → Bool × WebSocketServer
unfolding subscribed find_client
subscribe id topic s = subscribed id topic (find_client id s.clients) s

pub left_topic : Text → Option (List Text) → Option (List Text)
unfolding without_topic
left_topic topic none = none
left_topic topic (some ts) = unless_empty (without_topic topic ts)

unfoldable pub unsubscribe : ℕ → Text → WebSocketServer → WebSocketServer
unfolding left_by left_topic
unsubscribe id topic s = record s {
  topic_subscriptions =
      set_topic topic (left_by id (s.topic_subscriptions topic)) s.topic_subscriptions;
  client_topics = set id (left_topic topic (s.client_topics id)) s.client_topics;
}

-- Those of some identifiers that are connected.
unfoldable pub connected : List Client → List ℕ → List ℕ
unfolding find_client
connected cs [] = []
connected cs (id ∷ ids) =
    let rest = connected cs ids in elim (find_client id cs) [ none ↦ rest | some c ↦ id ∷ rest ]

-- Who gets a message.
unfoldable pub send_to_user : ℕ → WebSocketServer → List ℕ
unfolding connected
send_to_user user_id s = connected s.clients (or_nothing (s.user_connections user_id))

unfoldable pub send_to_topic : Text → WebSocketServer → List ℕ
unfolding connected
send_to_topic topic s = connected s.clients (or_nothing (s.topic_subscriptions topic))

unfoldable pub of_tenant : ℤ → List Client → List ℕ
of_tenant school_id [] = []
of_tenant school_id (c ∷ cs) =
    let rest = of_tenant school_id cs in
    if int_eq c.school_id school_id then c.client_id ∷ rest else rest

unfoldable pub broadcast_to_tenant : ℤ → WebSocketServer → List ℕ
unfolding of_tenant
broadcast_to_tenant school_id s = of_tenant school_id s.clients

unfoldable pub client_count : WebSocketServer → ℕ
client_count s = length s.clients

unfoldable pub user_connection_count : ℕ → WebSocketServer → ℕ
user_connection_count user_id s = or_zero (s.user_conn_counts user_id)

unfoldable pub ip_connection_count : ℕ → WebSocketServer → ℕ
ip_connection_count ip_addr s = or_zero (s.ip_conn_counts ip_addr)
