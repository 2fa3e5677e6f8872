-- ===== src/Infra/WebSocket/Limits.antt =====
-- The limits on connections in backend/api-infra/src/websocket/server.rs.
use mathlib.Core.Path.{subst}
use codenexus.Prelude.{
  ℕ, suc, ◌+◌, ◌≤◌, ◌<◌, ◌==◌, ==_iff, ◌≡◌, refl, Bool, true, false, Option, none, some, List, [],
  ◌∷◌, arith, leb, if◌then◌else◌,
}
use codenexus.Infra.WebSocket.{
  Client, WebSocketServer, AddClientResult, limit_exceeded, ip_limit_exceeded, added, set, or_zero,
  decremented, find_client, connect, reserve_ip, add_client, removed, remove_client,
}
use codenexus.Infra.WebSocket.Tally.{
  tally, without-absent, tally-without-le, self_eq, Tallies, same-Tallies, add-Tallies,
  undo-Tallies, remove-Tallies,
}

-- The counts are those of the connected clients, which have different identifiers, and they keep the
-- limits.
abbrev pub Counted : WebSocketServer → Type 0
Counted s =
    Tallies (λ (c : Client). c.user_id) s.user_conn_counts s.clients
    × Tallies (λ (c : Client). c.ip_addr) s.ip_conn_counts s.clients
    × ((id : ℕ) → tally (λ c. c.client_id == id) s.clients ≤ 1)
    × ((u : ℕ) → tally (λ c. c.user_id == u) s.clients ≤ 5)
    × ((a : ℕ) → tally (λ c. c.ip_addr == a) s.clients ≤ 20)

tally-absent :
    (id k : ℕ) (cs : List Client)
    → find_client id cs ≡ none
    → (id == k) ≡ true
    → tally (λ c. c.client_id == k) cs ≡ 0
unfolding tally find_client
tally-absent id k [] h e = refl
tally-absent id k (c ∷ cs) h e = ground (arith, tally-absent id k cs)

-- One more client, whose key has fewer than the limit.
tally-limit :
    (key_of : Client → ℕ) (limit : ℕ) (c : Client) (cs : List Client)
    → tally (λ d. key_of d == key_of c) cs < limit
    → ((k : ℕ) → tally (λ d. key_of d == k) cs ≤ limit)
    → (k : ℕ) → tally (λ d. key_of d == k) (c ∷ cs) ≤ limit
unfolding tally
tally-limit key_of limit c cs small h k = by_test (key_of c == k) refl
  where
    by_test :
        (b : Bool)
        → (key_of c == k) ≡ b
        → (if b then suc (tally (λ d. key_of d == k) cs) else tally (λ d. key_of d == k) cs) ≤ limit
    by_test true e =
        subst (λ j. tally (λ d. key_of d == j) cs < limit) ((==_iff (key_of c) k).0 e) small
    by_test false e = h k

abbrev pub counted_user : Client → WebSocketServer → WebSocketServer
counted_user c s = record s {
  user_conn_counts =
      set c.user_id (some (or_zero (s.user_conn_counts c.user_id) + 1)) s.user_conn_counts;
}

-- The branches of `reserve_ip`.
abbrev turned_away : Client → WebSocketServer → AddClientResult × WebSocketServer
turned_away c s = (
  ip_limit_exceeded 20,
  record s {
    ip_conn_counts = set c.ip_addr (some (or_zero (s.ip_conn_counts c.ip_addr))) s.ip_conn_counts;
    user_conn_counts =
        set c.user_id (decremented (s.user_conn_counts c.user_id)) s.user_conn_counts;
  },
)

abbrev let_in : Client → WebSocketServer → AddClientResult × WebSocketServer
let_in c s = (
  added,
  connect c (record s {
    ip_conn_counts =
        set c.ip_addr (some (or_zero (s.ip_conn_counts c.ip_addr) + 1)) s.ip_conn_counts;
  }),
)

turned_away-Counted :
    (c : Client) (s : WebSocketServer) → Counted s → Counted (turned_away c (counted_user c s)).1
turned_away-Counted c s (users, ips, distinct, user_limit, ip_limit) = (
  undo-Tallies (λ c. c.user_id) c.user_id s.user_conn_counts s.clients users,
  same-Tallies (λ c. c.ip_addr) c.ip_addr s.ip_conn_counts s.clients ips,
  distinct,
  user_limit,
  ip_limit,
)

let_in-Counted :
    (c : Client) (s : WebSocketServer)
    → find_client c.client_id s.clients ≡ none
    → or_zero (s.user_conn_counts c.user_id) < 5
    → or_zero (s.ip_conn_counts c.ip_addr) < 20
    → Counted s
    → Counted (let_in c (counted_user c s)).1
unfolding connect
let_in-Counted c s new_id few_users few_ips (users, ips, distinct, user_limit, ip_limit) =
    rw (without-absent c.client_id s.clients new_id) (
      add-Tallies (λ c. c.user_id) c s.user_conn_counts s.clients users,
      add-Tallies (λ c. c.ip_addr) c s.ip_conn_counts s.clients ips,
      tally-limit (λ d. d.client_id) 1 c s.clients
          (omega
            (arith, tally-absent c.client_id c.client_id s.clients new_id (self_eq c.client_id)))
          distinct,
      tally-limit (λ d. d.user_id) 5 c s.clients (omega (arith, users c.user_id)) user_limit,
      tally-limit (λ d. d.ip_addr) 20 c s.clients (omega (arith, ips c.ip_addr)) ip_limit,
    )

reserve_ip-Counted :
    (c : Client) (s : WebSocketServer)
    → find_client c.client_id s.clients ≡ none
    → or_zero (s.user_conn_counts c.user_id) < 5
    → Counted s
    → Counted (reserve_ip c (counted_user c s)).1
unfolding reserve_ip
reserve_ip-Counted c s new_id few_users counted =
    by_test (leb 20 (or_zero (s.ip_conn_counts c.ip_addr))) refl
  where
    by_test :
        (b : Bool)
        → leb 20 (or_zero (s.ip_conn_counts c.ip_addr)) ≡ b
        → Counted (if b then turned_away c (counted_user c s) else let_in c (counted_user c s)).1
    by_test true e = turned_away-Counted c s counted
    by_test false e = let_in-Counted c s new_id few_users (ground arith) counted

-- A client with a new identifier, taken or turned away, keeps the counts and the limits.
pub add_client-Counted :
    (c : Client) (s : WebSocketServer)
    → find_client c.client_id s.clients ≡ none
    → Counted s
    → Counted (add_client c s).1
unfolding add_client
add_client-Counted c s new_id (users, ips, distinct, user_limit, ip_limit) =
    by_test (leb 5 (or_zero (s.user_conn_counts c.user_id))) refl
  where
    by_test :
        (b : Bool)
        → leb 5 (or_zero (s.user_conn_counts c.user_id)) ≡ b
        → Counted
            (if b
              then (
                limit_exceeded 5,
                record s {
                  user_conn_counts =
                      set c.user_id
                        (some (or_zero (s.user_conn_counts c.user_id)))
                        s.user_conn_counts;
                },
              )
              else reserve_ip c (counted_user c s)).1
    by_test true e = (
      same-Tallies (λ c. c.user_id) c.user_id s.user_conn_counts s.clients users,
      ips,
      distinct,
      user_limit,
      ip_limit,
    )
    by_test false e =
        reserve_ip-Counted c s new_id (ground arith) (users, ips, distinct, user_limit, ip_limit)

removed-Counted :
    (id : ℕ) (o : Option Client) (s : WebSocketServer)
    → find_client id s.clients ≡ o
    → Counted s
    → Counted (removed id o s)
unfolding removed
removed-Counted id none s found counted = counted
removed-Counted id (some c) s found (users, ips, distinct, user_limit, ip_limit) = (
  remove-Tallies (λ c. c.user_id) id c s.user_conn_counts s.clients (distinct id) found users,
  remove-Tallies (λ c. c.ip_addr) id c s.ip_conn_counts s.clients (distinct id) found ips,
  (λ i. omega (arith, distinct i, tally-without-le (λ c. c.client_id == i) id s.clients)),
  (λ u. omega (arith, user_limit u, tally-without-le (λ c. c.user_id == u) id s.clients)),
  (λ a. omega (arith, ip_limit a, tally-without-le (λ c. c.ip_addr == a) id s.clients)),
)

-- Removing a client keeps the counts and the limits.
pub remove_client-Counted :
    (id : ℕ) (s : WebSocketServer) → Counted s → Counted (remove_client id s)
unfolding remove_client
remove_client-Counted id s counted = removed-Counted id (find_client id s.clients) s refl counted
