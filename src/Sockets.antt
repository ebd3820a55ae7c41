-- ===== src/Sockets.antt =====
-- The hub of pkg/ws/hub.go: which connections each user has. A connection is a number; the nested
-- map is an association list from users to sets. `full` says whose send channel has no room.
pub mod Registry
pub mod Frames
pub mod Pumps
pub mod Loop
use wire_server.Prelude.{
  ℕ, ◌+◌, String, Bool, true, false, not, ◌||◌, Option, none, some, List, [], ◌∷◌, ◌++◌, ◌==◌,
  nat_eq, length, if◌then◌else◌,
}

abbrev pub Clients : Type 0
Clients = List (String × List ℕ)

-- `Hub`, with the channels that it has closed and the users for whom `onOffline` was called.
pub record SocketHub : Type 0 where
  pub clients : Clients
  pub closed : List ℕ
  pub offline : List String

abbrev pub find_set : String → Clients → Option (List ℕ)
find_set u [] = none
find_set u ((v, set) ∷ rest) = if v == u then some set else find_set u rest

abbrev pub put_set : String → List ℕ → Clients → Clients
put_set u set [] = (u, set) ∷ []
put_set u set ((v, old) ∷ rest) = if v == u then (v, set) ∷ rest else (v, old) ∷ put_set u set rest

abbrev pub drop_set : String → Clients → Clients
drop_set u [] = []
drop_set u ((v, set) ∷ rest) = if v == u then drop_set u rest else (v, set) ∷ drop_set u rest

abbrev pub has_conn : ℕ → List ℕ → Bool
has_conn i [] = false
has_conn i (j ∷ js) = nat_eq j i || has_conn i js

abbrev pub delete_conn : ℕ → List ℕ → List ℕ
delete_conn i [] = []
delete_conn i (j ∷ js) = if nat_eq j i then delete_conn i js else j ∷ delete_conn i js

abbrev pub conns_of : Option (List ℕ) → List ℕ
conns_of none = []
conns_of (some set) = set

-- `case conn := <-h.register`
unfoldable pub register_conn : String → ℕ → SocketHub → SocketHub
register_conn u i h = record h {
  clients = put_set u (i ∷ delete_conn i (conns_of (find_set u h.clients))) h.clients;
}

-- What is left of a user's set: an empty one goes, and the user is offline.
abbrev pub settle : String → List ℕ → SocketHub → SocketHub
settle u [] h = record h { clients = drop_set u h.clients; offline = h.offline ++ u ∷ [] }
settle u (j ∷ js) h = record h { clients = put_set u (j ∷ js) h.clients }

abbrev pub unregister_from : String → ℕ → Option (List ℕ) → SocketHub → SocketHub
unregister_from u i none h = h
unregister_from u i (some set) h =
    settle u (delete_conn i set)
      (record h { closed = if has_conn i set then h.closed ++ i ∷ [] else h.closed })

-- `case conn := <-h.unregister`
unfoldable pub unregister_conn : String → ℕ → SocketHub → SocketHub
unregister_conn u i h = unregister_from u i (find_set u h.clients) h

abbrev pub send_set : (ℕ → Bool) → List ℕ → List ℕ
send_set full [] = []
send_set full (i ∷ is) = if full i then send_set full is else i ∷ send_set full is

abbrev pub send_all : (ℕ → Bool) → Clients → List ℕ
send_all full [] = []
send_all full ((u, set) ∷ rest) = send_set full set ++ send_all full rest

abbrev pub send_users : (ℕ → Bool) → List String → Clients → List ℕ
send_users full [] clients = []
send_users full (u ∷ us) clients =
    send_set full (conns_of (find_set u clients)) ++ send_users full us clients

-- `deliver`: the connections that get the data. A full channel is passed over.
unfoldable pub deliver_outbound : (ℕ → Bool) → List String → Clients → List ℕ
deliver_outbound full [] clients = send_all full clients
deliver_outbound full (u ∷ us) clients = send_users full (u ∷ us) clients

-- `ActiveConnections`
unfoldable pub active_connections : Clients → ℕ
active_connections [] = 0
active_connections ((u, set) ∷ rest) = length set + active_connections rest
