-- ===== src/Sockets/Loop.antt =====
-- `Run` of pkg/ws/hub.go with the channels of the hub, and the goroutines of the connections in
-- pkg/ws/conn.go that use them, as steps. `register` and `unregister` have no buffer, `broadcast` holds
-- 256 payloads, and the channel of a connection holds 64.
pub mod Sets
pub mod Tabled
pub mod Safe
pub mod Moves
pub mod Calm
pub mod Leaks
use wire_server.Prelude.{
  ℕ, ◌<◌, String, Bool, true, false, List, [], ◌∷◌, ◌++◌, ◌≡◌, length, ltb, nat_eq, if◌then◌else◌,
}
use wire_server.Sockets.{
  SocketHub, has_conn, send_all, register_conn, unregister_conn, deliver_outbound,
}

-- Where `Serve` of a connection is: not called, in `Register`, in its pumps, in the `Unregister` that
-- the first `cleanup` calls, or past `WS.Close`.
pub data Phase : Type 0 where
  fresh : Phase
  joining : Phase
  serving : Phase
  leaving : Phase
  gone : Phase

-- `Conn`: its user, and what its `send` channel holds.
pub record Peer : Type 0 where
  pub user : String
  pub phase : Phase
  pub queue : List (List ℕ)

pub record Outbound : Type 0 where
  pub targets : List String
  pub payload : List ℕ

-- The hub, whether `Run` is at its `select`, and the connections. `panicked`: something was sent on a
-- closed channel. A channel that is closed twice stands twice in `hub.closed`.
pub record System : Type 0 where
  pub hub : SocketHub
  pub running : Bool
  pub broadcasts : List Outbound
  pub peers : ℕ → Peer
  pub panicked : Bool

-- `NewHub` and `NewConn`.
unfoldable pub new_system : (ℕ → String) → System
new_system users = record {
  hub = record { clients = []; closed = []; offline = [] };
  running = true;
  broadcasts = [];
  peers = λ i. record { user = users i; phase = fresh; queue = [] };
  panicked = false;
}

abbrev pub set_peer : ℕ → Peer → (ℕ → Peer) → ℕ → Peer
set_peer i p ps j = if nat_eq i j then p else ps j

abbrev pub to_phase : ℕ → Phase → System → ℕ → Peer
to_phase i phase s = set_peer i (record (s.peers i) { phase = phase }) s.peers

-- A send that does not wait: `case conn.send <- data: default:`.
unfoldable pub push : List ℕ → ℕ → System → System
push bytes i s =
    if has_conn i s.hub.closed
    then record s { panicked = true }
    else if ltb (length (s.peers i).queue) 64
    then record s {
      peers = set_peer i (record (s.peers i) { queue = (s.peers i).queue ++ bytes ∷ [] }) s.peers;
    }
    else s

abbrev pub push_each : List ℕ → List ℕ → System → System
push_each bytes [] s = s
push_each bytes (i ∷ is) s = push_each bytes is (push bytes i s)

-- Every connection of the table, whether or not its channel has room.
abbrev pub never : ℕ → Bool
never i = false

-- `deliver`
unfoldable pub deliver : Outbound → System → System
deliver o s = push_each o.payload (deliver_outbound never o.targets s.hub.clients) s

-- `closeAll`
unfoldable pub close_all : SocketHub → SocketHub
close_all h = record h { closed = h.closed ++ send_all never h.clients }

-- One step. `ends` is the end of a pump of a connection, whatever ends it, when it is the first of the
-- two to come to `cleanup`; `writes` is `writePump` with the oldest bytes of the channel; `sends` is
-- `Send` of a frame that encodes, by anybody and at any time.
pub data Step : System → System → Type 0 where
  serves :
      (s : System) (i : ℕ)
      → (s.peers i).phase ≡ fresh
      → Step s (record s { peers = to_phase i joining s })
  registers :
      (s : System) (i : ℕ)
      → s.running ≡ true
      → (s.peers i).phase ≡ joining
      → Step s
          (record s { hub = register_conn (s.peers i).user i s.hub; peers = to_phase i serving s })
  ends :
      (s : System) (i : ℕ)
      → (s.peers i).phase ≡ serving
      → Step s (record s { peers = to_phase i leaving s })
  unregisters :
      (s : System) (i : ℕ)
      → s.running ≡ true
      → (s.peers i).phase ≡ leaving
      → Step s
          (record s { hub = unregister_conn (s.peers i).user i s.hub; peers = to_phase i gone s })
  broadcasts :
      (s : System) (o : Outbound)
      → length s.broadcasts < 256
      → Step s (record s { broadcasts = s.broadcasts ++ o ∷ [] })
  delivers :
      (s : System) (o : Outbound) (rest : List Outbound)
      → s.running ≡ true
      → s.broadcasts ≡ o ∷ rest
      → Step s (deliver o (record s { broadcasts = rest }))
  writes :
      (s : System) (i : ℕ) (bytes : List ℕ) (rest : List (List ℕ))
      → (s.peers i).queue ≡ bytes ∷ rest
      → Step s (record s { peers = set_peer i (record (s.peers i) { queue = rest }) s.peers })
  sends : (s : System) (i : ℕ) (bytes : List ℕ) → Step s (push bytes i s)
  done :
      (s : System) → s.running ≡ true → Step s (record s { hub = close_all s.hub; running = false })

-- Any number of steps.
pub data Steps : System → System → Type 0 where
  stay : (s : System) → Steps s s
  go : (s t u : System) → Step s t → Steps t u → Steps s u
