-- ===== src/Gateway/Hub.antt =====
-- The connection table of services/api-gateway/internal/gateway/hub.go: `add`, `remove`, `deliver`,
-- `checkHeartbeats` and `handleRead`, one call at a time under the hub's lock. `fails` says which
-- Redis and bus calls fail.
pub mod Table
pub mod Sends
pub mod Reached
pub mod Loop
pub mod Subscriptions
use wire_server.Prelude.{
  ℕ, ◌+◌, ◌-◌, ◌*◌, String, Bool, true, false, not, ◌&&◌, Option, none, some, List, [], ◌∷◌, ◌++◌,
  ◌==◌, nat_eq, ltb, code, map, if◌then◌else◌,
}
use wire_server.Text.{trim_space, ◌<>◌}
use wire_server.Limits.{Counters, allow_ws_message}

-- `Connection`: the descriptor, the phone of its claims, and the time of the last pong.
pub record Connection : Type 0 where
  pub fd : ℕ
  pub phone : String
  pub last_pong : ℕ

-- `Hub`, with what it has written: the sockets' frames, the sockets closed, the keys `presence:user:…`
-- that are set in Redis with the seconds to their expiry, and the `user.offline` events. The gauge may go below 0: it is the
-- additions and the removals.
pub record Hub : Type 0 where
  pub conns : List Connection
  pub active_inc : ℕ
  pub active_dec : ℕ
  pub sends : List (ℕ × String)
  pub closed : List ℕ
  pub online : List (String × ℕ)
  pub offline_events : List String
  pub fails : ℕ → Bool
  pub calls : ℕ

abbrev pub without_fd : ℕ → List Connection → List Connection
without_fd fd [] = []
without_fd fd (c ∷ cs) = if nat_eq c.fd fd then without_fd fd cs else c ∷ without_fd fd cs

abbrev pub without_key : String → List (String × ℕ) → List (String × ℕ)
without_key k [] = []
without_key k ((x, ttl) ∷ xs) = if x == k then without_key k xs else (x, ttl) ∷ without_key k xs

abbrev pub presence_key : String → String
presence_key phone = "presence:user:" <> phone

-- `add`: the map entry of the descriptor is set, and the presence key if Redis answers.
unfoldable pub add : Connection → Hub → Hub
add c h = record h {
  conns = c ∷ without_fd c.fd h.conns;
  active_inc = h.active_inc + 1;
  online =
      if h.fails h.calls
      then h.online
      else (presence_key c.phone, 24 * 3600) ∷ without_key (presence_key c.phone) h.online;
  calls = h.calls + 1;
}

-- `remove`: of the map entry of the descriptor, whoever it belongs to; the socket is closed, and
-- the presence key and the event follow.
unfoldable pub remove : Connection → Hub → Hub
remove c h = record h {
  conns = without_fd c.fd h.conns;
  active_dec = h.active_dec + 1;
  closed = h.closed ++ c.fd ∷ [];
  online = if h.fails h.calls then h.online else without_key (presence_key c.phone) h.online;
  offline_events =
      if h.fails (h.calls + 1) then h.offline_events else h.offline_events ++ c.phone ∷ [];
  calls = h.calls + 2;
}

-- `Send` to every connection of the table.
abbrev pub send_each : String → List Connection → List (ℕ × String)
send_each payload [] = []
send_each payload (c ∷ cs) = (c.fd, payload) ∷ send_each payload cs

-- The inner loop of `deliver`.
abbrev pub send_to_phone : String → String → List Connection → List (ℕ × String)
send_to_phone payload target [] = []
send_to_phone payload target (c ∷ cs) =
    if c.phone == target
    then (c.fd, payload) ∷ send_to_phone payload target cs
    else send_to_phone payload target cs

abbrev pub send_to_targets : String → List String → List Connection → List (ℕ × String)
send_to_targets payload [] cs = []
send_to_targets payload (t ∷ ts) cs = send_to_phone payload t cs ++ send_to_targets payload ts cs

abbrev frames : String → List String → List Connection → List (ℕ × String)
frames payload [] cs = send_each payload cs
frames payload (t ∷ ts) cs = send_to_targets payload (t ∷ ts) cs

unfoldable pub deliver : String → List String → Hub → Hub
deliver payload targets h = record h { sends = h.sends ++ frames payload targets h.conns }

-- `checkHeartbeats`, times in nanoseconds: the connections that it unregisters and those that it pings.
unfoldable pub check_heartbeats : ℕ → List Connection → List Connection × List Connection
check_heartbeats now [] = ([], [])
check_heartbeats now (c ∷ cs) =
    let (stale, pinged) = check_heartbeats now cs in
    if ltb 40000000000 (now - c.last_pong) then (c ∷ stale, pinged) else (stale, c ∷ pinged)

-- What a socket yields.
pub data Frame : Type 0 where
  pong : Frame
  ping : Frame
  close : Frame
  broken : Frame
  data_frame : String → Frame

-- What `handleRead` has the hub do.
pub data Action : Type 0 where
  nothing : Action
  unregister : Connection → Action
  heard : Connection → Action
  send_pong : Connection → Action
  look_up : Connection → String → Action
  broadcast : String → Action

-- `strings.HasPrefix` and `strings.TrimPrefix`.
unfoldable pub strip_prefix : String → String → Option String
strip_prefix String.[] s = some s
strip_prefix (String.◌∷◌ c p) String.[] = none
strip_prefix (String.◌∷◌ c p) (String.◌∷◌ d s) =
    let rest = strip_prefix p s in if nat_eq (code c) (code d) then rest else none

-- A lookup goes to the user service, where there is one, and is not counted.
abbrev look_or_send :
    Bool → Connection → ℕ → Bool → Counters → String → Option String → Action × Counters
look_or_send has_lookup conn now lost limits payload (some phone) =
    (if has_lookup then look_up conn (trim_space phone) else nothing, limits)
look_or_send has_lookup conn now lost limits payload none =
    let (allowed, limits') = allow_ws_message conn.phone now lost limits in
    (if allowed then broadcast payload else nothing, limits')

-- What `readMessage` returns: an error, or the data and what it does on the way.
pub data Incoming : Type 0 where
  read_error : Incoming
  control : Action → Incoming
  payload_of : String → Incoming

-- A pong sets `lastPong`; a ping is answered.
unfoldable pub read_message : ℕ → Connection → Frame → Incoming
read_message now conn pong = control (heard (record conn { last_pong = now }))
read_message now conn ping = control (send_pong conn)
read_message now conn close = read_error
read_message now conn broken = read_error
read_message now conn (data_frame payload) = payload_of payload

abbrev act_on : Bool → ℕ → Bool → Counters → Connection → Incoming → Action × Counters
act_on has_lookup now lost limits conn read_error = (unregister conn, limits)
act_on has_lookup now lost limits conn (control action) = (action, limits)
act_on has_lookup now lost limits conn (payload_of payload) =
    if payload == ""
    then (nothing, limits)
    else look_or_send has_lookup conn now lost limits payload
        (strip_prefix "lookup:" (trim_space payload))

unfoldable pub handle_read :
    Bool → ℕ → Bool → Option Connection → Frame → Counters → Action × Counters
handle_read has_lookup now lost none frame limits = (nothing, limits)
handle_read has_lookup now lost (some conn) frame limits =
    act_on has_lookup now lost limits conn (read_message now conn frame)
