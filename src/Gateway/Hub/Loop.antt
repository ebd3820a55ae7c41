-- ===== src/Gateway/Hub/Loop.antt =====
-- `Run` of services/api-gateway/internal/gateway/hub.go with the channels of the hub, as steps: what
-- the loop does from its `select`, and what other goroutines do meanwhile. Only the loop itself
-- receives from the channels; `register` and `unregister` have no buffer, `broadcast` holds 128
-- payloads and `groups` holds 32.
pub mod Stuck
use wire_server.Prelude.{
  ℕ, ◌<◌, ◌-◌, String, Bool, true, false, Option, none, some, List, [], ◌∷◌, ◌++◌, ◌≡◌, length, ltb,
  nat_eq, map, if◌then◌else◌,
}
use wire_server.Limits.{Counters}
use wire_server.Gateway.Hub.{
  Connection, Hub, add, remove, deliver, check_heartbeats, Frame, Action, nothing, unregister,
  heard, send_pong, look_up, broadcast, handle_read,
}
use wire_server.Gateway.Hub.Table.{find_fd}

-- Where the loop's goroutine is: at its `select`, in a call that has to send on a channel first, or
-- returned.
pub data Position : Type 0 where
  selecting : Position
  sending_unregister : Connection → Position
  sending_broadcast : String → Position
  returned : Position

-- The hub, the loop, the other goroutines that wait in `Register` and `Unregister`, what the two
-- buffers hold, and the lookups under way.
pub record Loop : Type 0 where
  pub hub : Hub
  pub limits : Counters
  pub position : Position
  pub registering : List Connection
  pub unregistering : List Connection
  pub broadcasts : List String
  pub groups : List (List String × String)
  pub lookups : List (Connection × String)

-- `lastPong` of a connection is set in place.
abbrev pub same_fd : Connection → Connection → Connection
same_fd c d = if nat_eq d.fd c.fd then c else d

unfoldable pub set_connection : Connection → Hub → Hub
set_connection c h = record h { conns = map (same_fd c) h.conns }

-- `h.broadcast <- payload` by the loop itself.
unfoldable pub queue_broadcast : String → Loop → Loop
queue_broadcast payload l =
    if ltb (length l.broadcasts) 128
    then record l { broadcasts = l.broadcasts ++ payload ∷ [] }
    else record l { position = sending_broadcast payload }

-- What the loop does for a socket that yields something.
unfoldable pub act : Action → Loop → Loop
unfolding set_connection queue_broadcast
act nothing l = l
act (unregister c) l = record l { position = sending_unregister c }
act (heard c) l = record l { hub = set_connection c l.hub }
act (send_pong c) l = l
act (look_up c phone) l = record l { lookups = (c, phone) ∷ l.lookups }
act (broadcast payload) l = queue_broadcast payload l

-- `handleRead` of the connection of a descriptor.
unfoldable pub read_from : Bool → ℕ → ℕ → Bool → Frame → Loop → Loop
unfolding act
read_from has_lookup fd now lost frame l =
    let (action, limits') =
      handle_read has_lookup now lost (find_fd fd l.hub.conns) frame l.limits in
    act action (record l { limits = limits' })

-- One step. `silent_found` is a heartbeat at which `checkHeartbeats`, in the order of the map, comes to
-- a connection that has been silent too long: it calls `Unregister`. `respond` is `respondLookup`.
pub data Step (has_lookup : Bool) (encode : String → Option Bool → String)
    : Loop → Loop → Type 0 where
  call_register :
      (l : Loop) (c : Connection)
      → Step has_lookup encode l (record l { registering = c ∷ l.registering })
  call_unregister :
      (l : Loop) (c : Connection)
      → Step has_lookup encode l (record l { unregistering = c ∷ l.unregistering })
  call_broadcast :
      (l : Loop) (payload : String)
      → length l.broadcasts < 128
      → Step has_lookup encode l (record l { broadcasts = l.broadcasts ++ payload ∷ [] })
  call_group_broadcast :
      (l : Loop) (targets : List String) (payload : String)
      → length l.groups < 32
      → Step has_lookup encode l (record l { groups = l.groups ++ (targets, payload) ∷ [] })
  respond :
      (l : Loop) (before after : List (Connection × String)) (c : Connection) (phone : String)
      (found : Option Bool)
      → l.lookups ≡ before ++ (c, phone) ∷ after
      → Step has_lookup encode l (record l {
        hub = record (l.hub) { sends = l.hub.sends ++ (c.fd, encode phone found) ∷ [] };
        lookups = before ++ after;
      })
  take_register :
      (l : Loop) (before after : List Connection) (c : Connection)
      → l.position ≡ selecting
      → l.registering ≡ before ++ c ∷ after
      → Step has_lookup encode l (record l { hub = add c l.hub; registering = before ++ after })
  take_unregister :
      (l : Loop) (before after : List Connection) (c : Connection)
      → l.position ≡ selecting
      → l.unregistering ≡ before ++ c ∷ after
      → Step has_lookup encode l
          (record l { hub = remove c l.hub; unregistering = before ++ after })
  take_broadcast :
      (l : Loop) (payload : String) (rest : List String)
      → l.position ≡ selecting
      → l.broadcasts ≡ payload ∷ rest
      → Step has_lookup encode l (record l { hub = deliver payload [] l.hub; broadcasts = rest })
  take_group :
      (l : Loop) (targets : List String) (payload : String) (rest : List (List String × String))
      → l.position ≡ selecting
      → l.groups ≡ (targets, payload) ∷ rest
      → Step has_lookup encode l (record l { hub = deliver payload targets l.hub; groups = rest })
  all_alive :
      (l : Loop) (now : ℕ)
      → l.position ≡ selecting
      → (check_heartbeats now l.hub.conns).0 ≡ []
      → Step has_lookup encode l l
  silent_found :
      (l : Loop) (now : ℕ) (c : Connection) (before after : List Connection)
      → l.position ≡ selecting
      → l.hub.conns ≡ before ++ c ∷ after
      → 40000000000 < now - c.last_pong
      → Step has_lookup encode l (record l { position = sending_unregister c })
  read :
      (l : Loop) (fd now : ℕ) (lost : Bool) (frame : Frame)
      → l.position ≡ selecting
      → Step has_lookup encode l (read_from has_lookup fd now lost frame l)
  done :
      (l : Loop)
      → l.position ≡ selecting
      → Step has_lookup encode l (record l { position = returned })

-- Any number of steps.
pub data Steps (has_lookup : Bool) (encode : String → Option Bool → String)
    : Loop → Loop → Type 0 where
  stay : (l : Loop) → Steps has_lookup encode l l
  go :
      (l m n : Loop)
      → Step has_lookup encode l m
      → Steps has_lookup encode m n
      → Steps has_lookup encode l n
