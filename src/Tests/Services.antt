-- ===== src/Tests/Services.antt =====
-- Lookups, presence and the socket registry at concrete inputs.
use wire_server.Prelude.{false, not, ◌&&◌, none, some, List, [], ◌∷◌, ◌≡◌, refl, elem}
use wire_server.Storage.Rows.{User}
use wire_server.Storage.Pool.{World, idle}
use wire_server.Gateway.Lookup.{lookup_users}
use wire_server.Gateway.Lookup.Answers.{registered_in, not_found_in, has_user, lookup_users_lem}
use wire_server.Sockets.{SocketHub}

abbrev known_users : List User
known_users =
    record { id = "1"; phone = some "ann"; created_at = 1 }
    ∷ record { id = "2"; phone = none; created_at = 2 }
    ∷ []

abbrev world : World
world = record {
  tables = record { groups = []; group_members = []; users = known_users };
  tx = idle;
  fails = λ n. false;
  calls = 0;
  now = 7;
}

lookup_users_example :
    (elem "ann" (registered_in (lookup_users (some ("ann" ∷ "ben" ∷ [])) world).0.body)
      ≡ (elem "ann" ("ann" ∷ "ben" ∷ []) && has_user "ann" known_users))
    × (elem "ann" (not_found_in (lookup_users (some ("ann" ∷ "ben" ∷ [])) world).0.body)
        ≡ (elem "ann" ("ann" ∷ "ben" ∷ []) && not (has_user "ann" known_users)))
lookup_users_example = lookup_users_lem ("ann" ∷ "ben" ∷ []) world "ann" refl

abbrev sockets : SocketHub
sockets = record { clients = ("ann", 1 ∷ 2 ∷ []) ∷ ("ben", 3 ∷ []) ∷ []; closed = []; offline = [] }
