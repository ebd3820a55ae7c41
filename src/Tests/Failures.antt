-- ===== src/Tests/Failures.antt =====
-- Handlers of groups that fail half-way.
use wire_server.Prelude.{false, Option, some, [], ◌∷◌, ◌≡◌, refl, nat_eq}
use wire_server.Text.{trim_space}
use wire_server.Storage.Rows.{Tables}
use wire_server.Storage.Statements.{insert_group}
use wire_server.Storage.Pool.{World, idle, begin, tx_exec}
use wire_server.Gateway.Http.{Claims, ◌>>=◌, current_user_phone, write_error}
use wire_server.Gateway.Groups.Create.{CreateGroupRequest, create_group, create_in_tx, random_hex}
use wire_server.Gateway.Groups.Leave.{leave_group}
use wire_server.Gateway.Groups.Access.{is_group_member, member_in}
use wire_server.Gateway.Groups.Atomic.{create_group-failed, leave_group-failed}

abbrev empty_tables : Tables
empty_tables = record { groups = []; group_members = []; users = [] }

-- The third call fails: the creator's row.
abbrev world : World
world = record { tables = empty_tables; tx = idle; fails = λ n. nat_eq n 2; calls = 0; now = 7 }

abbrev bob : Option Claims
bob = some (record { email = ""; user_metadata = []; phone = "bob" })

abbrev request : Option CreateGroupRequest
request =
    some (record { name = "team"; description = ""; avatar_url = ""; member_phones = "dave" ∷ [] })

create_group-fails : (create_group bob request (some (18 ∷ [])) world).0.success ≡ false
unfolding create_group create_in_tx ◌>>=◌ current_user_phone trim_space random_hex begin tx_exec
    write_error insert_group
create_group-fails = refl

create_group-failed_example :
    (create_group bob request (some (18 ∷ [])) world).1.tables ≡ empty_tables
create_group-failed_example =
    create_group-failed bob request (some (18 ∷ [])) world create_group-fails

leave_group-fails : (leave_group bob "g1" world).0.success ≡ false
unfolding leave_group ◌>>=◌ current_user_phone is_group_member write_error member_in
leave_group-fails = refl

leave_group-failed_example : (leave_group bob "g1" world).1.tables ≡ empty_tables
leave_group-failed_example = leave_group-failed bob "g1" world leave_group-fails
