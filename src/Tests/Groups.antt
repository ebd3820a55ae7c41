-- ===== src/Tests/Groups.antt =====
-- The group handlers on a group that alice leads.
use wire_server.Prelude.{◌+◌, String, false, Option, none, some, [], ◌∷◌, ◌≡◌, refl, arith}
use wire_server.Storage.Rows.{admin, Group, GroupMember, Tables}
use wire_server.Storage.Statements.{count_rows}
use wire_server.Storage.Pool.{World, idle}
use wire_server.Gateway.Http.{Claims, ◌>>=◌, current_user_phone}
use wire_server.Gateway.Groups.Access.{is_group_admin, admin_in, dedupe_ids, admins_of, members_of}
use wire_server.Gateway.Groups.Governed.{Governed}
use wire_server.Gateway.Groups.Members.{remove_group_member, add_group_members, add_each, touch}
use wire_server.Gateway.Groups.Admins.{promote_group_admin, demote_group_admin}
use wire_server.Gateway.Groups.Denied.{Refused, admins_only}
use wire_server.Gateway.Groups.Leave.{leave_group}
use wire_server.Gateway.Groups.Invites.{reset_group_invite}
use wire_server.Gateway.Groups.Governance.Leave.{leave_group-Governed}
use wire_server.Gateway.Groups.Governance.Members.{
  remove_group_member-Governed, add_group_members-Governed,
}

abbrev alice_row : GroupMember
alice_row = record {
  group_id = "g1";
  user_phone = "alice";
  role = admin;
  added_by = none;
  created_at = 1;
}

abbrev group_row : Group
group_row = record {
  id = "g1";
  name = "friends";
  description = none;
  avatar_url = none;
  created_by_phone = "alice";
  invite_code = "c0de";
  created_at = 1;
  updated_at = 1;
}

abbrev tables : Tables
tables = record { groups = group_row ∷ []; group_members = alice_row ∷ []; users = [] }

abbrev world : World
world = record { tables = tables; tx = idle; fails = λ n. false; calls = 0; now = 7 }

abbrev claims : String → Option Claims
claims phone = some (record { email = ""; user_metadata = []; phone = phone })

tables-Governed : Governed tables
unfolding count_rows admins_of members_of
tables-Governed = record {
  unique = λ g p. ground arith;
  led = λ g. ground arith;
  listed = λ g. ground arith;
}

abbrev with_bob : World
with_bob = (add_group_members (claims "alice") "g1" (some (" bob " ∷ "carol" ∷ "bob" ∷ [])) world).1

with_bob-Governed : Governed with_bob.tables
with_bob-Governed =
    add_group_members-Governed (claims "alice") "g1" (some (" bob " ∷ "carol" ∷ "bob" ∷ [])) world
      tables-Governed

with_bob-answers :
    (with_bob.fails (with_bob.calls + 1) ≡ false) × (with_bob.fails (with_bob.calls + 2) ≡ false)
unfolding add_group_members ◌>>=◌ current_user_phone is_group_admin admin_in add_each dedupe_ids
    touch
with_bob-answers = (refl, refl)

remove_group_member-Governed_example :
    Governed (remove_group_member (claims "alice") "g1" "bob" with_bob).1.tables
remove_group_member-Governed_example =
    remove_group_member-Governed (claims "alice") "g1" "bob" with_bob with_bob-answers.0
      with_bob-Governed

leave_group-Governed_example : Governed (leave_group (claims "alice") "g1" with_bob).1.tables
leave_group-Governed_example =
    leave_group-Governed (claims "alice") "g1" with_bob with_bob-answers.1 with_bob-Governed

erin-outside :
    (current_user_phone (claims "erin") ≡ some "erin") × (admin_in "g1" "erin" world.tables ≡ false)
unfolding current_user_phone admin_in
erin-outside = (refl, refl)

admins_only_example :
    Refused world (remove_group_member (claims "erin") "g1" "alice" world)
    × Refused world (add_group_members (claims "erin") "g1" (some ("erin" ∷ [])) world)
    × Refused world (promote_group_admin (claims "erin") "g1" "alice" world)
    × Refused world (demote_group_admin (claims "erin") "g1" "alice" world)
    × Refused world (reset_group_invite (claims "erin") "g1" none world)
admins_only_example =
    admins_only (claims "erin") "g1" "erin" world "alice" (some ("erin" ∷ [])) none erin-outside.0
      erin-outside.1
