-- ===== src/Gateway/Groups/Invites.antt =====
-- `getGroupInvite`, `resetGroupInvite` and `joinByInvite`.
use wire_server.Prelude.{ℕ, String, not, Option, none, some, List, ◌==◌}
use wire_server.Text.{trim_space}
use wire_server.Storage.Rows.{Group, Tables}
use wire_server.Storage.Statements.{first_row, has_id, has_invite, set_invite, insert_member}
use wire_server.Storage.Pool.{World, exec, query}
use wire_server.Gateway.Http.{
  Claims, Reply, invite, joined, write_json, write_error, ◌>>=◌, ◌>>◌, op, ensure, unwrap, reply,
  serve, current_user_phone, missing_claims,
}
use wire_server.Gateway.Groups.Access.{is_group_admin}
use wire_server.Gateway.Groups.Members.{touch}
use wire_server.Gateway.Groups.Create.{random_hex}

-- `QueryRow(…).Scan(…)` of one row: an error where the query fails and where it finds none.
abbrev pub scanned {ℓ} : {A : Type ℓ} → Option (Option A) → Option A
scanned none = none
scanned (some o) = o

-- `SELECT … FROM groups WHERE id = $1`
unfoldable pub group_by_id : String → Tables → Option Group
unfolding first_row
group_by_id g t = first_row (has_id g) t.groups

-- `SELECT … FROM groups WHERE invite_code = $1`
unfoldable pub group_by_invite : String → Tables → Option Group
unfolding first_row
group_by_invite c t = first_row (has_invite c) t.groups

unfoldable pub get_group_invite : Option Claims → String → World → Reply × World
get_group_invite claims g = serve do
  user ← unwrap (current_user_phone claims) missing_claims
  allowed ← op (is_group_admin g user)
  ensure allowed (write_error 403 "admin required")
  found ← op (query (group_by_id g))
  row ← unwrap (scanned found) (write_error 404 "group not found")
  reply (write_json 200 (invite row.invite_code))

unfoldable pub reset_group_invite : Option Claims → String → Option (List ℕ) → World → Reply × World
reset_group_invite claims g rand w =
    serve
      (do
        user ← unwrap (current_user_phone claims) missing_claims
        allowed ← op (is_group_admin g user)
        ensure allowed (write_error 403 "admin required")
        code ← unwrap (random_hex rand) (write_error 500 "invite generation failed")
        ok ← op (exec (set_invite g code w.now))
        ensure ok (write_error 500 "invite reset failed")
        reply (write_json 200 (invite code)))
      w

unfoldable pub join_by_invite : Option Claims → Option String → World → Reply × World
join_by_invite claims body w =
    serve
      (do
        user ← unwrap (current_user_phone claims) missing_claims
        raw ← unwrap body (write_error 400 "invalid payload")
        ensure (not (trim_space raw == "")) (write_error 400 "invite_code is required")
        found ← op (query (group_by_invite (trim_space raw)))
        row ← unwrap (scanned found) (write_error 400 "invalid invite")
        ok ← op (exec (insert_member row.id user user w.now))
        ensure ok (write_error 500 "join failed")
        _ ← op (touch row.id)
        reply (write_json 200 (joined row.id)))
      w
