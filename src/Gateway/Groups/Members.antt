-- ===== src/Gateway/Groups/Members.antt =====
-- `addGroupMembers` and `removeGroupMember`.
use wire_server.Prelude.{
  String, Bool, true, false, not, Option, List, [], ◌∷◌, ◌==◌, leb, if◌then◌else◌,
}
use wire_server.Storage.Statements.{insert_member, delete_member, touch_group}
use wire_server.Storage.Pool.{World, exec}
use wire_server.Gateway.Http.{
  Claims, Reply, done_flag, write_json, write_error, ◌>>=◌, ◌>>◌, op, ensure, unwrap, reply, serve,
  current_user_phone, missing_claims,
}
use wire_server.Gateway.Groups.Access.{is_group_admin, admin_count, dedupe_ids}

-- The loop of `addGroupMembers`: each row in its own statement, up to the first failure.
unfoldable pub add_each : String → String → List String → World → Bool × World
unfolding exec insert_member
add_each g by [] w = (true, w)
add_each g by (p ∷ ps) w =
    let (ok, w') = exec (insert_member g p by w.now) w in
    let rest = add_each g by ps w' in if ok then rest else (false, w')

-- A statement whose error is ignored: `_, _ = s.DB.Exec(…)`.
unfoldable pub touch : String → World → Bool × World
unfolding exec touch_group
touch g w = exec (touch_group g w.now) w

unfoldable pub add_group_members :
    Option Claims → String → Option (List String) → World → Reply × World
add_group_members claims g body = serve do
  user ← unwrap (current_user_phone claims) missing_claims
  allowed ← op (is_group_admin g user)
  ensure allowed (write_error 403 "admin required")
  phones ← unwrap body (write_error 400 "invalid payload")
  ok ← op (add_each g user (dedupe_ids phones ""))
  ensure ok (write_error 500 "add member failed")
  _ ← op (touch g)
  reply (write_json 200 done_flag)

-- `s.isGroupAdmin(…) && s.adminCount(…) <= 1`: the count is asked only for an admin.
unfoldable pub is_last_admin : String → String → World → Bool × World
unfolding is_group_admin admin_count
is_last_admin g p w =
    let (is_admin, w') = is_group_admin g p w in
    let (n, w'') = admin_count g w' in if is_admin then (leb n 1, w'') else (false, w')

unfoldable pub remove_group_member : Option Claims → String → String → World → Reply × World
remove_group_member claims g target = serve do
  user ← unwrap (current_user_phone claims) missing_claims
  allowed ← op (is_group_admin g user)
  ensure allowed (write_error 403 "admin required")
  ensure (not (target == "")) (write_error 400 "missing phone")
  last ← op (is_last_admin g target)
  ensure (not last) (write_error 400 "cannot remove last admin")
  ok ← op (exec (delete_member g target))
  ensure ok (write_error 500 "remove failed")
  _ ← op (touch g)
  reply (write_json 200 done_flag)
