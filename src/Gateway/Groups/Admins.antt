-- ===== src/Gateway/Groups/Admins.antt =====
-- `promoteGroupAdmin` and `demoteGroupAdmin`.
use wire_server.Prelude.{String, not, Option, leb}
use wire_server.Storage.Rows.{admin, member}
use wire_server.Storage.Statements.{set_role}
use wire_server.Storage.Pool.{World, exec}
use wire_server.Gateway.Http.{
  Claims, Reply, done_flag, write_json, write_error, ◌>>=◌, ◌>>◌, op, ensure, unwrap, reply, serve,
  current_user_phone, missing_claims,
}
use wire_server.Gateway.Groups.Access.{is_group_admin, admin_count}
use wire_server.Gateway.Groups.Members.{touch}

unfoldable pub promote_group_admin : Option Claims → String → String → World → Reply × World
promote_group_admin claims g target = serve do
  user ← unwrap (current_user_phone claims) missing_claims
  allowed ← op (is_group_admin g user)
  ensure allowed (write_error 403 "admin required")
  ok ← op (exec (set_role admin g target))
  ensure ok (write_error 500 "promote failed")
  _ ← op (touch g)
  reply (write_json 200 done_flag)

unfoldable pub demote_group_admin : Option Claims → String → String → World → Reply × World
demote_group_admin claims g target = serve do
  user ← unwrap (current_user_phone claims) missing_claims
  allowed ← op (is_group_admin g user)
  ensure allowed (write_error 403 "admin required")
  is_admin ← op (is_group_admin g target)
  ensure is_admin (write_error 400 "target is not admin")
  n ← op (admin_count g)
  ensure (not (leb n 1)) (write_error 400 "cannot demote last admin")
  ok ← op (exec (set_role member g target))
  ensure ok (write_error 500 "demote failed")
  _ ← op (touch g)
  reply (write_json 200 done_flag)
