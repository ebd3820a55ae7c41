-- ===== src/Gateway/Groups/Leave.antt =====
-- `leaveGroup`.
use wire_server.Prelude.{
  ℕ, String, Bool, true, false, not, Option, none, some, ◌==◌, nat_eq, if◌then◌else◌,
}
use wire_server.Storage.Rows.{admin}
use wire_server.Storage.Statements.{
  set_role, delete_member, delete_group, touch_group, oldest_other,
}
use wire_server.Storage.Pool.{World, begin, tx_exec, tx_query, commit}
use wire_server.Gateway.Http.{
  Claims, Reply, Handler, done_flag, write_json, write_error, ◌>>=◌, ◌>>◌, op, ensure, unwrap,
  reply, serve, current_user_phone, missing_claims,
}
use wire_server.Gateway.Groups.Access.{is_group_member, members_of}
use wire_server.Gateway.Groups.Members.{is_last_admin}
use wire_server.Gateway.Groups.Create.{deferring_rollback}

-- `err == nil` of the query for the oldest other member: a row was found.
abbrev found : Option (Option String) → Option String
found none = none
found (some o) = o

-- Promotes whom the query found; the error of the update is ignored.
unfoldable pub promote_found : String → Option String → World → Bool × World
unfolding tx_exec set_role
promote_found g none w = (true, w)
promote_found g (some p) w = tx_exec (set_role admin g p) w

-- The body of `if s.isGroupAdmin(…) && s.adminCount(…) <= 1`.
unfoldable pub promote_successor : String → String → Bool → World → Bool × World
unfolding tx_query oldest_other promote_found
promote_successor g user false w = (true, w)
promote_successor g user true w =
    let (r, w') = tx_query (oldest_other g user) w in promote_found g (found r) w'

abbrev is_zero : Option ℕ → Bool
is_zero none = false
is_zero (some n) = nat_eq n 0

-- An empty group goes; another is touched. The errors of both statements are ignored.
unfoldable pub drop_if_empty : String → World → Bool × World
unfolding tx_query members_of tx_exec delete_group touch_group
drop_if_empty g w =
    let (count, w') = tx_query (members_of g) w in
    if is_zero count then tx_exec (delete_group g) w' else tx_exec (touch_group g w'.now) w'

unfoldable pub leave_in_tx : String → String → Handler Reply
leave_in_tx g user = do
  began ← op begin
  ensure began (write_error 500 "db begin failed")
  last ← op (is_last_admin g user)
  _ ← op (promote_successor g user last)
  deleted ← op (tx_exec (delete_member g user))
  ensure deleted (write_error 500 "leave failed")
  _ ← op (drop_if_empty g)
  committed ← op commit
  ensure committed (write_error 500 "db commit failed")
  reply (write_json 200 done_flag)

unfoldable pub leave_group : Option Claims → String → World → Reply × World
leave_group claims g = serve do
  user ← unwrap (current_user_phone claims) missing_claims
  ensure (not (g == "")) (write_error 400 "missing group id")
  is_member ← op (is_group_member g user)
  ensure is_member (write_error 400 "not a group member")
  deferring_rollback (leave_in_tx g user)
