-- ===== src/Gateway/Groups/Details.antt =====
-- `listGroups`, `getGroup` and `updateGroup`.
use wire_server.Prelude.{ℕ, take, String, not, Option, none, some, List, [], map, ◌==◌}
use mathlib.Core.List.{reverse}
use wire_server.Storage.Rows.{Group, GroupMember, Tables}
use wire_server.Storage.Statements.{select_rows, order_by, in_group, update_group_row}
use wire_server.Storage.Pool.{World, exec, query}
use wire_server.Gateway.Http.{
  Claims, Reply, GroupResponse, GroupMemberResponse, group_list, group_detail, done_flag,
  write_json, write_error, ◌>>=◌, ◌>>◌, op, ensure, unwrap, reply, serve, current_user_phone,
  missing_claims,
}
use wire_server.Gateway.Groups.Access.{is_group_admin, is_group_member, member_in, members_of}
use wire_server.Gateway.Groups.Invites.{group_by_id}

pub record UpdateGroupRequest : Type 0 where
  pub name : Option String
  pub description : Option String
  pub avatar_url : Option String

-- One scanned row of `groups` with its `member_count`; `members` is empty until `getGroup` fills it.
unfoldable pub group_response : Tables → Group → GroupResponse
unfolding members_of
group_response t g = record {
  id = g.id;
  name = g.name;
  description = g.description;
  avatar_url = g.avatar_url;
  created_by = g.created_by_phone;
  invite_code = g.invite_code;
  created_at = g.created_at;
  updated_at = g.updated_at;
  member_count = members_of g.id t;
  members = [];
}

abbrev pub member_response : GroupMember → GroupMemberResponse
member_response m = record {
  user_phone = m.user_phone;
  role = m.role;
  added_by = m.added_by;
  created_at = m.created_at;
}

-- The join of `listGroups`; (`group_id`, `user_phone`) is a key, so a group is joined with one row.
-- ORDER BY updated_at DESC
unfoldable pub groups_of_member : String → Tables → List GroupResponse
unfolding group_response select_rows order_by member_in
groups_of_member p t =
    map (group_response t)
      (reverse (order_by (λ g. g.updated_at) (select_rows (λ g. member_in g.id p t) t.groups)))

-- `listGroups`; a failure while the rows are read is the query's failure.
unfoldable pub list_groups : Option Claims → World → Reply × World
list_groups claims = serve do
  user ← unwrap (current_user_phone claims) missing_claims
  rows ← op (query (groups_of_member user))
  out ← unwrap rows (write_error 500 "db failed")
  reply (write_json 200 (group_list out))

unfoldable pub group_row : String → Tables → Option GroupResponse
unfolding group_by_id group_response
group_row g t = elim (group_by_id g t) [ none ↦ none | some r ↦ some (group_response t r) ]

unfoldable pub member_rows : String → Tables → List GroupMemberResponse
unfolding select_rows order_by
member_rows g t =
    map member_response (order_by (λ m. m.created_at) (select_rows (in_group g) t.group_members))

-- The row is missing, or the query failed: `errors.Is(err, pgx.ErrNoRows)`.
abbrev row_error : Option (Option GroupResponse) → Reply
row_error none = write_error 500 "db failed"
row_error (some _) = write_error 404 "group not found"

abbrev row_found : Option (Option GroupResponse) → Option GroupResponse
row_found none = none
row_found (some o) = o

-- What is read of the rows when the reading breaks off after some of them.
abbrev pub cut_rows {ℓ} : {A : Type ℓ} → Option ℕ → List A → List A
cut_rows none xs = xs
cut_rows (some n) xs = take n xs

-- `getGroup`. It does not look at the error of the rows: where the reading breaks off after `cut` members,
-- it answers with these.
unfoldable pub get_group : (cut : Option ℕ) → Option Claims → String → World → Reply × World
get_group cut claims g = serve do
  user ← unwrap (current_user_phone claims) missing_claims
  ensure (not (g == "")) (write_error 400 "missing group id")
  is_member ← op (is_group_member g user)
  ensure is_member (write_error 403 "forbidden")
  found ← op (query (group_row g))
  row ← unwrap (row_found found) (row_error found)
  rows ← op (query (member_rows g))
  members ← unwrap rows (write_error 500 "members fetch failed")
  reply (write_json 200 (group_detail (record row { members = cut_rows cut members })))

unfoldable pub update_group :
    Option Claims → String → Option UpdateGroupRequest → World → Reply × World
update_group claims g body w =
    serve
      (do
        user ← unwrap (current_user_phone claims) missing_claims
        ensure (not (g == "")) (write_error 400 "missing group id")
        allowed ← op (is_group_admin g user)
        ensure allowed (write_error 403 "admin required")
        req ← unwrap body (write_error 400 "invalid payload")
        ok ← op (exec (update_group_row g req.name req.description req.avatar_url w.now))
        ensure ok (write_error 500 "update failed")
        reply (write_json 200 done_flag))
      w
