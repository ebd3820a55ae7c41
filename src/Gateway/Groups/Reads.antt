-- ===== src/Gateway/Groups/Reads.antt =====
-- The group handlers that only read: `listGroups`, `getGroup`, `getGroupInvite`, and `lookupUsers`.
use wire_server.Prelude.{ℕ, String, Option, none, some, List, [], ◌∷◌, ◌≡◌, refl, ◌∙◌, arith}
use wire_server.Gateway.Groups.Access.{is_group_member, is_group_admin}
use wire_server.Gateway.Groups.Details.{
  list_groups, get_group, groups_of_member, group_row, member_rows,
}
use wire_server.Gateway.Groups.Invites.{get_group_invite, group_by_id, scanned}
use wire_server.Gateway.Http.{Claims, Flow, Reply, reply, current_user_phone}
use wire_server.Gateway.Http.Paths.{unwrap-then, ensure-then, op-then, ensure_op-then, tables-query}
use wire_server.Gateway.Lookup.{lookup_users, find_users_by_phones}
use wire_server.Storage.Pool.{World, query}
use wire_server.Storage.Rows.{Tables}

-- The rows are those that the handler found.
abbrev Same : Tables → Flow Reply × World → Type 0
Same t (_, w) = w.tables ≡ t

tables-is_group_admin : (g p : String) (w : World) → (is_group_admin g p w).1.tables ≡ w.tables
unfolding is_group_admin
tables-is_group_admin g p w = ground arith

tables-is_group_member : (g p : String) (w : World) → (is_group_member g p w).1.tables ≡ w.tables
unfolding is_group_member
tables-is_group_member g p w = ground arith

pub list_groups-tables :
    (claims : Option Claims) (w : World) → (list_groups claims w).1.tables ≡ w.tables
unfolding list_groups reply
list_groups-tables claims w =
    unwrap-then (Same w.tables) (current_user_phone claims) _ _ w refl λ user _.
      op-then (Same w.tables) (query (groups_of_member user)) _ w (
        let e = tables-query (groups_of_member user) w in
        unwrap-then (Same w.tables) (query (groups_of_member user) w).0 _ _ _ e λ out _. e)

pub get_group_invite-tables :
    (claims : Option Claims) (g : String) (w : World)
    → (get_group_invite claims g w).1.tables ≡ w.tables
unfolding get_group_invite reply
get_group_invite-tables claims g w =
    unwrap-then (Same w.tables) (current_user_phone claims) _ _ w refl λ user _.
      let e : (is_group_admin g user w).1.tables ≡ w.tables = tables-is_group_admin g user w in
      ensure_op-then (Same w.tables) (is_group_admin g user) _ _ w e λ _.
        let w' = (is_group_admin g user w).1 in
        op-then (Same w.tables) (query (group_by_id g)) _ w' (
          let e' = tables-query (group_by_id g) w' ∙ e in
          unwrap-then (Same w.tables) (scanned (query (group_by_id g) w').0) _ _ _ e' λ row _. e')

pub get_group-tables :
    (cut : Option ℕ) (claims : Option Claims) (g : String) (w : World)
    → (get_group cut claims g w).1.tables ≡ w.tables
unfolding get_group reply
get_group-tables cut claims g w =
    unwrap-then (Same w.tables) (current_user_phone claims) _ _ w refl λ user _.
      ensure-then (Same w.tables) _ _ _ w refl λ _.
        let e : (is_group_member g user w).1.tables ≡ w.tables = tables-is_group_member g user w in
        ensure_op-then (Same w.tables) (is_group_member g user) _ _ w e λ _.
          let w1 = (is_group_member g user w).1 in
          op-then (Same w.tables) (query (group_row g)) _ w1 (
            let e1 = tables-query (group_row g) w1 ∙ e in
            unwrap-then (Same w.tables) _ _ _ (query (group_row g) w1).1 e1 λ row _.
              let w2 = (query (group_row g) w1).1 in
              op-then (Same w.tables) (query (member_rows g)) _ w2 (
                let e2 = tables-query (member_rows g) w2 ∙ e1 in
                unwrap-then (Same w.tables) (query (member_rows g) w2).0 _ _ _ e2 λ members _. e2))

pub lookup_users-tables :
    (body : Option (List String)) (w : World) → (lookup_users body w).1.tables ≡ w.tables
unfolding lookup_users
lookup_users-tables none w = refl
lookup_users-tables (some []) w = refl
lookup_users-tables (some (p ∷ ps)) w = tables-query (λ t. find_users_by_phones (p ∷ ps) t.users) w
