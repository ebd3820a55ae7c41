-- ===== src/Gateway/Groups/Governance/Rows.antt =====
-- The handlers that change only a group's row, and `joinByInvite`, keep every group governed.
use mathlib.Core.Path.{subst}
use wire_server.Prelude.{
  ℕ, ◌<◌, String, Option, some, List, [], ◌∷◌, ◌≡◌, refl, arith, sym, eq_refl, ◌==◌, Bool-cases,
  inl, inr,
}
use wire_server.Text.{trim_space}
use wire_server.Storage.Rows.{Group}
use wire_server.Storage.Statements.{
  set_invite, update_group_row, insert_member, update_rows, has_id, count_rows, first_row,
  coalesce_nonempty, coalesce, has_invite,
}
use wire_server.Storage.Pool.{World, exec, query}
use wire_server.Gateway.Http.{Claims, current_user_phone}
use wire_server.Gateway.Http.Paths.{
  ensure_op-then, op-then, then_reply, then_ensure_reply, ensure-then, unwrap-then, exec-tables,
  tables-query,
}
use wire_server.Gateway.Groups.Access.{admins_of, is_group_admin}
use wire_server.Gateway.Groups.Governed.{Governed, touched-Governed, insert_member-Governed}
use wire_server.Gateway.Groups.Members.{touch}
use wire_server.Gateway.Groups.Create.{random_hex}
use wire_server.Gateway.Groups.Invites.{
  reset_group_invite, join_by_invite, group_by_invite, scanned,
}
use wire_server.Gateway.Groups.Details.{update_group, UpdateGroupRequest}
use wire_server.Gateway.Groups.Governance.{GovernedWorld, touch-Governed, is_group_admin-Governed}

update_row-Governed :
    (g : String) (name description avatar : Option String) (now : ℕ) (w : World)
    → Governed w.tables
    → Governed (exec (update_group_row g name description avatar now) w).1.tables
update_row-Governed g name description avatar now w v =
    exec-tables Governed (update_group_row g name description avatar now) w v λ t h.
      subst Governed {x = record w.tables { groups = update_rows (has_id g) u w.tables.groups }}
        {y = t} (unfold update_group_row in ground arith)
        (touched-Governed g u w.tables (λ r. refl) v)
  where
    u : Group → Group
    u r = record r {
      name = coalesce_nonempty name r.name;
      description = coalesce description r.description;
      avatar_url = coalesce avatar r.avatar_url;
      updated_at = now;
    }

set_invite-Governed :
    (g c : String) (now : ℕ) (w : World)
    → Governed w.tables
    → Governed (exec (set_invite g c now) w).1.tables
set_invite-Governed g c now w v = exec-tables Governed (set_invite g c now) w v λ t h.
    subst Governed {x = record w.tables { groups = update_rows (has_id g) u w.tables.groups }}
      {y = t} (unfold set_invite in ground arith) (touched-Governed g u w.tables (λ r. refl) v)
  where
    u : Group → Group
    u r = record r { invite_code = c; updated_at = now }

-- `updateGroup` keeps it so that every group that has a row or members has an admin and nobody
-- is a member of a group twice, whatever calls of the database fail.
pub update_group-Governed :
    (claims : Option Claims) (g : String) (body : Option UpdateGroupRequest) (w : World)
    → Governed w.tables
    → Governed (update_group claims g body w).1.tables
unfolding update_group
update_group-Governed claims g body w v =
    unwrap-then GovernedWorld (current_user_phone claims) _ _ w v λ user _.
      ensure-then GovernedWorld _ _ _ w v λ _.
        let w' = (is_group_admin g user w).1 in
        let v' : Governed w'.tables = is_group_admin-Governed g user w v in
        ensure_op-then GovernedWorld (is_group_admin g user) _ _ w v' λ _.
          unwrap-then GovernedWorld body _ _ w' v' λ req _.
            let v'' = update_row-Governed g req.name req.description req.avatar_url w.now w' v' in
            then_ensure_reply GovernedWorld
              (exec (update_group_row g req.name req.description req.avatar_url w.now)) _ _ _ v''
              v''

-- `resetGroupInvite` keeps it so that every group that has a row or members has an admin and
-- nobody is a member of a group twice, whatever calls of the database fail.
pub reset_group_invite-Governed :
    (claims : Option Claims) (g : String) (rand : Option (List ℕ)) (w : World)
    → Governed w.tables
    → Governed (reset_group_invite claims g rand w).1.tables
unfolding reset_group_invite
reset_group_invite-Governed claims g rand w v =
    unwrap-then GovernedWorld (current_user_phone claims) _ _ w v λ user _.
      let w' = (is_group_admin g user w).1 in
      let v' : Governed w'.tables = is_group_admin-Governed g user w v in
      ensure_op-then GovernedWorld (is_group_admin g user) _ _ w v' λ _.
        unwrap-then GovernedWorld (random_hex rand) _ _ w' v' λ code _.
          then_ensure_reply GovernedWorld (exec (set_invite g code w.now)) _ _ _
            (set_invite-Governed g code w.now w' v') (set_invite-Governed g code w.now w' v')

-- A row that an invite finds is listed, so its group has an admin.
first_row_listed :
    (c : String) (gs : List Group) {r : Group}
    → first_row (has_invite c) gs ≡ some r
    → 0 < count_rows (has_id r.id) gs
unfolding first_row count_rows
first_row_listed c [] h = ground arith
first_row_listed c (x ∷ gs) {r} h = elim (Bool-cases (x.invite_code == c)) [
  | inl hit ↦
      subst (λ (r : Group). 0 < count_rows (has_id r.id) (x ∷ gs)) {x = x} {y = r} (ground arith)
        (ground (arith, eq_refl x.id))
  | inr miss ↦ ground (arith, first_row_listed c gs {r = r} (ground arith))
]

query_listed :
    (c : String) (w : World) {r : Group}
    → scanned (query (group_by_invite c) w).0 ≡ some r
    → 0 < count_rows (has_id r.id) w.tables.groups
query_listed c w {r} h =
    first_row_listed c w.tables.groups {r = r} (unfold query group_by_invite in ground arith)

join-Governed :
    (g user : String) (now : ℕ) (w : World)
    → Governed w.tables
    → 0 < admins_of g w.tables
    → Governed (exec (insert_member g user user now) w).1.tables
join-Governed g user now w v pos =
    exec-tables Governed (insert_member g user user now) w v
      λ t h. insert_member-Governed g user user now w.tables h pos v

-- `joinByInvite` keeps it so that every group that has a row or members has an admin and nobody
-- is a member of a group twice, whatever calls of the database fail.
pub join_by_invite-Governed :
    (claims : Option Claims) (body : Option String) (w : World)
    → Governed w.tables
    → Governed (join_by_invite claims body w).1.tables
unfolding join_by_invite
join_by_invite-Governed claims body w v =
    unwrap-then GovernedWorld (current_user_phone claims) _ _ w v λ user _.
      unwrap-then GovernedWorld body _ _ w v λ raw _. ensure-then GovernedWorld _ _ _ w v λ _.
        let q = group_by_invite (trim_space raw) in
        let v' : Governed (query q w).1.tables = subst Governed (sym (tables-query q w)) v in
        op-then GovernedWorld (query q) _ w (
          unwrap-then GovernedWorld (scanned (query q w).0) _ _ (query q w).1 v' λ row found.
            let v'' = join-Governed row.id user w.now (query q w).1 v' (
              subst (λ t. 0 < admins_of row.id t) (sym (tables-query q w))
                (v.listed row.id (query_listed (trim_space raw) w found))) in
            ensure_op-then GovernedWorld (exec (insert_member row.id user user w.now)) _ _ _ v''
              λ _. then_reply GovernedWorld (touch row.id) _ _ (touch-Governed row.id _ v''))
