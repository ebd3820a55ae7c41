-- ===== src/Gateway/Groups/Governance/Admins.antt =====
-- `promoteGroupAdmin` and `demoteGroupAdmin` keep every group governed.
use mathlib.Core.Path.{subst}
use wire_server.Prelude.{◌≤◌, String, true, not, Option, ◌≡◌, arith, sym, leb}
use wire_server.Storage.Rows.{admin, member}
use wire_server.Storage.Statements.{set_role, update_rows, is_row}
use wire_server.Storage.Pool.{World, exec}
use wire_server.Gateway.Http.{Claims, current_user_phone}
use wire_server.Gateway.Http.Paths.{
  ensure_op-then, op-then, then_reply, ensure-then, unwrap-then, exec-tables,
}
use wire_server.Gateway.Groups.Access.{admins_of, is_group_admin, admin_count}
use wire_server.Gateway.Groups.Governed.{Governed, set_admin-Governed, with_members, with_role}
use wire_server.Gateway.Groups.Removal.{demoted, demoted-Governed}
use wire_server.Gateway.Groups.Members.{touch}
use wire_server.Gateway.Groups.Admins.{promote_group_admin, demote_group_admin}
use wire_server.Gateway.Groups.Governance.{GovernedWorld, touch-Governed, is_group_admin-Governed}

promote-Governed :
    (g p : String) (w : World) → Governed w.tables → Governed (exec (set_role admin g p) w).1.tables
promote-Governed g p w v = exec-tables Governed (set_role admin g p) w v λ t h.
    subst Governed
      {x = with_members w.tables
        (update_rows (is_row g p) (with_role admin) w.tables.group_members)}
      {y = t} (unfold set_role in ground arith) (set_admin-Governed g p w.tables v)

-- `promoteGroupAdmin` keeps it so that every group that has a row or members has an admin and
-- nobody is a member of a group twice, whatever calls of the database fail.
pub promote_group_admin-Governed :
    (claims : Option Claims) (g p : String) (w : World)
    → Governed w.tables
    → Governed (promote_group_admin claims g p w).1.tables
unfolding promote_group_admin
promote_group_admin-Governed claims g p w v =
    unwrap-then GovernedWorld (current_user_phone claims) _ _ w v λ user _.
      let v' = is_group_admin-Governed g user w v in
      ensure_op-then GovernedWorld (is_group_admin g user) _ _ w v' λ allowed.
        let v'' = promote-Governed g p (is_group_admin g user w).1 v' in
        ensure_op-then GovernedWorld (exec (set_role admin g p)) _ _ _ v''
          λ _. then_reply GovernedWorld (touch g) _ _ (touch-Governed g _ v'')

tables-admin_count : (g : String) (w : World) → (admin_count g w).1.tables ≡ w.tables
unfolding admin_count
tables-admin_count g w = ground arith

-- More than one admin was counted, and a count that fails is 0.
admin_count_two :
    (g : String) (w : World) → not (leb (admin_count g w).0 1) ≡ true → 2 ≤ admins_of g w.tables
unfolding admin_count
admin_count_two g w h = ground arith

demote-Governed :
    (g p : String) (w : World)
    → Governed w.tables
    → 2 ≤ admins_of g w.tables
    → Governed (exec (set_role member g p) w).1.tables
demote-Governed g p w v two = exec-tables Governed (set_role member g p) w v λ t h.
    subst Governed {x = demoted g p w.tables} {y = t} (unfold set_role in ground arith)
      (demoted-Governed g p w.tables two v)

-- `demoteGroupAdmin` keeps it so that every group that has a row or members has an admin and
-- nobody is a member of a group twice, whatever calls of the database fail.
pub demote_group_admin-Governed :
    (claims : Option Claims) (g p : String) (w : World)
    → Governed w.tables
    → Governed (demote_group_admin claims g p w).1.tables
unfolding demote_group_admin
demote_group_admin-Governed claims g p w v =
    unwrap-then GovernedWorld (current_user_phone claims) _ _ w v λ user _.
      let w' = (is_group_admin g user w).1 in
      let v' : Governed w'.tables = is_group_admin-Governed g user w v in
      ensure_op-then GovernedWorld (is_group_admin g user) _ _ w v' λ _.
        let v'' = is_group_admin-Governed g p w' v' in
        ensure_op-then GovernedWorld (is_group_admin g p) _ _ w' v'' λ _.
          let w'' = (is_group_admin g p w').1 in
          let counted : Governed (admin_count g w'').1.tables =
            subst Governed (sym (tables-admin_count g w'')) v'' in
          op-then GovernedWorld (admin_count g) _ w'' (
            ensure-then GovernedWorld _ _ _ _ counted λ enough.
              let v₃ = demote-Governed g p (admin_count g w'').1 counted (
                subst (λ t. 2 ≤ admins_of g t) (sym (tables-admin_count g w''))
                  (admin_count_two g w'' enough)) in
              ensure_op-then GovernedWorld (exec (set_role member g p)) _ _ _ v₃
                λ _. then_reply GovernedWorld (touch g) _ _ (touch-Governed g _ v₃))
