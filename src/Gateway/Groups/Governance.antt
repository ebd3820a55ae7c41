-- ===== src/Gateway/Groups/Governance.antt =====
-- What the checks of the group handlers say of the tables. The modules below prove each handler.
pub mod Members
pub mod Admins
pub mod Rows
pub mod Pending
pub mod Create
pub mod Succession
pub mod Leave
use wire_server.Prelude.{
  ℕ, ◌+◌, ◌≤◌, ◌<◌, String, Bool, true, false, not, ◌&&◌, Option, none, some, List, [], ◌∷◌, ◌++◌,
  ◌⊎◌, ◌≡◌, refl, ◌≢◌, inl, inr, ◌==◌, eq_iff, eq_refl, arith, Bool-cases, text_cases, sym,
}
use mathlib.Core.Path.{subst}
use wire_server.Storage.Rows.{Role, admin, member, is_admin_role, Group, GroupMember, Tables}
use wire_server.Storage.Statements.{delete_member, touch_group, update_rows, has_id}
use wire_server.Storage.Pool.{World, exec, query, tick}
use wire_server.Gateway.Http.{Claims, current_user_phone, write_error, write_json}
use wire_server.Gateway.Http.Paths.{
  Ending, ensure_op-then, op-then, then_reply, ensure-then, unwrap-then, exec-tables,
}
use wire_server.Gateway.Groups.Access.{
  member_in, admin_in, admins_of, members_of, is_group_admin, admin_count,
}
use wire_server.Gateway.Groups.Governed.{Governed, admins_of-pos, touched-Governed}
use wire_server.Gateway.Groups.Removal.{removed, removed-Governed, removed_admins}
use wire_server.Gateway.Groups.Members.{remove_group_member, is_last_admin, touch}

abbrev pub GovernedWorld : Ending
GovernedWorld (_, w) = Governed w.tables

pub touch-Governed : (g : String) (w : World) → Governed w.tables → Governed (touch g w).1.tables
unfolding touch
touch-Governed g w v = exec-tables Governed (touch_group g w.now) w v λ t h.
    subst Governed
      {x = record w.tables {
        groups = update_rows (has_id g) (λ r. record r { updated_at = w.now }) w.tables.groups;
      }}
      {y = t} (unfold touch_group in ground arith)
      (touched-Governed g (λ r. record r { updated_at = w.now }) w.tables (λ r. refl) v)

module _ (g p : String) (w : World) where
  pub world-is_group_admin : (is_group_admin g p w).1 ≡ tick w
  unfolding is_group_admin
  world-is_group_admin = ground arith

  pub is_group_admin-Governed : Governed w.tables → Governed (is_group_admin g p w).1.tables
  is_group_admin-Governed v = rw world-is_group_admin v

  is_group_admin-true : (is_group_admin g p w).0 ≡ true → admin_in g p w.tables ≡ true
  unfolding is_group_admin
  is_group_admin-true h = ground arith

  -- Whoever passes the check is an admin, so the group has one.
  pub is_group_admin_pos :
      (is_group_admin g p w).0 ≡ true → 0 < admins_of g (is_group_admin g p w).1.tables
  is_group_admin_pos h =
      rw world-is_group_admin (admins_of-pos g p w.tables (is_group_admin-true h))

  pub tables-is_last_admin : (is_last_admin g p w).1.tables ≡ w.tables
  unfolding is_last_admin
  tables-is_last_admin = ground arith

  -- If the first query is answered and the answer is not "last admin", another admin stays.
  pub is_last_admin-false :
      w.fails w.calls ≡ false
      → not (is_last_admin g p w).0 ≡ true
      → admin_in g p w.tables ≡ true
      → 2 ≤ admins_of g w.tables
  unfolding is_last_admin
  is_last_admin-false read h is_admin = ground arith
