-- ===== src/Gateway/Groups/Governance/Members.antt =====
-- `addGroupMembers` and `removeGroupMember` keep every group governed.
use wire_server.Prelude.{
  ℕ, ◌+◌, ◌≤◌, ◌<◌, String, true, false, not, Option, some, List, [], ◌∷◌, ◌≡◌, inl, inr, arith,
  Bool-cases, sym,
}
use mathlib.Core.Path.{subst}
use wire_server.Storage.Rows.{Tables}
use wire_server.Storage.Statements.{delete_member, insert_member}
use wire_server.Storage.Pool.{World, exec}
use wire_server.Gateway.Http.{Claims, current_user_phone}
use wire_server.Gateway.Http.Paths.{
  ensure_op-then, op-then, then_reply, ensure-then, unwrap-then, exec-tables,
}
use wire_server.Gateway.Groups.Access.{admin_in, admins_of, is_group_admin, dedupe_ids}
use wire_server.Gateway.Groups.Governed.{
  Governed, insert_member-Governed, admins_of-le-insert_member,
}
use wire_server.Gateway.Groups.Removal.{removed, removed-Governed, removed_admins}
use wire_server.Gateway.Groups.Members.{
  remove_group_member, add_group_members, add_each, is_last_admin, touch,
}
use wire_server.Gateway.Groups.Governance.{
  GovernedWorld, touch-Governed, world-is_group_admin, is_group_admin-Governed, is_group_admin_pos,
  tables-is_last_admin, is_last_admin-false,
}

-- What a removal needs of the tables.
record Removable (g p : String) (t : Tables) : Type 0 where
  governed : Governed t
  pos : 0 < admins_of g t
  spare : admin_in g p t ≡ true → 2 ≤ admins_of g t

delete_member-Governed :
    (g p : String) (w : World)
    → Removable g p w.tables
    → Governed (exec (delete_member g p) w).1.tables
delete_member-Governed g p w r = exec-tables Governed (delete_member g p) w r.governed λ t h.
    subst Governed {x = removed g p w.tables} {y = t} (unfold delete_member in ground arith) (
      removed-Governed g p w.tables (removed_admins g p w.tables r.governed r.pos r.spare)
        r.governed)

-- `removeGroupMember` keeps it so that every group that has a row or members has an admin and
-- nobody is a member of a group twice, if the query whether the target is an admin does not
-- fail; every other call of the database may fail.
pub remove_group_member-Governed :
    (claims : Option Claims) (g p : String) (w : World)
    → w.fails (w.calls + 1) ≡ false
    → Governed w.tables
    → Governed (remove_group_member claims g p w).1.tables
unfolding remove_group_member
remove_group_member-Governed claims g p w read v =
    unwrap-then GovernedWorld (current_user_phone claims) _ _ w v λ user _.
      let w' = (is_group_admin g user w).1 in
      let v' : Governed w'.tables = is_group_admin-Governed g user w v in
      ensure_op-then GovernedWorld (is_group_admin g user) _ _ w v' λ allowed.
        ensure-then GovernedWorld _ _ _ w' v' λ _. op-then GovernedWorld (is_last_admin g p) _ w' (
          ensure-then GovernedWorld _ _ _ (is_last_admin g p w').1
            (subst Governed (sym (tables-is_last_admin g p w')) v')
            λ kept.
              ensure_op-then GovernedWorld (exec (delete_member g p)) _ _ _
                (delete user allowed kept)
                λ _.
                  then_reply GovernedWorld (touch g) _ _
                    (touch-Governed g _ (delete user allowed kept)))
  where
    delete :
        (user : String)
        → (is_group_admin g user w).0 ≡ true
        → not (is_last_admin g p (is_group_admin g user w).1).0 ≡ true
        → Governed
            (exec (delete_member g p) (is_last_admin g p (is_group_admin g user w).1).1).1.tables
    delete user allowed kept =
        let w' = (is_group_admin g user w).1 in
        delete_member-Governed g p (is_last_admin g p w').1 (
          subst (Removable g p) (sym (tables-is_last_admin g p w')) (record {
            governed = is_group_admin-Governed g user w v;
            pos = is_group_admin_pos g user w allowed;
            spare = is_last_admin-false g p w' (rw world-is_group_admin read) kept;
          }))

-- The group has an admin, so members may be added.
pub record Addable (g : String) (t : Tables) : Type 0 where
  pub governed : Governed t
  pub pos : 0 < admins_of g t

pub insert_member-Addable :
    (g p by : String) (now : ℕ) (t : Tables) {t' : Tables}
    → insert_member g p by now t ≡ some t'
    → Addable g t
    → Addable g t'
insert_member-Addable g p by now t h a = record {
  governed = insert_member-Governed g p by now t h a.pos a.governed;
  pos = omega (arith, a.pos, admins_of-le-insert_member g p by now t h);
}

add_each-Addable :
    (g by : String) (ps : List String) (w : World)
    → Addable g w.tables
    → Addable g (add_each g by ps w).1.tables
unfolding add_each
add_each-Addable g by [] w a = a
add_each-Addable g by (p ∷ ps) w a =
    let a' : Addable g (exec (insert_member g p by w.now) w).1.tables =
      exec-tables (Addable g) (insert_member g p by w.now) w a
        (λ t h. insert_member-Addable g p by w.now w.tables h a) in
    elim (Bool-cases (exec (insert_member g p by w.now) w).0) [
      | inl inserted ↦
          rw inserted (add_each-Addable g by ps (exec (insert_member g p by w.now) w).1 a')
      | inr failed ↦ rw failed a'
    ]

-- `addGroupMembers` keeps it so that every group that has a row or members has an admin and
-- nobody is a member of a group twice, whatever calls of the database fail.
pub add_group_members-Governed :
    (claims : Option Claims) (g : String) (body : Option (List String)) (w : World)
    → Governed w.tables
    → Governed (add_group_members claims g body w).1.tables
unfolding add_group_members
add_group_members-Governed claims g body w v =
    unwrap-then GovernedWorld (current_user_phone claims) _ _ w v λ user _.
      let w' = (is_group_admin g user w).1 in
      let v' : Governed w'.tables = is_group_admin-Governed g user w v in
      ensure_op-then GovernedWorld (is_group_admin g user) _ _ w v' λ allowed.
        let pos = is_group_admin_pos g user w allowed in
        unwrap-then GovernedWorld body _ _ w' v' λ phones _.
          let v'' =
            (add_each-Addable g user (dedupe_ids phones "") w'
              (record { governed = v'; pos = pos })).governed in
          ensure_op-then GovernedWorld (add_each g user (dedupe_ids phones "")) _ _ w' v''
            λ _. then_reply GovernedWorld (touch g) _ _ (touch-Governed g _ v'')
