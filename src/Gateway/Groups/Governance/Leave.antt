-- ===== src/Gateway/Groups/Governance/Leave.antt =====
-- `leaveGroup` keeps every group governed.
use mathlib.Core.Path.{subst}
use wire_server.Prelude.{
  ◌+◌, String, Bool, true, false, Option, some, ◌≡◌, arith, sym, ◌∙◌, Bool-cases, inl, inr,
}
use wire_server.Storage.Rows.{Tables}
use wire_server.Storage.Statements.{delete_member}
use wire_server.Storage.Pool.{World, begin, tx_exec, commit, rollback, tick}
use wire_server.Storage.Transactions.{TxMeets, tables-begin}
use wire_server.Gateway.Http.{Claims, current_user_phone}
use wire_server.Gateway.Http.Paths.{
  ensure_op-then, op-then, then_ensure_reply, ensure-then, unwrap-then,
}
use wire_server.Gateway.Groups.Access.{member_in, is_group_member}
use wire_server.Gateway.Groups.Governed.{Governed}
use wire_server.Gateway.Groups.Removal.{removed}
use wire_server.Gateway.Groups.Departure.{Leavable, Left, removed-Left}
use wire_server.Gateway.Groups.Members.{is_last_admin}
use wire_server.Gateway.Groups.Leave.{leave_group, leave_in_tx, promote_successor, drop_if_empty}
use wire_server.Gateway.Groups.Governance.{GovernedWorld, tables-is_last_admin, is_last_admin-false}
use wire_server.Gateway.Groups.Governance.Pending.{
  Pending, begin-Governed, begin-Pending, tx_exec-Pending, commit-Governed,
}
use wire_server.Gateway.Groups.Governance.Succession.{
  Copy, stay-TxMeets, succeed-TxMeets, drop_if_empty-TxMeets, tables-promote_successor,
  tables-drop_if_empty,
}

tx-is_last_admin : (g p : String) (w : World) → (is_last_admin g p w).1.tx ≡ w.tx
unfolding is_last_admin
tx-is_last_admin g p w = ground arith

delete-Left :
    (g p : String) (t t' : Tables) → Leavable g p t → delete_member g p t ≡ some t' → Left g t'
delete-Left g p t t' l h =
    subst (Left g) {x = removed g p t} {y = t'} (unfold delete_member in ground arith)
      (removed-Left g p t l)

reads-begin : (w : World) → (begin w).1.fails (begin w).1.calls ≡ w.fails (w.calls + 1)
unfolding begin
reads-begin w = ground arith

-- What the answer "last admin" or not leads to.
succession-Pending :
    (g p : String) (w : World)
    → w.fails w.calls ≡ false
    → member_in g p w.tables ≡ true
    → Pending (Copy w.tables) w
    → Pending
        (Leavable g p)
        (promote_successor g p (is_last_admin g p w).0 (is_last_admin g p w).1).1
succession-Pending g p w read member v = record {
  committed =
      subst Governed (sym (tables-promote_successor g p last w' ∙ tables-is_last_admin g p w))
        v.committed;
  built = elim (Bool-cases last) [
    | inl is_last ↦ rw is_last (succeed-TxMeets g p w.tables w' built)
    | inr other ↦ rw other (
        unfold promote_successor in
        stay-TxMeets g p w.tables member (is_last_admin-false g p w read (ground arith)) w'.tx
          built)
  ];
}
  where
    last : Bool
    last = (is_last_admin g p w).0

    w' : World
    w' = (is_last_admin g p w).1

    built : TxMeets (Copy w.tables) w'.tx
    built = subst (TxMeets (Copy w.tables)) (sym (tx-is_last_admin g p w)) v.built

leave_in_tx-Governed :
    (g p : String) (w : World)
    → w.fails (w.calls + 1) ≡ false
    → member_in g p w.tables ≡ true
    → Governed w.tables
    → GovernedWorld (leave_in_tx g p w)
unfolding leave_in_tx
leave_in_tx-Governed g p w read member v =
    ensure_op-then GovernedWorld begin _ _ w (begin-Governed w v) λ began.
      let w₁ = (begin w).1 in
      let p₃ =
        succession-Pending g p w₁ (rw (reads-begin w) read) (rw (tables-begin w) member)
          (begin-Pending (Copy w₁.tables) w v (v, sym (tables-begin w)) began) in
      let p₄ = tx_exec-Pending (delete_member g p) (Leavable g p) (Left g) _ (delete-Left g p) p₃ in
      let p₅ : Pending Governed
          (drop_if_empty g
            (tx_exec (delete_member g p)
              (promote_successor g p (is_last_admin g p w₁).0 (is_last_admin g p w₁).1).1).1).1 =
        record {
          committed = subst Governed (sym (tables-drop_if_empty g p _)) p₄.committed;
          built = drop_if_empty-TxMeets g _ p₄.built;
        } in
      let v₆ = commit-Governed _ p₅ in
      op-then GovernedWorld (is_last_admin g p) _ w₁ (
        op-then GovernedWorld (promote_successor g p (is_last_admin g p w₁).0) _ _ (
          ensure_op-then GovernedWorld (tx_exec (delete_member g p)) _ _ _ p₄.committed λ _.
            op-then GovernedWorld (drop_if_empty g) _ _
              (then_ensure_reply GovernedWorld commit _ _ _ v₆ v₆)))

is_group_member-true :
    (g p : String) (w : World)
    → (is_group_member g p w).0 ≡ true
    → member_in g p (is_group_member g p w).1.tables ≡ true
unfolding is_group_member
is_group_member-true g p w h = ground arith

pub world-is_group_member : (g p : String) (w : World) → (is_group_member g p w).1 ≡ tick w
unfolding is_group_member
world-is_group_member g p w = ground arith

-- `leaveGroup` keeps it so that every group that has a row or members has an admin and nobody is
-- a member of a group twice, if the query whether the leaver is an admin does not fail; every
-- other call of the database, the commit included, may fail.
pub leave_group-Governed :
    (claims : Option Claims) (g : String) (w : World)
    → w.fails (w.calls + 2) ≡ false
    → Governed w.tables
    → Governed (leave_group claims g w).1.tables
unfolding leave_group rollback
leave_group-Governed claims g w read v =
    unwrap-then GovernedWorld (current_user_phone claims) _ _ w v λ p _.
      ensure-then GovernedWorld _ _ _ w v λ _.
        let v' : Governed (is_group_member g p w).1.tables = rw world-is_group_member v in
        ensure_op-then GovernedWorld (is_group_member g p) _ _ w v' λ member.
          let e : w.calls + 1 + 1 ≡ w.calls + 2 = omega arith in
          leave_in_tx-Governed g p (is_group_member g p w).1 (rw world-is_group_member (rw e read))
            (is_group_member-true g p w member) v'
