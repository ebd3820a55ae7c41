-- ===== src/Gateway/Groups/Atomic.antt =====
-- `createGroup` and `leaveGroup` change everything or nothing.
use wire_server.Prelude.{
  ℕ, String, true, false, Option, List, [], ◌∷◌, ◌≡◌, refl, ap, ◌∙◌, inl, inr, Bool-cases, arith,
}
use wire_server.Storage.Statements.{insert_group, insert_creator, insert_member, delete_member}
use wire_server.Storage.Pool.{World, begin, tx_exec, commit, rollback}
use wire_server.Storage.Transactions.{tables-begin, tables-tx_exec, commit-failed}
use wire_server.Gateway.Http.{
  Claims, Reply, Flow, next, done, op, ensure, reply, ◌>>=◌, ◌>>◌, current_user_phone, result,
  write_json,
}
use wire_server.Gateway.Http.Paths.{Ending, ensure-then, unwrap-then, op-then, ensure_op-then}
use wire_server.Gateway.Groups.Access.{dedupe_ids, is_group_member}
use wire_server.Gateway.Groups.Create.{
  CreateGroupRequest, create_group, create_in_tx, new_group, tx_add_each, random_hex, group_id_at,
}
use wire_server.Gateway.Groups.Leave.{leave_group, leave_in_tx, promote_successor, drop_if_empty}
use wire_server.Gateway.Groups.Members.{is_last_admin}
use wire_server.Gateway.Groups.Governance.{tables-is_last_admin}
use wire_server.Gateway.Groups.Governance.Succession.{
  tables-promote_successor, tables-drop_if_empty,
}
use wire_server.Gateway.Groups.Governance.Leave.{world-is_group_member}

-- A handler that has not succeeded leaves the tables as they were.
abbrev Atomic : World → Ending
Atomic w₀ (next r, w) = r.success ≡ true
Atomic w₀ (done r, w) = w.tables ≡ w₀.tables

commit_reply :
    (w₀ : World) (refused r : Reply) (w : World)
    → w.tables ≡ w₀.tables
    → r.success ≡ true
    → Atomic w₀ ((op commit >>= λ b. ensure b refused >> reply r) w)
unfolding ◌>>=◌
commit_reply w₀ refused r w same good = elim (Bool-cases (commit w).0) [
  | inl fine ↦ rw fine good
  | inr lost ↦ rw lost (commit-failed w lost ∙ same)
]

tables-tx_add_each :
    (g by : String) (ps : List String) (w : World) → (tx_add_each g by ps w).1.tables ≡ w.tables
unfolding tx_add_each
tables-tx_add_each g by [] w = refl
tables-tx_add_each g by (p ∷ ps) w =
    let stmt = insert_member g p by w.now in
    elim (Bool-cases (tx_exec stmt w).0) [
      | inl inserted ↦
          rw inserted (tables-tx_add_each g by ps (tx_exec stmt w).1 ∙ tables-tx_exec stmt w)
      | inr failed ↦ rw failed (tables-tx_exec stmt w)
    ]

create_in_tx-Atomic :
    (g : String) (req : CreateGroupRequest) (user code : String) (w₀ w : World)
    → w.tables ≡ w₀.tables
    → Atomic w₀ (create_in_tx g req user code w)
unfolding create_in_tx write_json
create_in_tx-Atomic g req user code w₀ w same =
    let r = new_group g req user code w.now in
    let e₁ = tables-begin w ∙ same in
    let e₂ = tables-tx_exec (insert_group r) (begin w).1 ∙ e₁ in
    let e₃ = tables-tx_exec (insert_creator g user w.now) _ ∙ e₂ in
    let e₄ = tables-tx_add_each g user (dedupe_ids req.member_phones user) _ ∙ e₃ in
    ensure_op-then (Atomic w₀) begin _ _ w e₁ λ _.
      ensure_op-then (Atomic w₀) (tx_exec (insert_group r)) _ _ _ e₂ λ _.
        ensure_op-then (Atomic w₀) (tx_exec (insert_creator g user w.now)) _ _ _ e₃ λ _.
          ensure_op-then (Atomic w₀) (tx_add_each g user (dedupe_ids req.member_phones user)) _ _ _
            e₄ λ _. commit_reply w₀ _ _ _ e₄ refl

leave_in_tx-Atomic :
    (g user : String) (w₀ w : World) → w.tables ≡ w₀.tables → Atomic w₀ (leave_in_tx g user w)
unfolding leave_in_tx write_json
leave_in_tx-Atomic g user w₀ w same =
    let e₁ = tables-begin w ∙ same in
    let w₁ = (begin w).1 in
    let last = (is_last_admin g user w₁).0 in
    let e₂ = tables-is_last_admin g user w₁ ∙ e₁ in
    let e₃ = tables-promote_successor g user last (is_last_admin g user w₁).1 ∙ e₂ in
    let e₄ = tables-tx_exec (delete_member g user) _ ∙ e₃ in
    let e₅ = tables-drop_if_empty g user _ ∙ e₄ in
    ensure_op-then (Atomic w₀) begin _ _ w e₁ λ _. op-then (Atomic w₀) (is_last_admin g user) _ w₁ (
      op-then (Atomic w₀) (promote_successor g user last) _ _ (
        ensure_op-then (Atomic w₀) (tx_exec (delete_member g user)) _ _ _ e₄
          λ _. op-then (Atomic w₀) (drop_if_empty g) _ _ (commit_reply w₀ _ _ _ e₅ refl)))

rollback-Atomic :
    (w₀ : World) (end : Flow Reply × World) → Atomic w₀ end → Atomic w₀ (end.0, rollback end.1)
unfolding rollback
rollback-Atomic w₀ (next r, w) h = h
rollback-Atomic w₀ (done r, w) h = h

unsuccessful :
    (w₀ : World) (end : Flow Reply × World)
    → Atomic w₀ end
    → (result end.0).success ≡ false
    → end.1.tables ≡ w₀.tables
unsuccessful w₀ (next r, w) h refused = absurd (ground (arith, h, refused))
unsuccessful w₀ (done r, w) h refused = h

-- Unless `createGroup` answers success it leaves the tables as they were, whatever calls of the
-- database fail.
pub create_group-failed :
    (claims : Option Claims) (body : Option CreateGroupRequest) (rand : Option (List ℕ)) (w : World)
    → (create_group claims body rand w).0.success ≡ false
    → (create_group claims body rand w).1.tables ≡ w.tables
unfolding create_group
create_group-failed claims body rand w = unsuccessful w _ (
    unwrap-then (Atomic w) (current_user_phone claims) _ _ w refl λ user _.
      unwrap-then (Atomic w) body _ _ w refl λ req _. ensure-then (Atomic w) _ _ _ w refl λ _.
        unwrap-then (Atomic w) (random_hex rand) _ _ w refl λ code _.
          rollback-Atomic w _ (create_in_tx-Atomic (group_id_at w.now) req user code w w refl))

-- Unless `leaveGroup` answers success it leaves the tables as they were, whatever calls of the
-- database fail.
pub leave_group-failed :
    (claims : Option Claims) (g : String) (w : World)
    → (leave_group claims g w).0.success ≡ false
    → (leave_group claims g w).1.tables ≡ w.tables
unfolding leave_group
leave_group-failed claims g w = unsuccessful w _ (
    unwrap-then (Atomic w) (current_user_phone claims) _ _ w refl λ user _.
      ensure-then (Atomic w) _ _ _ w refl λ _.
        let same = ap (λ v. v.tables) (world-is_group_member g user w) in
        ensure_op-then (Atomic w) (is_group_member g user) _ _ w same
          λ _. rollback-Atomic w _ (leave_in_tx-Atomic g user w (is_group_member g user w).1 same))
