-- ===== src/Gateway/Groups/Governance/Create.antt =====
-- `createGroup` keeps every group governed.
use mathlib.Core.Path.{subst}
use wire_server.Prelude.{
  ℕ, ◌<◌, String, Option, some, List, [], ◌∷◌, ◌++◌, ◌≡◌, refl, arith, Bool-cases, inl, inr,
}
use wire_server.Storage.Rows.{Group, Tables}
use wire_server.Storage.Statements.{insert_group, insert_creator, insert_member, creator_rows}
use wire_server.Storage.Pool.{
  World, Transaction, idle, open_tx, aborted, begin, tx_exec, commit, rollback,
}
use wire_server.Storage.Transactions.{TxMeets}
use wire_server.Gateway.Http.{Claims, current_user_phone}
use wire_server.Gateway.Http.Paths.{ensure_op-then, then_ensure_reply, ensure-then, unwrap-then}
use wire_server.Gateway.Groups.Access.{admins_of, dedupe_ids}
use wire_server.Gateway.Groups.Governed.{Governed, creator-Governed, new_group-Governed}
use wire_server.Gateway.Groups.Create.{
  create_group, create_in_tx, tx_add_each, CreateGroupRequest, new_group, random_hex, group_id_at,
}
use wire_server.Gateway.Groups.Governance.{GovernedWorld}
use wire_server.Gateway.Groups.Governance.Members.{Addable, insert_member-Addable}
use wire_server.Gateway.Groups.Governance.Pending.{
  Pending, begin-Governed, begin-Pending, tx_exec-Pending, commit-Governed,
}

-- Governed tables to which the row of a new group was added.
record Listing (r : Group) (t : Tables) : Type 0 where
  before : Tables
  governed : Governed before
  added : t ≡ record before { groups = before.groups ++ r ∷ [] }

insert_group-Listing :
    (r : Group) (t t' : Tables) → Governed t → insert_group r t ≡ some t' → Listing r t'
insert_group-Listing r t t' v h = record {
  before = t;
  governed = v;
  added = unfold insert_group in ground arith;
}

creator-Addable :
    (r : Group) (p : String) (now : ℕ) (t t' : Tables)
    → Listing r t
    → insert_creator r.id p now t ≡ some t'
    → Addable r.id t'
unfolding admins_of
creator-Addable r p now t t' l h =
    subst (Addable r.id) {x = record u { groups = u.groups ++ r ∷ [] }} {y = t'}
      (unfold insert_creator in ground (arith, l.added))
      (record { governed = new_group-Governed r u led.1 led.0; pos = led.1 })
  where
    u : Tables
    u = record l.before { group_members = creator_rows r.id p now l.before.group_members }

    led : Governed u × (0 < admins_of r.id u)
    led = creator-Governed r.id p now l.before (unfold insert_creator in refl) l.governed

tx_add_each-Pending :
    (g by : String) (ps : List String) (w : World)
    → Pending (Addable g) w
    → Pending (Addable g) (tx_add_each g by ps w).1
unfolding tx_add_each
tx_add_each-Pending g by [] w a = a
tx_add_each-Pending g by (p ∷ ps) w a =
    let stmt = insert_member g p by w.now in
    let a' =
      tx_exec-Pending stmt (Addable g) (Addable g) w
        (λ t t' v h. insert_member-Addable g p by w.now t h v) a in
    elim (Bool-cases (tx_exec stmt w).0) [
      | inl inserted ↦ rw inserted (tx_add_each-Pending g by ps (tx_exec stmt w).1 a')
      | inr failed ↦ rw failed a'
    ]

Addable-Governed : (g : String) (w : World) → Pending (Addable g) w → Pending Governed w
Addable-Governed g w p = record { committed = p.committed; built = go w.tx p.built }
  where
    go : (x : Transaction) → TxMeets (Addable g) x → TxMeets Governed x
    go idle v = tt
    go aborted v = tt
    go (open_tx t) v = v.governed

create_in_tx-Governed :
    (g : String) (req : CreateGroupRequest) (user code : String) (w : World)
    → Governed w.tables
    → GovernedWorld (create_in_tx g req user code w)
unfolding create_in_tx new_group
create_in_tx-Governed g req user code w v =
    ensure_op-then GovernedWorld begin _ _ w (begin-Governed w v) λ began.
      let r = new_group g req user code w.now in
      let p₁ = begin-Pending Governed w v v began in
      let p₂ =
        tx_exec-Pending (insert_group r) Governed (Listing r) _ (insert_group-Listing r) p₁ in
      let p₃ =
        tx_exec-Pending (insert_creator g user w.now) (Listing r) (Addable g) _
          (creator-Addable r user w.now) p₂ in
      let p₄ = tx_add_each-Pending g user (dedupe_ids req.member_phones user) _ p₃ in
      let v₅ = commit-Governed _ (Addable-Governed g _ p₄) in
      ensure_op-then GovernedWorld (tx_exec (insert_group r)) _ _ _ p₂.committed λ _.
        ensure_op-then GovernedWorld (tx_exec (insert_creator g user w.now)) _ _ _ p₃.committed λ _.
          ensure_op-then GovernedWorld (tx_add_each g user (dedupe_ids req.member_phones user)) _ _
            _ p₄.committed λ _. then_ensure_reply GovernedWorld commit _ _ _ v₅ v₅

-- `createGroup` keeps it so that every group that has a row or members has an admin and nobody
-- is a member of a group twice, whatever calls of the database fail.
pub create_group-Governed :
    (claims : Option Claims) (body : Option CreateGroupRequest) (rand : Option (List ℕ)) (w : World)
    → Governed w.tables
    → Governed (create_group claims body rand w).1.tables
unfolding create_group rollback
create_group-Governed claims body rand w v =
    unwrap-then GovernedWorld (current_user_phone claims) _ _ w v λ user _.
      unwrap-then GovernedWorld body _ _ w v λ req _. ensure-then GovernedWorld _ _ _ w v λ _.
        unwrap-then GovernedWorld (random_hex rand) _ _ w v
          λ code _. create_in_tx-Governed (group_id_at w.now) req user code w v
