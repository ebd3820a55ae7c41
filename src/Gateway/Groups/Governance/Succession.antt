-- ===== src/Gateway/Groups/Governance/Succession.antt =====
-- Inside the transaction of `leaveGroup`: the successor of the last admin, and the end of an empty
-- group.
use mathlib.Core.Path.{subst}
use wire_server.Prelude.{
  ◌+◌, ◌≤◌, String, Bool, true, false, Option, none, some, ◌≡◌, refl, arith, sym, ◌∙◌, Bool-cases,
  Option-cases, inl, inr, nat_eq,
}
use wire_server.Storage.Rows.{admin, Tables}
use wire_server.Storage.Statements.{set_role, delete_group, touch_group, oldest_other}
use wire_server.Storage.Pool.{World, Transaction, idle, open_tx, aborted, tx_exec, tx_query}
use wire_server.Storage.Transactions.{TxMeets, tables-tx_exec, tables-tx_query}
use wire_server.Gateway.Groups.Access.{admins_of, members_of, member_in, admin_in}
use wire_server.Gateway.Groups.Governed.{Governed, touched-Governed}
use wire_server.Gateway.Groups.Removal.{removed_admins}
use wire_server.Gateway.Groups.Departure.{
  Leavable, nobody_else, promoted-Leavable, Left, members_of-pos,
}
use wire_server.Gateway.Groups.Leave.{promote_successor, promote_found, drop_if_empty}

-- The transaction holds the tables that were read.
abbrev pub Copy : Tables → Tables → Type 0
Copy t₀ t = Governed t × (t ≡ t₀)

module _ (g p : String) (t₀ : Tables) where
  -- Whoever is not the last admin may leave at once.
  pub stay-TxMeets :
      (member : member_in g p t₀ ≡ true)
      → (admin_in g p t₀ ≡ true → 2 ≤ admins_of g t₀)
      → (x : Transaction) → TxMeets (Copy t₀) x
      → TxMeets (Leavable g p) x
  stay-TxMeets member spare idle v = tt
  stay-TxMeets member spare aborted v = tt
  stay-TxMeets member spare (open_tx t) v = subst (Leavable g p) (sym v.1) (record {
    governed = v';
    left = inl (removed_admins g p t₀ v' (v'.led g (members_of-pos g p t₀ member)) spare);
  })
    where
      v' : Governed t₀
      v' = subst Governed v.1 v.0

  -- The last admin leaves a successor or nobody.
  pub succeed-TxMeets :
      (w : World)
      → TxMeets (Copy t₀) w.tx
      → TxMeets (Leavable g p) (promote_successor g p true w).1.tx
  unfolding promote_successor promote_found tx_query tx_exec
  succeed-TxMeets w v = go w.tx refl v
    where
      go :
          (x : Transaction)
          → w.tx ≡ x
          → TxMeets (Copy t₀) x
          → TxMeets (Leavable g p) (promote_successor g p true w).1.tx
      go idle e v = rw e tt
      go aborted e v = rw e tt
      go (open_tx t) e v = elim (Bool-cases (w.fails w.calls)) [
        | inl failed ↦ rw (e, failed) tt
        | inr reached ↦ elim (Option-cases (oldest_other g p t)) [
          | inl missing ↦
              rw (e, reached, missing)
                (record { governed = v.0; left = inr (nobody_else g p t missing) })
          | inr (q, found) ↦ elim (Bool-cases (w.fails (w.calls + 1))) [
            | inl failed ↦ rw (e, reached, found, failed) tt
            | inr again ↦ rw (e, reached, found, again) (promoted-Leavable g p q t found v.0)
          ]
        ]
      ]

-- An empty group's row is deleted, and no other group's.
pub drop_if_empty-TxMeets :
    (g : String) (w : World) → TxMeets (Left g) w.tx → TxMeets Governed (drop_if_empty g w).1.tx
unfolding drop_if_empty tx_query tx_exec
drop_if_empty-TxMeets g w v = go w.tx refl v
  where
    go :
        (x : Transaction)
        → w.tx ≡ x
        → TxMeets (Left g) x
        → TxMeets Governed (drop_if_empty g w).1.tx
    go idle e v = rw e tt
    go aborted e v = rw e tt
    go (open_tx t) e v = elim (Bool-cases (w.fails w.calls)) [
      | inl failed ↦ rw (e, failed) tt
      | inr reached ↦ elim (Bool-cases (nat_eq (members_of g t) 0)) [
        | inl empty ↦ elim (Bool-cases (w.fails (w.calls + 1))) [
          | inl failed ↦ rw (e, reached, empty, failed) tt
          | inr again ↦ rw (e, reached, empty, again) v.dropped
        ]
        | inr some_member ↦ elim (Bool-cases (w.fails (w.calls + 1))) [
          | inl failed ↦ rw (e, reached, some_member, failed) tt
          | inr again ↦
              rw (e, reached, some_member, again)
                (touched-Governed g (λ r. record r { updated_at = w.now }) t (λ r. refl)
                  (v.kept (ground arith)))
        ]
      ]
    ]

-- The statements inside the transaction leave the committed tables alone.
module _ (g p : String) where
  pub tables-promote_successor :
      (last : Bool) (w : World) → (promote_successor g p last w).1.tables ≡ w.tables
  unfolding promote_successor promote_found
  tables-promote_successor false w = refl
  tables-promote_successor true w = elim (Option-cases (tx_query (oldest_other g p) w).0) [
    | inl failed ↦ rw failed (tables-tx_query (oldest_other g p) w)
    | inr (o, answered) ↦ rw answered (go o)
  ]
    where
      w' : World
      w' = (tx_query (oldest_other g p) w).1

      go : (o : Option String) → (promote_found g o w').1.tables ≡ w.tables
      go none = tables-tx_query (oldest_other g p) w
      go (some q) = tables-tx_exec (set_role admin g q) w' ∙ tables-tx_query (oldest_other g p) w

  pub tables-drop_if_empty : (w : World) → (drop_if_empty g w).1.tables ≡ w.tables
  unfolding drop_if_empty
  tables-drop_if_empty w =
      let w' = (tx_query (members_of g) w).1 in
      ground (
        arith,
        tables-tx_query (members_of g) w,
        tables-tx_exec (delete_group g) w',
        tables-tx_exec (touch_group g w'.now) w',
      )
