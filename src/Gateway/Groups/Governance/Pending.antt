-- ===== src/Gateway/Groups/Governance/Pending.antt =====
-- A transaction of a group handler: the committed tables stay governed while it builds its own.
use mathlib.Core.Path.{subst}
use wire_server.Prelude.{true, some, ◌≡◌, sym}
use wire_server.Storage.Rows.{Tables}
use wire_server.Storage.Pool.{World, Statement, begin, tx_exec, tx_query, commit}
use wire_server.Storage.Transactions.{
  TxMeets, tables-begin, begin-TxMeets, tables-tx_exec, tx_exec-TxMeets, tables-tx_query,
  tx_query-TxMeets, commit-tables,
}
use wire_server.Gateway.Groups.Governed.{Governed}

pub record Pending (P : Tables → Type 0) (w : World) : Type 0 where
  pub committed : Governed w.tables
  pub built : TxMeets P w.tx

pub begin-Governed : (w : World) → Governed w.tables → Governed (begin w).1.tables
begin-Governed w v = subst Governed (sym (tables-begin w)) v

pub begin-Pending :
    (P : Tables → Type 0) (w : World)
    → Governed w.tables
    → P w.tables
    → (begin w).0 ≡ true
    → Pending P (begin w).1
begin-Pending P w v p began = record {
  committed = begin-Governed w v;
  built = begin-TxMeets P w p began;
}

pub tx_exec-Pending :
    (stmt : Statement) (P Q : Tables → Type 0) (w : World)
    → ((t t' : Tables) → P t → stmt t ≡ some t' → Q t')
    → Pending P w
    → Pending Q (tx_exec stmt w).1
tx_exec-Pending stmt P Q w step p = record {
  committed = subst Governed (sym (tables-tx_exec stmt w)) p.committed;
  built = tx_exec-TxMeets stmt P Q step w p.built;
}

pub tx_query-Pending {ℓ} :
    {A : Type ℓ} (q : Tables → A) (P : Tables → Type 0) (w : World)
    → Pending P w
    → Pending P (tx_query q w).1
tx_query-Pending q P w p = record {
  committed = subst Governed (sym (tables-tx_query q w)) p.committed;
  built = tx_query-TxMeets q P w p.built;
}

pub commit-Governed : (w : World) → Pending Governed w → Governed (commit w).1.tables
commit-Governed w p = commit-tables Governed w p.committed p.built
