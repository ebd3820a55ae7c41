-- ===== src/Storage/Transactions.antt =====
-- What a transaction may rely on: until it commits, the tables are as they were, and a failed one
-- changes nothing.
use wire_server.Prelude.{true, false, some, ◌≡◌, refl, arith, Bool-cases, Option-cases, inl, inr}
use wire_server.Storage.Rows.{Tables}
use wire_server.Storage.Pool.{
  Transaction, idle, open_tx, aborted, World, Statement, begin, exec_in, tx_exec, query_in,
  tx_query, commit_in, commit,
}

-- The tables that an open transaction has built meet `P`.
abbrev pub TxMeets : (Tables → Type 0) → Transaction → Type 0
TxMeets P idle = Unit
TxMeets P aborted = Unit
TxMeets P (open_tx t) = P t

pub tables-begin : (w : World) → (begin w).1.tables ≡ w.tables
unfolding begin
tables-begin w = ground arith

pub begin-TxMeets :
    (P : Tables → Type 0) (w : World) → P w.tables → (begin w).0 ≡ true → TxMeets P (begin w).1.tx
unfolding begin
begin-TxMeets P w v h = elim (Bool-cases (w.fails w.calls)) [
  | inl failed ↦ absurd (ground arith)
  | inr reached ↦ rw reached v
]

module _ (stmt : Statement) where
  tables-exec_in : (x : Transaction) (w : World) → (exec_in stmt x w).1.tables ≡ w.tables
  tables-exec_in idle w = refl
  tables-exec_in aborted w = refl
  tables-exec_in (open_tx t) w = ground arith

  pub tables-tx_exec : (w : World) → (tx_exec stmt w).1.tables ≡ w.tables
  unfolding tx_exec
  tables-tx_exec w = tables-exec_in w.tx w

  module _ (P Q : Tables → Type 0) (step : (t t' : Tables) → P t → stmt t ≡ some t' → Q t') where
    exec_in-TxMeets :
        (x : Transaction) (w : World) → TxMeets P x → w.tx ≡ x → TxMeets Q (exec_in stmt x w).1.tx
    exec_in-TxMeets idle w v e = rw e tt
    exec_in-TxMeets aborted w v e = rw e tt
    exec_in-TxMeets (open_tx t) w v e = elim (Bool-cases (w.fails w.calls)) [
      | inl failed ↦ rw failed tt
      | inr reached ↦ elim (Option-cases (stmt t)) [
        | inl refused ↦ rw (reached, refused) tt
        | inr (t', applied) ↦ rw (reached, applied) (step t t' v applied)
      ]
    ]

    pub tx_exec-TxMeets : (w : World) → TxMeets P w.tx → TxMeets Q (tx_exec stmt w).1.tx
    unfolding tx_exec
    tx_exec-TxMeets w v = exec_in-TxMeets w.tx w v refl

module _ {ℓ} {A : Type ℓ} (q : Tables → A) (P : Tables → Type 0) where
  query_in-TxMeets :
      (x : Transaction) (w : World) → TxMeets P x → w.tx ≡ x → TxMeets P (query_in q x w).1.tx
  query_in-TxMeets idle w v e = rw e tt
  query_in-TxMeets aborted w v e = rw e tt
  query_in-TxMeets (open_tx t) w v e = elim (Bool-cases (w.fails w.calls)) [
    | inl failed ↦ rw failed tt
    | inr reached ↦ rw (reached, e) v
  ]

  pub tx_query-TxMeets : (w : World) → TxMeets P w.tx → TxMeets P (tx_query q w).1.tx
  unfolding tx_query
  tx_query-TxMeets w v = query_in-TxMeets w.tx w v refl

module _ {ℓ} {A : Type ℓ} (q : Tables → A) where
  tables-query_in : (x : Transaction) (w : World) → (query_in q x w).1.tables ≡ w.tables
  tables-query_in idle w = refl
  tables-query_in aborted w = refl
  tables-query_in (open_tx t) w = ground arith

  pub tables-tx_query : (w : World) → (tx_query q w).1.tables ≡ w.tables
  unfolding tx_query
  tables-tx_query w = tables-query_in w.tx w

-- A commit publishes what the transaction built, or changes nothing.
commit_in-tables :
    (C : Tables → Type 0) (x : Transaction) (w : World)
    → C w.tables
    → TxMeets C x
    → C (commit_in x w).1.tables
commit_in-tables C idle w c v = c
commit_in-tables C aborted w c v = c
commit_in-tables C (open_tx t) w c v = elim (Bool-cases (w.fails w.calls)) [
  | inl failed ↦ rw failed c
  | inr reached ↦ rw reached v
]

pub commit-tables :
    (C : Tables → Type 0) (w : World) → C w.tables → TxMeets C w.tx → C (commit w).1.tables
unfolding commit
commit-tables C w c v = commit_in-tables C w.tx w c v

commit_in-failed :
    (x : Transaction) (w : World) → (commit_in x w).0 ≡ false → (commit_in x w).1.tables ≡ w.tables
commit_in-failed idle w h = refl
commit_in-failed aborted w h = refl
commit_in-failed (open_tx t) w h = ground arith

pub commit-failed : (w : World) → (commit w).0 ≡ false → (commit w).1.tables ≡ w.tables
unfolding commit
commit-failed w h = commit_in-failed w.tx w h
