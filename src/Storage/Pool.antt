-- ===== src/Storage/Pool.antt =====
-- The connection pool as a handler sees it. Any call may fail: `fails` says which, by the number of
-- the call. A transaction works on a copy of the tables; once a statement of it has failed Postgres
-- refuses all that follow, and a commit rolls back. No other handler writes between two calls.
use wire_server.Prelude.{ℕ, ◌+◌, Bool, true, false, Option, none, some, if◌then◌else◌}
use wire_server.Storage.Rows.{Tables}

pub data Transaction : Type 0 where
  idle : Transaction
  open_tx : Tables → Transaction
  aborted : Transaction

pub record World : Type 0 where
  pub tables : Tables
  pub tx : Transaction
  pub fails : ℕ → Bool
  pub calls : ℕ
  pub now : ℕ

abbrev pub Statement : Type 0
Statement = Tables → Option Tables

abbrev pub tick : World → World
tick w = record w { calls = w.calls + 1 }

abbrev pub apply_to : World → Option Tables → Bool × World
apply_to w none = (false, tick w)
apply_to w (some t) = (true, record w { calls = w.calls + 1; tables = t })

-- `s.DB.Exec`: whether it succeeded.
unfoldable pub exec : Statement → World → Bool × World
exec stmt w = if w.fails w.calls then (false, tick w) else apply_to w (stmt w.tables)

-- `s.DB.Query`, `s.DB.QueryRow(…).Scan`: `none` is an error.
unfoldable pub query {ℓ} : {A : Type ℓ} → (Tables → A) → World → Option A × World
query q w = if w.fails w.calls then (none, tick w) else (some (q w.tables), tick w)

-- `s.DB.Begin`
unfoldable pub begin : World → Bool × World
begin w =
    if w.fails w.calls
    then (false, tick w)
    else (true, record w { calls = w.calls + 1; tx = open_tx w.tables })

abbrev pub apply_in : World → Option Tables → Bool × World
apply_in w none = (false, record w { calls = w.calls + 1; tx = aborted })
apply_in w (some t) = (true, record w { calls = w.calls + 1; tx = open_tx t })

abbrev pub exec_in : Statement → Transaction → World → Bool × World
exec_in stmt idle w = (false, tick w)
exec_in stmt aborted w = (false, tick w)
exec_in stmt (open_tx t) w =
    if w.fails w.calls
    then (false, record w { calls = w.calls + 1; tx = aborted })
    else apply_in w (stmt t)

-- `tx.Exec`
unfoldable pub tx_exec : Statement → World → Bool × World
tx_exec stmt w = exec_in stmt w.tx w

abbrev pub query_in {ℓ} : {A : Type ℓ} → (Tables → A) → Transaction → World → Option A × World
query_in q idle w = (none, tick w)
query_in q aborted w = (none, tick w)
query_in q (open_tx t) w =
    if w.fails w.calls
    then (none, record w { calls = w.calls + 1; tx = aborted })
    else (some (q t), tick w)

-- `tx.QueryRow(…).Scan`
unfoldable pub tx_query {ℓ} : {A : Type ℓ} → (Tables → A) → World → Option A × World
tx_query q w = query_in q w.tx w

abbrev pub commit_in : Transaction → World → Bool × World
commit_in idle w = (false, tick w)
commit_in aborted w = (false, record w { calls = w.calls + 1; tx = idle })
commit_in (open_tx t) w =
    if w.fails w.calls
    then (false, record w { calls = w.calls + 1; tx = idle })
    else (true, record w { calls = w.calls + 1; tx = idle; tables = t })

-- `tx.Commit`
unfoldable pub commit : World → Bool × World
commit w = commit_in w.tx w

-- The deferred `tx.Rollback`; after a commit it does nothing.
unfoldable pub rollback : World → World
rollback w = record w { tx = idle }
