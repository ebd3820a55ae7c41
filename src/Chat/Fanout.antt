-- ===== src/Chat/Fanout.antt =====
-- `groupFanout` of services/chat-service/cmd/server.go: the batches that wait on the `jobs` channel,
-- what is left of the batch that each worker has, and the recipients delivered to, as the
-- goroutines interleave.
pub mod Runs
use wire_server.Prelude.{ℕ, zero, suc, String, List, [], ◌∷◌, ◌++◌, ◌≡◌, length, ltb, if◌then◌else◌}
use wire_server.Chat.Recipients.{batch_recipients}

pub record Fanout : Type 0 where
  pub jobs : List (List String)
  pub workers : List (List String)
  pub delivered : List String

abbrev pub idle_workers : ℕ → List (List String)
idle_workers zero = []
idle_workers (suc n) = [] ∷ idle_workers n

-- `groupWorkerCount` is 20; no more workers than batches start, and at least one.
unfoldable pub worker_count : List (List String) → ℕ
worker_count batches =
    let workers = if ltb (length batches) 20 then length batches else 20 in
    if ltb workers 1 then 1 else workers

unfoldable pub start : List String → Fanout
unfolding worker_count
start recipients =
    let batches = batch_recipients recipients 64 in
    record { jobs = batches; workers = idle_workers (worker_count batches); delivered = [] }

-- A worker takes the next job, or delivers to the next recipient of its batch.
pub data Step : Fanout → Fanout → Type 0 where
  takes :
      (batch : List String) (jobs before after : List (List String)) (out : List String)
      → Step
          (record { jobs = batch ∷ jobs; workers = before ++ [] ∷ after; delivered = out })
          (record { jobs = jobs; workers = before ++ batch ∷ after; delivered = out })
  delivers :
      (r : String) (rest : List String) (jobs before after : List (List String)) (out : List String)
      → Step
          (record { jobs = jobs; workers = before ++ (r ∷ rest) ∷ after; delivered = out })
          (record { jobs = jobs; workers = before ++ rest ∷ after; delivered = out ++ r ∷ [] })

pub data Run : Fanout → Fanout → Type 0 where
  stop : {s : Fanout} → Run s s
  more : {s t u : Fanout} → Step s t → Run t u → Run s u

-- `wg.Wait` returns: the channel is empty and closed, and every worker has finished.
abbrev pub AllIdle : List (List String) → Type 0
AllIdle [] = Unit
AllIdle ([] ∷ ws) = AllIdle ws
AllIdle ((r ∷ rest) ∷ ws) = ⊥

abbrev pub IsFinished : Fanout → Type 0
IsFinished s = (s.jobs ≡ []) × AllIdle s.workers
