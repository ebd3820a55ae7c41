-- ===== src/Chat/Fanout/Runs.antt =====
-- Every run of the workers delivers to each recipient as often as the list names it, and never
-- blocks before the end.
use wire_server.Prelude.{
  ℕ, zero, suc, ◌+◌, ◌<◌, String, List, [], ◌∷◌, ◌++◌, length, ◌==◌, ◌≡◌, refl, sym, ◌∙◌, ap, ◌⊎◌,
  inl, inr, arith, if◌then◌else◌,
}
use mathlib.Core.Path.{subst}
use wire_server.Chat.Recipients.{batch_recipients}
use wire_server.Chat.Recipients.Batches.{concat, batch_recipients_lem}
use wire_server.Chat.Fanout.{
  Fanout, idle_workers, worker_count, start, Step, takes, delivers, Run, stop, more, AllIdle,
  IsFinished,
}

-- How often a recipient stands in a list.
abbrev pub times : String → List String → ℕ
times s [] = 0
times s (x ∷ xs) = (if s == x then 1 else 0) + times s xs

times-append : (s : String) (xs ys : List String) → times s (xs ++ ys) ≡ times s xs + times s ys
times-append s [] ys = omega arith
times-append s (x ∷ xs) ys = omega (arith, times-append s xs ys)

concat-append_cons :
    (s : String) (before after : List (List String)) (b : List String)
    → times s (concat (before ++ b ∷ after)) ≡ times s (concat (before ++ [] ∷ after)) + times s b
concat-append_cons s [] after b = omega (arith, times-append s b (concat after))
concat-append_cons s (w ∷ before) after b = omega (
  arith,
  concat-append_cons s before after b,
  times-append s w (concat (before ++ b ∷ after)),
  times-append s w (concat (before ++ [] ∷ after)),
)

-- The deliveries to a recipient, made and to come.
abbrev due : String → Fanout → ℕ
due s f = times s f.delivered + times s (concat f.workers) + times s (concat f.jobs)

Step-due : (s : String) {f g : Fanout} → Step f g → due s f ≡ due s g
Step-due s (takes batch jobs before after out) =
    omega (arith, concat-append_cons s before after batch, times-append s batch (concat jobs))
Step-due s (delivers r rest jobs before after out) = omega (
  arith,
  concat-append_cons s before after (r ∷ rest),
  concat-append_cons s before after rest,
  times-append s out (r ∷ []),
)

Run-due : (s : String) {f g : Fanout} → Run f g → due s f ≡ due s g
Run-due s stop = refl
Run-due s (more step run) = Step-due s step ∙ Run-due s run

times-idle : (s : String) (n : ℕ) → times s (concat (idle_workers n)) ≡ 0
times-idle s zero = refl
times-idle s (suc n) = times-idle s n

times-AllIdle : (s : String) (ws : List (List String)) → AllIdle ws → times s (concat ws) ≡ 0
times-AllIdle s [] h = refl
times-AllIdle s ([] ∷ ws) h = times-AllIdle s ws h
times-AllIdle s ((r ∷ rest) ∷ ws) h = absurd h

-- However the workers of `groupFanout` interleave, a run that has finished has delivered to each
-- recipient exactly as often as the list of recipients names it.
pub Run-delivered :
    (recipients : List String) (f : Fanout)
    → Run (start recipients) f
    → IsFinished f
    → (s : String) → times s f.delivered ≡ times s recipients
unfolding start
Run-delivered recipients f run (no_jobs, no_work) s = omega (
  arith,
  Run-due s run,
  times-idle s (worker_count (batch_recipients recipients 64)),
  times-AllIdle s f.workers no_work,
  ap (λ js. times s (concat js)) no_jobs,
  ap (times s) (batch_recipients_lem recipients 64).0,
)

-- A batch with a recipient, and what stands around it.
record Busy (ws : List (List String)) : Type 0 where
  before : List (List String)
  head : String
  rest : List String
  after : List (List String)
  split : ws ≡ before ++ (head ∷ rest) ∷ after

Busy-or_idle : (ws : List (List String)) → AllIdle ws ⊎ Busy ws
Busy-or_idle [] = inl tt
Busy-or_idle ((r ∷ rest) ∷ ws) =
    inr (record { before = []; head = r; rest = rest; after = ws; split = refl })
Busy-or_idle ([] ∷ ws) = elim (Busy-or_idle ws) [
  | inl idle ↦ inl idle
  | inr busy ↦ inr (record {
    before = [] ∷ busy.before;
    head = busy.head;
    rest = busy.rest;
    after = busy.after;
    split = ap (◌∷◌ []) busy.split;
  })
]

takes_job :
    (job : List String) (jobs ws : List (List String)) (out : List String)
    → AllIdle ws
    → 0 < length ws
    → (g : Fanout) × Step (record { jobs = job ∷ jobs; workers = ws; delivered = out }) g
takes_job job jobs [] out idle some_worker = absurd (omega arith)
takes_job job jobs ([] ∷ ws) out idle some_worker = (_, takes job jobs [] ws out)
takes_job job jobs ((r ∷ rest) ∷ ws) out idle some_worker = absurd idle

idle_progress :
    (jobs ws : List (List String)) (out : List String)
    → 0 < length ws
    → AllIdle ws
    → IsFinished (record { jobs = jobs; workers = ws; delivered = out })
      ⊎ ((g : Fanout) × Step (record { jobs = jobs; workers = ws; delivered = out }) g)
idle_progress [] ws out some_worker idle = inl (refl, idle)
idle_progress (job ∷ jobs) ws out some_worker idle =
    inr (takes_job job jobs ws out idle some_worker)

progress :
    (jobs ws : List (List String)) (out : List String)
    → 0 < length ws
    → IsFinished (record { jobs = jobs; workers = ws; delivered = out })
      ⊎ ((g : Fanout) × Step (record { jobs = jobs; workers = ws; delivered = out }) g)
progress jobs ws out some_worker = elim (Busy-or_idle ws) [
  | inr busy ↦ inr (
      subst (λ v. (g : Fanout) × Step (record { jobs = jobs; workers = v; delivered = out }) g)
        {x = busy.before ++ (busy.head ∷ busy.rest) ∷ busy.after} {y = ws} (sym busy.split)
        (_, delivers busy.head busy.rest jobs busy.before busy.after out))
  | inl idle ↦ idle_progress jobs ws out some_worker idle
]

length-append_cons :
    (before after : List (List String)) (b c : List String)
    → length (before ++ b ∷ after) ≡ length (before ++ c ∷ after)
length-append_cons [] after b c = refl
length-append_cons (w ∷ before) after b c = ap suc (length-append_cons before after b c)

Run-workers : {f g : Fanout} → Run f g → length f.workers ≡ length g.workers
Run-workers stop = refl
Run-workers (more (takes batch jobs before after out) run) =
    length-append_cons before after [] batch ∙ Run-workers run
Run-workers (more (delivers r rest jobs before after out) run) =
    length-append_cons before after (r ∷ rest) rest ∙ Run-workers run

length-idle_workers : (n : ℕ) → length (idle_workers n) ≡ n
length-idle_workers zero = refl
length-idle_workers (suc n) = ap suc (length-idle_workers n)

worker_count_pos : (batches : List (List String)) → 0 < worker_count batches
unfolding worker_count
worker_count_pos batches = ground arith

-- The workers of `groupFanout` never block before everything is delivered: whatever they have done
-- since the start, either the fan-out has finished or some worker has a next step.
pub Run-progress :
    (recipients : List String) (f : Fanout)
    → Run (start recipients) f
    → IsFinished f ⊎ ((g : Fanout) × Step f g)
unfolding start
Run-progress recipients f run = progress f.jobs f.workers f.delivered (
    omega (
      arith,
      Run-workers run,
      length-idle_workers (worker_count (batch_recipients recipients 64)),
      worker_count_pos (batch_recipients recipients 64),
    ))
