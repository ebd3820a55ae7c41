-- ===== src/Services/Notifications/Queue.antt =====
-- The worker pool of internal/notification/worker.go as steps: `Enqueue` by its callers, what each worker
-- does with the `jobs` channel, and `Stop`. How a message is sent is in the module above; here a
-- worker holds it until `sendWithRetry` returns.
use wire_server.Prelude.{
  ℕ, zero, suc, ◌+◌, ◌≤◌, String, Bool, true, false, Option, none, some, List, [], ◌∷◌, ◌++◌, ◌≡◌,
  refl, ◌∙◌, ap, length, length-append, count, count-append, ltb, nat_eq, inl, inr, Bool-cases,
  arith, if◌then◌else◌,
}

pub record Message : Type 0 where
  pub token : String
  pub title : String
  pub body : String
  pub fields : List (String × String)

-- A worker: at its `select`, in `sendWithRetry`, or returned.
pub data Worker : Type 0 where
  waiting : Worker
  sending : Message → Worker
  gone : Worker

-- `WorkerPool`, with the messages that `Enqueue` took and those whose `sendWithRetry` has returned.
pub record Pool : Type 0 where
  pub jobs : List Message
  pub workers : List Worker
  pub shut_down : Bool
  pub accepted : List Message
  pub finished : List Message

abbrev pub waiting_workers : ℕ → List Worker
waiting_workers zero = []
waiting_workers (suc n) = waiting ∷ waiting_workers n

-- `New` and `Start`; a number that is not positive is 0 here.
unfoldable pub new_pool : ℕ → Pool
new_pool workers = record {
  jobs = [];
  workers = waiting_workers (if nat_eq workers 0 then 4 else workers);
  shut_down = false;
  accepted = [];
  finished = [];
}

-- `Enqueue`: whether there was room.
unfoldable pub enqueue : Message → Pool → Bool × Pool
enqueue m p =
    if ltb (length p.jobs) 1024
    then (true, record p { jobs = p.jobs ++ m ∷ []; accepted = p.accepted ++ m ∷ [] })
    else (false, p)

-- `send`: what the request comes to; `none` where a step before the answer fails.
unfoldable pub was_sent : Option ℕ → Bool
was_sent none = false
was_sent (some status) = ltb status 300

-- `leaves` is a worker that sees the context or the pool done.
pub data Step : Pool → Pool → Type 0 where
  enqueues : (p : Pool) (m : Message) → Step p (enqueue m p).1
  stops : (p : Pool) → Step p (record p { shut_down = true })
  takes :
      (p : Pool) (m : Message) (rest : List Message) (before after : List Worker)
      → p.jobs ≡ m ∷ rest
      → p.workers ≡ before ++ waiting ∷ after
      → Step p (record p { jobs = rest; workers = before ++ sending m ∷ after })
  finishes :
      (p : Pool) (m : Message) (before after : List Worker)
      → p.workers ≡ before ++ sending m ∷ after
      → Step p (record p { workers = before ++ waiting ∷ after; finished = p.finished ++ m ∷ [] })
  leaves :
      (p : Pool) (before after : List Worker)
      → p.workers ≡ before ++ waiting ∷ after
      → Step p (record p { workers = before ++ gone ∷ after })

pub data Run : Pool → Pool → Type 0 where
  stay : (p : Pool) → Run p p
  go : (p q r : Pool) → Step p q → Run q r → Run p r

-- The messages that workers hold.
abbrev pub held : List Worker → List Message
held [] = []
held (waiting ∷ ws) = held ws
held (sending m ∷ ws) = m ∷ held ws
held (gone ∷ ws) = held ws

-- Whichever messages are counted, those taken are those queued, with a worker and finished; and the
-- queue is no longer than its channel.
pub record Accounted (p : Pool) : Type 0 where
  pub counted :
      (f : Message → Bool)
      → count f p.accepted ≡ count f p.jobs + count f (held p.workers) + count f p.finished
  pub fits : length p.jobs ≤ 1024

module _ (f : Message → Bool) where
  held-append :
      (xs ys : List Worker) → count f (held (xs ++ ys)) ≡ count f (held xs) + count f (held ys)
  held-append [] ys = omega arith
  held-append (waiting ∷ xs) ys = held-append xs ys
  held-append (sending m ∷ xs) ys = omega (arith, held-append xs ys)
  held-append (gone ∷ xs) ys = held-append xs ys

  -- The worker between the others may change with the rest.
  moved :
      (p : Pool) (w : Worker) (before after : List Worker)
      → p.workers ≡ before ++ w ∷ after
      → count f (held p.workers) ≡ count f (held before) + count f (held (w ∷ after))
  moved p w before after e = ap (λ ws. count f (held ws)) e ∙ held-append before (w ∷ after)

held-waiting_workers : (n : ℕ) → held (waiting_workers n) ≡ []
held-waiting_workers zero = refl
held-waiting_workers (suc n) = held-waiting_workers n

enqueue-Accounted : (m : Message) (p : Pool) → Accounted p → Accounted (enqueue m p).1
unfolding enqueue
enqueue-Accounted m p a = elim (Bool-cases (ltb (length p.jobs) 1024)) [
  | inl room ↦ rw room (record {
    counted = λ f.
        omega
          (arith, a.counted f, count-append f p.accepted (m ∷ []), count-append f p.jobs (m ∷ []));
    fits = ground (arith, length-append p.jobs (m ∷ []));
  })
  | inr full ↦ rw full a
]

Step-Accounted : (p q : Pool) → Step p q → Accounted p → Accounted q
Step-Accounted p q (enqueues _ m) a = enqueue-Accounted m p a
Step-Accounted p q (stops _) a = record { counted = a.counted; fits = a.fits }
Step-Accounted p q (takes _ m rest before after e w) a = record {
  counted = λ f. omega (
    arith,
    a.counted f,
    moved f p waiting before after w,
    ap (count f) e,
    held-append f before (sending m ∷ after),
  );
  fits = omega (arith, a.fits, ap length e);
}
Step-Accounted p q (finishes _ m before after w) a = record {
  counted = λ f. omega (
    arith,
    a.counted f,
    moved f p (sending m) before after w,
    count-append f p.finished (m ∷ []),
    held-append f before (waiting ∷ after),
  );
  fits = a.fits;
}
Step-Accounted p q (leaves _ before after w) a = record {
  counted = λ f.
      omega
        (arith, a.counted f, moved f p waiting before after w, held-append f before (gone ∷ after));
  fits = a.fits;
}

Run-Accounted-from : (p q : Pool) → Run p q → Accounted p → Accounted q
Run-Accounted-from p _ (stay _) a = a
Run-Accounted-from p q (go _ r _ step rest) a =
    Run-Accounted-from r q rest (Step-Accounted p r step a)

-- Whatever callers and workers do after `Start`, `Stop` included, each message that `Enqueue` took is
-- in one of three places as often as it was taken: in the queue, where it may stay for ever, in a
-- worker, or among those whose `sendWithRetry` has returned, whatever came of it. The queue holds at
-- most 1024.
pub Run-Accounted : (workers : ℕ) (p : Pool) → Run (new_pool workers) p → Accounted p
unfolding new_pool
Run-Accounted workers p run = Run-Accounted-from _ p run (record {
  counted = λ f.
      omega (arith, ap (count f) (held-waiting_workers (if nat_eq workers 0 then 4 else workers)));
  fits = omega arith;
})
