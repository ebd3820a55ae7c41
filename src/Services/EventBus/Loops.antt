-- ===== src/Services/EventBus/Loops.antt =====
-- What the loops of the event bus do with what they read, and how long they wait.
use wire_server.Prelude.{
  ℕ, zero, suc, ◌+◌, ◌<◌, String, Bool, true, false, Option, none, some, List, [], ◌∷◌, ◌++◌, map,
  count, count-append, ltb, ◌^◌, ap₂, ◌≡◌, refl, ◌∙◌, ap, inl, inr, Bool-cases, arith,
  if◌then◌else◌,
}
use mathlib.Core.Path.{subst}
use wire_server.Services.Backoff.{
  BackoffCfg, next_back_off, backoff2, after_calls, next_back_off_lem,
}
use wire_server.Services.EventBus.{
  Entry, ReadReply, read_failed, read_cancelled, entries, Turn, Act, call_handler, ack,
  handled_then, process, with_reply, consume, retry_producer, new_kafka_event_bus,
}

-- The entries that come before the loop ends.
abbrev pub reply_entries : ReadReply → List Entry → List Entry
reply_entries (read_failed pending) rest = rest
reply_entries (read_cancelled pending) rest = []
reply_entries (entries es) rest = es ++ rest

abbrev pub entries_read : List Turn → List Entry
entries_read [] = []
entries_read (t ∷ ts) = if t.done then [] else reply_entries t.reply (entries_read ts)

-- The entries acknowledged, and the payloads handled, in order.
abbrev pub acked : List Act → List String
acked [] = []
acked (call_handler p ∷ rest) = acked rest
acked (ack id ∷ rest) = id ∷ acked rest

abbrev pub handled : List Act → List String
handled [] = []
handled (call_handler p ∷ rest) = p ∷ handled rest
handled (ack id ∷ rest) = handled rest

abbrev add_payload : Option String → List String → List String
add_payload none rest = rest
add_payload (some p) rest = p ∷ rest

abbrev pub payloads : List Entry → List String
payloads [] = []
payloads (e ∷ es) = add_payload e.payload (payloads es)

acked-handled_then :
    (o : Option String) (rest : List Act) → acked (handled_then o rest) ≡ acked rest
acked-handled_then none rest = refl
acked-handled_then (some p) rest = refl

handled-handled_then :
    (o : Option String) (rest : List Act)
    → handled (handled_then o rest) ≡ add_payload o (handled rest)
handled-handled_then none rest = refl
handled-handled_then (some p) rest = refl

handled_then-append :
    (o : Option String) (a b : List Act) → handled_then o a ++ b ≡ handled_then o (a ++ b)
handled_then-append none a b = refl
handled_then-append (some p) a b = refl

process-append : (es fs : List Entry) → process es ++ process fs ≡ process (es ++ fs)
unfolding process
process-append [] fs = refl
process-append (e ∷ es) fs =
    handled_then-append e.payload (ack e.id ∷ process es) (process fs)
    ∙ ap (λ rest. handled_then e.payload (ack e.id ∷ rest)) (process-append es fs)

with_reply-process :
    (r : ReadReply) (acts : List Act) (ended : Bool) (es : List Entry)
    → acts ≡ process es
    → (with_reply r (acts, ended)).0 ≡ process (reply_entries r es)
unfolding process
with_reply-process (read_failed pending) acts ended es e = e
with_reply-process (read_cancelled pending) acts ended es e = refl
with_reply-process (entries fs) acts ended es e = ap (λ a. process fs ++ a) e ∙ process-append fs es

consume-process : (turns : List Turn) → (consume turns).0 ≡ process (entries_read turns)
unfolding consume process
consume-process [] = refl
consume-process (t ∷ ts) = elim (Bool-cases t.done) [
  | inl over ↦ rw over refl
  | inr on ↦ rw on (
      with_reply-process t.reply (consume ts).0 (consume ts).1 (entries_read ts)
        (consume-process ts))
]

acked-process : (es : List Entry) → acked (process es) ≡ map (λ e. e.id) es
unfolding process
acked-process [] = refl
acked-process (e ∷ es) =
    acked-handled_then e.payload (ack e.id ∷ process es) ∙ ap (◌∷◌ e.id) (acked-process es)

handled-process : (es : List Entry) → handled (process es) ≡ payloads es
unfolding process
handled-process [] = refl
handled-process (e ∷ es) =
    handled-handled_then e.payload (ack e.id ∷ process es)
    ∙ ap (add_payload e.payload) (handled-process es)

-- The entries that Redis gives out to the loop's calls before it ends, and those of them in replies that
-- did not arrive.
abbrev pub reply_given : ReadReply → List Entry → List Entry
reply_given (read_failed pending) rest = pending ++ rest
reply_given (read_cancelled pending) rest = pending
reply_given (entries es) rest = es ++ rest

abbrev pub given_out : List Turn → List Entry
given_out [] = []
given_out (t ∷ ts) = if t.done then [] else reply_given t.reply (given_out ts)

abbrev pub reply_lost : ReadReply → List Entry → List Entry
reply_lost (read_failed pending) rest = pending ++ rest
reply_lost (read_cancelled pending) rest = pending
reply_lost (entries es) rest = rest

abbrev pub lost : List Turn → List Entry
lost [] = []
lost (t ∷ ts) = if t.done then [] else reply_lost t.reply (lost ts)

module _ (f : Entry → Bool) where
  count-reply :
      (r : ReadReply) (all here gone : List Entry)
      → count f all ≡ count f here + count f gone
      → count f (reply_given r all) ≡ count f (reply_entries r here) + count f (reply_lost r gone)
  count-reply (read_failed pending) all here gone h =
      omega (arith, h, count-append f pending all, count-append f pending gone)
  count-reply (read_cancelled pending) all here gone h = omega arith
  count-reply (entries es) all here gone h =
      omega (arith, h, count-append f es all, count-append f es here)

  count-given_out :
      (ts : List Turn) → count f (given_out ts) ≡ count f (entries_read ts) + count f (lost ts)
  count-given_out [] = refl
  count-given_out (t ∷ ts) = elim (Bool-cases t.done) [
    | inl over ↦ rw over refl
    | inr on ↦
        rw on (count-reply t.reply (given_out ts) (entries_read ts) (lost ts) (count-given_out ts))
  ]

-- The subscriber of a Redis stream hands the payloads of the entries whose replies arrive before it
-- ends to the handler, each once and in order, and calls `XAck` once for each of these entries, in
-- order, for those without a payload too. The entries that Redis gives out to it are these and
-- those of the replies that do not arrive, for which it does neither.
pub consume_lem :
    (turns : List Turn)
    → (handled (consume turns).0 ≡ payloads (entries_read turns))
      × (acked (consume turns).0 ≡ map (λ e. e.id) (entries_read turns))
      × ((f : Entry → Bool)
          → count f (given_out turns) ≡ count f (entries_read turns) + count f (lost turns))
consume_lem turns = (
  ap handled (consume-process turns) ∙ handled-process (entries_read turns),
  ap acked (consume-process turns) ∙ acked-process (entries_read turns),
  λ f. count-given_out f turns,
)

-- The delays of `n` calls.
abbrev pub delays : ℕ → BackoffCfg → List ℕ
unfolding next_back_off
delays zero b = []
delays (suc n) b = let (d, b') = next_back_off b in d ∷ delays n b'

at {ℓ} : {A : Type ℓ} (f : ℕ → A) (a : A) (i j : ℕ) → i ≡ j → f i ≡ a → f j ≡ a
at f a i j e h = subst (λ n. f n ≡ a) {x = i} {y = j} e h

step_delays :
    (connects : ℕ → Bool) (fuel n : ℕ) (b : BackoffCfg) (ds : List ℕ)
    → connects n ≡ false
    → retry_producer connects fuel (n + 1) (next_back_off b).1 ≡ some ds
    → retry_producer connects (suc fuel) n b ≡ some ((next_back_off b).0 ∷ ds)
unfolding retry_producer next_back_off
step_delays connects fuel n b ds first h = rw (h, first) refl

retry_producer-delays :
    (connects : ℕ → Bool) (k fuel n : ℕ) (b : BackoffCfg)
    → k < fuel
    → connects (n + k) ≡ true
    → ((i : ℕ) → i < k → connects (n + i) ≡ false)
    → retry_producer connects fuel n b ≡ some (delays (suc k) b)
unfolding retry_producer next_back_off
retry_producer-delays connects k zero n b enough good bad = absurd (omega (arith, enough))
retry_producer-delays connects zero (suc fuel) n b enough good bad =
    rw (at connects true (n + 0) n (omega arith) good) refl
retry_producer-delays connects (suc k) (suc fuel) n b enough good bad =
    step_delays connects fuel n b _
      (at connects false (n + 0) n (omega arith) (bad 0 (omega arith)))
      (retry_producer-delays connects k fuel (n + 1) (next_back_off b).1 (omega (arith, enough))
        (at connects true (n + suc k) (n + 1 + k) (omega arith) good)
        (λ i lt.
          at connects false (n + suc i) (n + 1 + i) (omega arith)
            (bad (suc i) (omega (arith, lt)))))

-- What the delays are, from call `i` on.
abbrev pub doubled : (n i : ℕ) → List ℕ
doubled zero i = []
doubled (suc n) i = (if ltb i 5 then 2 ^ i else 32) ∷ doubled n (suc i)

after_next : (i : ℕ) → (next_back_off (after_calls i backoff2)).1 ≡ after_calls (suc i) backoff2
unfolding next_back_off after_calls
after_next i = refl

delays-doubled : (n i : ℕ) → delays n (after_calls i backoff2) ≡ doubled n i
unfolding next_back_off
delays-doubled zero i = refl
delays-doubled (suc n) i =
    ap₂ (λ d ds. d ∷ ds) (next_back_off_lem i)
      (ap (delays n) (after_next i) ∙ delays-doubled n (suc i))

-- When the first attempt of `NewKafkaEventBus` and its retries up to number `k` fail and retry `k`
-- succeeds, it has its producer after `k + 1` waits, of 1, 2, 4, 8 and 16 seconds and then of 32
-- seconds each; any fuel above `k` is enough.
pub new_kafka_event_bus-delays :
    (connects : ℕ → Bool) (k fuel : ℕ)
    → k < fuel
    → connects k ≡ true
    → ((i : ℕ) → i < k → connects i ≡ false)
    → new_kafka_event_bus false connects fuel ≡ some (doubled (suc k) 0)
unfolding new_kafka_event_bus after_calls
new_kafka_event_bus-delays connects k fuel enough good bad =
    retry_producer-delays connects k fuel 0 backoff2 enough
      (at connects true k (0 + k) (omega arith) good)
      (λ i lt. at connects false i (0 + i) (omega arith) (bad i lt))
    ∙ ap some (delays-doubled (suc k) 0)
