-- ===== src/Services/EventBus.antt =====
-- The event bus: pkg/eventbus/eventbus.go (`NewEventBus` and `RedisStreams`) and pkg/eventbus/kafka.go.
-- The calls of Redis and of Kafka are not modelled: what they return is an argument. `proto.Marshal` of
-- a message is its bytes, or `none` where it fails.
pub mod Loops
use wire_server.Prelude.{
  ℕ, zero, suc, ◌+◌, String, Bool, true, false, Option, none, some, List, [], ◌∷◌, ◌++◌, map,
  if◌then◌else◌,
}
use wire_server.Text.{equal_fold}
use wire_server.Services.Backoff.{BackoffCfg, next_back_off, backoff2}

pub data Bus : Type 0 where
  redis_streams : Bus
  kafka : (brokers : List String) → Bus

abbrev or_default_brokers : List String → List String
or_default_brokers [] = "kafka:9092" ∷ []
or_default_brokers (b ∷ bs) = b ∷ bs

-- `NewEventBus`; `none` is the panic of a missing Redis client.
unfoldable pub new_event_bus : (driver : String) → (has_client : Bool) → List String → Option Bus
unfolding equal_fold
new_event_bus driver has_client brokers =
    if equal_fold driver "kafka"
    then some (kafka (or_default_brokers brokers))
    else if has_client
    then some redis_streams
    else none

pub data PublishError : Type 0 where
  marshal_failed : PublishError
  send_failed : PublishError

pub data Published : Type 0 where
  publish_error : PublishError → Published
  published : Published

-- `Publish` of both buses: what is appended to the stream or the topic, and the outcome.
unfoldable pub publish :
    (lost : Bool)
    → String
    → Option (List ℕ)
    → List (String × List ℕ)
    → Published × List (String × List ℕ)
publish lost stream none log = (publish_error marshal_failed, log)
publish lost stream (some payload) log =
    if lost then (publish_error send_failed, log) else (published, log ++ (stream, payload) ∷ [])

-- An entry of a stream: its id, and its payload if that is a text.
pub record Entry : Type 0 where
  pub id : String
  pub payload : Option String

-- What `XReadGroup` returns. A call that fails may have given entries out to its consumer name in Redis,
-- which no later call has: they stay pending.
pub data ReadReply : Type 0 where
  read_failed : (pending : List Entry) → ReadReply
  read_cancelled : (pending : List Entry) → ReadReply
  entries : List Entry → ReadReply

-- A turn of the loop of `Subscribe`: whether the context is done, and the reply.
pub record Turn : Type 0 where
  pub done : Bool
  pub reply : ReadReply

pub data Act : Type 0 where
  call_handler : String → Act
  ack : String → Act

abbrev pub handled_then : Option String → List Act → List Act
handled_then none rest = rest
handled_then (some p) rest = call_handler p ∷ rest

-- The handler is called for a payload; every entry is acknowledged, and a failure of that is not
-- looked at.
unfoldable pub process : List Entry → List Act
process [] = []
process (e ∷ es) = handled_then e.payload (ack e.id ∷ process es)

abbrev pub with_reply : ReadReply → List Act × Bool → List Act × Bool
with_reply (read_failed pending) (acts, returned) = (acts, returned)
with_reply (read_cancelled pending) rest = ([], true)
with_reply (entries es) (acts, returned) = (process es ++ acts, returned)

-- The goroutine of `Subscribe`: what it does, and whether it has returned.
unfoldable pub consume : List Turn → List Act × Bool
unfolding process
consume [] = ([], false)
consume (t ∷ ts) = let rest = consume ts in if t.done then ([], true) else with_reply t.reply rest

-- `XGroupCreateMkStream`
pub data Created : Type 0 where
  created : Created
  busy_group : Created
  create_failed : Created

-- `Subscribe`: `none` is an error, and then no goroutine starts.
unfoldable pub subscribe : Created → List Turn → Option (List Act × Bool)
subscribe created turns = some (consume turns)
subscribe busy_group turns = some (consume turns)
subscribe create_failed turns = none

-- `ConsumeClaim`: each message of the claim is handled and then marked, by its offset.
unfoldable pub consume_claim : List (ℕ × String) → List (String × ℕ)
consume_claim [] = []
consume_claim ((offset, value) ∷ rest) = (value, offset) ∷ consume_claim rest

-- The retries of `NewKafkaEventBus` after its first attempt failed, from retry `n` on: the delays, in
-- seconds; `connects` says which retry succeeds. `none` is out of fuel.
unfoldable pub retry_producer : (connects : ℕ → Bool) → (fuel n : ℕ) → BackoffCfg → Option (List ℕ)
unfolding next_back_off
retry_producer connects zero n b = none
retry_producer connects (suc fuel) n b =
    let (delay, b') = next_back_off b in
    let rest = retry_producer connects fuel (n + 1) b' in
    if connects n
    then some (delay ∷ [])
    else (elim rest [ none ↦ none | some delays ↦ some (delay ∷ delays) ])

-- `NewKafkaEventBus`: the delays until it has a producer.
unfoldable pub new_kafka_event_bus :
    (first : Bool) → (connects : ℕ → Bool) → (fuel : ℕ) → Option (List ℕ)
unfolding retry_producer backoff2
new_kafka_event_bus first connects fuel =
    if first then some [] else retry_producer connects fuel 0 backoff2

-- The goroutine of the Kafka `Subscribe`: for each turn whether the context is done and whether
-- `Consume` fails; the seconds that it sleeps, and whether it has returned.
unfoldable pub consume_topics : List (Bool × Bool) → List ℕ × Bool
consume_topics [] = ([], false)
consume_topics ((done, fails) ∷ rest) =
    let (sleeps, returned) = consume_topics rest in
    if done then ([], true) else if fails then (1 ∷ sleeps, returned) else (sleeps, returned)

-- The bus between calls: which subscriptions run, and whether the producer is open.
pub record KafkaBus : Type 0 where
  pub running : List Bool
  pub producer_open : Bool

-- `Subscribe`; `lost` says that there is no consumer group.
unfoldable pub kafka_subscribe : (lost : Bool) → KafkaBus → Bool × KafkaBus
kafka_subscribe lost k =
    if lost then (false, k) else (true, record k { running = k.running ++ true ∷ [] })

unfoldable pub kafka_shutdown : KafkaBus → KafkaBus
kafka_shutdown k = record { running = map (λ r. false) k.running; producer_open = false }
