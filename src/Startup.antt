-- ===== src/Startup.antt =====
-- How the seven programs start: the `main` functions under services/*/cmd, pkg/db, `NewClusterClient` of
-- pkg/redis/client.go, and the dialling of services/api-gateway/internal/clients/clients.go. A call of a
-- third party is its name and arguments; `answers` says whether it succeeds.
pub mod Dials
pub mod Parts
pub mod Plans
use wire_server.Prelude.{
  ℕ, String, Bool, true, false, Option, none, some, List, [], ◌∷◌, ◌++◌, ◌==◌, if◌then◌else◌,
}
use wire_server.Text.{trim_space, ◌<>◌}
use wire_server.Text.Words.{split_at}
use wire_server.Config.{
  Loaded, panicked, loaded, GatewayConfig, ChatConfig, CallConfig, UserConfig, load_gateway_config,
  load_chat_config, load_call_config, load_user_config,
}
use wire_server.Config.Addresses.{Credentials, parse_addrs, first_addr, load_mtls_credentials}
use wire_server.Services.EventBus.{Bus, redis_streams, kafka, new_event_bus}
use wire_server.Startup.Dials.{dial_with_circuit}

pub data Call : Type 0 where
  build_logger : (env name : String) → Call
  parse_url : String → Call
  create_pool : (max_conns : ℕ) → String → Call
  ping_pool : String → Call
  open_migrations : (path url : String) → Call
  migrate_up : String → Call
  close_migrations : String → Call
  ping_redis : List String → Call
  connect_kafka : (brokers : List String) → Call
  subscribe_to : (stream group : String) → Call
  dial : (name addr : String) → Call
  create_epoll : Call
  listen : String → Call

-- The environment, what calls come to (for Kafka, whether an attempt of its endless retries succeeds), the attempts of a dial, the certificates, and the order in which
-- Go takes the entries of a map.
pub record Machine : Type 0 where
  pub get : String → String
  pub answers : Call → Bool
  pub attempts : (name addr : String) → ℕ → Bool
  pub key_pair : String → String → Bool
  pub appended : String → Bool
  pub order : List (String × String) → List (String × String)

-- Why a program does not come to serve: a setting, or a call that failed. `log.Fatal` exits, a panic
-- unwinds, and `waits` is a call that is retried for ever.
pub data Stop : Type 0 where
  missing : String → Stop
  panics : Call → Stop
  fatal : Call → Stop
  waits : Call → Stop

-- The ports that a program serves on: gRPC and HTTP.
pub record Ports : Type 0 where
  pub grpc : Option String
  pub http : String

pub data Result (A : Type 0) : Type 0 where
  ok : A → Result A
  stopped : Stop → Result A

-- A part of a `main`, with the calls made.
abbrev pub Boot : Type 0 → Type 0
Boot A = List Call → Result A × List Call

abbrev pub after : {A B : Type 0} → (A → Boot B) → Result A × List Call → Result B × List Call
after k (ok a, made) = k a made
after k (stopped s, made) = (stopped s, made)

pub data Program : Type 0 where
  gateway chat user call presence media notification : Program

infixl 5 ◌>>=◌ ◌>>◌
abbrev pub ◌>>=◌ : {A B : Type 0} → Boot A → (A → Boot B) → Boot B
◌>>=◌ b k made = after k (b made)

abbrev pub ◌>>◌ : {B : Type 0} → Boot (Unit {0}) → Boot B → Boot B
b >> c = b >>= λ _. c

abbrev pub return : {A : Type 0} → A → Boot A
return a made = (ok a, made)

abbrev pub stop : {A : Type 0} → Stop → Boot A
stop s made = (stopped s, made)

-- The program goes on with its configuration, or panics for a key.
abbrev pub configured : {A B : Type 0} → (A → Boot B) → Loaded A → Boot B
configured k (panicked key) = stop (missing key)
configured k (loaded cfg) = k cfg

module _ (m : Machine) where
  -- Whether a program goes on after a call: it succeeded, or it is a subscription, a failure of which is
  -- logged only.
  abbrev pub answer : Call → Bool
  answer (dial name addr) = (dial_with_circuit (m.attempts name addr)).connected
  answer (subscribe_to stream group) = true
  answer c = m.answers c

  abbrev asked : Bool → Stop → List Call → Result (Unit {0}) × List Call
  asked true s made = (ok tt, made)
  asked false s made = (stopped s, made)

  -- A call, and how the program ends if it fails.
  abbrev pub ask : (Call → Stop) → Call → Boot (Unit {0})
  ask ending c made = asked (answer c) (ending c) (made ++ c ∷ [])

  -- A call whatever it comes to.
  abbrev pub attempt : Call → Boot (Unit {0})
  attempt c made = (ok tt, made ++ c ∷ [])

  abbrev pub bus_from : Option Bus → Boot (Unit {0})
  bus_from none = stop (missing "eventbus redis client")
  bus_from (some redis_streams) = return tt
  bus_from (some (kafka brokers)) = ask waits (connect_kafka brokers)

  -- `NewEventBus` with a Redis client and no brokers, as both programs call it.
  unfoldable pub start_bus : (driver : String) → Boot (Unit {0})
  unfolding new_event_bus
  start_bus driver = bus_from (new_event_bus driver true [])

  unfoldable pub start_status_consumers : Boot (Unit {0})
  start_status_consumers = do
    attempt (subscribe_to "msg.delivered" "chat-service-status")
    attempt (subscribe_to "msg.read" "chat-service-status")

  -- `os.Getenv` with a default.
  unfoldable pub env_or : (key fallback : String) → String
  env_or key fallback = if m.get key == "" then fallback else m.get key

  -- `NewPrimaryPool` and `NewReplicaPool`, which hold 25 and 50 connections.
  unfoldable pub new_pool : (Call → Stop) → ℕ → String → Boot (Unit {0})
  new_pool ending max_conns url = do
    ask ending (parse_url url)
    ask ending (create_pool max_conns url)
    ask ending (ping_pool url)

  -- `RunMigrations`; nothing to change is a success.
  unfoldable pub run_migrations : (Call → Stop) → (url path : String) → Boot (Unit {0})
  run_migrations ending url path = do
    ask ending (open_migrations path url)
    ask ending (migrate_up url)
    ask ending (close_migrations url)

  abbrev cluster_of : (Call → Stop) → List String → Boot (Unit {0})
  cluster_of ending [] = stop (missing "addrs")
  cluster_of ending (a ∷ rest) = ask ending (ping_redis (a ∷ rest))

  -- `NewClusterClient`
  unfoldable pub new_cluster_client : (Call → Stop) → List String → Boot (Unit {0})
  new_cluster_client ending addrs = cluster_of ending addrs

  abbrev pub tls_of : Option Credentials → Boot (Unit {0})
  tls_of none = stop (missing "mtls creds")
  tls_of (some c) = return tt

  -- The loop of `New` over its targets.
  unfoldable pub dial_each : (Call → Stop) → List (String × String) → Boot (Unit {0})
  dial_each ending [] = return tt
  dial_each ending ((name, addr) ∷ rest) = do ask ending (dial name addr); dial_each ending rest

  abbrev pub targets : GatewayConfig → List (String × String)
  targets cfg =
      ("chat", cfg.chat_service_addr)
      ∷ ("call", cfg.call_service_addr)
      ∷ ("media", cfg.media_service_addr)
      ∷ ("presence", cfg.presence_service_addr)
      ∷ ("user", cfg.user_service_addr)
      ∷ []

  unfoldable pub gateway_from : GatewayConfig → Boot Ports
  unfolding new_cluster_client start_bus new_pool dial_each parse_addrs load_mtls_credentials
  gateway_from cfg = do
    ask panics (build_logger cfg.shared_config.app_env "api-gateway")
    new_cluster_client fatal (parse_addrs cfg.redis_cluster_addrs)
    start_bus cfg.event_bus_driver
    new_pool fatal 25 cfg.supabase_db_url
    tls_of (
        load_mtls_credentials m.key_pair m.appended (m.get "MTLS_CLIENT_CERT")
          (m.get "MTLS_CLIENT_KEY") (m.get "MTLS_CA_CERT"))
    dial_each fatal (m.order (targets cfg))
    ask fatal create_epoll
    return (record { grpc = none; http = cfg.port })

  unfoldable pub chat_from : ChatConfig → Boot Ports
  unfolding new_pool run_migrations start_bus start_status_consumers first_addr env_or
  chat_from cfg = do
    ask panics (build_logger cfg.shared_config.app_env "chat-service")
    new_pool fatal 25 cfg.primary_db_url
    new_pool fatal 50 cfg.replica_db_url
    run_migrations fatal cfg.primary_db_url (env_or "MIGRATIONS_PATH" "infra/migrations")
    ask fatal (ping_redis (first_addr cfg.redis_cluster_addrs ∷ []))
    start_bus cfg.event_bus_driver
    start_status_consumers
    ask fatal (listen (env_or "CHAT_SERVICE_PORT" "8111"))
    return (record { grpc = some (env_or "CHAT_SERVICE_PORT" "8111"); http = env_or "PORT" "8110" })

  unfoldable pub user_from : UserConfig → Boot Ports
  unfolding new_pool env_or
  user_from cfg = do
    new_pool panics 25 cfg.profile_db_url
    ask panics (listen (env_or "USER_SERVICE_PORT" "8611"))
    return (record { grpc = some (env_or "USER_SERVICE_PORT" "8611"); http = env_or "PORT" "8610" })

  unfoldable pub call_from : CallConfig → Boot Ports
  unfolding env_or
  call_from cfg = do
    ask panics (listen (env_or "CALL_SERVICE_PORT" "8211"))
    return (record { grpc = some (env_or "CALL_SERVICE_PORT" "8211"); http = env_or "PORT" "8210" })

  -- The first part of the setting, trimmed.
  abbrev pub first_trimmed : List String → String
  first_trimmed [] = ""
  first_trimmed (p ∷ ps) = trim_space p

  unfoldable pub presence_main : Boot Ports
  unfolding env_or
  presence_main = do
    ask panics (
        ping_redis
          (first_trimmed (split_at 44 (env_or "REDIS_CLUSTER_ADDRS" "127.0.0.1:6379")) ∷ []))
    ask panics (listen (env_or "PRESENCE_SERVICE_PORT" "8411"))
    return (record {
      grpc = some (env_or "PRESENCE_SERVICE_PORT" "8411");
      http = env_or "PORT" "8410";
    })

  unfoldable pub media_from : String → Boot Ports
  unfolding new_pool env_or
  media_from url = if url == "" then stop (missing "DATABASE_PRIMARY_URL") else do
    new_pool panics 25 url
    ask panics (listen (env_or "MEDIA_SERVICE_PORT" "8311"))
    return
        (record { grpc = some (env_or "MEDIA_SERVICE_PORT" "8311"); http = env_or "PORT" "8310" })

  -- The push service listens with HTTP only, in a goroutine.
  unfoldable pub notification_main : Boot Ports
  unfolding env_or
  notification_main = return (record { grpc = none; http = env_or "PORT" "8510" })

  -- The `main` functions up to the point where they serve.
  unfoldable pub main_of : Program → Boot Ports
  unfolding env_or
  main_of gateway = configured gateway_from (load_gateway_config m.get)
  main_of chat = configured chat_from (load_chat_config m.get)
  main_of user = configured user_from (load_user_config m.get)
  main_of call = configured call_from (load_call_config m.get)
  main_of presence = presence_main
  main_of media = media_from (env_or "DATABASE_PRIMARY_URL" (m.get "SUPABASE_DB_URL"))
  main_of notification = notification_main
