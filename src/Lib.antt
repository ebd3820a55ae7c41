-- ===== src/Lib.antt =====
-- A messenger's server: an HTTP and WebSocket gateway before gRPC services for chat, users,
-- presence, media and calls, with Postgres, Redis and an event bus behind them.
--
-- The parts and how they meet. The gateway (services/api-gateway/internal/gateway) limits requests,
-- reads the caller's claims from a token (pkg/middleware), keeps groups in Postgres itself, passes
-- the other requests on by gRPC (server.go), and holds the sockets in a hub (hub.go), which sets a
-- presence key in Redis for each connected phone. The chat service
-- (services/chat-service/cmd/server.go) stores messages, reads the members of a group, and hands a
-- message to each recipient: by a Redis channel that the hub subscribes to if the presence key says
-- "online", else by a queue in Redis. Marks of delivery go over the event bus back to the sender.
--
-- Files.
--   Prelude     shared names, Boolean tests, lists
--   Text        the functions of Go's `strings` package that the server calls
--   Storage     the tables of groups and users, one function per SQL statement of server.go, the
--               connection pool with transactions, and counting lemmas; Conversations: the
--               statements of pkg/db/sqlc/messages.sql.go that no service calls
--   Auth        Bearer, Jwks, Token: `BearerToken`, `loadJWKSKeys`, `parseToken`, `AuthMiddleware` of
--               pkg/middleware/middleware.go; Strict: internal/auth
--   Gateway     Http: replies and early returns; Groups: one function per handler of server.go, with
--               its guards in the order of the source; Groups/Governance: what the handlers keep;
--               Lookup: `lookupUsers`, `UserExists`; Proxies: the handlers that call a service;
--               Router: `Routes`, a request from its address to its answer; Hub: the table of
--               connections, `add`, `remove`, `deliver`, `checkHeartbeats`, `handleRead`; Hub/Loop:
--               `Run` and the channels as a step relation; Hub/Subscriptions: `subscribeUser`;
--               Process: the end of services/api-gateway/cmd/main.go beside the hub's loop
--   Limits      `RateLimitMiddleware` and `clientIP` of pkg/middleware/middleware.go and
--               `allowWSMessage` of hub.go
--   Chat        Backend: the statements of pkg/db/sqlc and the calls of Redis and the bus;
--               Recipients, Delivery, Send, Status, History, Fanout: the functions of the chat
--               server under the names of the source; Service: internal/chat/service.go, an older
--               chat service, which no program uses and which does not compile against the packages it
--               names: its calls mean here what the packages offer (a frame's `UserID`, and a receipt's
--               error)
--   Config      pkg/config; Required and Values: its required keys and the values of its fields; Addresses: the small functions of the entry points
--   Services    Calls: services/call-service and internal/call; Presence: internal/presence and
--               services/presence-service; Users: services/user-service; Media: internal/media and
--               services/media-service; Notifications: internal/notification/worker.go, its queue
--               as a step relation; EventBus and Backoff: pkg/eventbus
--   Sockets     the registry of pkg/ws/hub.go; Loop: its `Run` and channels with the goroutines of the
--               connections as a step relation; Frames and Pumps: pkg/ws/frame.go and conn.go
--   Startup     the `main` functions under services/*/cmd up to the point where they serve, with
--               pkg/db/pool.go, pkg/db/migrate.go, `NewClusterClient` and the clients' dialling: each a
--               list of calls of third parties, with the way it ends when one fails
--   Tests       concrete inputs
--
-- State and failure. A handler is a function from a world (tables, open transaction, clock) to a
-- reply and a world. Which calls of the database, of Redis and of the bus fail is given by a function
-- on the number of the call, so a theorem about all worlds is about every pattern of failures. In
-- Router a request brings its own clock and the failures of the gateway's calls, and the system keeps
-- what the services store; the chat service's clock and failures are in its backend.
-- A handler runs alone: two handlers that interleave between their calls are not modelled. What runs
-- in goroutines that share a channel is a step relation: the workers of the group fan-out, the loops of
-- the two hubs and their callers, the push workers, the gateway's main function.
--
-- Fuel. `batches_from` has as much fuel as there are recipients, and each round takes at least one;
-- `decimal` has a digit's fuel for each number up to its argument; `walk` has one page more than there
-- are messages, and each page but the last holds at least one; `retry_producer` needs one more than
-- the number of the retry that succeeds; `drain_pending` needs one more than the frames that wait, and
-- `retry_dial` has the four attempts of the source. Loops that wait for the network run over the list of what
-- they are answered.
--
-- Parameters. The validator of `SendMessage`, the order in which the group workers reach the
-- recipients, the parsing of times, random bytes, the ids that the database draws, the host of a
-- request's address, the JWT library and the keys that a fetch gives, the hash functions and encoders
-- of presigned uploads and TURN passwords, structpb and proto for frames, viper's lookup of a key, what the calls of a
-- starting program come to, the order in which Go takes the entries of a map, and the outcome of each attempt to send a notification or to reach Kafka.
--
-- Not modelled: generated protobuf code; chi, gRPC and JSON; the epoll calls of the gateway's hub;
-- logging, tracing and metrics; the wrappers of the Redis client, which pass a call on and log it; the
-- shutdown of the services but the gateway, which is calls of the servers they started. A channel send
-- of the gateway's hub or of pkg/ws that waits is a step that is not yet taken. `Broadcast` of the older
-- chat service is taken to find room. A send on a closed channel of pkg/ws, which ends the process, is
-- noted in the state, and the steps go on. The CHECK on the statuses of message_status is left out: the
-- program stores only statuses that it takes.
pub mod Prelude
pub mod Text
pub mod Storage
pub mod Auth
pub mod Gateway
pub mod Chat
pub mod Config
pub mod Limits
pub mod Services
pub mod Sockets
pub mod Startup
pub mod Tests
