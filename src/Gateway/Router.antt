-- ===== src/Gateway/Router.antt =====
-- `Routes` of services/api-gateway/internal/gateway/server.go: a request goes through
-- `RateLimitMiddleware`, on most routes through `AuthMiddleware`, and to its handler. The router chi
-- is not modelled: a request carries the route that it matches, with the path's parameters and the
-- decoded body. The tracing and metrics middlewares and `/metrics` change no state of the program.
pub mod Senders
pub mod Requests
pub mod Throttle
use wire_server.Prelude.{ℕ, ◌/◌, String, Bool, true, false, Option, none, some, List, [], ◌∷◌}
use wire_server.Auth.Jwks.{Jwk, JwksCache}
use wire_server.Auth.Token.{JwtLibrary, auth_middleware}
use wire_server.Chat.Backend.{Backend}
use wire_server.Chat.History.{GetHistoryResponse}
use wire_server.Chat.Send.{SendMessageInput, SendMessageResponse}
use wire_server.Gateway.Groups.Create.{CreateGroupRequest, create_group}
use wire_server.Gateway.Groups.Details.{UpdateGroupRequest, list_groups, get_group, update_group}
use wire_server.Gateway.Groups.Members.{add_group_members, remove_group_member}
use wire_server.Gateway.Groups.Admins.{promote_group_admin, demote_group_admin}
use wire_server.Gateway.Groups.Invites.{get_group_invite, reset_group_invite, join_by_invite}
use wire_server.Gateway.Groups.Leave.{leave_group}
use wire_server.Gateway.Http.{Claims, Reply}
use wire_server.Gateway.Lookup.{lookup_users}
use wire_server.Gateway.Proxies.{
  Rpc, Answer, Upstream, UploadBody, create_message, get_message, request_upload, start_call,
  get_user, get_presence_of, refresh_token,
}
use wire_server.Limits.{
  Counters, Origin, Request, Verdict, no_ip, redis_failed, exceeded, served, rate_limit,
}
use wire_server.Services.Calls.{CallIds}
use wire_server.Services.Media.{MediaLibrary, MediaService, MediaObject, UploadUrl}
use wire_server.Services.Presence.{Keys, PresenceRecord}
use wire_server.Services.Users.{UserProfile}
use wire_server.Storage.Pool.{World, idle}
use wire_server.Storage.Rows.{Tables}

-- The routes of the groups and of the lookup, which work on the gateway's own database.
pub data GroupRoute : Type 0 where
  lookup : Option (List String) → GroupRoute
  create : Option CreateGroupRequest → Option (List ℕ) → GroupRoute
  list : GroupRoute
  get : (id : String) → (cut : Option ℕ) → GroupRoute
  update : (id : String) → Option UpdateGroupRequest → GroupRoute
  add_members : (id : String) → Option (List String) → GroupRoute
  remove_member : (id phone : String) → GroupRoute
  promote : (id phone : String) → GroupRoute
  demote : (id phone : String) → GroupRoute
  leave : (id : String) → GroupRoute
  get_invite : (id : String) → GroupRoute
  reset_invite : (id : String) → Option (List ℕ) → GroupRoute
  join : Option String → GroupRoute

-- The routes behind `AuthMiddleware`; `upgraded` says that the connection of `wsConnect` could be
-- made, and `decoded` that the body of `startCall` decodes.
pub data ApiRoute : Type 0 where
  ws_connect : (upgraded connected : Bool) → (fd : ℕ) → ApiRoute
  messages : Option SendMessageInput → ApiRoute
  message : (id : String) → ApiRoute
  upload : Option UploadBody → ApiRoute
  calls : (decoded : Bool) → (random : String) → ApiRoute
  user : (phone : String) → ApiRoute
  presence : (phone : String) → ApiRoute
  group : GroupRoute → ApiRoute

pub data Route : Type 0 where
  health : Route
  refresh : (built : Bool) → Option Upstream → Route
  api : ApiRoute → Route

-- A request, with what goes wrong for it: `lost` in Redis, `rpc` in a gRPC call, `db_fails` in the
-- gateway's calls of the database by their number, `store_lost` and `seen_lost` in a service's.
pub record HttpRequest : Type 0 where
  pub origin : Origin
  pub authorization : String
  pub now : ℕ
  pub route : Route
  pub lost : Bool
  pub rpc : Rpc
  pub db_fails : ℕ → Bool
  pub store_lost : Bool
  pub seen_lost : Bool

-- What the program keeps between requests. `registering` holds the calls of `Hub.Register`.
pub record System : Type 0 where
  pub tables : Tables
  pub chat : Backend
  pub presence_keys : Keys
  pub call_ids : CallIds
  pub objects : List MediaObject
  pub limits : Counters
  pub jwks : JwksCache
  pub registering : List (ℕ × Claims)

pub data Response : Type 0 where
  limited : ℕ → String → Response
  healthy : Response
  refreshed : Answer Upstream → Response
  upgrade_failed : ℕ → String → Response
  upgraded : Response
  message_sent : Answer SendMessageResponse → Response
  history : Answer GetHistoryResponse → Response
  upload_url : Answer UploadUrl → Response
  call_started : Answer (String × ℕ) → Response
  user_found : Answer UserProfile → Response
  presence_found : Answer PresenceRecord → Response
  group_reply : Reply → Response

abbrev pub seconds : ℕ → ℕ
seconds now = now / 1000000000

-- What `RateLimitMiddleware` reads of a request.
abbrev pub limit_request : HttpRequest → Request
limit_request r = record { origin = r.origin; now = seconds r.now; lost = r.lost }

-- The database as a request finds it.
abbrev pub world_of : HttpRequest → System → World
world_of r s = record { tables = s.tables; tx = idle; fails = r.db_fails; calls = 0; now = r.now }

unfoldable pub group_handler : GroupRoute → Option Claims → World → Reply × World
group_handler (lookup body) claims w = lookup_users body w
group_handler (create body rand) claims w = create_group claims body rand w
group_handler list claims w = list_groups claims w
group_handler (get id cut) claims w = get_group cut claims id w
group_handler (update id body) claims w = update_group claims id body w
group_handler (add_members id body) claims w = add_group_members claims id body w
group_handler (remove_member id phone) claims w = remove_group_member claims id phone w
group_handler (promote id phone) claims w = promote_group_admin claims id phone w
group_handler (demote id phone) claims w = demote_group_admin claims id phone w
group_handler (leave id) claims w = leave_group claims id w
group_handler (get_invite id) claims w = get_group_invite claims id w
group_handler (reset_invite id rand) claims w = reset_group_invite claims id rand w
group_handler (join body) claims w = join_by_invite claims body w

-- What the program takes from elsewhere, and its configuration.
pub record Setup : Type 0 where
  pub jwt : JwtLibrary
  pub decode : String → Option (List ℕ)
  pub fetch : String → Option (List Jwk)
  pub validate : SendMessageInput → Bool
  pub order : List String → List String
  pub parse_time : String → Option ℕ
  pub media_library : MediaLibrary
  pub media : MediaService
  pub jwt_secret : String
  pub supabase_url : String

module _ (setup : Setup) where
  unfoldable pub api_handler : HttpRequest → ApiRoute → Claims → System → Response × System
  unfolding create_message get_message request_upload start_call get_user get_presence_of
      group_handler
  api_handler r (ws_connect false connected fd) claims s = (upgrade_failed 400 "upgrade failed", s)
  api_handler r (ws_connect true false fd) claims s = (upgrade_failed 500 "connection failed", s)
  api_handler r (ws_connect true true fd) claims s =
      (upgraded, record s { registering = (fd, claims) ∷ s.registering })
  api_handler r (messages body) claims s =
      let (a, chat') = create_message setup.validate setup.order r.rpc claims body s.chat in
      (message_sent a, record s { chat = chat' })
  api_handler r (message id) claims s =
      let (a, chat') = get_message r.rpc id s.chat in (history a, record s { chat = chat' })
  api_handler r (upload body) claims s =
      let (a, objects') =
        request_upload setup.media_library setup.media r.rpc r.store_lost claims body r.now r.now
          s.objects in
      (upload_url a, record s { objects = objects' })
  api_handler r (calls decoded random) claims s =
      let (a, ids) = start_call r.rpc decoded random r.now s.call_ids in
      (call_started a, record s { call_ids = ids })
  api_handler r (user phone) claims s =
      (user_found (get_user r.rpc r.store_lost phone s.tables.users), s)
  api_handler r (presence phone) claims s = (
    presence_found (
        get_presence_of setup.parse_time r.rpc r.store_lost r.seen_lost phone (seconds r.now)
          s.presence_keys),
    s,
  )
  api_handler r (group g) claims s =
      let (a, w) = group_handler g (some claims) (world_of r s) in
      (group_reply a, record s { tables = w.tables })

  -- The claims that `AuthMiddleware` puts in the context.
  abbrev pub claims_for : HttpRequest → System → Claims × JwksCache
  claims_for r s =
      auth_middleware setup.jwt setup.decode setup.fetch r.authorization setup.jwt_secret
        setup.supabase_url (seconds r.now) s.jwks

  unfoldable pub route_handler : HttpRequest → Route → System → Response × System
  unfolding api_handler
  route_handler r health s = (healthy, s)
  route_handler r (refresh built upstream) s = (refreshed (refresh_token built upstream), s)
  route_handler r (api a) s =
      let (claims, jwks') = claims_for r s in api_handler r a claims (record s { jwks = jwks' })

  abbrev pub after_limit : HttpRequest → Verdict → System → Response × System
  after_limit r no_ip s = (limited 429 "unable to determine ip", s)
  after_limit r redis_failed s = (limited 500 "rate limit failed", s)
  after_limit r exceeded s = (limited 429 "rate limit exceeded", s)
  after_limit r served s = route_handler r r.route s

  -- One request, 200 a minute for an address.
  unfoldable pub handle : HttpRequest → System → Response × System
  unfolding route_handler
  handle r s =
      let (verdict, limits') = rate_limit 200 60 (limit_request r) s.limits in
      after_limit r verdict (record s { limits = limits' })

  -- Requests one after the other: their answers and the state in the end.
  unfoldable pub handle_all : List HttpRequest → System → List Response × System
  unfolding handle
  handle_all [] s = ([], s)
  handle_all (r ∷ rs) s =
      let (a, s1) = handle r s in let (rest, s2) = handle_all rs s1 in (a ∷ rest, s2)
