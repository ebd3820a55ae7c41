-- ===== src/Gateway/Router/Senders.antt =====
-- Who the messages are from that requests to the gateway have the chat service store.
use wire_server.Prelude.{
  String, Bool, true, false, Option, none, some, List, [], ◌∷◌, inl, inr, Bool-cases, All, ◌==◌,
}
use wire_server.Text.{trim_space}
use wire_server.Chat.Backend.{Backend, fetch}
use wire_server.Chat.History.{get_history}
use wire_server.Chat.Send.{SendMessageInput}
use wire_server.Chat.Send.Senders.{Signed, send_message-Signed}
use wire_server.Gateway.Http.{Claims}
use wire_server.Gateway.Proxies.{
  Rpc, unreached, unanswered, answered, invoke, create_message, get_message,
}
use wire_server.Gateway.Router.{
  Setup, System, HttpRequest, Route, health, refresh, api, ApiRoute, ws_connect, messages, message,
  upload, calls, user, presence, group, claims_for, api_handler, route_handler, after_limit, handle,
  handle_all,
}
use wire_server.Limits.{Verdict, no_ip, redis_failed, exceeded, served}

module _ {ℓ} (P : String → Type ℓ) where
  create_message-Signed :
      (validate : SendMessageInput → Bool) (order : List String → List String) (rpc : Rpc)
      (claims : Claims) (body : Option SendMessageInput) (b : Backend)
      → P (trim_space claims.phone)
      → Signed P b
      → Signed P (create_message validate order rpc claims body b).1
  unfolding create_message invoke
  create_message-Signed validate order rpc claims none b p v = v
  create_message-Signed validate order unreached claims (some body) b p v = v
  create_message-Signed validate order unanswered claims (some body) b p v =
      send_message-Signed P validate order (record body { sender_phone = claims.phone }) b p v
  create_message-Signed validate order answered claims (some body) b p v =
      send_message-Signed P validate order (record body { sender_phone = claims.phone }) b p v

  get_history-Signed :
      (id : String) (b : Backend)
      → Signed P b
      → Signed P (get_history (record { conversation_id = id; cursor = ""; limit = 1 }) b).1
  unfolding get_history fetch
  get_history-Signed id b v = elim (Bool-cases (trim_space id == "")) [
    | inl blank ↦ rw blank v
    | inr set ↦ elim (Bool-cases (b.fails b.calls)) [
      | inl lost ↦ rw (set, lost) v
      | inr fine ↦ rw (set, fine) v
    ]
  ]

  get_message-Signed :
      (rpc : Rpc) (id : String) (b : Backend) → Signed P b → Signed P (get_message rpc id b).1
  unfolding get_message invoke
  get_message-Signed unreached id b v = v
  get_message-Signed unanswered id b v = get_history-Signed id b v
  get_message-Signed answered id b v = get_history-Signed id b v

  module _ (setup : Setup) where
    -- The phone of the request's claims, blanks trimmed, is of the kind.
    abbrev pub Vouched : HttpRequest → Type ℓ
    Vouched r = (s : System) → P (trim_space (claims_for setup r s).0.phone)

    api_handler-Signed :
        (r : HttpRequest) (a : ApiRoute) (claims : Claims) (s : System)
        → P (trim_space claims.phone)
        → Signed P s.chat
        → Signed P (api_handler setup r a claims s).1.chat
    unfolding api_handler
    api_handler-Signed r (ws_connect false connected fd) claims s p v = v
    api_handler-Signed r (ws_connect true false fd) claims s p v = v
    api_handler-Signed r (ws_connect true true fd) claims s p v = v
    api_handler-Signed r (messages body) claims s p v =
        create_message-Signed setup.validate setup.order r.rpc claims body s.chat p v
    api_handler-Signed r (message id) claims s p v = get_message-Signed r.rpc id s.chat v
    api_handler-Signed r (upload body) claims s p v = v
    api_handler-Signed r (calls decoded random) claims s p v = v
    api_handler-Signed r (user phone) claims s p v = v
    api_handler-Signed r (presence phone) claims s p v = v
    api_handler-Signed r (group g) claims s p v = v

    route_handler-Signed :
        (r : HttpRequest) (route : Route) (s : System)
        → Vouched r
        → Signed P s.chat
        → Signed P (route_handler setup r route s).1.chat
    unfolding route_handler
    route_handler-Signed r health s p v = v
    route_handler-Signed r (refresh built upstream) s p v = v
    route_handler-Signed r (api a) s p v =
        let (claims, jwks') = claims_for setup r s in
        api_handler-Signed r a claims (record s { jwks = jwks' }) (p s) v

    after_limit-Signed :
        (r : HttpRequest) (verdict : Verdict) (s : System)
        → Vouched r
        → Signed P s.chat
        → Signed P (after_limit setup r verdict s).1.chat
    after_limit-Signed r no_ip s p v = v
    after_limit-Signed r redis_failed s p v = v
    after_limit-Signed r exceeded s p v = v
    after_limit-Signed r served s p v = route_handler-Signed r r.route s p v

    handle-Signed :
        (r : HttpRequest) (s : System)
        → Vouched r
        → Signed P s.chat
        → Signed P (handle setup r s).1.chat
    unfolding handle
    handle-Signed r s p v = after_limit-Signed r _ _ p v

    -- A property of phones that the senders of all stored messages have, and that the phone of each
    -- request's claims has once blanks are trimmed, is one that the senders of all messages have
    -- which are stored after the requests, whatever senders their payloads name and whatever fails.
    pub handle_all-Signed :
        (rs : List HttpRequest) (s : System)
        → All Vouched rs
        → Signed P s.chat
        → Signed P (handle_all setup rs s).1.chat
    unfolding handle_all
    handle_all-Signed [] s p v = v
    handle_all-Signed (r ∷ rs) s (p, ps) v =
        handle_all-Signed rs (handle setup r s).1 ps (handle-Signed r s p v)
