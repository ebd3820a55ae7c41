-- ===== src/Gateway/Proxies.antt =====
-- The handlers of services/api-gateway/internal/gateway/server.go that pass a request on to another
-- service: `createMessage`, `getMessage`, `requestUpload`, `startCall`, `getUser`, `getPresence` and
-- `refreshToken`. gRPC and `json.Decode` are not modelled: a call reaches the service or not, and its
-- answer comes back or not; a body that does not decode is `none`.
use wire_server.Prelude.{ℕ, String, Bool, true, false, Option, none, some, List, code, nat_eq}
use wire_server.Text.{◌<>◌, trim_right_by}
use wire_server.Gateway.Http.{Claims}
use wire_server.Chat.Backend.{Backend}
use wire_server.Chat.Send.{Result, failed, ok, SendMessageInput, SendMessageResponse, send_message}
use wire_server.Chat.History.{GetHistoryResponse, get_history}
use wire_server.Services.Calls.{CallIds, initiate_call}
use wire_server.Services.Media.{
  MediaLibrary, MediaService, MediaObject, UploadUrl, request_upload_url,
}
use wire_server.Services.Presence.{
  Keys, PresenceReply, PresenceRecord, invalid, check_failed, found, get_presence,
}
use wire_server.Services.Users as UserService
use wire_server.Storage.Rows.{User}

-- What becomes of a gRPC call.
pub data Rpc : Type 0 where
  unreached : Rpc
  unanswered : Rpc
  answered : Rpc

-- The state that a call leaves, and its answer if there is one.
unfoldable pub invoke {ℓ κ} :
    {A : Type ℓ} {S : Type κ} → Rpc → (S → Option A × S) → S → Option A × S
invoke unreached f s = (none, s)
invoke unanswered f s = let (_, s') = f s in (none, s')
invoke answered f s = f s

-- `writeError` with a status, or `writeJSON` with status 200.
pub data Answer {ℓ} (A : Type ℓ) : Type ℓ where
  refused : ℕ → String → Answer A
  answer_json : A → Answer A

abbrev pub or_failed {ℓ} : {A : Type ℓ} → Option A → Answer A
or_failed none = refused 500 "grpc failed"
or_failed (some a) = answer_json a

abbrev pub invalid_payload {ℓ} : {A : Type ℓ} → Answer A
invalid_payload = refused 400 "invalid payload"

abbrev ok_answer {ℓ} : {A : Type ℓ} → Result A → Option A
ok_answer (failed code) = none
ok_answer (ok a) = some a

abbrev of_result {ℓ} : {A : Type ℓ} → (Backend → Result A × Backend) → Backend → Option A × Backend
of_result f b = let (r, b') = f b in (ok_answer r, b')

module _ (validate : SendMessageInput → Bool) (order : List String → List String) where
  abbrev pub chat_send : SendMessageInput → Backend → Option SendMessageResponse × Backend
  chat_send req = of_result (send_message validate order req)

  -- The sender is the phone of the claims, whatever the payload says.
  unfoldable pub create_message :
      Rpc → Claims → Option SendMessageInput → Backend → Answer SendMessageResponse × Backend
  unfolding invoke
  create_message rpc claims none b = (invalid_payload, b)
  create_message rpc claims (some body) b =
      let (resp, b') = invoke rpc (chat_send (record body { sender_phone = claims.phone })) b in
      (or_failed resp, b')

unfoldable pub get_message : Rpc → String → Backend → Answer GetHistoryResponse × Backend
unfolding invoke
get_message rpc id b =
    let (resp, b') =
      invoke rpc (of_result (get_history (record { conversation_id = id; cursor = ""; limit = 1 })))
        b in
    (or_failed resp, b')

-- The decoded body of `requestUpload`.
pub record UploadBody : Type 0 where
  pub owner_phone : String
  pub content_type : String
  pub size : ℕ

module _ (lib : MediaLibrary) (media : MediaService) where
  -- The owner is the phone of the claims, whatever the payload says.
  unfoldable pub request_upload :
      Rpc
      → (lost : Bool) → Claims
      → Option UploadBody
      → (now id_time : ℕ) → List MediaObject
      → Answer UploadUrl × List MediaObject
  unfolding invoke
  request_upload rpc lost claims none now id_time objects = (invalid_payload, objects)
  request_upload rpc lost claims (some body) now id_time objects =
      let req : UploadBody = record body { owner_phone = claims.phone } in
      let (resp, objects') =
        invoke rpc
          (request_upload_url lib media lost req.owner_phone req.content_type req.size now id_time)
          objects in
      (or_failed resp, objects')

abbrev initiated : String → ℕ → CallIds → Option (String × ℕ) × CallIds
initiated random now s = let (id, s') = initiate_call random now s in (some (id, now), s')

-- The caller that `startCall` writes into the body is not read by the call service.
unfoldable pub start_call :
    Rpc → (decoded : Bool) → (random : String) → (now : ℕ) → CallIds → Answer (String × ℕ) × CallIds
unfolding invoke
start_call rpc false random now s = (invalid_payload, s)
start_call rpc true random now s =
    let (resp, s') = invoke rpc (initiated random now) s in (or_failed resp, s')

abbrev user_ok : UserService.UserResult UserService.UserProfile → Option UserService.UserProfile
user_ok (UserService.failed e) = none
user_ok (UserService.ok u) = some u

-- Every error of the user service is 500 here.
unfoldable pub get_user : Rpc → (lost : Bool) → String → List User → Answer UserService.UserProfile
unfolding invoke
get_user rpc lost phone users =
    let (resp, users') =
      invoke rpc (λ us. (user_ok (UserService.get_user lost phone us), us)) users in
    or_failed resp

abbrev presence_ok : PresenceReply → Option PresenceRecord
presence_ok invalid = none
presence_ok check_failed = none
presence_ok (found r) = some r

unfoldable pub get_presence_of :
    (parse_time : String → Option ℕ)
    → Rpc
    → (lost lost_seen : Bool) → String
    → ℕ
    → Keys
    → Answer PresenceRecord
unfolding invoke
get_presence_of parse_time rpc lost lost_seen phone now keys =
    let (resp, keys') =
      invoke rpc (λ ks. (presence_ok (get_presence parse_time lost lost_seen phone now ks), ks))
        keys in
    or_failed resp

-- What the upstream of `refreshToken` answers, or `none` where it does not.
pub record Upstream : Type 0 where
  pub status : ℕ
  pub headers : List (String × String)
  pub body : String

-- `strings.TrimRight(…, "/")` and the path.
unfoldable pub refresh_target : String → String
unfolding trim_right_by
refresh_target url =
    trim_right_by (λ c. nat_eq c 47) url <> "/auth/v1/token?grant_type=refresh_token"

-- `built` says that the request could be made.
unfoldable pub refresh_token : (built : Bool) → Option Upstream → Answer Upstream
refresh_token false upstream = refused 502 "proxy failed"
refresh_token true none = refused 502 "upstream failed"
refresh_token true (some r) = answer_json r
