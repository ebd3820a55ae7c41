-- ===== src/Services/Presence.antt =====
-- The presence keys: internal/presence/presence.go, and `GetPresence` and `GetBulkPresence` of
-- services/presence-service/cmd/main.go. Times are seconds; a key holds its value until it expires.
-- `lost` says that Redis does not answer, and `parse_time` stands for `time.Parse`.
pub mod Status
use wire_server.Prelude.{
  ℕ, ◌+◌, String, Bool, true, false, Option, none, some, List, [], ◌∷◌, ◌==◌, ltb, if◌then◌else◌,
}
use wire_server.Text.{trim_space, ◌<>◌}

abbrev pub Keys : Type 0
Keys = String → Option (String × ℕ)

abbrev pub set_key : String → String → ℕ → Keys → Keys
set_key key value expires keys k = if k == key then some (value, expires) else keys k

abbrev unexpired : ℕ → Option (String × ℕ) → Option String
unexpired now none = none
unexpired now (some (value, expires)) = if ltb now expires then some value else none

abbrev pub get_key : String → ℕ → Keys → Option String
get_key key now keys = unexpired now (keys key)

unfoldable pub presence_key_of : String → String
presence_key_of user_phone = "presence:user:" <> user_phone

-- `SetOnline` and `SetOffline`: whether Redis answered, and the keys. The key lives for 75 seconds.
unfoldable pub set_online : Bool → String → ℕ → Keys → Bool × Keys
set_online lost user_phone now keys =
    if lost
    then (false, keys)
    else (true, set_key (presence_key_of user_phone) "online" (now + 75) keys)

unfoldable pub set_offline : Bool → String → ℕ → Keys → Bool × Keys
set_offline lost user_phone now keys =
    if lost
    then (false, keys)
    else (true, set_key (presence_key_of user_phone) "offline" (now + 75) keys)

-- `TouchLastSeen`; the key lives for a day.
unfoldable pub touch_last_seen : Bool → String → String → ℕ → Keys → Bool × Keys
touch_last_seen lost user_phone at now keys =
    if lost
    then (false, keys)
    else (true, set_key (presence_key_of user_phone <> ":last_seen") at (now + 86400) keys)

abbrev pub is_text_online : Option String → Bool
is_text_online none = false
is_text_online (some value) = value == "online"

-- `IsOnline`: `none` is an error; a missing key is none.
unfoldable pub tracker_is_online : Bool → String → ℕ → Keys → Option Bool
tracker_is_online lost user_phone now keys =
    if lost then none else some (is_text_online (get_key (presence_key_of user_phone) now keys))

pub record PresenceRecord : Type 0 where
  pub user_phone : String
  pub status : String
  pub last_seen : ℕ

pub data PresenceReply : Type 0 where
  invalid : PresenceReply
  check_failed : PresenceReply
  found : PresenceRecord → PresenceReply

module _ (parse_time : String → Option ℕ) where
  abbrev seen_at : ℕ → Option ℕ → ℕ
  seen_at now none = now
  seen_at now (some t) = t

  abbrev parsed : Option String → Option ℕ
  parsed none = none
  parsed (some raw) = parse_time raw

  -- A second failure, of the read of the time, is passed over: the time is then now.
  abbrev pub reply_of : Bool → String → ℕ → Keys → Option Bool → PresenceReply
  reply_of lost_seen user_phone now keys none = check_failed
  reply_of lost_seen user_phone now keys (some online) =
      let raw =
        if lost_seen
        then none
        else get_key ("presence:user:" <> (user_phone <> ":last_seen")) now keys in
      found (record {
        user_phone = user_phone;
        status = if online then "online" else "offline";
        last_seen = seen_at now (parsed raw);
      })

  unfoldable pub get_presence : (lost lost_seen : Bool) → String → ℕ → Keys → PresenceReply
  unfolding tracker_is_online trim_space
  get_presence lost lost_seen raw_phone now keys =
      let user_phone = trim_space raw_phone in
      if user_phone == ""
      then invalid
      else reply_of lost_seen user_phone now keys (tracker_is_online lost user_phone now keys)

  abbrev pub add_found : PresenceReply → List PresenceRecord → List PresenceRecord
  add_found invalid rest = rest
  add_found check_failed rest = rest
  add_found (found r) rest = r ∷ rest

  -- `GetBulkPresence`: a phone that gives an error is left out.
  unfoldable pub get_bulk_presence :
      (lost lost_seen : String → Bool) → List String → ℕ → Keys → List PresenceRecord
  get_bulk_presence lost lost_seen [] now keys = []
  get_bulk_presence lost lost_seen (p ∷ ps) now keys =
      add_found (get_presence (lost p) (lost_seen p) p now keys)
        (get_bulk_presence lost lost_seen ps now keys)
