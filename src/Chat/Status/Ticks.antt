-- ===== src/Chat/Status/Ticks.antt =====
-- From a mark to the sender's tick: `markStatus`, the bus, and the consumers that `startStatusConsumers`
-- of services/chat-service/cmd/server.go subscribes.
use wire_server.Prelude.{
  String, Bool, false, ◌||◌, Option, none, some, List, [], ◌∷◌, ◌++◌, ◌==◌, ◌≡◌, refl, sym, ◌+◌,
}
use mathlib.Core.Path.{subst}
use wire_server.Text.{trim_space}
use wire_server.Chat.Backend.{
  Backend, Message, status_event, sender_tick, upsert_message_status, publish_event,
  get_message_by_id, redis_publish, attempt, fetch, find_message, put_status,
}
use wire_server.Chat.Delivery.{sender_channel}
use wire_server.Chat.Delivery.Everyone.{Calm}
use wire_server.Chat.Status.{
  MarkStatusRequest, mark_stored, mark_status, tick_sender, handle_status_event,
}
use wire_server.Services.EventBus.{Act, call_handler, ack, Created, Turn, subscribe}

module _ (decode : String → Option MarkStatusRequest) where
  abbrev run_acts : String → List Act → Backend → Backend
  run_acts stream [] b = b
  run_acts stream (call_handler p ∷ rest) b =
      run_acts stream rest (handle_status_event stream (decode p) b)
  run_acts stream (ack id ∷ rest) b = run_acts stream rest b

  abbrev run_subscribed : String → Option (List Act × Bool) → Backend → Backend
  run_subscribed stream none b = b
  run_subscribed stream (some (acts, returned)) b = run_acts stream acts b

  -- The consumer of one stream; a subscription that fails is only logged.
  unfoldable pub status_consumer : String → Created → List Turn → Backend → Backend
  status_consumer stream group turns b = run_subscribed stream (subscribe group turns) b

-- What `markStatus` leaves when no call fails.
abbrev marked : String → String → String → String → Backend → Backend
marked id user_phone value stream b = record b {
  calls = b.calls + 1 + 1;
  statuses =
      put_status
        (record { message_id = id; user_phone = user_phone; status = value; updated_at = b.now })
        b.statuses;
  events = b.events ++ (stream, status_event id user_phone value) ∷ [];
}

mark_stored-Calm :
    (id user_phone value stream : String) (b : Backend) (m : Message)
    → Calm b
    → find_message id b.messages ≡ some m
    → (mark_stored stream
        (status_event id user_phone value)
        (upsert_message_status id user_phone value b)).1
      ≡ marked id user_phone value stream b
unfolding mark_stored upsert_message_status publish_event attempt
mark_stored-Calm id user_phone value stream b m calm stored =
    rw
      (
        upsert_message_status,
        calm b.calls,
        stored,
        mark_stored,
        publish_event,
        attempt,
        calm (b.calls + 1),
      )
      refl

mark_status-Calm :
    (req : MarkStatusRequest) (value stream : String) (b : Backend) (m : Message)
    → Calm b
    → find_message (trim_space req.message_id) b.messages ≡ some m
    → ((trim_space req.message_id == "") || (trim_space req.user_phone == "")) ≡ false
    → (mark_status req value stream b).1
      ≡ marked (trim_space req.message_id) (trim_space req.user_phone) value stream b
unfolding mark_status
mark_status-Calm req value stream b m calm stored given = rw given (
    mark_stored-Calm (trim_space req.message_id) (trim_space req.user_phone) value stream b m calm
      stored)

handle_status_event-Calm :
    (stream : String) (evt : MarkStatusRequest) (b : Backend) (m : Message)
    → Calm b
    → find_message evt.message_id b.messages ≡ some m
    → (handle_status_event stream (some evt) b).published
      ≡ b.published
        ++ (
          sender_channel m.sender_phone,
          sender_tick stream evt.message_id evt.user_phone evt.status b.now,
        )
          ∷ []
unfolding handle_status_event tick_sender get_message_by_id redis_publish attempt fetch
handle_status_event-Calm stream evt b m calm stored =
    rw
      (
        get_message_by_id,
        fetch,
        calm b.calls,
        stored,
        tick_sender,
        redis_publish,
        attempt,
        calm (b.calls + 1),
      )
      refl

-- A mark for a stored message sends one event, and handling that event publishes one tick with the
-- mark on the channel of the message's sender, when the message id and the phone are not blank and
-- no call fails.
pub handle_status_event-mark_status :
    (req : MarkStatusRequest) (value stream : String) (b : Backend) (m : Message)
    → Calm b
    → ((trim_space req.message_id == "") || (trim_space req.user_phone == "")) ≡ false
    → find_message (trim_space req.message_id) b.messages ≡ some m
    → (let id = trim_space req.message_id in
        let user_phone = trim_space req.user_phone in
        let b1 = (mark_status req value stream b).1 in
        let evt : MarkStatusRequest = record {
          message_id = id;
          user_phone = user_phone;
          status = value;
        } in
        (b1.events ≡ b.events ++ (stream, status_event id user_phone value) ∷ [])
        × ((handle_status_event stream (some evt) b1).published
            ≡ b.published
              ++ (sender_channel m.sender_phone, sender_tick stream id user_phone value b.now)
                ∷ []))
handle_status_event-mark_status req value stream b m calm given stored =
    let id = trim_space req.message_id in
    let user_phone = trim_space req.user_phone in
    let evt : MarkStatusRequest = record {
      message_id = id;
      user_phone = user_phone;
      status = value;
    } in
    let b1 = marked id user_phone value stream b in
    subst
      (λ b'.
        (b'.events ≡ b.events ++ (stream, status_event id user_phone value) ∷ [])
        × ((handle_status_event stream (some evt) b').published
            ≡ b.published
              ++ (sender_channel m.sender_phone, sender_tick stream id user_phone value b.now)
                ∷ []))
      {x = b1} {y = (mark_status req value stream b).1}
      (sym (mark_status-Calm req value stream b m calm stored given))
      (refl, handle_status_event-Calm stream evt b1 m calm stored)
