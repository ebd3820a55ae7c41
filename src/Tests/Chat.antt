-- ===== src/Tests/Chat.antt =====
-- The chat server's theorems on small conversations.
use wire_server.Prelude.{
  ℕ, String, true, false, none, some, List, [], ◌∷◌, ◌≡◌, refl, All, not, ◌==◌, ◌&&◌, elem, ◌⊎◌,
  ◌++◌, if◌then◌else◌,
}
use wire_server.Text.{trim_space}
use wire_server.Chat.Backend.{get_group_members, Backend, Message, WireMessage}
use wire_server.Chat.Recipients.{batch_recipients, dedupe_recipients}
use wire_server.Chat.Recipients.Batches.{concat, IsBatch, batch_recipients_lem}
use wire_server.Chat.Recipients.Dedupe.{Distinct, named, dedupe_recipients_lem}
use wire_server.Chat.Delivery.{deliver_all}
use wire_server.Gateway.Hub.{Connection}
use wire_server.Gateway.Hub.Subscriptions.{subscribe_user, frames_for, subscribe_user-deliver_all}
use wire_server.Chat.Delivery.Everyone.{online_in, Delivered, deliver_all-Delivered}
use wire_server.Chat.Send.{
  SendMessageInput, send_message, send_to, resolve_recipients, failed, invalid_argument,
}
use wire_server.Chat.Send.Failures.{Unseen, send_message-failed}
use wire_server.Chat.Status.{MarkStatusRequest, mark_status}
use wire_server.Chat.Status.Marks.{Marked, mark_status-Marked}
use wire_server.Chat.Fanout.{Fanout, Step, takes, delivers, Run, stop, more, start, IsFinished}
use wire_server.Chat.Fanout.Runs.{times, Run-delivered, Run-progress}

abbrev message : String → ℕ → Message
message id at = record {
  id = id;
  conversation_id = "dm:a:b";
  sender_phone = "a";
  body = "hi";
  media_url = none;
  created_at = at;
  recipient_phone = some "b";
  group_id = none;
  body_encrypted = "hi";
  body_type = "text";
  server_ts = at;
}

abbrev stored : List Message
stored = message "m1" 1 ∷ message "m3" 3 ∷ message "m2" 2 ∷ []

abbrev backend : Backend
backend = record {
  conversations = [];
  messages = stored;
  statuses = [];
  replica_members = [];
  replica_messages = stored;
  presence = ("presence:user:b", "Online") ∷ [];
  published = [];
  offline = [];
  expiries = [];
  events = [];
  new_id = λ n. "fresh";
  fails = λ n. false;
  calls = 0;
  now = 9;
}

abbrev wire : WireMessage
wire = record {
  message_id = "m1";
  sender_phone = "a";
  recipient_phones = "b" ∷ "c" ∷ [];
  body = "hi";
  status = "sent";
  created_at = 1;
}

deliver_all-Delivered_example :
    Delivered backend wire ("b" ∷ "c" ∷ []) (deliver_all ("b" ∷ "c" ∷ []) wire backend)
deliver_all-Delivered_example = deliver_all-Delivered ("b" ∷ "c" ∷ []) wire backend (λ n. refl)

batch_recipients_example :
    (concat (batch_recipients ("a" ∷ "b" ∷ "c" ∷ []) 2) ≡ "a" ∷ "b" ∷ "c" ∷ [])
    × All (IsBatch 2) (batch_recipients ("a" ∷ "b" ∷ "c" ∷ []) 2)
batch_recipients_example = batch_recipients_lem ("a" ∷ "b" ∷ "c" ∷ []) 2

dedupe_recipients_example :
    Distinct (dedupe_recipients (" b" ∷ "a" ∷ "b" ∷ "" ∷ []) "a")
    × ((s : String)
        → elem s (dedupe_recipients (" b" ∷ "a" ∷ "b" ∷ "" ∷ []) "a")
          ≡ (named s (" b" ∷ "a" ∷ "b" ∷ "" ∷ []) && not (s == "") && not (s == "a")))
dedupe_recipients_example = dedupe_recipients_lem (" b" ∷ "a" ∷ "b" ∷ "" ∷ []) "a"

abbrev request : SendMessageInput
request = record { sender_phone = "a"; recipient_phones = "b" ∷ []; group_id = "g1"; body = "hi" }

-- The replica has no members of the group.
request-failed :
    (send_message (λ input. true) (λ rs. rs) request backend).0 ≡ failed invalid_argument
unfolding send_message send_to resolve_recipients trim_space get_group_members dedupe_recipients
request-failed = refl

send_message-failed_example :
    Unseen backend (send_message (λ input. true) (λ rs. rs) request backend).1
send_message-failed_example =
    send_message-failed (λ input. true) (λ rs. rs) request backend invalid_argument request-failed

abbrev mark : MarkStatusRequest
mark = record { message_id = " m1"; user_phone = "b"; status = "" }

mark_status-Marked_example :
    Marked "m1" "b" "read" backend (mark_status mark "read" "msg.read" backend)
unfolding trim_space
mark_status-Marked_example = mark_status-Marked mark "read" "msg.read" backend

abbrev last_step : Fanout
last_step = record { jobs = []; workers = [] ∷ []; delivered = "b" ∷ "c" ∷ [] }

full-Run : Run (start ("b" ∷ "c" ∷ [])) last_step
unfolding start batch_recipients
full-Run =
    more (takes ("b" ∷ "c" ∷ []) [] [] [] [])
      (more (delivers "b" ("c" ∷ []) [] [] [] []) (more (delivers "c" [] [] [] [] ("b" ∷ [])) stop))

Run-delivered_example : times "c" last_step.delivered ≡ times "c" ("b" ∷ "c" ∷ [])
Run-delivered_example = Run-delivered ("b" ∷ "c" ∷ []) last_step full-Run (refl, tt) "c"

Run-progress_example : IsFinished last_step ⊎ ((g : Fanout) × Step last_step g)
Run-progress_example = Run-progress ("b" ∷ "c" ∷ []) last_step full-Run

abbrev bea : Connection
bea = record { fd = 5; phone = "b"; last_pong = 0 }

subscribe_user-deliver_all_example :
    subscribe_user false bea (deliver_all ("b" ∷ "c" ∷ []) wire backend).published
    ≡ subscribe_user false bea backend.published
      ++ (if online_in backend "b" then frames_for bea wire ("b" ∷ "c" ∷ []) else [])
subscribe_user-deliver_all_example =
    subscribe_user-deliver_all bea ("b" ∷ "c" ∷ []) wire backend (λ n. refl)
