-- ===== src/Tests/Hub.antt =====
-- The hub's table, the limits and the smaller services at concrete inputs.
use wire_server.Prelude.{
  ◌+◌, String, false, none, some, [], ◌∷◌, ◌≡◌, refl, nat_eq, ◌==◌, if◌then◌else◌,
}
use wire_server.Text.{◌<>◌}
use wire_server.Gateway.Hub.{Connection, Hub, add, remove, deliver}
use wire_server.Gateway.Hub.Reached.{sent_on, deliver_reach}
use wire_server.Services.Calls.{initiate_call, join_call, end_call, join_call_lem}
use wire_server.Services.Notifications.{
  send_with_retry, any_taken, delivered, gave_up, send_with_retry_lem,
}

abbrev ann : Connection
ann = record { fd = 4; phone = "ann"; last_pong = 10000000000 }

abbrev ben : Connection
ben = record { fd = 7; phone = "ben"; last_pong = 90000000000 }

abbrev hub : Hub
hub = record {
  conns = ann ∷ ben ∷ [];
  active_inc = 2;
  active_dec = 0;
  sends = [];
  closed = [];
  online = ("presence:user:ann", 86400) ∷ ("presence:user:ben", 86400) ∷ [];
  offline_events = [];
  fails = λ n. false;
  calls = 2;
}

deliver_reach_example :
    (sent_on 4 (deliver "hi" ("ann" ∷ []) (add ann hub)) ≡ sent_on 4 hub + 1)
    × (sent_on 4 (deliver "hi" [] (add ann hub)) ≡ sent_on 4 hub + 1)
    × (sent_on 4 (deliver "hi" ("ann" ∷ []) (remove ann hub)) ≡ sent_on 4 hub)
    × (sent_on 4 (deliver "hi" [] (remove ann hub)) ≡ sent_on 4 hub)
deliver_reach_example = deliver_reach ann "hi" hub

join_call_example :
    (join_call "call_ab" "cd" 60 (initiate_call "ab" 0 []).1 ≡ (
      if "call_ab" == "call_" <> "ab"
      then some ("join_" <> "cd", 60 + 1800)
      else join_call "call_ab" "cd" 60 []))
    × ((ended : String)
        → join_call "call_ab" "cd" 60 (end_call ended []).1
          ≡ (if "call_ab" == ended then none else join_call "call_ab" "cd" 60 []))
join_call_example = join_call_lem "call_ab" "cd" "ab" 0 60 []

send_with_retry_example :
    (send_with_retry (λ n. nat_eq n 2) (λ n. false)).0
    ≡ (if any_taken (λ n. nat_eq n 2) 4 0 then delivered else gave_up)
send_with_retry_example = send_with_retry_lem (λ n. nat_eq n 2) (λ n. false) (λ k. refl)
