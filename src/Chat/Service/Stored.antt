-- ===== src/Chat/Service/Stored.antt =====
-- What `deliver` stores for a user who is offline, letter after letter.
use wire_server.Prelude.{
  ℕ, ◌+◌, ◌*◌, String, Bool, true, false, Option, some, List, [], ◌∷◌, ◌++◌, ◌≡◌, ◌∙◌, map, arith,
}
use mathlib.Core.List.{append-nil, append_assoc}
use wire_server.Services.Presence.{tracker_is_online}
use wire_server.Sockets.Frames.{Frame, Structs, marshal_frame}
use wire_server.Chat.Backend.{Message}
use wire_server.Chat.Service.State.{Service, inbox_key, lpush, online_or, check_online}
use wire_server.Chat.Service.{delivered_frame, deliver_frame, deliver}
use wire_server.Chat.Service.Inbox.{in_then, Shelf, lpush-Shelf, expire-Shelf, check_online-Shelf}

-- A message with the trace of its request.
abbrev pub Letter : Type 0
Letter = Message × String

abbrev pub at : {B : Type 0} → ℕ → Service B → Service B
at now s = record s { backend = record (s.backend) { now = now } }

module _ {M O E B : Type 0} (lib : Structs M O E B) (pack : List (String × String) → M)
    (text_at : String → M → Option String) (digest : String → String) where
  abbrev pub deliver_letters : String → List Letter → Service B → Service B
  deliver_letters target [] s = s
  deliver_letters target ((m, trace) ∷ ls) s =
      deliver_letters target ls (deliver lib pack text_at digest target m trace s)

  abbrev pub frame_for : String → Letter → Frame M
  frame_for target (m, trace) = delivered_frame lib pack text_at digest target m trace

  module _ (target : String) (enc : Letter → B)
      (encodes : (l : Letter) → marshal_frame lib (frame_for target l) ≡ some (enc l)) where
    deliver_frame-Shelf :
        (s t : Service B) (until : ℕ) (queue : List B) (m : Message) (b : B) (online : Bool)
        (o : Option B)
        → until ≡ s.backend.now + 24 * 3600
        → s.stored ≡ true
        → online ≡ false
        → o ≡ some b
        → Shelf s (inbox_key target) until queue t
        → Shelf s
            (inbox_key target)
            until
            (queue ++ b ∷ [])
            (deliver_frame lib pack text_at digest online target m o t)
    unfolding deliver_frame
    deliver_frame-Shelf s t until queue m b online o day stored away e h =
        rw (away, e)
          (let first =
              lpush-Shelf s t (inbox_key target) until queue b (omega (arith, day, h.clock)) h in
            in_then (Shelf s (inbox_key target) until (queue ++ b ∷ [])) t.stored _ t
              (h.stored_same ∙ stored)
              (expire-Shelf s (lpush (inbox_key target) b t) (inbox_key target) until
                (queue ++ b ∷ []) (omega (arith, day, first.clock))
                (omega (arith, day, first.clock)) first))

    deliver-Shelf :
        (s t : Service B) (until : ℕ) (queue : List B) (m : Message) (trace : String)
        → until ≡ s.backend.now + 24 * 3600
        → s.stored ≡ true
        → online_or (tracker_is_online false target s.backend.now s.keys) ≡ false
        → Shelf s (inbox_key target) until queue t
        → Shelf s
            (inbox_key target)
            until
            (queue ++ enc (m, trace) ∷ [])
            (deliver lib pack text_at digest target m trace t)
    unfolding deliver
    deliver-Shelf s t until queue m trace day stored away h =
        let (offline, found) =
          check_online-Shelf s t (inbox_key target) target until queue
            (rw (h.clock, h.keys_same) away) h in
        deliver_frame-Shelf s (check_online target t).1 until queue m (enc (m, trace))
          (check_online target t).0 _ day stored offline (encodes (m, trace)) found

    pub deliver_letters-Shelf :
        (s t : Service B) (until : ℕ) (queue : List B) (ls : List Letter)
        → until ≡ s.backend.now + 24 * 3600
        → s.stored ≡ true
        → online_or (tracker_is_online false target s.backend.now s.keys) ≡ false
        → Shelf s (inbox_key target) until queue t
        → Shelf s (inbox_key target) until (queue ++ map enc ls) (deliver_letters target ls t)
    deliver_letters-Shelf s t until queue [] day stored away h = rw (append-nil queue) h
    deliver_letters-Shelf s t until queue ((m, trace) ∷ ls) day stored away h =
        rw (← append_assoc queue (enc (m, trace) ∷ []) (map enc ls)) (
          deliver_letters-Shelf s (deliver lib pack text_at digest target m trace t) until
            (queue ++ enc (m, trace) ∷ []) ls day stored away
            (deliver-Shelf s t until queue m trace day stored away h))
