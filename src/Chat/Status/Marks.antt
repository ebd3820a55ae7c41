-- ===== src/Chat/Status/Marks.antt =====
-- What a mark changes in the status table, and what it tells the sender.
use wire_server.Prelude.{
  String, Bool, true, false, ◌||◌, ◌&&◌, some, List, [], ◌∷◌, ◌==◌, ◌≡◌, refl, eq_iff, eq_refl,
  arith, inl, inr, Bool-cases, ◌∙◌, ap₂, if◌then◌else◌,
}
use wire_server.Text.{trim_space}
use wire_server.Chat.Backend.{
  Backend, MessageStatus, status_event, upsert_message_status, attempt, publish_event, put_status,
  is_stored, status_of, is_status, Payload,
}
use wire_server.Chat.Send.{Result, failed, ok}
use wire_server.Chat.Status.{MarkStatusRequest, mark_status, mark_stored}

is_status_refl : (s : MessageStatus) → is_status s.message_id s.user_phone s ≡ true
is_status_refl s = rw (eq_refl s.message_id, eq_refl s.user_phone) refl

status_of-put_status_same :
    (s : MessageStatus) (qs : List MessageStatus)
    → status_of s.message_id s.user_phone (put_status s qs) ≡ some s.status
status_of-put_status_same s [] = rw (eq_refl s.message_id, eq_refl s.user_phone) refl
status_of-put_status_same s (q ∷ qs) = elim (Bool-cases (is_status s.message_id s.user_phone q)) [
  | inl hit ↦ rw (hit, eq_refl s.message_id, eq_refl s.user_phone) refl
  | inr miss ↦ rw (miss, miss) (status_of-put_status_same s qs)
]

same_texts : (m n u v : String) → ((m == n) && (u == v)) ≡ true → (m ≡ n) × (u ≡ v)
same_texts m n u v h = ((eq_iff m n).0 (ground arith), (eq_iff u v).0 (ground arith))

-- Two pairs that one row answers to are one pair.
other_misses :
    (s q : MessageStatus) (m u : String)
    → ((m == s.message_id) && (u == s.user_phone)) ≡ false
    → is_status s.message_id s.user_phone q ≡ true
    → (is_status m u q ≡ false) × (is_status m u s ≡ false)
other_misses s q m u other hit = (
  ground (
    arith,
    eq_iff q.message_id m,
    eq_iff q.user_phone u,
    eq_iff m s.message_id,
    eq_iff u s.user_phone,
    eq_iff q.message_id s.message_id,
    eq_iff q.user_phone s.user_phone,
  ),
  ground (
    arith,
    eq_iff s.message_id m,
    eq_iff s.user_phone u,
    eq_iff m s.message_id,
    eq_iff u s.user_phone,
  ),
)

status_of-put_status_other :
    (s : MessageStatus) (m u : String) (qs : List MessageStatus)
    → ((m == s.message_id) && (u == s.user_phone)) ≡ false
    → status_of m u (put_status s qs) ≡ status_of m u qs
status_of-put_status_other s m u [] other = ground (
  arith,
  eq_iff s.message_id m,
  eq_iff s.user_phone u,
  eq_iff m s.message_id,
  eq_iff u s.user_phone,
)
status_of-put_status_other s m u (q ∷ qs) other =
    elim (Bool-cases (is_status s.message_id s.user_phone q)) [
      | inl hit ↦ let (missed, new) = other_misses s q m u other hit in rw (hit, missed, new) refl
      | inr miss ↦ elim (Bool-cases (is_status m u q)) [
        | inl found ↦ rw (miss, found) refl
        | inr passed ↦ rw (miss, passed) (status_of-put_status_other s m u qs other)
      ]
    ]

-- What a call of `markStatus` leaves: nothing new if it fails, and else the mark.
abbrev pub Marked : String → String → String → Backend → Result Bool × Backend → Type 0
Marked m u v b (failed c, b') = (b'.statuses ≡ b.statuses) × (b'.events ≡ b.events)
Marked m u v b (ok r, b') =
    (m' u' : String)
    → status_of m' u' b'.statuses
      ≡ (if (m' == m) && (u' == u) then some v else status_of m' u' b.statuses)

status_of-put_status :
    (s : MessageStatus) (m u : String) (qs : List MessageStatus)
    → status_of m u (put_status s qs)
      ≡ (if (m == s.message_id) && (u == s.user_phone) then some s.status else status_of m u qs)
status_of-put_status s m u qs = elim (Bool-cases ((m == s.message_id) && (u == s.user_phone))) [
  | inr other ↦ rw other (status_of-put_status_other s m u qs other)
  | inl same ↦ rw same (
      ap₂ (λ i j. status_of i j (put_status s qs)) (same_texts m s.message_id u s.user_phone same).0
        (same_texts m s.message_id u s.user_phone same).1
      ∙ status_of-put_status_same s qs)
]

publish_event-statuses :
    (stream : String) (p : Payload) (b : Backend)
    → (publish_event stream p b).1.statuses ≡ b.statuses
unfolding publish_event attempt
publish_event-statuses stream p b = elim (Bool-cases (b.fails b.calls)) [
  | inl lost ↦ rw lost refl
  | inr fine ↦ rw fine refl
]

mark_stored-Marked :
    (m u v stream : String) (p : Payload) (b : Backend)
    → Marked m u v b (mark_stored stream p (upsert_message_status m u v b))
unfolding mark_stored upsert_message_status
mark_stored-Marked m u v stream p b = elim (Bool-cases (b.fails b.calls)) [
  | inl lost ↦ rw (upsert_message_status, lost, mark_stored) (refl, refl)
  | inr fine ↦ elim (Bool-cases (is_stored m b)) [
    | inl stored ↦
        rw (upsert_message_status, fine, stored, mark_stored, publish_event-statuses)
          (λ m' u'.
            status_of-put_status
              (record { message_id = m; user_phone = u; status = v; updated_at = b.now }) m' u'
              b.statuses)
    | inr missing ↦ rw (upsert_message_status, fine, missing, mark_stored) (refl, refl)
  ]
]

-- `markStatus`, and so `MarkDelivered` and `MarkRead`, stores the mark under the trimmed message id
-- and phone and leaves every other pair's status alone; when it answers an error it has stored
-- nothing and sent no event.
pub mark_status-Marked :
    (req : MarkStatusRequest) (v stream : String) (b : Backend)
    → Marked
        (trim_space req.message_id)
        (trim_space req.user_phone)
        v
        b
        (mark_status req v stream b)
unfolding mark_status
mark_status-Marked req v stream b =
    let m = trim_space req.message_id in
    let u = trim_space req.user_phone in
    elim (Bool-cases ((m == "") || (u == ""))) [
      | inl blank ↦ rw blank (refl, refl)
      | inr given ↦ rw given (mark_stored-Marked m u v stream (status_event m u v) b)
    ]
