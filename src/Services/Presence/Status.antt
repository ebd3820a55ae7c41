-- ===== src/Services/Presence/Status.antt =====
-- How long a user counts as online.
use wire_server.Prelude.{
  ℕ, ◌+◌, String, Bool, true, false, Option, none, some, List, [], ◌∷◌, ◌==◌, ◌≡◌, refl, ap, ltb,
  map, inl, inr, Bool-cases, if◌then◌else◌,
}
use wire_server.Text.{trim_space}
use wire_server.Services.Presence.{
  Keys, presence_key_of, set_online, is_text_online, tracker_is_online, get_presence,
  get_bulk_presence,
}

online_if : (b : Bool) → is_text_online (if b then some "online" else none) ≡ b
online_if true = refl
online_if false = refl

-- From `SetOnline` on, the user counts as online for 75 seconds and then no more, and nobody with
-- another key is touched.
pub set_online_lem :
    (p q : String) (now later : ℕ) (keys : Keys)
    → tracker_is_online false q later (set_online false p now keys).1 ≡ (
        if presence_key_of q == presence_key_of p
        then some (ltb later (now + 75))
        else tracker_is_online false q later keys)
unfolding tracker_is_online set_online
set_online_lem p q now later keys = elim (Bool-cases (presence_key_of q == presence_key_of p)) [
  | inl same ↦ rw same (ap some (online_if (ltb later (now + 75))))
  | inr other ↦ rw other refl
]

-- The phones that a bulk request can ask for.
abbrev pub asked_phones : List String → List String
asked_phones [] = []
asked_phones (p ∷ ps) =
    if trim_space p == "" then asked_phones ps else trim_space p ∷ asked_phones ps

module _ (parse_time : String → Option ℕ) where
  -- Where Redis answers whether each user is online, `GetBulkPresence` answers one record for each
  -- phone of the request that is not blank, in order, whether or not it knows when each was seen.
  pub get_bulk_presence_lem :
      (lost lost_seen : String → Bool) (ps : List String) (now : ℕ) (keys : Keys)
      → ((p : String) → lost p ≡ false)
      → map (λ r. r.user_phone) (get_bulk_presence parse_time lost lost_seen ps now keys)
        ≡ asked_phones ps
  unfolding get_bulk_presence get_presence tracker_is_online
  get_bulk_presence_lem lost lost_seen [] now keys calm = refl
  get_bulk_presence_lem lost lost_seen (p ∷ ps) now keys calm =
      let rest = get_bulk_presence_lem lost lost_seen ps now keys calm in
      elim (Bool-cases (trim_space p == "")) [
        | inl blank ↦ rw blank rest
        | inr given ↦ rw (given, calm p) (ap (◌∷◌ (trim_space p)) rest)
      ]
