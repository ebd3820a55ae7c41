-- ===== src/Services/Calls.antt =====
-- The calls under way: services/call-service/cmd/main.go. The server's map is an association list;
-- `token` and the id of a new call are what `randHex` draws.
use wire_server.Prelude.{
  ℕ, ◌+◌, ◌*◌, String, Bool, true, false, not, ◌&&◌, Option, none, some, List, [], ◌∷◌, ◌==◌, ◌≡◌,
  refl, ap, ◌∙◌, if◌then◌else◌, arith, eq_iff, inl, inr, Bool-cases, ◌||◌,
}
use wire_server.Text.{◌<>◌, decimal}

abbrev pub CallIds : Type 0
CallIds = List (String × ℕ)

abbrev pub without : String → CallIds → CallIds
without k [] = []
without k ((k', v) ∷ rest) = if k' == k then without k rest else (k', v) ∷ without k rest

abbrev pub has_call : String → CallIds → Bool
has_call k [] = false
has_call k ((k', v) ∷ rest) = (k' == k) || has_call k rest

-- The id of the call, and the map with it.
unfoldable pub initiate_call : (random : String) (now : ℕ) → CallIds → String × CallIds
initiate_call random now s =
    let call_id = "call_" <> random in (call_id, (call_id, now) ∷ without call_id s)

-- A token and when it expires, in seconds; `none` is the error "call not found".
unfoldable pub join_call : (call_id random : String) (now : ℕ) → CallIds → Option (String × ℕ)
join_call call_id random now s =
    if has_call call_id s then some ("join_" <> random, now + 30 * 60) else none

unfoldable pub end_call : String → CallIds → Bool × CallIds
end_call call_id s = (true, without call_id s)

-- `TURNCredential` of internal/call/service.go, times in seconds: the user name, the password and when
-- they expire. `mac` stands for the base64 text of HMAC-SHA1 of a text under a key.
unfoldable pub turn_credential :
    (mac : String → String → String)
    → (secret user_id : String) → (ttl now : ℕ) → String × String × ℕ
unfolding decimal
turn_credential mac secret user_id ttl now =
    let expires_at = now + ttl in
    let username = decimal expires_at <> (":" <> user_id) in
    (username, mac secret username, expires_at)

-- `GetTurnCredentials`: for an hour.
unfoldable pub get_turn_credentials :
    (mac : String → String → String)
    → (secret user_phone : String) → (now : ℕ) → String × String × ℕ
get_turn_credentials mac secret user_phone now = turn_credential mac secret user_phone 3600 now

has_call-without :
    (x k : String) (s : CallIds) → has_call x (without k s) ≡ (has_call x s && not (x == k))
has_call-without x k [] = refl
has_call-without x k ((k', v) ∷ rest) = elim (Bool-cases (k' == k)) [
  | inl hit ↦
      rw hit (ground (arith, has_call-without x k rest, eq_iff k' k, eq_iff k' x, eq_iff x k))
  | inr miss ↦
      rw miss (ground (arith, has_call-without x k rest, eq_iff k' k, eq_iff k' x, eq_iff x k))
]

has_call-insert :
    (x k : String) (v : ℕ) (s : CallIds)
    → has_call x ((k, v) ∷ without k s) ≡ ((x == k) || has_call x s)
has_call-insert x k v s = ground (arith, has_call-without x k s, eq_iff k x, eq_iff x k)

choose :
    (hit there : Bool) (a : Option (String × ℕ))
    → (if hit || there then a else none) ≡ (if hit then a else (if there then a else none))
choose true there a = refl
choose false there a = refl

choose_other :
    (hit there : Bool) (a : Option (String × ℕ))
    → (if there && not hit then a else none) ≡ (if hit then none else (if there then a else none))
choose_other true true a = refl
choose_other true false a = refl
choose_other false true a = refl
choose_other false false a = refl

-- A call can be joined from `InitiateCall` on and until `EndCall`, and neither changes which other
-- calls can be joined; a token is good for half an hour.
pub join_call_lem :
    (x random drawn : String) (now later : ℕ) (s : CallIds)
    → (join_call x random later (initiate_call drawn now s).1 ≡ (
        if x == "call_" <> drawn
        then some ("join_" <> random, later + 1800)
        else join_call x random later s))
      × ((ended : String)
          → join_call x random later (end_call ended s).1
            ≡ (if x == ended then none else join_call x random later s))
unfolding join_call initiate_call end_call
join_call_lem x random drawn now later s =
    let token : Option (String × ℕ) = some ("join_" <> random, later + 1800) in
    (
      ap (λ b. if b then token else none) (has_call-insert x ("call_" <> drawn) now s)
          ∙ choose (x == "call_" <> drawn) (has_call x s) token,
      λ ended.
          ap (λ b. if b then token else none) (has_call-without x ended s)
          ∙ choose_other (x == ended) (has_call x s) token,
    )
