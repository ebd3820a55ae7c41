-- ===== src/Services/Users.antt =====
-- The user service, services/user-service/cmd/main.go. `lost` says that the database does not answer.
use wire_server.Prelude.{
  ℕ, String, Bool, true, false, ◌||◌, Option, none, some, List, [], ◌∷◌, ◌==◌, leb, ltb, nat_eq,
  ◌≡◌, ◌⊎◌, inl, inr, refl, ap, eq_iff, Bool-cases, if◌then◌else◌,
}
use wire_server.Text.{trim_space}
use wire_server.Storage.Rows.{User}

-- A gRPC status.
pub data UserError : Type 0 where
  invalid_argument : UserError
  not_found : UserError
  internal : UserError

pub data UserResult {ℓ} (A : Type ℓ) : Type ℓ where
  failed : UserError → UserResult A
  ok : A → UserResult A

pub record UserProfile : Type 0 where
  pub user_phone : String
  pub display_name : String
  pub avatar_url : String
  pub created_at : ℕ

abbrev has_phone : String → Option String → Bool
has_phone phone none = false
has_phone phone (some p) = p == phone

-- `SELECT phone, created_at FROM users WHERE phone = $1`, the first row.
abbrev pub find_user : String → List User → Option User
find_user phone [] = none
find_user phone (u ∷ us) = if has_phone phone u.phone then some u else find_user phone us

abbrev pub user_answer : String → Option User → UserResult UserProfile
user_answer phone none = failed not_found
user_answer phone (some u) =
    ok
      (record { user_phone = phone; display_name = ""; avatar_url = ""; created_at = u.created_at })

-- `GetUser`
unfoldable pub get_user : Bool → String → List User → UserResult UserProfile
unfolding trim_space
get_user lost raw_phone users =
    let phone = trim_space raw_phone in
    if phone == ""
    then failed invalid_argument
    else if lost
    then failed internal
    else user_answer phone (find_user phone users)

-- `GetContacts`: no contacts, whatever the limit, which is an `int32` by its 32 bits and clamped.
unfoldable pub contacts_limit : ℕ → ℕ
contacts_limit n = if nat_eq n 0 || leb 2147483648 n || ltb 200 n then 50 else n

unfoldable pub get_contacts : ℕ → List String × String
get_contacts limit = ([], "")

-- `BlockUser`: only the arguments are looked at.
unfoldable pub block_user : String → String → UserResult Bool
unfolding trim_space
block_user user_phone block_user_phone =
    if (trim_space user_phone == "") || (trim_space block_user_phone == "")
    then failed invalid_argument
    else ok true

phone_same : (phone : String) (o : Option String) → has_phone phone o ≡ true → o ≡ some phone
phone_same phone none h = absurd (cc h)
phone_same phone (some p) h = ap some ((eq_iff p phone).0 h)

find_user-phone :
    (phone : String) (users : List User)
    → (find_user phone users ≡ none)
      ⊎ ((u : User) × (find_user phone users ≡ some u) × (u.phone ≡ some phone))
find_user-phone phone [] = inl refl
find_user-phone phone (u ∷ us) = elim (Bool-cases (has_phone phone u.phone)) [
  | inl hit ↦ inr (u, rw hit refl, phone_same phone u.phone hit)
  | inr miss ↦ rw miss (find_user-phone phone us)
]

-- What `GetUser` may answer for a phone: an error that says why, or the profile of a stored user.
abbrev pub Answered : Bool → String → List User → UserResult UserProfile → Type 0
Answered lost phone users (failed invalid_argument) = (phone == "") ≡ true
Answered lost phone users (failed internal) = lost ≡ true
Answered lost phone users (failed not_found) = find_user phone users ≡ none
Answered lost phone users (ok profile) =
    (profile.user_phone ≡ phone)
    × ((u : User) × (find_user phone users ≡ some u)
        × (u.phone ≡ some phone)
        × (profile.created_at ≡ u.created_at))

found_answer :
    (lost : Bool) (phone : String) (users : List User)
    → Answered lost phone users (user_answer phone (find_user phone users))
found_answer lost phone users = elim (find_user-phone phone users) [
  | inl missing ↦ rw missing missing
  | inr (u, found, same) ↦ rw found (refl, (u, found, same, refl))
]

-- `GetUser` answers "invalid argument" only for a blank phone, "internal" only if the database does not
-- answer and "not found" only if no user has the phone, and else gives the time of a user with it.
pub get_user-Answered :
    (lost : Bool) (raw_phone : String) (users : List User)
    → Answered lost (trim_space raw_phone) users (get_user lost raw_phone users)
unfolding get_user
get_user-Answered lost raw_phone users = elim (Bool-cases (trim_space raw_phone == "")) [
  | inl blank ↦ rw blank blank
  | inr set ↦ elim (Bool-cases lost) [
    | inl down ↦ rw (set, down) refl
    | inr up ↦ rw (set, up) (found_answer false (trim_space raw_phone) users)
  ]
]
