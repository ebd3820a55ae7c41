-- ===== src/Gateway/Http.antt =====
-- Requests, replies and early returns of the handlers of
-- services/api-gateway/internal/gateway/server.go.
pub mod Paths
use wire_server.Prelude.{
  ℕ, String, Bool, true, false, Option, none, some, List, ◌==◌, if◌then◌else◌,
}
use wire_server.Text.{trim_space}
use wire_server.Storage.Rows.{Role}
use wire_server.Storage.Pool.{World}

-- What the JWT middleware leaves in the request's context; a metadata value that is no text is `none`.
pub record Claims : Type 0 where
  pub email : String
  pub user_metadata : List (String × Option String)
  pub phone : String

pub record GroupMemberResponse : Type 0 where
  pub user_phone : String
  pub role : Role
  pub added_by : Option String
  pub created_at : ℕ

pub record GroupResponse : Type 0 where
  pub id : String
  pub name : String
  pub description : Option String
  pub avatar_url : Option String
  pub created_by : String
  pub invite_code : String
  pub created_at : ℕ
  pub updated_at : ℕ
  pub member_count : ℕ
  pub members : List GroupMemberResponse

-- The payloads of the group handlers.
pub data Body : Type 0 where
  message : String → Body
  group_created : String → String → Body
  group_list : List GroupResponse → Body
  group_detail : GroupResponse → Body
  done_flag : Body
  invite : String → Body
  joined : String → Body
  lookup_result : List String → List String → Body

pub record Reply : Type 0 where
  pub code : ℕ
  pub success : Bool
  pub body : Body

-- `writeJSON`
unfoldable pub write_json : ℕ → Body → Reply
write_json code payload = record { code = code; success = true; body = payload }

-- `writeError`
unfoldable pub write_error : ℕ → String → Reply
write_error code text = record { code = code; success = false; body = message text }

-- A handler goes on, or has written its reply and returns.
pub data Flow {ℓ} (A : Type ℓ) : Type ℓ where
  next : A → Flow A
  done : Reply → Flow A

abbrev pub Handler {ℓ} : Type ℓ → Type ℓ
Handler A = World → Flow A × World

abbrev continue {ℓ κ} :
    {A : Type ℓ} {B : Type κ} → Flow A → World → (A → Handler B) → Flow B × World
continue (next a) w f = f a w
continue (done r) w f = (done r, w)

-- A call of the database, whose outcome the handler reads.
unfoldable pub op {ℓ} : {A : Type ℓ} → (World → A × World) → Handler A
op m w = let (a, w') = m w in (next a, w')

-- `if !ok { writeError(…); return }`
unfoldable pub ensure : Bool → Reply → Handler (Unit {0})
ensure true r w = (next tt, w)
ensure false r w = (done r, w)

-- `if err != nil { writeError(…); return }` on a value.
unfoldable pub unwrap {ℓ} : {A : Type ℓ} → Option A → Reply → Handler A
unwrap (some a) r w = (next a, w)
unwrap none r w = (done r, w)

unfoldable pub reply : Reply → Handler Reply
reply r w = (next r, w)

infixl 5 ◌>>=◌ ◌>>◌
-- To unfold this is to unfold the steps above too.
unfoldable pub ◌>>=◌ {ℓ κ} : {A : Type ℓ} {B : Type κ} → Handler A → (A → Handler B) → Handler B
unfolding op ensure unwrap reply
◌>>=◌ m f w = let (r, w') = m w in continue r w' f

abbrev pub ◌>>◌ {ℓ} : {B : Type ℓ} → Handler (Unit {0}) → Handler B → Handler B
m >> k = m >>= λ _. k

-- The reply that a handler ends with.
abbrev pub result : Flow Reply → Reply
result (next r) = r
result (done r) = r

abbrev pub serve : Handler Reply → World → Reply × World
serve h w = let (f, w') = h w in (result f, w')

-- `currentUserPhone`: the phone of the claims, unless it is blank.
unfoldable pub current_user_phone : Option Claims → Option String
unfolding trim_space
current_user_phone none = none
current_user_phone (some c) = if trim_space c.phone == "" then none else some c.phone

pub missing_claims : Reply
missing_claims = write_error 401 "missing claims"
