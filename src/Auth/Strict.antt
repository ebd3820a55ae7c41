-- ===== src/Auth/Strict.antt =====
-- internal/auth: `ParseToken`, `Wrap`, `AuthFromHeader` and `requestTraceID`, which do check a
-- token. `parse` stands for `jwt.ParseWithClaims` with a key function, of the name of the token's
-- algorithm, and the algorithms that are valid: the claims of a token that is well formed, signed by one of
-- these under the key and within its times.
pub mod Gate
use wire_server.Prelude.{
  ℕ, String, Bool, true, false, Option, none, some, List, [], ◌∷◌, ◌==◌, if◌then◌else◌,
}
use wire_server.Text.{trim_space, ◌<>◌, decimal}
use wire_server.Auth.Bearer.{bearer_token}

-- `Claims` of internal/auth/claims.go; `subject` is the registered claim of the same JSON key.
pub record UserClaims : Type 0 where
  pub user_id : String
  pub email : String
  pub role : String
  pub subject : String

-- What `jwt.ParseWithClaims` returns: an error, or a token that is valid or not, and its claims.
pub data Parsed : Type 0 where
  parse_error : Parsed
  parsed : (valid : Bool) → UserClaims → Parsed

abbrev pub with_user_id : UserClaims → UserClaims
with_user_id c = record c { user_id = if c.user_id == "" then c.subject else c.user_id }

abbrev has_user_id : UserClaims → Option UserClaims
has_user_id c = if c.user_id == "" then none else some c

abbrev checked : Parsed → Option UserClaims
checked parse_error = none
checked (parsed false c) = none
checked (parsed true c) = has_user_id (with_user_id c)

-- `errorResponse`
pub record ErrorResponse : Type 0 where
  pub status : ℕ
  pub code : String
  pub message : String
  pub trace_id : String

-- The request stops with an error, or goes on with claims in its context.
pub data Passage : Type 0 where
  rejected : ErrorResponse → Passage
  passed_on : UserClaims → Passage

-- The library's function.
abbrev pub ParseWithClaims : Type 0
ParseWithClaims =
    (token : String) → (key : String → Option String) → (valid_methods : List String) → Parsed

-- The key function of `ParseToken`.
unfoldable pub key_of : (secret alg : String) → Option String
key_of secret alg = if alg == "HS256" then some secret else none

module _ (parse : ParseWithClaims) where
  -- The call of the library in `ParseToken`.
  abbrev pub parsed_with : (token secret : String) → Parsed
  parsed_with token secret = parse token (key_of secret) ("HS256" ∷ [])

  -- `none` is an error.
  unfoldable pub parse_user_token : (token secret : String) → Option UserClaims
  parse_user_token token secret = checked (parsed_with token secret)

  unfoldable pub auth_from_header : (secret header : String) → Option UserClaims
  unfolding parse_user_token
  auth_from_header secret header =
      if bearer_token header == "" then none else parse_user_token (bearer_token header) secret

  abbrev passage : String → Option UserClaims → Passage
  passage trace_id none = rejected (record {
    status = 401;
    code = "AUTH_002";
    message = "invalid or expired token";
    trace_id = trace_id;
  })
  passage trace_id (some c) = passed_on c

  -- `Wrap`
  unfoldable pub wrap : (secret header trace_id : String) → Passage
  unfolding parse_user_token
  wrap secret header trace_id =
      if bearer_token header == ""
      then rejected (record {
        status = 401;
        code = "AUTH_001";
        message = "missing bearer token";
        trace_id = trace_id;
      })
      else passage trace_id (parse_user_token (bearer_token header) secret)

-- `requestTraceID` for the header `X-Request-ID`, at a time in nanoseconds.
unfoldable pub request_trace_id : String → ℕ → String
request_trace_id header now =
    if trim_space header == "" then "req_" <> decimal now else trim_space header
