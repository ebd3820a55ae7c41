-- ===== src/Auth/Token.antt =====
-- `parseToken`, `AuthMiddleware` and `ClaimsFromContext` of pkg/middleware/middleware.go. The JWT
-- library is a parameter, as a record of what the code relies on: it decodes the claims into the
-- struct before it checks the signature, so they stay there when the check fails.
pub mod Trust
use wire_server.Prelude.{
  ℕ, String, Bool, true, false, ◌||◌, Option, none, some, List, [], ◌∷◌, ◌==◌, if◌then◌else◌,
}
use wire_server.Text.{trim_space}
use wire_server.Text.Words.{split_at}
use wire_server.Gateway.Http.{Claims}
use wire_server.Auth.Bearer.{bearer_token}
use wire_server.Auth.Jwks.{PublicKey, Keys, JwksCache, Jwk, find_key, load_jwks_keys}

pub data SigningMethod : Type 0 where
  hmac : SigningMethod
  ecdsa : SigningMethod
  other_method : SigningMethod

pub data VerifyKey : Type 0 where
  shared_secret : String → VerifyKey
  public_key : PublicKey → VerifyKey

-- The payload's fields `phone` and `user_metadata`, each if it is there and of its type.
pub record RawPayload : Type 0 where
  pub phone : Option String
  pub user_metadata : Option (List (String × Option String))

-- `bind`: what is decoded into the struct, or nothing of a token that is not well formed; `verify`:
-- the check of the signature and of the times under a key; `kid`: the header's key id or "".
pub record JwtLibrary : Type 0 where
  pub bind : String → Option Claims
  pub method_of : String → SigningMethod
  pub kid : String → String
  pub verify : String → VerifyKey → Bool
  pub decode_segment : String → Option RawPayload

abbrev pub empty_claims : Claims
empty_claims = record { email = ""; user_metadata = []; phone = "" }

abbrev ec_key : Option PublicKey → Option VerifyKey
ec_key none = none
ec_key (some p) = some (public_key p)

abbrev key_in : String → Option Keys → Option VerifyKey
key_in kid none = none
key_in kid (some keys) = ec_key (find_key kid keys)

abbrev verified_by : JwtLibrary → String → Option VerifyKey → Bool
verified_by jwt token none = false
verified_by jwt token (some key) = jwt.verify token key

abbrev pub lookup_text : String → List (String × Option String) → Option String
lookup_text k [] = none
lookup_text k ((k', v) ∷ rest) = if k' == k then v else lookup_text k rest

abbrev is_nothing : List (String × Option String) → Bool
is_nothing [] = true
is_nothing (x ∷ xs) = false

abbrev or_else {ℓ} : {A : Type ℓ} → Option A → A → A
or_else none a = a
or_else (some b) a = b

-- "if struct binding missed it"
abbrev pub fill_from : Option RawPayload → Claims → Claims
fill_from none c = c
fill_from (some raw) c = record c {
  phone = if c.phone == "" then or_else raw.phone c.phone else c.phone;
  user_metadata =
      if is_nothing c.user_metadata
      then or_else raw.user_metadata c.user_metadata
      else c.user_metadata;
}

abbrev pub raw_payload : JwtLibrary → List String → Option RawPayload
raw_payload jwt (a ∷ b ∷ c ∷ []) = jwt.decode_segment b
raw_payload jwt [] = none
raw_payload jwt (a ∷ []) = none
raw_payload jwt (a ∷ b ∷ []) = none
raw_payload jwt (a ∷ b ∷ c ∷ d ∷ rest) = none

-- The last step: the phone of the metadata where there is none yet.
abbrev pub phone_from_metadata : Claims → Claims
phone_from_metadata c = record c {
  phone = if c.phone == "" then or_else (lookup_text "phone" c.user_metadata) "" else c.phone;
}

-- The claims that `parseToken` returns for a token that is not empty.
unfoldable pub claims_of : JwtLibrary → String → Claims
claims_of jwt token =
    phone_from_metadata
      (fill_from (raw_payload jwt (split_at 46 token)) (or_else (jwt.bind token) empty_claims))

module _ (jwt : JwtLibrary) (decode : String → Option (List ℕ))
    (fetch : String → Option (List Jwk)) where
  -- The key function of `ParseWithClaims`, which may fetch keys.
  unfoldable pub key_for :
      (secret url token : String) (now : ℕ)
      → JwksCache
      → SigningMethod
      → Option VerifyKey × JwksCache
  key_for secret url token now cache hmac = (some (shared_secret secret), cache)
  key_for secret url token now cache other_method = (none, cache)
  key_for secret url token now cache ecdsa =
      if trim_space (jwt.kid token) == ""
      then (none, cache)
      else (let (keys, cache') = load_jwks_keys decode fetch url now cache in
          (key_in (jwt.kid token) keys, cache'))

  abbrev parse_with :
      (secret url token : String) (now : ℕ) → JwksCache → Option Claims → Bool × JwksCache
  parse_with secret url token now cache none = (false, cache)
  parse_with secret url token now cache (some c) =
      let (key, cache') = key_for secret url token now cache (jwt.method_of token) in
      (verified_by jwt token key, cache')

  -- `none` is the error of an empty token. The outcome of the verification is not looked at.
  unfoldable pub parse_token :
      (token secret url : String) (now : ℕ) → JwksCache → Option Claims × JwksCache
  unfolding claims_of
  parse_token token secret url now cache =
      if token == ""
      then (none, cache)
      else (let (verified, cache') = parse_with secret url token now cache (jwt.bind token) in
          (some (claims_of jwt token), cache'))

  -- What the next handler finds in the context; every request gets there.
  unfoldable pub auth_middleware :
      (header secret url : String) (now : ℕ) → JwksCache → Claims × JwksCache
  auth_middleware header secret url now cache =
      let (claims, cache') = parse_token (bearer_token header) secret url now cache in
      (or_else claims empty_claims, cache')

-- `ClaimsFromContext`; behind `AuthMiddleware` the context always holds claims.
unfoldable pub claims_from_context : Option Claims → Claims × Bool
claims_from_context none = (empty_claims, false)
claims_from_context (some c) = (c, true)
