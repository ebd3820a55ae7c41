-- ===== src/Auth/Token/Trust.antt =====
-- What the claims of a request depend on.
use wire_server.Prelude.{
  ℕ, String, Bool, Option, List, ◌==◌, ◌≡◌, refl, sym, ◌∙◌, if◌then◌else◌, inl, inr, Bool-cases,
}
use wire_server.Gateway.Http.{Claims}
use wire_server.Auth.Bearer.{bearer_token}
use wire_server.Auth.Jwks.{Jwk, JwksCache}
use wire_server.Auth.Token.{
  JwtLibrary, VerifyKey, claims_of, empty_claims, parse_token, auth_middleware,
}

-- The claims that the next handler gets for a header.
abbrev pub claims_for : JwtLibrary → String → Claims
claims_for jwt header =
    if bearer_token header == "" then empty_claims else claims_of jwt (bearer_token header)

auth_middleware_claims :
    (jwt : JwtLibrary) (decode : String → Option (List ℕ)) (fetch : String → Option (List Jwk))
    (header secret url : String) (now : ℕ) (cache : JwksCache)
    → (auth_middleware jwt decode fetch header secret url now cache).0 ≡ claims_for jwt header
unfolding auth_middleware parse_token
auth_middleware_claims jwt decode fetch header secret url now cache =
    elim (Bool-cases (bearer_token header == "")) [
      | inl blank ↦ rw blank refl
      | inr set ↦ rw set refl
    ]

same_claims :
    (jwt : JwtLibrary) (verify : String → VerifyKey → Bool) (header : String)
    → claims_for jwt header ≡ claims_for (record jwt { verify = verify }) header
unfolding claims_of
same_claims jwt verify header = refl

-- Whoever the claims of a request name, no signature says so: with another secret, another key
-- server, another cache and even another outcome of every verification, `AuthMiddleware` hands the
-- next handler the same claims.
pub auth_middleware-unverified :
    (jwt : JwtLibrary) (verify : String → VerifyKey → Bool) (decode : String → Option (List ℕ))
    (fetch fetch' : String → Option (List Jwk)) (header secret secret' url url' : String)
    (now now' : ℕ) (cache cache' : JwksCache)
    → (auth_middleware jwt decode fetch header secret url now cache).0
      ≡ (auth_middleware
          (record jwt { verify = verify })
          decode
          fetch'
          header
          secret'
          url'
          now'
          cache').0
auth_middleware-unverified jwt verify decode fetch fetch' header secret secret' url url' now now'
      cache cache' =
    auth_middleware_claims jwt decode fetch header secret url now cache
    ∙ same_claims jwt verify header
    ∙ sym (
        auth_middleware_claims (record jwt { verify = verify }) decode fetch' header secret' url'
          now' cache')
