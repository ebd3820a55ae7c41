-- ===== src/Tests/Auth.antt =====
-- Tokens and headers.
use wire_server.Prelude.{String, true, false, none, some, [], ◌≡◌, refl, ◌==◌, if◌then◌else◌}
use wire_server.Text.{◌<>◌, is_space, equal_fold}
use wire_server.Auth.Bearer.{bearer_token, bearer_token-append}
use wire_server.Auth.Strict.{UserClaims, ParseWithClaims, parse_error, parsed}
use wire_server.Auth.Token.{JwtLibrary, ecdsa, auth_middleware}
use wire_server.Auth.Token.Trust.{auth_middleware-unverified}

-- The header "bearer  abc".
bearer_token-append_example :
    bearer_token (String.◌∷◌ "b" "earer" <> String.◌∷◌ " " (String.◌∷◌ "a" "bc"))
    ≡ String.◌∷◌ "a" "bc"
unfolding is_space equal_fold
bearer_token-append_example = bearer_token-append "b" "earer" " " "a" "bc" refl refl refl refl

abbrev user_claims : UserClaims
user_claims = record { user_id = ""; email = "a@b"; role = "user"; subject = "u1" }

abbrev parse : ParseWithClaims
parse token key methods =
    if token == "good"
    then (elim (key "HS256") [ none ↦ parse_error | some k ↦ parsed true user_claims ])
    else parse_error

abbrev forged : JwtLibrary
forged = record {
  bind = λ token. some (record { email = ""; user_metadata = []; phone = "alice" });
  method_of = λ token. ecdsa;
  kid = λ token. "k1";
  verify = λ token key. false;
  decode_segment = λ segment. none;
}

auth_middleware-unverified_example :
    (auth_middleware forged (λ s. none) (λ url. none) "Bearer x.y.z" "s1" "http://a" 0 []).0
    ≡ (auth_middleware
        (record forged { verify = λ token key. true })
        (λ s. none)
        (λ url. some [])
        "Bearer x.y.z"
        "s2"
        "http://b"
        5
        []).0
auth_middleware-unverified_example =
    auth_middleware-unverified forged (λ token key. true) (λ s. none) (λ url. none) (λ url. some [])
      "Bearer x.y.z" "s1" "s2" "http://a" "http://b" 0 5 [] []
