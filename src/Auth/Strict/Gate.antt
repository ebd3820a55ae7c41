-- ===== src/Auth/Strict/Gate.antt =====
-- Who gets through `Wrap`.
use wire_server.Prelude.{String, true, false, none, some, ◌==◌, ◌≡◌}
use wire_server.Auth.Bearer.{bearer_token}
use wire_server.Auth.Strict.{
  UserClaims, Parsed, ParseWithClaims, parsed_with, parsed, Passage, rejected, passed_on,
  with_user_id, auth_from_header,
}

-- The claims of a token that the library accepts, the user's id taken from the subject where there is
-- none, for a user that they name.
pub record Accepted (p : Parsed) (c : UserClaims) : Type 0 where
  pub claims : UserClaims
  pub valid : p ≡ parsed true claims
  pub same_claims : c ≡ with_user_id claims
  pub named : (c.user_id == "") ≡ false

module _ (parse : ParseWithClaims) (secret header : String) where
  -- A rejected request gets 401; one that passes carries the claims of an accepted token.
  abbrev pub Gated : Passage → Type 0
  Gated (rejected e) = (e.status ≡ 401) × (auth_from_header parse secret header ≡ none)
  Gated (passed_on c) =
      (auth_from_header parse secret header ≡ some c)
      × Accepted (parsed_with parse (bearer_token header) secret) c
