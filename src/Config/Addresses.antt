-- ===== src/Config/Addresses.antt =====
-- What the entry points make of settings: `parseAddrs` and `loadMTLSCredentials` of
-- services/api-gateway/cmd/main.go, `firstAddr` of services/chat-service/cmd/main.go.
use wire_server.Prelude.{
  String, Bool, ◌||◌, Option, none, some, List, [], ◌∷◌, ◌==◌, ◌≡◌, refl, inl, inr, Bool-cases,
  head_or, if◌then◌else◌,
}
use wire_server.Text.{trim_space}
use wire_server.Text.Words.{split_at}

-- The loop of `parseAddrs` over the parts.
abbrev pub kept_parts : List String → List String
kept_parts [] = []
kept_parts (p ∷ ps) = if trim_space p == "" then kept_parts ps else trim_space p ∷ kept_parts ps

unfoldable pub parse_addrs : String → List String
parse_addrs raw = kept_parts (split_at 44 raw)

-- The loop of `firstAddr` over the parts.
abbrev pub first_part : List String → String
first_part [] = "127.0.0.1:6379"
first_part (p ∷ ps) = let rest = first_part ps in if trim_space p == "" then rest else trim_space p

unfoldable pub first_addr : String → String
first_addr raw = first_part (split_at 44 raw)

-- Which credentials the gateway has for its calls.
pub data Credentials : Type 0 where
  insecure : Credentials
  mutual_tls : (cert key ca : String) → Credentials

-- `key_pair` says whether the certificate and its key fit, and `appended` whether the CA's text has a
-- certificate. `none` is an error.
unfoldable pub load_mtls_credentials :
    (key_pair : String → String → Bool)
    → (appended : String → Bool) → (cert key ca : String) → Option Credentials
load_mtls_credentials key_pair appended cert key ca =
    if (cert == "") || (key == "") || (ca == "")
    then some insecure
    else if key_pair cert key
    then (if appended ca then some (mutual_tls cert key ca) else none)
    else none

first_part-kept_parts :
    (ps : List String) → first_part ps ≡ head_or "127.0.0.1:6379" (kept_parts ps)
first_part-kept_parts [] = refl
first_part-kept_parts (p ∷ ps) = elim (Bool-cases (trim_space p == "")) [
  | inl blank ↦ rw blank (first_part-kept_parts ps)
  | inr set ↦ rw set refl
]

-- The chat service's one Redis address is the first of those that the gateway reads from the same
-- text, and the local default where the gateway reads none.
pub first_addr-parse_addrs :
    (raw : String) → first_addr raw ≡ head_or "127.0.0.1:6379" (parse_addrs raw)
unfolding first_addr parse_addrs
first_addr-parse_addrs raw = first_part-kept_parts (split_at 44 raw)
