-- ===== src/Auth/Jwks.antt =====
-- `loadJWKSKeys` of pkg/middleware/middleware.go with its cache. `fetch` stands for the HTTP request
-- and the decoding of its body, and `decode` for `base64.RawURLEncoding.DecodeString`. Times are
-- seconds.
pub mod Cache
use wire_server.Prelude.{
  ℕ, ◌+◌, String, Bool, true, false, not, ◌||◌, Option, none, some, List, [], ◌∷◌, ◌==◌, ltb, leb,
  ◌&&◌, nat_eq, code, if◌then◌else◌,
}
use wire_server.Text.{trim_space, trim_right_by, ◌<>◌, equal_fold}

-- A key of the served set.
pub record Jwk : Type 0 where
  pub kid : String
  pub kty : String
  pub crv : String
  pub x : String
  pub y : String

-- A public key: the bytes of its coordinates on P-256.
pub record PublicKey : Type 0 where
  pub x_bytes : List ℕ
  pub y_bytes : List ℕ

abbrev pub Keys : Type 0
Keys = List (String × PublicKey)

-- `jwksCacheEntry`
pub record JwksCacheEntry : Type 0 where
  pub keys : Keys
  pub expires_at : ℕ

abbrev pub JwksCache : Type 0
JwksCache = List (String × JwksCacheEntry)

abbrev pub find_entry : String → JwksCache → Option JwksCacheEntry
find_entry base [] = none
find_entry base ((b, e) ∷ rest) = if b == base then some e else find_entry base rest

abbrev pub find_key : String → Keys → Option PublicKey
find_key kid [] = none
find_key kid ((k, p) ∷ rest) = if k == kid then some p else find_key kid rest

abbrev is_slash : ℕ → Bool
is_slash c = nat_eq c 47

-- `strings.TrimRight(strings.TrimSpace(supabaseURL), "/")`
unfoldable pub jwks_base : String → String
unfolding trim_space trim_right_by
jwks_base url = trim_right_by is_slash (trim_space url)

module _ (decode : String → Option (List ℕ)) where
  abbrev key_of : String → Option (List ℕ) → Option (List ℕ) → Keys → Keys
  key_of kid (some x) (some y) rest = (kid, record { x_bytes = x; y_bytes = y }) ∷ rest
  key_of kid (some x) none rest = rest
  key_of kid none y rest = rest

  -- The loop over the served keys. A later key of the same id takes the place of an earlier one, so
  -- the list is built with later keys in front.
  unfoldable pub usable_keys : Keys → List Jwk → Keys
  unfolding equal_fold
  usable_keys found [] = found
  usable_keys found (k ∷ ks) =
      usable_keys
        (if (k.kid == "") || not (equal_fold k.kty "EC") || not (k.crv == "P-256")
          then found
          else key_of k.kid (decode k.x) (decode k.y) found)
        ks

  -- What a fetch leaves: the keys for ten minutes, or an error and the cache as it was.
  abbrev pub store_keys : String → ℕ → Keys → JwksCache → Option Keys × JwksCache
  store_keys base now [] cache = (none, cache)
  store_keys base now (k ∷ ks) cache =
      (some (k ∷ ks), (base, record { keys = k ∷ ks; expires_at = now + 600 }) ∷ cache)

  abbrev pub fetched : String → ℕ → Option (List Jwk) → JwksCache → Option Keys × JwksCache
  fetched base now none cache = (none, cache)
  fetched base now (some served) cache = store_keys base now (usable_keys [] served) cache

  abbrev pub cached_or :
      String → ℕ → Option (List Jwk) → Option JwksCacheEntry → JwksCache → Option Keys × JwksCache
  cached_or base now served none cache = fetched base now served cache
  cached_or base now served (some e) cache =
      if ltb now e.expires_at then (some e.keys, cache) else fetched base now served cache

  -- `none` is an error.
  unfoldable pub load_jwks_keys :
      (fetch : String → Option (List Jwk)) → String → ℕ → JwksCache → Option Keys × JwksCache
  load_jwks_keys fetch url now cache =
      let base = jwks_base url in
      if base == ""
      then (none, cache)
      else cached_or base now (fetch (base <> "/auth/v1/.well-known/jwks.json"))
          (find_entry base cache) cache
