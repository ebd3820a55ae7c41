-- ===== src/Auth/Jwks/Cache.antt =====
-- How long fetched keys serve.
use wire_server.Prelude.{
  ℕ, ◌+◌, ◌<◌, String, Bool, true, false, Option, none, some, List, [], ◌∷◌, ◌==◌, ◌≡◌, refl, sym,
  ap, ◌∙◌, ltb, eq_refl, arith, inl, inr, Bool-cases, if◌then◌else◌,
}
use wire_server.Text.{◌<>◌}
use wire_server.Auth.Jwks.{
  Jwk, Keys, JwksCacheEntry, JwksCache, find_entry, jwks_base, store_keys, fetched, cached_or,
  usable_keys, load_jwks_keys,
}

-- Nothing of a base that can still be served.
abbrev pub stale : ℕ → Option JwksCacheEntry → Bool
stale now none = true
stale now (some e) = if ltb now e.expires_at then false else true

module _ (decode : String → Option (List ℕ)) where
  -- What the cache then says of a base.
  abbrev Serves : String → ℕ → Keys → JwksCache → Type 0
  Serves base now keys cache =
      find_entry base cache ≡ some (record { keys = keys; expires_at = now + 600 })

  store_keys-Serves :
      (base : String) (now : ℕ) (found : Keys) (cache : JwksCache) (keys : Keys)
      → (store_keys decode base now found cache).0 ≡ some keys
      → Serves base now keys (store_keys decode base now found cache).1
  store_keys-Serves base now [] cache keys h = absurd (cc h)
  store_keys-Serves base now (k ∷ ks) cache keys h =
      let same : (k ∷ ks) ≡ keys = cc h in rw (eq_refl base, same) refl

  fetched-Serves :
      (base : String) (now : ℕ) (served : Option (List Jwk)) (cache : JwksCache) (keys : Keys)
      → (fetched decode base now served cache).0 ≡ some keys
      → Serves base now keys (fetched decode base now served cache).1
  fetched-Serves base now none cache keys h = absurd (cc h)
  fetched-Serves base now (some served) cache keys h =
      store_keys-Serves base now (usable_keys decode [] served) cache keys h

  cached_or_over :
      (base : String) (now : ℕ) (served : Option (List Jwk)) (e : JwksCacheEntry)
      (cache : JwksCache)
      → ltb now e.expires_at ≡ false
      → cached_or decode base now served (some e) cache ≡ fetched decode base now served cache
  cached_or_over base now served e cache over = rw over refl

  cached_or-Serves :
      (base : String) (now : ℕ) (served : Option (List Jwk)) (o : Option JwksCacheEntry)
      (cache : JwksCache) (keys : Keys)
      → stale now o ≡ true
      → (cached_or decode base now served o cache).0 ≡ some keys
      → Serves base now keys (cached_or decode base now served o cache).1
  cached_or-Serves base now served none cache keys old h =
      fetched-Serves base now served cache keys h
  cached_or-Serves base now served (some e) cache keys old h =
      elim (Bool-cases (ltb now e.expires_at)) [
        | inl fresh ↦ absurd (ground (arith, fresh, old))
        | inr over ↦
            let e' = cached_or_over base now served e cache over in
            rw e' (fetched-Serves base now served cache keys (sym (ap (λ v. v.0) e') ∙ h))
      ]

  Serves-until :
      (base : String) (now later : ℕ) (served : Option (List Jwk)) (cache : JwksCache) (keys : Keys)
      → Serves base now keys cache
      → later < now + 600
      → cached_or decode base later served (find_entry base cache) cache ≡ (some keys, cache)
  Serves-until base now later served cache keys s before =
      let fresh : ltb later (now + 600) ≡ true = ground arith in rw (s, fresh) refl

  load_set :
      (fetch : String → Option (List Jwk)) (url : String) (now : ℕ) (cache : JwksCache)
      → (jwks_base url == "") ≡ false
      → load_jwks_keys decode fetch url now cache
        ≡ cached_or decode
            (jwks_base url)
            now
            (fetch (jwks_base url <> "/auth/v1/.well-known/jwks.json"))
            (find_entry (jwks_base url) cache)
            cache
  unfolding load_jwks_keys
  load_set fetch url now cache set = rw set refl

  -- Keys that `loadJWKSKeys` has fetched serve for ten minutes: until then it answers with the same
  -- keys, whatever another request to the server would answer, and changes nothing.
  pub load_jwks_keys-cached :
      (fetch fetch' : String → Option (List Jwk)) (url : String) (now later : ℕ) (cache : JwksCache)
      (keys : Keys)
      → stale now (find_entry (jwks_base url) cache) ≡ true
      → (load_jwks_keys decode fetch url now cache).0 ≡ some keys
      → later < now + 600
      → load_jwks_keys decode fetch' url later (load_jwks_keys decode fetch url now cache).1
        ≡ (some keys, (load_jwks_keys decode fetch url now cache).1)
  unfolding load_jwks_keys
  load_jwks_keys-cached fetch fetch' url now later cache keys old got before =
      elim (Bool-cases (jwks_base url == "")) [
        | inl blank ↦ absurd (ground (arith, blank, got))
        | inr set ↦
            let base = jwks_base url in
            let e = load_set fetch url now cache set in
            let s =
              cached_or-Serves base now (fetch (base <> "/auth/v1/.well-known/jwks.json"))
                (find_entry base cache) cache keys old (sym (ap (λ v. v.0) e) ∙ got) in
            load_set fetch' url later (load_jwks_keys decode fetch url now cache).1 set
            ∙ Serves-until base now later (fetch' (base <> "/auth/v1/.well-known/jwks.json"))
                (load_jwks_keys decode fetch url now cache).1 keys
                (ap (λ v. find_entry base v.1) e ∙ s) before
      ]
