-- ===== src/Auth/Keys.antt =====
-- Key sets that are kept.
use study_helper_backend.Prelude.{
  ℕ, ◌-◌, ◌+◌, ◌<◌, ◌≡◌, refl, true, none, some, List, ltb, lt→ltb, arith,
}
use study_helper_backend.Text.{Text}
use study_helper_backend.Text.Laws.{text_eq_refl}
use study_helper_backend.Config.{Settings}
use study_helper_backend.Auth.{
  Jwk, Fetched, keys, unreachable, unreadable, Jose, Web, JwksCache, passed, fetched, jwks_ttl,
  jwks_url, fresh_keys, get_jwks,
}

module _ (jose : Jose) (web : Web) (st : Settings) where
  abbrev cache_of : Text → List Jwk → JwksCache
  cache_of issuer ks = record {
    cached_keys = some ks;
    fetched_at = web.clock 0;
    url = some (jwks_url issuer);
  }

  cache_of-fresh :
      (n : ℕ) (issuer : Text) (ks : List Jwk)
      → web.clock n < web.clock 0 + jwks_ttl
      → fresh_keys (cache_of issuer ks) (jwks_url issuer) (web.clock n) ≡ some ks
  unfolding fresh_keys
  cache_of-fresh n issuer ks soon =
      let early : ltb (web.clock n - web.clock 0) jwks_ttl ≡ true =
        lt→ltb (web.clock n - web.clock 0) jwks_ttl (omega (arith, soon)) in
      rw (text_eq_refl (jwks_url issuer), early) refl

  from_cache :
      (n : ℕ) (issuer : Text) (ks : List Jwk) (c : JwksCache)
      → fresh_keys c (jwks_url issuer) (web.clock n) ≡ some ks
      → get_jwks jose web st n issuer c ≡ (c, passed ks)
  unfolding get_jwks
  from_cache n issuer ks c fresh = rw (fresh, get_jwks) refl

  -- Keys that were fetched, where the cache had no fresh ones, serve the tokens of the same issuer for
  -- an hour: a look before it is over gives them again and leaves the cache as it is, whatever the
  -- address would serve then.
  pub get_jwks-kept :
      (n : ℕ) (issuer : Text) (ks : List Jwk) (c c' : JwksCache)
      → get_jwks jose web st 0 issuer c ≡ (c', passed ks)
      → fresh_keys c (jwks_url issuer) (web.clock 0) ≡ none
      → web.clock n < web.clock 0 + jwks_ttl
      → get_jwks jose web st n issuer c' ≡ (c', passed ks)
  unfolding get_jwks fresh_keys
  get_jwks-kept n issuer ks c c' h stale soon =
      go (web.fetch 0 (jwks_url issuer)) (rw (stale, get_jwks) at h)
    where
      go :
          (f : Fetched)
          → fetched c (jwks_url issuer) (web.clock 0) f ≡ (c', passed ks)
          → get_jwks jose web st n issuer c' ≡ (c', passed ks)
      go (keys ks') e =
          let same : ks' ≡ ks = cc e in
          let caches : cache_of issuer ks' ≡ c' = cc e in
          rw (← caches, ← same)
            (from_cache n issuer ks' (cache_of issuer ks') (cache_of-fresh n issuer ks' soon))
      go unreachable e = absurd (cc e)
      go unreadable e = absurd (cc e)
