-- ===== src/Client/Timely/Tokens.antt =====
-- The cache of access tokens of app/services/timely_client.py.
use study_helper_backend.Prelude.{ℕ, ◌+◌, ◌≡◌, none, some, [], ◌∷◌, arith, ltb, if◌then◌else◌}
use study_helper_backend.Text.{Text, text_eq}
use study_helper_backend.Text.Laws.{text_eq_iff, text_eq_refl}
use study_helper_backend.Outcome.{Result, ok, err}
use study_helper_backend.Json.{Value}
use study_helper_backend.Client.Timely.{
  Cached, TokenCache, cached, evict, remember, Response, response, access_token, store_token,
  authenticate, get_access_token, token_lifetime,
}

pub cached-evict :
    (key k : Text) (cache : TokenCache)
    → cached (evict key cache) k ≡ (if text_eq key k then none else cached cache k)
unfolding cached evict
cached-evict key k [] = ground arith
cached-evict key k ((j, c) ∷ cache) =
    ground (arith, cached-evict key k cache, text_eq_iff j k, text_eq_iff j key, text_eq_iff key k)

pub cached-remember :
    (key k : Text) (c : Cached) (cache : TokenCache)
    → cached (remember key c cache) k ≡ (if text_eq key k then some c else cached cache k)
unfolding cached remember
cached-remember key k c cache = ground (arith, cached-evict key k cache)

store_token-cached :
    (key : Text) (now : ℕ) (r : Result Value) (cache cache' : TokenCache) (token : Value)
    → store_token key now r cache ≡ (cache', ok token)
    → cached cache' key ≡ some (record { token = token; expires_at = now + token_lifetime })
store_token-cached key now (ok v) cache cache' token h = ground (
  arith,
  cached-remember key key (record { token = v; expires_at = now + token_lifetime }) cache,
  text_eq_refl key,
)
store_token-cached key now (err e) cache cache' token h = cc

authenticate-cached :
    (key : Text) (now : ℕ) (r : Response) (cache cache' : TokenCache) (token : Value)
    → authenticate key now r cache ≡ (cache', ok token)
    → cached cache' key ≡ some (record { token = token; expires_at = now + token_lifetime })
unfolding authenticate
authenticate-cached key now (response code body) cache cache' token h =
    store_token-cached key now (access_token body) cache cache' token (ground arith)
authenticate-cached key now _ cache cache' token h = cc

-- A token that was issued for a key with no token in the cache serves the requests of that key before its 55 minutes are over,
-- whatever the service would answer then; the first request after them asks the service again.
pub token_reused :
    (key : Text) (checked issued later issued' : ℕ) (r r' : Response) (cache cache' : TokenCache)
    (token : Value)
    → cached cache key ≡ none
    → get_access_token key checked issued r cache ≡ (cache', ok token)
    → get_access_token key later issued' r' cache' ≡ (
        if ltb later (issued + token_lifetime)
        then (cache', ok token)
        else authenticate key issued' r' cache')
unfolding get_access_token
token_reused key checked issued later issued' r r' cache cache' token miss got =
    let held : cached cache' key
        ≡ some (record { token = token; expires_at = issued + token_lifetime }) =
      authenticate-cached key issued r cache cache' token (rw (miss, get_access_token) at got) in
    rw (held, get_access_token) (ground arith)
