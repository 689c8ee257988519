-- ===== src/Auth/Examples.antt =====
-- A token of a stranger, whose own address serves the key that it is signed with.
use study_helper_backend.Prelude.{
  arith, ◌<◌, ◌+◌, ◌≡◌, ◌⊎◌, refl, none, some, [], ◌∷◌, if◌then◌else◌,
}
use study_helper_backend.Text.{Text, text, text_eq}
use study_helper_backend.Outcome.{ok}
use study_helper_backend.Config.{defaults}
use study_helper_backend.Auth.{
  fresh_keys, jwks_url, Header, Claims, Jwk, valid, invalid, keys, Jose, Web, JwksCache, token_of,
  User, get_current_user,
}
use study_helper_backend.Auth.Keys.{get_jwks-kept}
use study_helper_backend.Auth.{get_jwks, passed, jwks_ttl}
use study_helper_backend.Auth.Laws.{BySecret, ByKey, get_current_user-Vouched}

abbrev header : Header
header = record { alg = some (text "RS256"); kid = none }

abbrev claims : Claims
claims = record { sub = some (text "victim"); email = none; iss = some (text "https://stranger/") }

abbrev key : Jwk
key = record { key_id = none; key = text "stranger's key" }

abbrev jose : Jose
jose = record {
  unverified_header = λ t. some header;
  unverified_claims = λ t. some claims;
  decode = λ t k alg audience issuer.
      if text_eq k (text "stranger's key") then valid claims else invalid;
}

abbrev web : Web
web = record { fetch = λ n url. keys (key ∷ []); clock = λ n. n }

abbrev empty : JwksCache
empty = record { cached_keys = none; fetched_at = 0; url = none }

abbrev victim : User jose web defaults
victim = record { user_id = text "victim"; email = none }

abbrev filled : JwksCache
filled = (get_current_user jose web defaults (some (text "Bearer token")) empty).0

let_in :
    get_current_user jose web defaults (some (text "Bearer token")) empty
    ≡ (filled, ok (some victim))
unfolding get_current_user text_eq text
let_in = refl

get_current_user-Vouched_example :
    (c : Claims) × (c.sub ≡ some (text "victim"))
    × (BySecret jose web defaults (token_of jose web defaults (text "Bearer token")) c
        ⊎ ByKey jose web defaults (token_of jose web defaults (text "Bearer token")) empty c)
get_current_user-Vouched_example =
    get_current_user-Vouched jose web defaults (text "Bearer token") empty filled victim let_in

abbrev stranger : Text
stranger = text "https://stranger/"

abbrev looked : JwksCache
looked = (get_jwks jose web defaults 0 stranger empty).0

looks : get_jwks jose web defaults 0 stranger empty ≡ (looked, passed (key ∷ []))
unfolding get_jwks
looks = refl

no_keys : fresh_keys empty (jwks_url stranger) 0 ≡ none
unfolding jwks_url text fresh_keys
no_keys = refl

within_the_hour : 7 < 0 + jwks_ttl
within_the_hour = omega arith

get_jwks-kept_example : get_jwks jose web defaults 7 stranger looked ≡ (looked, passed (key ∷ []))
get_jwks-kept_example =
    get_jwks-kept jose web defaults 7 stranger (key ∷ []) empty looked looks no_keys within_the_hour
