-- ===== src/Auth.antt =====
-- app/core/auth.py. The JWT library, httpx and the clock are parameters.
pub mod Keys
pub mod Laws
mod Examples
use study_helper_backend.Prelude.{
  ℕ, ◌-◌, ◌*◌, ◌^◌, Bool, true, false, ◌&&◌, ◌||◌, Option, none, some, List, [], ◌∷◌, ◌++◌, any,
  drop, is_empty, ltb, ◌==◌, if◌then◌else◌,
}
use mathlib.Core.List.{reverse}
use study_helper_backend.Text.{Text, text, text_eq, strip, strip_left, starts_with}
use study_helper_backend.Outcome.{
  Failure, Result, ok, err, http_exception, crash, key_error, value_error, library_error,
}
use study_helper_backend.Config.{Settings}

-- The header of a token, its claims, and a key of a key set.
pub record Header : Type 0 where
  pub alg : Option Text
  pub kid : Option Text

pub record Claims : Type 0 where
  pub sub : Option Text
  pub email : Option Text
  pub iss : Option Text

pub record Jwk : Type 0 where
  pub key_id : Option Text
  pub key : Text

-- What `jwt.decode` ends in, with an audience and perhaps an issuer to compare: the claims, or an
-- ExpiredSignatureError, a JWTError, or another exception of the library.
pub data Decoded : Type 0 where
  valid : Claims → Decoded
  expired invalid unusable_key : Decoded

-- What a key set is fetched as; `unreadable` where the body is no JSON or the address no URL.
pub data Fetched : Type 0 where
  keys : List Jwk → Fetched
  unreachable unreadable : Fetched

pub record Jose : Type 0 where
  pub unverified_header : Text → Option Header
  pub unverified_claims : Text → Option Claims
  -- The token, the key, the algorithm, the audience and the issuer.
  pub decode : Text → Text → Text → Text → Option Text → Decoded

-- The answers of the services that serve keys, and the readings of the clock, by the number of the
-- call.
pub record Web : Type 0 where
  pub fetch : ℕ → Text → Fetched
  pub clock : ℕ → ℕ

-- `_JWKS_CACHE`
pub record JwksCache : Type 0 where
  pub cached_keys : Option (List Jwk)
  pub fetched_at : ℕ
  pub url : Option Text

-- The exceptions that the endpoint tells apart.
pub data AuthError : Type 0 where
  expired_error jwt_error fetch_error : AuthError
  other_error : Failure → AuthError

pub data Checked (A : Type 0) : Type 0 where
  passed : A → Checked A
  refused : AuthError → Checked A

abbrev pub and_next :
    {A B : Type 0}
    → (A → JwksCache → JwksCache × Checked B)
    → JwksCache × Checked A
    → JwksCache × Checked B
and_next f (c, passed a) = f a c
and_next f (c, refused e) = (c, refused e)

-- `_JWKS_TTL_SECONDS`, in nanoseconds.
abbrev pub jwks_ttl : ℕ
jwks_ttl = 3600 * 10 ^ 9

-- `issuer.rstrip("/") + "/.well-known/jwks.json"`
unfoldable pub jwks_url : Text → Text
unfolding strip_left text
jwks_url issuer =
    reverse (strip_left (λ c. c == b'/') (reverse issuer)) ++ text "/.well-known/jwks.json"

abbrev pub same_url : Option Text → Text → Bool
same_url none url = false
same_url (some u) url = text_eq u url

-- The keys of the cache, where they are those of the address and not too old.
unfoldable pub fresh_keys : JwksCache → Text → ℕ → Option (List Jwk)
fresh_keys c url now =
    if same_url c.url url && ltb (now - c.fetched_at) jwks_ttl then c.cached_keys else none

abbrev pub fetched : JwksCache → Text → ℕ → Fetched → JwksCache × Checked (List Jwk)
fetched c url now (keys ks) =
    (record { cached_keys = some ks; fetched_at = now; url = some url }, passed ks)
fetched c url now unreachable = (c, refused fetch_error)
fetched c url now unreadable = (c, refused (other_error (crash value_error)))

abbrev pub same_kid : Option Text → Jwk → Bool
same_kid none k = elim k.key_id [ none ↦ true | some _ ↦ false ]
same_kid (some kid) k = elim k.key_id [ none ↦ false | some x ↦ text_eq x kid ]

-- `next((k for k in keys if k.get("kid") == kid), None)`
unfoldable pub find_key : Option Text → List Jwk → Option Jwk
find_key kid [] = none
find_key kid (k ∷ ks) = if same_kid kid k then some k else find_key kid ks

abbrev pub authenticated : Text
authenticated = text "authenticated"

abbrev pub decoded : Decoded → Checked Claims
decoded (valid claims) = passed claims
decoded expired = refused expired_error
decoded invalid = refused jwt_error
decoded unusable_key = refused (other_error (crash library_error))

abbrev pub alg_or : Text → Option Text → Text
alg_or default none = default
alg_or default (some alg) = alg

-- `bool(x)` of a text or None, with the text.
abbrev pub present : Option Text → Option Text
present none = none
present (some t) = if is_empty t then none else some t

module _ (jose : Jose) (web : Web) (st : Settings) where
  -- The call with the number `n` of this request.
  unfoldable pub get_jwks : ℕ → Text → JwksCache → JwksCache × Checked (List Jwk)
  unfolding jwks_url fresh_keys
  get_jwks n issuer c =
      let url = jwks_url issuer in
      elim (fresh_keys c url (web.clock n)) [
        | some ks ↦ (c, passed ks)
        | none ↦ fetched c url (web.clock n) (web.fetch n url)
      ]

  -- With the keys that were found: the key of the token, and the token read with it.
  abbrev pub decode_with : Text → Header → Text → Option Jwk → Checked Claims
  decode_with token header issuer none = refused jwt_error
  decode_with token header issuer (some k) =
      decoded
        (jose.decode token k.key (alg_or (text "RS256") header.alg) authenticated (some issuer))

  abbrev pub forget_keys : JwksCache → JwksCache
  forget_keys c = record c { cached_keys = none }

  -- The second look, at keys that are fetched anew.
  unfoldable pub look_again :
      Text → Header → Text → List Jwk → JwksCache → JwksCache × Checked Claims
  unfolding get_jwks find_key
  look_again token header issuer ks c = elim (find_key header.kid ks) [
    | some k ↦ (c, decode_with token header issuer (some k))
    | none ↦
        and_next (λ ks' c'. (c', decode_with token header issuer (find_key header.kid ks')))
          (get_jwks 1 issuer (forget_keys c))
  ]

  unfoldable pub verify_asymmetric : Text → Header → Claims → JwksCache → JwksCache × Checked Claims
  unfolding look_again get_jwks
  verify_asymmetric token header unverified c = elim (present unverified.iss) [
    | none ↦ (c, refused jwt_error)
    | some issuer ↦ and_next (look_again token header issuer) (get_jwks 0 issuer c)
  ]

  unfoldable pub is_asymmetric : Text → Bool
  unfolding starts_with text
  is_asymmetric alg =
      starts_with alg (text "RS") || (starts_with alg (text "ES") || starts_with alg (text "PS"))

  abbrev pub server_error : Failure
  server_error = http_exception 500 (text "서버 내부 오류가 발생했습니다")

  unfoldable pub verify_secret : Text → Checked Claims
  unfolding text
  verify_secret token =
      if is_empty st.supabase_jwt_secret
      then refused (other_error server_error)
      else decoded (jose.decode token st.supabase_jwt_secret (text "HS256") authenticated none)

  unfoldable pub verify_claims : Text → Header → Claims → JwksCache → JwksCache × Checked Claims
  unfolding verify_asymmetric is_asymmetric verify_secret text text_eq
  verify_claims token header unverified c =
      let alg = alg_or [] header.alg in
      if is_asymmetric alg
      then verify_asymmetric token header unverified c
      else if text_eq alg (text "HS256")
      then (c, verify_secret token)
      else (c, refused jwt_error)

  unfoldable pub verify : Text → JwksCache → JwksCache × Checked Claims
  unfolding verify_claims
  verify token c = elim (jose.unverified_header token) [
    | none ↦ (c, refused jwt_error)
    | some header ↦ elim (jose.unverified_claims token) [
      | none ↦ (c, refused jwt_error)
      | some unverified ↦ verify_claims token header unverified c
    ]
  ]

  pub record User : Type 0 where
    pub user_id : Text
    pub email : Option Text

  -- `payload["sub"]`
  abbrev pub user_of : Claims → Result (Option User)
  user_of claims = elim claims.sub [
    | none ↦ err (crash key_error)
    | some sub ↦ ok (some (record { user_id = sub; email = claims.email }))
  ]

  abbrev pub answer_of : Checked Claims → Result (Option User)
  answer_of (passed claims) = user_of claims
  answer_of (refused expired_error) = err (http_exception 401 (text "토큰이 만료되었습니다"))
  answer_of (refused jwt_error) = err (http_exception 401 (text "유효하지 않은 토큰"))
  answer_of (refused fetch_error) = err (http_exception 503 (text "인증 서비스 일시 오류"))
  answer_of (refused (other_error e)) = err e

  abbrev pub bad_header : Failure
  bad_header = http_exception 401 (text "Authorization 헤더 형식이 올바르지 않습니다")

  -- `authorization[len("Bearer "):].strip()`
  unfoldable pub token_of : Text → Text
  unfolding strip
  token_of authorization = strip (drop 7 authorization)

  unfoldable pub get_current_user : Option Text → JwksCache → JwksCache × Result (Option User)
  unfolding verify token_of starts_with text
  get_current_user authorization c = elim (present authorization) [
    | none ↦ (c, ok none)
    | some a ↦
        if starts_with a (text "Bearer ")
        then (let (c', checked) = verify (token_of a) c in (c', answer_of checked))
        else (c, err bad_header)
  ]

  abbrev pub logged_in : Result (Option User) → Result User
  logged_in (ok none) = err (http_exception 401 (text "로그인이 필요합니다"))
  logged_in (ok (some user)) = ok user
  logged_in (err e) = err e

  unfoldable pub require_current_user : Option Text → JwksCache → JwksCache × Result User
  unfolding get_current_user
  require_current_user authorization c =
      let (c', user) = get_current_user authorization c in (c', logged_in user)
