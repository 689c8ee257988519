-- ===== src/Client/Timely.antt =====
-- app/services/timely_client.py: the cache of access tokens, `_call_timely`, `generate_with_retry`.
pub mod Tokens
use study_helper_backend.Prelude.{
  ℕ, ◌+◌, ◌*◌, ◌&&◌, ◌||◌, Option, none, some, List, [], ◌∷◌, ◌++◌, leb, ltb, ◌==◌, if◌then◌else◌,
  Bool, false,
}
use study_helper_backend.Text.{Text, text, text_eq}
use study_helper_backend.Outcome.{
  Result, ok, err, ◌>>=◌, generation_error, crash, attribute_error, decode_error,
}
use study_helper_backend.Json.{
  Value, null, bool, int, float, str, list, dict, Fields, end, get, get_or, truthy,
}
use study_helper_backend.Runtime.{Runtime}
use study_helper_backend.Runtime.Number.{decimal, to_str}
use study_helper_backend.Config.{Settings}
use study_helper_backend.JsonUtils.{extract_json}
use study_helper_backend.Breaker.{Breaker, second, is_open, record_success, record_failure}
use study_helper_backend.Client.Request.{Prompt, model_or}
use study_helper_backend.Client.Retry.{Run, generate}

abbrev busy : Text
busy = text "서비스에 일시적인 문제가 발생했습니다. 잠시 후 다시 시도해주세요."

-- What httpx gives: an exception, or a response with its status and what `resp.json()` makes of the
-- body (`none` where it raises).
pub data Response : Type 0 where
  timed_out : Response
  request_error : Text → Response
  response : ℕ → Option Value → Response

-- A token with the time at which it expires.
pub record Cached : Type 0 where
  pub token : Value
  pub expires_at : ℕ

abbrev pub TokenCache : Type 0
TokenCache = List (Text × Cached)

unfoldable pub cached : TokenCache → Text → Option Cached
unfolding text_eq
cached [] key = none
cached ((k, c) ∷ cache) key = if text_eq k key then some c else cached cache key

-- `cache.pop(key, None)`
unfoldable pub evict : Text → TokenCache → TokenCache
unfolding text_eq
evict key [] = []
evict key ((k, c) ∷ cache) =
    let rest = evict key cache in if text_eq k key then rest else (k, c) ∷ rest

-- `cache[key] = (token, expires_at)`
unfoldable pub remember : Text → Cached → TokenCache → TokenCache
unfolding evict
remember key c cache = (key, c) ∷ evict key cache

-- `resp.is_success`
unfoldable pub is_success : ℕ → Bool
is_success code = leb 200 code && leb code 299

-- `d.get(key, default)` on a value, which must be a dict.
abbrev field_of : Value → Text → Value → Result Value
field_of (dict fs) key default = ok (get_or fs key default)
field_of _ key default = err (crash attribute_error)

abbrev pub token_lifetime : ℕ
token_lifetime = 55 * 60 * second

-- `resp.json()`
abbrev json_of : Option Value → Result Value
json_of none = err (crash decode_error)
json_of (some v) = ok v

-- `data.get("data", {}).get("access_token")`, refused where it is falsy.
unfoldable pub access_token : Option Value → Result Value
unfolding get_or truthy
access_token body = do
  payload ← json_of body
  inner ← field_of payload (text "data") (dict end)
  token ← field_of inner (text "access_token") null
  if truthy token
      then ok token
      else err (generation_error 502 (text "TimelyGPT returned no access token."))

abbrev pub store_token : Text → ℕ → Result Value → TokenCache → TokenCache × Result Value
store_token key now (ok token) cache =
    (remember key (record { token = token; expires_at = now + token_lifetime }) cache, ok token)
store_token key now (err e) cache = (cache, err e)

-- The answer to a request for a token, and the cache after it. `now` is the time it is stored at.
unfoldable pub authenticate : Text → ℕ → Response → TokenCache → TokenCache × Result Value
unfolding remember access_token is_success decimal
authenticate key now timed_out cache =
    (cache, err (generation_error 504 (text "TimelyGPT authentication timed out.")))
authenticate key now (request_error message) cache =
    (cache, err (generation_error 502 (text "Could not connect to TimelyGPT: " ++ message)))
authenticate key now (response code body) cache =
    if code == 401
    then (
      cache,
      err (
          generation_error 401
            (text "Invalid TimelyGPT API key. Please check your key and try again.")),
    )
    else if is_success code
    then store_token key now (access_token body) cache
    else (
      cache,
      err (
          generation_error 502
            (text "TimelyGPT authentication failed (HTTP " ++ (decimal code ++ text ")."))),
    )

abbrev pub fresh : Option Cached → ℕ → Option Value
fresh none now = none
fresh (some c) now = if ltb now c.expires_at then some c.token else none

-- `_get_access_token`: read at `checked`, and stored at `issued` where it has to be asked for.
unfoldable pub get_access_token : Text → ℕ → ℕ → Response → TokenCache → TokenCache × Result Value
unfolding cached authenticate
get_access_token key checked issued r cache = elim (fresh (cached cache key) checked) [
  | some token ↦ (cache, ok token)
  | none ↦ authenticate key issued r cache
]

pub record TimelyState : Type 0 where
  pub breaker : Breaker
  pub tokens : TokenCache

-- The service answers a request for a token, and a completion with a token; `clock` gives the
-- readings of the time in an attempt: at the test of the breaker, at the test of the cached token,
-- when a new token is stored, and when the completion has ended.
pub record Service : Type 0 where
  pub issue : Text → ℕ → Response
  pub complete : Text → Prompt → Value → ℕ → Response
  pub asked : ℕ → ℕ
  pub checked : ℕ → ℕ
  pub issued : ℕ → ℕ
  pub answered : ℕ → ℕ

-- `data.get("type") == "final_response"`
abbrev is_final_response : Value → Bool
is_final_response (str s) = text_eq s (text "final_response")
is_final_response _ = false

module _ (rt : Runtime) (settings : Settings) where
  -- The message of a completion that succeeded.
  unfoldable pub final_message : Option Value → Result Value
  unfolding get_or text_eq to_str
  final_message body = do
    payload ← json_of body
    kind ← field_of payload (text "type") null
    if is_final_response kind
        then field_of payload (text "message") (str [])
        else err
            (generation_error 502 (text "Unexpected TimelyGPT response type: " ++ to_str rt kind))

  -- The answer to a completion, and the state after it.
  unfoldable pub settle_timely : Text → ℕ → Response → TimelyState → TimelyState × Result Value
  unfolding record_success record_failure evict is_success decimal final_message
  settle_timely key now timed_out s = (
    record s { breaker = record_failure now s.breaker },
    err (
        generation_error 504 (
          text "TimelyGPT API timed out after "
          ++ (decimal settings.timely_timeout ++ text "s. Please try again."))),
  )
  settle_timely key now (request_error message) s = (
    record s { breaker = record_failure now s.breaker },
    err (
        generation_error 502
          (text "Could not connect to TimelyGPT API. Please check your network.")),
  )
  settle_timely key now (response code body) s =
      if code == 401
      then (
        record s { tokens = evict key s.tokens },
        err (
            generation_error 401
              (text "TimelyGPT authentication failed. Please verify your API key.")),
      )
      else if code == 429
      then (
        s,
        err (
            generation_error 429
              (text "TimelyGPT API rate limit reached. Please wait and try again.")),
      )
      else if code == 402 || code == 403
      then (
        s,
        err (
            generation_error 503
              (text "TimelyGPT API quota exceeded or billing issue. Please check your account.")),
      )
      else if is_success code
      then (record s { breaker = record_success s.breaker }, final_message body)
      else (record s { breaker = record_failure now s.breaker }, err (generation_error 502 busy))

  -- `raw.strip()` of `extract_json` raises where the message is no text.
  abbrev parse_message : Value → Result Value
  parse_message (str raw) = extract_json rt raw
  parse_message _ = err (crash attribute_error)

  module _ (service : Service) where
    abbrev with_token :
        Prompt → ℕ → TimelyState → TokenCache × Result Value → TimelyState × Result Value
    with_token p attempt s (tokens, err e) = (record s { tokens = tokens }, err e)
    with_token p attempt s (tokens, ok token) =
        settle_timely p.api_key (service.answered attempt)
          (service.complete (model_or p.model settings.timely_model) p token attempt)
          (record s { tokens = tokens })

    unfoldable pub call_timely : Prompt → ℕ → TimelyState → TimelyState × Result Value
    unfolding get_access_token
    call_timely p attempt s =
        let (b, open_now) = is_open (service.asked attempt) s.breaker in
        if open_now
        then (
          record s { breaker = b },
          err (
              generation_error 503
                (text "TimelyGPT API is temporarily unavailable. Please try again later.")),
        )
        else with_token p attempt (record s { breaker = b })
            (get_access_token p.api_key (service.checked attempt) (service.issued attempt)
              (service.issue p.api_key attempt) s.tokens)

    unfoldable pub attempt_timely : Prompt → ℕ → TimelyState → TimelyState × Result Value
    unfolding call_timely
    attempt_timely p attempt s = let (s', r) = call_timely p attempt s in (s', r >>= parse_message)

    unfoldable pub timely_with_retry : Prompt → TimelyState → Run TimelyState
    unfolding attempt_timely generate
    timely_with_retry p s = generate (attempt_timely p) settings.max_retries s
