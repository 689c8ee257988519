-- ===== src/Examples/Calls.antt =====
-- The retry loop, one call of a service and the cache of tokens, at short histories.
use study_helper_backend.Prelude.{
  ℕ, ◌+◌, ◌-◌, ◌*◌, ◌^◌, ◌≡◌, ◌≢◌, ◌⊎◌, ◌≤◌, refl, subst, false, List, [], ◌∷◌, Option, none, some,
  All, ltb, ◌==◌, arith, if◌then◌else◌,
}
use study_helper_backend.Text.{
  Text, text, text_eq, strip, starts_with, strip_by, strip_left, is_space,
}
use study_helper_backend.Outcome.{Result, ok, err, generation_error}
use study_helper_backend.Json.{Value, null, dict, end}
use study_helper_backend.Breaker.{Breaker, second}
use study_helper_backend.JsonUtils.Complete.{Among, extract_json_complete}
use study_helper_backend.JsonUtils.{
  find, find_from, array_start, strip_fences, with_questions, extract_json,
}
use study_helper_backend.JsonUtils.Recovered.{
  IsObjectOf, IsPositive, depth_at, balance, extract_json-cases,
}
use study_helper_backend.Client.Request.{Prompt, Exchange, Reply, timeout_error, replied}
use study_helper_backend.Client.Retry.{is_final, generate}
use study_helper_backend.Client.Retry.Limits.{generate_bounds}
use study_helper_backend.Client.Retry.Answers.{
  Answers, now, later, Answers-generate, generate-Answers,
}
use study_helper_backend.Client.Timely.{
  Response, response, timed_out, TokenCache, cached, token_lifetime, authenticate, get_access_token,
}
use study_helper_backend.Client.Timely.Tokens.{token_reused}
use study_helper_backend.Examples.Ascii.{ascii, entry, literal}

-- An answer that is cut off within its second question.
abbrev cut_off : Text
cut_off = text "\"questions\": [{},{"

abbrev only_empty : Text → Option Value
only_empty t = if text_eq t (text "{}") then some (dict end) else none

one_recovered : extract_json (ascii only_empty) cut_off ≡ ok (with_questions (dict end ∷ []))
unfolding extract_json
one_recovered = refl

extract_json-cases_example :
    (only_empty (strip_fences cut_off) ≡ some (with_questions (dict end ∷ [])))
    ⊎ ((only_empty (strip_fences cut_off) ≡ none)
        × ((qs : List Value) × (start : ℕ) × (with_questions (dict end ∷ []) ≡ with_questions qs)
            × (array_start (strip_fences cut_off) ≡ some start)
            × All (IsObjectOf (ascii only_empty) (strip_fences cut_off) start) qs
            × (qs ≢ [])))
extract_json-cases_example =
    extract_json-cases (ascii only_empty) cut_off (with_questions (dict end ∷ [])) one_recovered

first_object : IsObjectOf (ascii only_empty) (strip_fences cut_off) 13 (dict end)
unfolding strip_fences balance text text_eq strip starts_with strip_by strip_left is_space
first_object = record {
  from = 14;
  to = 15;
  after = omega arith;
  ordered = omega arith;
  opens = refl;
  closes = refl;
  outside = refl;
  inside = λ k begun early.
      let only : 15 ≡ k = omega (arith, begun, early) in
      subst (λ n. IsPositive (depth_at (strip_fences cut_off) 13 n)) only (0, refl);
  ended = refl;
  loaded = refl;
}

no_value : only_empty (strip_fences cut_off) ≡ none
unfolding strip_fences text text_eq strip starts_with strip_by strip_left is_space
no_value = refl

array_found : array_start (strip_fences cut_off) ≡ some 13
unfolding strip_fences array_start find find_from text text_eq strip starts_with strip_by strip_left
    is_space
array_found = refl

extract_json_complete_example :
    (qs : List Value) × (extract_json (ascii only_empty) cut_off ≡ ok (with_questions qs))
    × Among (dict end) qs
extract_json_complete_example =
    extract_json_complete (ascii only_empty) cut_off 13 (dict end) no_value array_found first_object

-- A service that answers from the second attempt on, and one that never does. The state is the
-- number of the attempts.
abbrev flaky : ℕ → ℕ → ℕ × Result Value
flaky attempt s =
    if attempt == 0 then (s + 1, err (generation_error 502 (text "busy"))) else (s + 1, ok null)

abbrev down : ℕ → ℕ → ℕ × Result Value
down attempt s = (s + 1, err (generation_error 502 (text "busy")))

generate_bounds_example :
    (1 ≤ (generate flaky 2 0).calls)
    × ((generate flaky 2 0).calls ≤ 2 + 1)
    × ((generate flaky 2 0).slept + 1 ≡ 2 ^ ((generate flaky 2 0).calls - 1))
generate_bounds_example = generate_bounds flaky 2 0

flaky_answers : (generate flaky 2 0).result ≡ ok null
unfolding generate
flaky_answers = refl

generate-Answers_example : (k : ℕ) × (t : ℕ) × Answers flaky k t null 0 0 × (k ≤ 2)
generate-Answers_example = generate-Answers flaky 2 0 null flaky_answers

not_final : is_final 502 ≡ false
unfolding is_final
not_final = refl

second-Answers : Answers flaky 1 2 null 0 0
second-Answers = later 1 502 (text "busy") refl not_final (now refl refl)

one_retry : 1 ≤ 2
one_retry = omega arith

Answers-generate_example :
    ((generate flaky 2 0).state ≡ 2)
    × ((generate flaky 2 0).result ≡ ok null)
    × ((generate flaky 2 0).calls ≡ 1 + 1)
Answers-generate_example = Answers-generate flaky 2 0 second-Answers one_retry

abbrev message_of : Result Value → Text
message_of (err (generation_error code m)) = m
message_of _ = []

down_fails :
    (generate down 2 0).result ≡ err (generation_error 500 (message_of (generate down 2 0).result))
unfolding generate
down_fails = refl

abbrev prompt : Prompt
prompt = record {
  api_key = text "sk-ant-key";
  system_prompt = text "system";
  user_prompt = text "user";
  max_tokens = 4096;
  model = none;
}

abbrev used : Breaker
used = record { failures = 3; opened_at = none }

abbrev times_out : Text → Prompt → ℕ → Exchange (Reply (List Text))
times_out model p attempt = record { asked = 1; answered = 31; reply = timeout_error }

abbrev answers : Text → Prompt → ℕ → Exchange (Reply (List (Option Text)))
answers model p attempt = record {
  asked = 1;
  answered = 31;
  reply = replied (some (text "mcq") ∷ []);
}

abbrev issued_token : Response
issued_token =
    response 200 (some (dict (entry "data" (dict (entry "access_token" (literal "t") end)) end)))

abbrev after_issue : TokenCache
after_issue = (get_access_token (text "key") 0 second issued_token []).0

token_missing : cached [] (text "key") ≡ none
unfolding text cached
token_missing = refl

token_issued :
    get_access_token (text "key") 0 second issued_token [] ≡ (after_issue, ok (literal "t"))
unfolding text get_access_token
token_issued = refl

token_reused_example :
    get_access_token (text "key") (5 * second) (6 * second) timed_out after_issue ≡ (
      if ltb (5 * second) (second + token_lifetime)
      then (after_issue, ok (literal "t"))
      else authenticate (text "key") (6 * second) timed_out after_issue)
token_reused_example =
    token_reused (text "key") 0 second (5 * second) (6 * second) issued_token timed_out []
      after_issue (literal "t") token_missing token_issued
