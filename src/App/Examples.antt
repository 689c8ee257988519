-- ===== src/App/Examples.antt =====
-- A map of headers as a list, and a guest's request that has no id of its own.
use study_helper_backend.Prelude.{
  true, Option, none, some, List, [], ◌∷◌, ◌≡◌, refl, ◌⊎◌, if◌then◌else◌, arith,
}
use study_helper_backend.Text.{Text, text, text_eq}
use study_helper_backend.Outcome.{Failure, Result, ok, err}
use study_helper_backend.Config.{Settings, defaults}
use study_helper_backend.App.{
  HeaderMap, HttpResponse, id_of, serve, security_headers_middleware, request_id_middleware,
  security_headers,
}
use study_helper_backend.App.Headers.{same_name, IsHeaderMap, Secured, serve-Secured}

unfoldable find : List (Text × Text) → Text → Option Text
unfolding same_name
find [] name = none
find ((k, v) ∷ fields) name = if same_name k name then some v else find fields name

abbrev listed : HeaderMap
listed = record {
  Fields = List (Text × Text);
  lookup = find;
  assign = λ fields name value. (name, value) ∷ fields;
}

same_name_refl : (name : Text) → same_name name name ≡ true
unfolding same_name
same_name_refl [] = refl
same_name_refl (c ∷ s) = let rest = same_name_refl s in ground arith

listed-IsHeaderMap : IsHeaderMap listed
unfolding find
listed-IsHeaderMap = record {
  found = λ fields name value. rw (same_name_refl name) refl;
  apart = λ fields name value other plain plain' differ. rw differ refl;
}

abbrev production : Settings
production = record defaults { environment = text "production" }

abbrev page : HttpResponse listed Text
page = record { status_code = 200; headers = []; body = text "{}" }

abbrev respond : List (Text × Text) → Result (HttpResponse listed Text)
respond request = ok page

serve-Secured_example :
    ((r : HttpResponse listed Text) × (sent : HttpResponse listed Text) × (respond [] ≡ ok r)
      × (serve listed Text production (text "1f") respond [] ≡ ok sent)
      × Secured listed (id_of listed Text (text "1f") (find [] (text "X-Request-ID"))) sent.headers
      × (find sent.headers (text "Strict-Transport-Security") ≡ (
          if text_eq (text "production") (text "production")
          then some (text "max-age=63072000; includeSubDomains")
          else find r.headers (text "Strict-Transport-Security")))
      × (sent.status_code ≡ r.status_code)
      × (sent.body ≡ r.body))
    ⊎ ((e : Failure) × (respond [] ≡ err e)
        × (serve listed Text production (text "1f") respond [] ≡ err e))
serve-Secured_example =
    serve-Secured listed listed-IsHeaderMap Text production (text "1f") respond []

abbrev transport_of : Result (HttpResponse listed Text) → Option Text
transport_of (ok r) = find r.headers (text "strict-transport-security")
transport_of (err e) = none

-- A response in production, read back without regard to the case of a name.
strict_transport :
    transport_of (serve listed Text production (text "1f") respond [])
    ≡ some (text "max-age=63072000; includeSubDomains")
unfolding serve security_headers_middleware request_id_middleware security_headers find same_name
    text text_eq
strict_transport = refl
