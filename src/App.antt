-- ===== src/App.antt =====
-- app/main.py and the handlers of core/exceptions.py. A map of headers is a parameter, as Starlette
-- has it; what the application answers inside a middleware is its argument `call_next`.
pub mod Headers
mod Examples
use study_helper_backend.Prelude.{ℕ, Option, none, some, if◌then◌else◌}
use study_helper_backend.Text.{Text, text, text_eq}
use study_helper_backend.Outcome.{Failure, Result, ok, err, ◌>>=◌}
use study_helper_backend.Config.{Settings}

-- What the program uses of Starlette's `Headers` and `MutableHeaders`.
pub record HeaderMap : Type 1 where
  pub Fields : Type 0
  pub lookup : Fields → Text → Option Text
  pub assign : Fields → Text → Text → Fields

-- `JSONResponse(status_code=…, content={"error": …, "message": …})`
pub record ErrorResponse : Type 0 where
  pub code : ℕ
  pub error : Text
  pub message : Text

unfoldable pub pdf_parse_error_handler : ℕ → Text → ErrorResponse
unfolding text
pdf_parse_error_handler code message = record {
  code = code;
  error = text "pdf_parse_error";
  message = message;
}

unfoldable pub generation_error_handler : ℕ → Text → ErrorResponse
unfolding text
generation_error_handler code message = record {
  code = code;
  error = text "generation_error";
  message = message;
}

unfoldable pub unhandled_exception_handler : ErrorResponse
unfolding text
unhandled_exception_handler = record {
  code = 500;
  error = text "internal_server_error";
  message = text "An internal server error occurred.";
}

-- Which handler answers an exception. FastAPI's own answers an HTTPException, and no code raises a
-- SessionNotFoundError.
unfoldable pub handle : (ℕ → Text → ErrorResponse) → Failure → ErrorResponse
unfolding pdf_parse_error_handler generation_error_handler unhandled_exception_handler
handle fastapi (Failure.pdf_parse_error code message) = pdf_parse_error_handler code message
handle fastapi (Failure.generation_error code message) = generation_error_handler code message
handle fastapi (Failure.validation_error message) = unhandled_exception_handler
handle fastapi (Failure.http_exception code message) = fastapi code message
handle fastapi (Failure.crash c) = unhandled_exception_handler

-- The answer of `health_check`.
pub record Health : Type 0 where
  pub status : Text
  pub version : Text
  pub environment : Text

unfoldable pub health_check : Settings → Health
unfolding text
health_check st = record {
  status = text "ok";
  version = st.app_version;
  environment = st.environment;
}

module _ (maps : HeaderMap) (Body : Type 0) where
  pub record HttpResponse : Type 0 where
    pub status_code : ℕ
    pub headers : maps.Fields
    pub body : Body

  abbrev pub with_header : Text → Text → HttpResponse → HttpResponse
  with_header name value r = record r { headers = maps.assign r.headers name value }

  -- The id of a request: its own, or the one that `uuid.uuid4` gives.
  abbrev pub id_of : Text → Option Text → Text
  id_of generated none = generated
  id_of generated (some id) = id

  unfoldable pub request_id_middleware :
      Text → (maps.Fields → Result HttpResponse) → maps.Fields → Result HttpResponse
  unfolding text
  request_id_middleware generated call_next request =
      let request_id = id_of generated (maps.lookup request (text "X-Request-ID")) in
      call_next request >>= λ response. ok (with_header (text "X-Request-ID") request_id response)

  unfoldable pub security_headers : Settings → HttpResponse → HttpResponse
  unfolding text text_eq
  security_headers st r0 =
      let r1 = with_header (text "X-Content-Type-Options") (text "nosniff") r0 in
      let r2 = with_header (text "X-Frame-Options") (text "DENY") r1 in
      let r3 = with_header (text "Cache-Control") (text "no-store") r2 in
      let r4 = with_header (text "Referrer-Policy") (text "strict-origin-when-cross-origin") r3 in
      if text_eq st.environment (text "production")
      then with_header (text "Strict-Transport-Security")
          (text "max-age=63072000; includeSubDomains") r4
      else r4

  unfoldable pub security_headers_middleware :
      Settings → (maps.Fields → Result HttpResponse) → maps.Fields → Result HttpResponse
  unfolding security_headers
  security_headers_middleware st call_next request =
      call_next request >>= λ response. ok (security_headers st response)

  -- The two middlewares around the application: the one that is added last is the outer one.
  unfoldable pub serve :
      Settings → Text → (maps.Fields → Result HttpResponse) → maps.Fields → Result HttpResponse
  unfolding request_id_middleware security_headers_middleware
  serve st generated call_next =
      security_headers_middleware st (request_id_middleware generated call_next)
