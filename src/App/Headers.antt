-- ===== src/App/Headers.antt =====
-- app/main.py: the headers of a response that went through both middlewares.
use study_helper_backend.Prelude.{
  ℕ, Bool, true, false, ◌&&◌, Option, some, [], ◌∷◌, ◌≡◌, refl, ◌∙◌, ltb, leb, ◌==◌, ◌+◌, ◌⊎◌, inl,
  inr, if◌then◌else◌, Bool-cases, arith,
}
use study_helper_backend.Text.{Text, text, text_eq}
use study_helper_backend.Outcome.{Failure, Result, ok, err}
use study_helper_backend.Config.{Settings}
use study_helper_backend.App.{
  HeaderMap, HttpResponse, with_header, id_of, request_id_middleware, security_headers,
  security_headers_middleware, serve,
}

-- Names of headers are compared without the case of their letters.
abbrev lower_letter : ℕ → ℕ
lower_letter c = if leb 65 c && leb c 90 then c + 32 else c

unfoldable pub same_name : Text → Text → Bool
same_name [] [] = true
same_name [] (_ ∷ _) = false
same_name (_ ∷ _) [] = false
same_name (a ∷ s) (b ∷ t) = lower_letter a == lower_letter b && same_name s t

unfoldable pub is_ascii : Text → Bool
is_ascii [] = true
is_ascii (c ∷ s) = ltb c 128 && is_ascii s

-- What is assigned is found, and the headers of other names stay, for names in ASCII.
pub record IsHeaderMap (maps : HeaderMap) : Type 0 where
  pub found :
      (fields : maps.Fields) (name value : Text)
      → maps.lookup (maps.assign fields name value) name ≡ some value
  pub apart :
      (fields : maps.Fields) (name value other : Text)
      → is_ascii name ≡ true
      → is_ascii other ≡ true
      → same_name name other ≡ false
      → maps.lookup (maps.assign fields name value) other ≡ maps.lookup fields other

-- The headers of every response, for the id of its request.
pub record Secured (maps : HeaderMap) (id : Text) (r : maps.Fields) : Type 0 where
  pub traced : maps.lookup r (text "X-Request-ID") ≡ some id
  pub sniffing : maps.lookup r (text "X-Content-Type-Options") ≡ some (text "nosniff")
  pub framing : maps.lookup r (text "X-Frame-Options") ≡ some (text "DENY")
  pub caching : maps.lookup r (text "Cache-Control") ≡ some (text "no-store")
  pub referring :
      maps.lookup r (text "Referrer-Policy") ≡ some (text "strict-origin-when-cross-origin")

Result-cases : {A : Type 0} (x : Result A) → ((a : A) × (x ≡ ok a)) ⊎ ((e : Failure) × (x ≡ err e))
Result-cases (ok a) = inl (a, refl)
Result-cases (err e) = inr (e, refl)

module _ (maps : HeaderMap) (sound : IsHeaderMap maps) where
  -- A header that is there stays when one of another name is assigned.
  kept :
      (fields : maps.Fields) (name value other : Text) {old : Option Text}
      → is_ascii name ≡ true
      → is_ascii other ≡ true
      → same_name name other ≡ false
      → maps.lookup fields other ≡ old
      → maps.lookup (maps.assign fields name value) other ≡ old
  kept fields name value other plain plain' differ there =
      sound.apart fields name value other plain plain' differ ∙ there

  assign-Secured :
      (id : Text) (r : maps.Fields) (value : Text)
      → Secured maps id r
      → Secured maps id (maps.assign r (text "Strict-Transport-Security") value)
  unfolding same_name is_ascii text
  assign-Secured id r value s = record {
    traced = kept _ _ _ _ refl refl refl s.traced;
    sniffing = kept _ _ _ _ refl refl refl s.sniffing;
    framing = kept _ _ _ _ refl refl refl s.framing;
    caching = kept _ _ _ _ refl refl refl s.caching;
    referring = kept _ _ _ _ refl refl refl s.referring;
  }

  module _ (Body : Type 0) where
    security_headers-Secured :
        (st : Settings) (id : Text) (r : HttpResponse maps Body)
        → Secured maps id
            (security_headers maps Body st
              (with_header maps Body (text "X-Request-ID") id r)).headers
    unfolding security_headers same_name is_ascii text
    security_headers-Secured st id r =
        let f0 = maps.assign r.headers (text "X-Request-ID") id in
        let f1 = maps.assign f0 (text "X-Content-Type-Options") (text "nosniff") in
        let f2 = maps.assign f1 (text "X-Frame-Options") (text "DENY") in
        let f3 = maps.assign f2 (text "Cache-Control") (text "no-store") in
        let f4 = maps.assign f3 (text "Referrer-Policy") (text "strict-origin-when-cross-origin") in
        let base : Secured maps id f4 = record {
          traced = kept f3 _ _ _ refl refl refl (
              kept f2 _ _ _ refl refl refl
                (kept f1 _ _ _ refl refl refl (kept f0 _ _ _ refl refl refl (sound.found _ _ _))));
          sniffing =
              kept f3 _ _ _ refl refl refl
                (kept f2 _ _ _ refl refl refl (kept f1 _ _ _ refl refl refl (sound.found _ _ _)));
          framing = kept f3 _ _ _ refl refl refl (kept f2 _ _ _ refl refl refl (sound.found _ _ _));
          caching = kept f3 _ _ _ refl refl refl (sound.found _ _ _);
          referring = sound.found _ _ _;
        } in
        elim (Bool-cases (text_eq st.environment (text "production"))) [
          | inl h ↦ rw h (assign-Secured id f4 _ base)
          | inr h ↦ rw h base
        ]

    -- In production the transport is made strict; elsewhere the header is what it was.
    security_headers-strict :
        (st : Settings) (id : Text) (r : HttpResponse maps Body)
        → maps.lookup
            (security_headers maps Body st
              (with_header maps Body (text "X-Request-ID") id r)).headers
            (text "Strict-Transport-Security")
          ≡ (if text_eq st.environment (text "production")
              then some (text "max-age=63072000; includeSubDomains")
              else maps.lookup r.headers (text "Strict-Transport-Security"))
    unfolding security_headers same_name is_ascii text
    security_headers-strict st id r =
        elim (Bool-cases (text_eq st.environment (text "production"))) [
          | inl h ↦ rw h (sound.found _ _ _)
          | inr h ↦ rw h (
              kept _ _ _ _ refl refl refl (
                kept _ _ _ _ refl refl refl (
                  kept _ _ _ _ refl refl refl
                    (kept _ _ _ _ refl refl refl (kept _ _ _ _ refl refl refl refl)))))
        ]

    security_headers-rest :
        (st : Settings) (r : HttpResponse maps Body)
        → ((security_headers maps Body st r).status_code ≡ r.status_code)
          × ((security_headers maps Body st r).body ≡ r.body)
    unfolding security_headers
    security_headers-rest st r = ground arith

    -- Where a header that is assigned is found, and those of other names in ASCII stay: either the
    -- application inside the middlewares answers, and its answer goes out with its status and its
    -- body, with the id of the request (its own, or else the one that is made) and the four security
    -- headers, and in production with the one for strict transport, which elsewhere is as it was;
    -- or the application ends in an exception, which goes on as it is.
    pub serve-Secured :
        (st : Settings) (generated : Text)
        (call_next : maps.Fields → Result (HttpResponse maps Body)) (request : maps.Fields)
        → ((r : HttpResponse maps Body) × (sent : HttpResponse maps Body) × (call_next request
              ≡ ok r)
            × (serve maps Body st generated call_next request ≡ ok sent)
            × Secured maps
                (id_of maps Body generated (maps.lookup request (text "X-Request-ID")))
                sent.headers
            × (maps.lookup sent.headers (text "Strict-Transport-Security") ≡ (
                if text_eq st.environment (text "production")
                then some (text "max-age=63072000; includeSubDomains")
                else maps.lookup r.headers (text "Strict-Transport-Security")))
            × (sent.status_code ≡ r.status_code)
            × (sent.body ≡ r.body))
          ⊎ ((e : Failure) × (call_next request ≡ err e)
              × (serve maps Body st generated call_next request ≡ err e))
    unfolding serve security_headers_middleware request_id_middleware
    serve-Secured st generated call_next request = elim (Result-cases (call_next request)) [
      | inr (e, failed) ↦ inr (e, failed, rw failed refl)
      | inl (r, answered) ↦
          let id = id_of maps Body generated (maps.lookup request (text "X-Request-ID")) in
          let named = with_header maps Body (text "X-Request-ID") id r in
          let (same_status, same_body) = security_headers-rest st named in
          inl (
            r,
            security_headers maps Body st named,
            answered,
            rw answered refl,
            security_headers-Secured st id r,
            security_headers-strict st id r,
            same_status,
            same_body,
          )
    ]
