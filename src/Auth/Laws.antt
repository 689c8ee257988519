-- ===== src/Auth/Laws.antt =====
-- Who is let in.
use study_helper_backend.Prelude.{
  ℕ, ◌≡◌, ◌⊎◌, refl, ap, subst, ◌∙◌, Bool, true, false, Option, none, some, List, [], ◌∷◌, is_empty,
  Bool-cases, Option-cases, inl, inr, if◌then◌else◌,
}
use study_helper_backend.Text.{Text, text, text_eq, starts_with}
use study_helper_backend.Outcome.{ok}
use study_helper_backend.Config.{Settings}
use study_helper_backend.Auth.{
  Header, Claims, Jwk, Decoded, valid, expired, invalid, unusable_key, Fetched, keys, unreachable,
  unreadable, Jose, Web, JwksCache, expired_error, jwt_error, fetch_error, other_error, Checked,
  passed, refused, and_next, jwks_url, fresh_keys, fetched, find_key, authenticated, decoded,
  alg_or, present, get_jwks, decode_with, forget_keys, look_again, verify_asymmetric, is_asymmetric,
  verify_secret, verify_claims, verify, User, answer_of, token_of, get_current_user,
}

module _ (jose : Jose) (web : Web) (st : Settings) where
  -- The keys of the issuer: those of the cache, or those that its address serves.
  abbrev pub Served : JwksCache → Text → List Jwk → Type 0
  Served c issuer ks =
      (n : ℕ) × ((fresh_keys c (jwks_url issuer) (web.clock n) ≡ some ks)
        ⊎ (web.fetch n (jwks_url issuer) ≡ keys ks))

  -- A token that a key of the issuer that it names has signed.
  pub record ByKey (token : Text) (c : JwksCache) (claims : Claims) : Type 0 where
    pub header : Header
    pub unverified : Claims
    pub issuer : Text
    pub served : List Jwk
    pub jwk : Jwk
    pub reads_header : jose.unverified_header token ≡ some header
    pub reads_claims : jose.unverified_claims token ≡ some unverified
    pub names : present unverified.iss ≡ some issuer
    pub serves : Served c issuer served
    pub has_key : find_key header.kid served ≡ some jwk
    pub signed :
        jose.decode token jwk.key (alg_or (text "RS256") header.alg) authenticated (some issuer)
        ≡ valid claims

  abbrev pub BySecret : Text → Claims → Type 0
  BySecret token claims =
      (is_empty st.supabase_jwt_secret ≡ false)
      × (jose.decode token st.supabase_jwt_secret (text "HS256") authenticated none ≡ valid claims)

  abbrev Vouched : Text → JwksCache → Checked Claims → Type 0
  Vouched token c (passed claims) = BySecret token claims ⊎ ByKey token c claims
  Vouched token c (refused e) = Unit

  -- What is known of a token once its header, its claims and its issuer are read.
  pub record Read (token : Text) (header : Header) (unverified : Claims) (issuer : Text)
      : Type 0 where
    pub reads_header : jose.unverified_header token ≡ some header
    pub reads_claims : jose.unverified_claims token ≡ some unverified
    pub names : present unverified.iss ≡ some issuer

  decode_with-Vouched :
      (token : Text) (header : Header) (unverified : Claims) (issuer : Text) (c : JwksCache)
      (ks : List Jwk)
      → Read token header unverified issuer
      → Served c issuer ks
      → Vouched token c (decode_with jose web st token header issuer (find_key header.kid ks))
  decode_with-Vouched token header unverified issuer c ks read served =
      go (find_key header.kid ks) refl
    where
      with_key :
          (k : Jwk)
          → find_key header.kid ks ≡ some k
          → (d : Decoded)
          → jose.decode token k.key (alg_or (text "RS256") header.alg) authenticated (some issuer)
            ≡ d
          → Vouched token c (decoded d)
      with_key k e (valid claims) s = inr (record {
        header = header;
        unverified = unverified;
        issuer = issuer;
        served = ks;
        jwk = k;
        reads_header = read.reads_header;
        reads_claims = read.reads_claims;
        names = read.names;
        serves = served;
        has_key = e;
        signed = s;
      })
      with_key k e expired s = tt
      with_key k e invalid s = tt
      with_key k e unusable_key s = tt

      go :
          (o : Option Jwk)
          → find_key header.kid ks ≡ o
          → Vouched token c (decode_with jose web st token header issuer o)
      go none e = tt
      go (some k) e = with_key k e _ refl

  -- The keys that a look gives are served.
  abbrev Looked : JwksCache → Text → JwksCache × Checked (List Jwk) → Type 0
  Looked c issuer (c', passed ks) = Served c issuer ks
  Looked c issuer (c', refused e) = Unit

  get_jwks-Looked :
      (n : ℕ) (issuer : Text) (c : JwksCache) → Looked c issuer (get_jwks jose web st n issuer c)
  unfolding get_jwks
  get_jwks-Looked n issuer c = elim (Option-cases (fresh_keys c (jwks_url issuer) (web.clock n))) [
    | inr (ks, fresh) ↦ rw (fresh, get_jwks) (n, inl fresh)
    | inl stale ↦ rw (stale, get_jwks) (fetches (web.fetch n (jwks_url issuer)) refl)
  ]
    where
      fetches :
          (f : Fetched)
          → web.fetch n (jwks_url issuer) ≡ f
          → Looked c issuer (fetched c (jwks_url issuer) (web.clock n) f)
      fetches (keys ks) e = (n, inr e)
      fetches unreachable e = tt
      fetches unreadable e = tt

  forgotten :
      (c c0 : JwksCache) (issuer : Text) (ks : List Jwk)
      → Served (forget_keys jose web st c) issuer ks
      → Served c0 issuer ks
  unfolding fresh_keys
  forgotten c c0 issuer ks (n, inr e) = (n, inr e)
  forgotten c c0 issuer ks (n, inl e) = absurd (never _ e)
    where
      abbrev_none : Option (List Jwk)
      abbrev_none = none

      never : (b : Bool) → (if b then abbrev_none else none) ≡ some ks → ⊥
      never true h = cc h
      never false h = cc h

  look_again-Vouched :
      (token : Text) (header : Header) (unverified : Claims) (issuer : Text) (c c0 : JwksCache)
      (ks : List Jwk)
      → Read token header unverified issuer
      → Served c0 issuer ks
      → Vouched token c0 (look_again jose web st token header issuer ks c).1
  unfolding look_again
  look_again-Vouched token header unverified issuer c c0 ks read served =
      elim (Option-cases (find_key header.kid ks)) [
        | inr (k, found) ↦
            rw (found, look_again)
              (subst (λ o. Vouched token c0 (decode_with jose web st token header issuer o)) found
                (decode_with-Vouched token header unverified issuer c0 ks read served))
        | inl missing ↦
            rw (missing, look_again)
              (second (get_jwks jose web st 1 issuer (forget_keys jose web st c))
                (get_jwks-Looked 1 issuer (forget_keys jose web st c)))
      ]
    where
      second :
          (r : JwksCache × Checked (List Jwk))
          → Looked (forget_keys jose web st c) issuer r
          → Vouched token c0
              (and_next
                (λ ks' c'.
                  (c', decode_with jose web st token header issuer (find_key header.kid ks')))
                r).1
      second (c', passed ks') h =
          decode_with-Vouched token header unverified issuer c0 ks' read
            (forgotten c c0 issuer ks' h)
      second (c', refused e) h = tt

  verify_asymmetric-Vouched :
      (token : Text) (header : Header) (unverified : Claims) (c : JwksCache)
      → jose.unverified_header token ≡ some header
      → jose.unverified_claims token ≡ some unverified
      → Vouched token c (verify_asymmetric jose web st token header unverified c).1
  unfolding verify_asymmetric
  verify_asymmetric-Vouched token header unverified c h u =
      elim (Option-cases (present unverified.iss)) [
        | inl missing ↦ rw (missing, verify_asymmetric) tt
        | inr (issuer, named) ↦
            rw (named, verify_asymmetric)
              (first issuer (record { reads_header = h; reads_claims = u; names = named })
                (get_jwks jose web st 0 issuer c) (get_jwks-Looked 0 issuer c))
      ]
    where
      first :
          (issuer : Text)
          → Read token header unverified issuer
          → (r : JwksCache × Checked (List Jwk)) → Looked c issuer r
          → Vouched token c (and_next (look_again jose web st token header issuer) r).1
      first issuer read (c', passed ks) served =
          look_again-Vouched token header unverified issuer c' c ks read served
      first issuer read (c', refused e) served = tt

  verify_secret-Vouched :
      (token : Text) (c : JwksCache) → Vouched token c (verify_secret jose web st token)
  unfolding verify_secret
  verify_secret-Vouched token c = elim (Bool-cases (is_empty st.supabase_jwt_secret)) [
    | inl unset ↦ rw unset tt
    | inr set ↦ rw set (reads set _ refl)
  ]
    where
      reads :
          is_empty st.supabase_jwt_secret ≡ false
          → (d : Decoded)
          → jose.decode token st.supabase_jwt_secret (text "HS256") authenticated none ≡ d
          → Vouched token c (decoded d)
      reads set (valid claims) e = inl (set, e)
      reads set expired e = tt
      reads set invalid e = tt
      reads set unusable_key e = tt

  verify_claims-Vouched :
      (token : Text) (header : Header) (unverified : Claims) (c : JwksCache)
      → jose.unverified_header token ≡ some header
      → jose.unverified_claims token ≡ some unverified
      → Vouched token c (verify_claims jose web st token header unverified c).1
  unfolding verify_claims
  verify_claims-Vouched token header unverified c h u =
      elim (Bool-cases (is_asymmetric jose web st (alg_or [] header.alg))) [
        | inl asymmetric ↦ rw asymmetric (verify_asymmetric-Vouched token header unverified c h u)
        | inr other ↦ elim (Bool-cases (text_eq (alg_or [] header.alg) (text "HS256"))) [
          | inl hs ↦ rw (other, hs) (verify_secret-Vouched token c)
          | inr unknown ↦ rw (other, unknown) tt
        ]
      ]

  verify-Vouched : (token : Text) (c : JwksCache) → Vouched token c (verify jose web st token c).1
  unfolding verify
  verify-Vouched token c = elim (Option-cases (jose.unverified_header token)) [
    | inl missing ↦ rw (missing, verify) tt
    | inr (header, h) ↦ elim (Option-cases (jose.unverified_claims token)) [
      | inl missing ↦ rw (h, missing, verify) tt
      | inr (unverified, u) ↦
          rw (h, u, verify) (verify_claims-Vouched token header unverified c h u)
    ]
  ]

  answered :
      (token : Text) (c : JwksCache) (r : Checked Claims) (user : User jose web st)
      → Vouched token c r
      → answer_of jose web st r ≡ ok (some user)
      → (claims : Claims) × (claims.sub ≡ some user.user_id)
        × (BySecret token claims ⊎ ByKey token c claims)
  answered token c (passed claims) user v h = elim (Option-cases claims.sub) [
    | inl missing ↦ absurd (cc (rw missing at h))
    | inr (sub, found) ↦
        let same : sub ≡ user.user_id = cc (rw found at h) in (claims, found ∙ ap some same, v)
  ]
  answered token c (refused expired_error) user v h = absurd (cc h)
  answered token c (refused jwt_error) user v h = absurd (cc h)
  answered token c (refused fetch_error) user v h = absurd (cc h)
  answered token c (refused (other_error e)) user v h = absurd (cc h)

  -- A user who is let in has a token whose claims the library has verified, with that user as their
  -- "sub": with the secret of the service, which is not empty, or with a key that the issuer which the
  -- token itself names serves, or has served to the cache.
  pub get_current_user-Vouched :
      (authorization : Text) (c c' : JwksCache) (user : User jose web st)
      → get_current_user jose web st (some authorization) c ≡ (c', ok (some user))
      → (claims : Claims) × (claims.sub ≡ some user.user_id)
        × (BySecret (token_of jose web st authorization) claims
            ⊎ ByKey (token_of jose web st authorization) c claims)
  unfolding get_current_user
  get_current_user-Vouched [] c c' user h = absurd (cc h)
  get_current_user-Vouched (a ∷ s) c c' user h =
      elim (Bool-cases (starts_with (a ∷ s) (text "Bearer "))) [
        | inr other ↦ absurd (cc (rw (other, get_current_user) at h))
        | inl bearer ↦
            let token = token_of jose web st (a ∷ s) in
            let answers : answer_of jose web st (verify jose web st token c).1 ≡ ok (some user) =
              cc (rw (bearer, get_current_user) at h) in
            answered token c (verify jose web st token c).1 user (verify-Vouched token c) answers
      ]
