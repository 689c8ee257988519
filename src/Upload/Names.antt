-- ===== src/Upload/Names.antt =====
-- The name that an upload is stored under.
use study_helper_backend.Prelude.{
  ℕ, ◌≡◌, refl, true, false, ◌||◌, List, [], ◌∷◌, All, map, ◌==◌, ==_iff, Bool-cases, inl, inr,
}
use study_helper_backend.Text.{Text, text, is_space, ends_with, starts_with}
use study_helper_backend.Json.{Value}
use study_helper_backend.Runtime.{Runtime}
use study_helper_backend.Config.{Settings}
use study_helper_backend.UserStore.{Server}
use study_helper_backend.Pdf.Parse.{Opened}
use study_helper_backend.Upload.{basename, safe_char, is_pdf_name, sanitize}

-- What Python's tables say of a slash, and of the name that stands in for others.
pub record IsPlain (rt : Runtime) : Type 0 where
  pub slash : rt.is_word 47 ≡ false
  pub lower_name : rt.lower (text "document.pdf") ≡ text "document.pdf"

abbrev pub NoSlash : Text → Type 0
NoSlash = All (λ c. (c == 47) ≡ false)

default-NoSlash : NoSlash (text "document.pdf")
unfolding text
default-NoSlash = (
  refl,
  (refl, (refl, (refl, (refl, (refl, (refl, (refl, (refl, (refl, (refl, (refl, tt))))))))))),
)

module _ (rt : Runtime) (st : Settings) (srv : Server) (open_pdf : List ℕ → Opened)
    (sha256 : List ℕ → Text) (json_dumps : Value → Text) where
  safe_char-slash :
      IsPlain rt → (c : ℕ) → (safe_char rt st srv open_pdf sha256 json_dumps c == 47) ≡ false
  unfolding safe_char is_space
  safe_char-slash plain c = elim (Bool-cases (c == 47)) [
    | inl slash ↦ let e : c ≡ 47 = (==_iff c 47).0 slash in rw (e, plain.slash) refl
    | inr other ↦ elim (Bool-cases (rt.is_word c || (is_space c || (c == b'-' || c == b'.')))) [
      | inl taken ↦ rw taken other
      | inr replaced ↦ rw replaced refl
    ]
  ]

  map-NoSlash :
      IsPlain rt → (s : Text) → NoSlash (map (safe_char rt st srv open_pdf sha256 json_dumps) s)
  map-NoSlash plain [] = tt
  map-NoSlash plain (c ∷ s) = (safe_char-slash plain c, map-NoSlash plain s)

  default_name :
      IsPlain rt → is_pdf_name rt st srv open_pdf sha256 json_dumps (text "document.pdf") ≡ true
  unfolding is_pdf_name ends_with starts_with text
  default_name plain = rw plain.lower_name refl

  -- Whatever name the client sends, the name that the upload is stored under has no slash and still
  -- ends in ".pdf", where "/" is no word character and "document.pdf" is in lower case.
  pub sanitize-NoSlash :
      IsPlain rt
      → (name : Text)
      → NoSlash (sanitize rt st srv open_pdf sha256 json_dumps name)
        × (is_pdf_name rt st srv open_pdf sha256 json_dumps
              (sanitize rt st srv open_pdf sha256 json_dumps name)
            ≡ true)
  unfolding sanitize
  sanitize-NoSlash plain name =
      let safe = map (safe_char rt st srv open_pdf sha256 json_dumps) (basename name) in
      elim (Bool-cases (is_pdf_name rt st srv open_pdf sha256 json_dumps safe)) [
        | inl good ↦ rw good (map-NoSlash plain (basename name), good)
        | inr bad ↦ rw bad (default-NoSlash, default_name plain)
      ]
