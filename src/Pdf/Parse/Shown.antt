-- ===== src/Pdf/Parse/Shown.antt =====
-- A document that is parsed has a text.
use study_helper_backend.Prelude.{
  ℕ, zero, suc, ◌*◌, ◌≡◌, refl, true, false, List, [], ◌∷◌, ◌++◌, is_empty, length, leb, ltb, arith,
  Bool-cases, inl, inr, none, some,
}
use study_helper_backend.Text.{Text, text, words, join}
use study_helper_backend.Outcome.{ok, >>=-eq-ok}
use study_helper_backend.Config.{Settings}
use study_helper_backend.Runtime.{Runtime}
use study_helper_backend.Pdf.{Page, ParsedSection, ParsedDocument}
use study_helper_backend.Pdf.Sections.{groups, extract_sections, or_whole, Group}
use study_helper_backend.Pdf.Chunks.{slices, parts, split_section, chunk_section, chunk_sections}
use study_helper_backend.Pdf.Parse.{
  Opened, broken, opened, headed, parsed_document, read_shown, read_opened, parse_pdf,
}
use study_helper_backend.Pdf.Parse.Laws.{read_pdf-cases}

split_section-some :
    (n : ℕ) (sec : ParsedSection) (ws : List Text) (out : List ParsedSection)
    → leb (length ws) n ≡ false
    → split_section n sec ws ≡ ok out
    → is_empty out ≡ false
unfolding slices parts
split_section-some zero sec ws out long h = absurd (cc h)
split_section-some (suc n) sec [] out long h = absurd (ground (arith, long))
split_section-some (suc n) sec (w ∷ ws) out long h =
    let same : parts sec 0 (slices (suc (length ws)) (suc n) (w ∷ ws)) ≡ out = cc h in
    rw (← same) refl

chunk_section-some :
    (n : ℕ) (sec : ParsedSection) (out : List ParsedSection)
    → chunk_section n sec ≡ ok out
    → is_empty out ≡ false
unfolding chunk_section
chunk_section-some n sec out h = elim (Bool-cases (leb (length (words sec.content)) n)) [
  | inl short ↦
      let same : (sec ∷ []) ≡ out = cc (rw (short, chunk_section) at h) in rw (← same) refl
  | inr long ↦ split_section-some n sec (words sec.content) out long (rw (long, chunk_section) at h)
]

append-some : (ss ts : List ParsedSection) → is_empty ss ≡ false → is_empty (ss ++ ts) ≡ false
append-some [] ts h = absurd (cc h)
append-some (s ∷ ss) ts h = refl

chunk_sections-some :
    (n : ℕ) (sec : ParsedSection) (secs out : List ParsedSection)
    → chunk_sections n (sec ∷ secs) ≡ ok out
    → is_empty out ≡ false
unfolding chunk_sections
chunk_sections-some n sec secs out h =
    let (chunked, e, r) = >>=-eq-ok (chunk_section n sec) _ h in
    let (rest, e', r') = >>=-eq-ok (chunk_sections n secs) _ r in
    let same : chunked ++ rest ≡ out = cc r' in
    rw (← same) (append-some chunked rest (chunk_section-some n sec chunked e))

parsed_document-shown :
    (st : Settings) (total : ℕ) (chunks : List ParsedSection)
    → is_empty chunks ≡ false
    → is_empty (parsed_document st total chunks).full_text ≡ false
unfolding parsed_document join headed text
parsed_document-shown st total [] h = absurd (cc h)
parsed_document-shown st total (c ∷ []) h = refl
parsed_document-shown st total (c ∷ d ∷ cs) h = refl

module _ (rt : Runtime) (st : Settings) where
  chunks-some :
      (pages : List Page) (gs : List Group) (out : List ParsedSection)
      → chunk_sections st.chunk_token_size (or_whole rt pages gs) ≡ ok out
      → is_empty out ≡ false
  chunks-some pages [] out h = chunk_sections-some st.chunk_token_size _ _ out h
  chunks-some pages (g ∷ gs) out h = chunk_sections-some st.chunk_token_size _ _ out h

  read_shown-some :
      (total : ℕ) (pages : List Page) (d : ParsedDocument)
      → read_shown rt st total pages ≡ ok d
      → is_empty d.full_text ≡ false
  unfolding read_shown extract_sections
  read_shown-some total pages d h =
      let (chunks, e, r) =
        >>=-eq-ok (chunk_sections st.chunk_token_size (extract_sections rt pages)) _ h in
      let same : parsed_document st total chunks ≡ d = cc r in
      rw (← same)
        (parsed_document-shown st total chunks (chunks-some pages (groups pages) chunks e))

  read_opened-shown :
      (o : Opened) (d : ParsedDocument) → read_opened rt st o ≡ ok d → is_empty d.full_text ≡ false
  unfolding read_opened
  read_opened-shown (broken m) d h = absurd (cc h)
  read_opened-shown (opened true pages) d h = absurd (cc h)
  read_opened-shown (opened false none) d h = absurd (cc h)
  read_opened-shown (opened false (some pages)) d h = elim (read_pdf-cases rt st pages) [
    | inl (read, legible, e) ↦ read_shown-some (length pages) read d (cc (e, h))
    | inr (inl scan) ↦ absurd (cc (scan, h))
    | inr (inr (raised, which)) ↦ absurd (cc (raised, h))
  ]

  pub parse_pdf-shown :
      (open_pdf : List ℕ → Opened) (bytes : List ℕ) (d : ParsedDocument)
      → parse_pdf rt st open_pdf bytes ≡ ok d
      → is_empty d.full_text ≡ false
  unfolding parse_pdf
  parse_pdf-shown open_pdf bytes d h =
      elim (Bool-cases (ltb (st.max_pdf_size_mb * 1024 * 1024) (length bytes))) [
        | inl large ↦ absurd (cc (rw (large, parse_pdf) at h))
        | inr fits ↦ read_opened-shown (open_pdf bytes) d (rw (fits, parse_pdf) at h)
      ]
