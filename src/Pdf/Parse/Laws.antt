-- ===== src/Pdf/Parse/Laws.antt =====
-- What `parse_pdf` answers.
use study_helper_backend.Prelude.{
  ℕ, zero, suc, ◌*◌, ◌≤◌, ◌≡◌, ◌≢◌, ◌⊎◌, ◌∙◌, refl, ap, Bool, true, false, List, [], ◌∷◌, take,
  length, any, none, some, arith, Bool-cases, Option-cases, inl, inr, ltb, if◌then◌else◌,
}
use study_helper_backend.Text.{Text, strip, join}
use study_helper_backend.Outcome.{
  Result, ok, err, ◌>>=◌, >>=-eq-ok, pdf_parse_error, crash, library_error,
}
use study_helper_backend.Config.{Settings}
use study_helper_backend.Runtime.{Runtime}
use study_helper_backend.Pdf.{PdfPage, Page, ParsedSection, ParsedDocument}
use study_helper_backend.Pdf.Sections.{extract_sections}
use study_helper_backend.Pdf.Chunks.{chunk_sections}
use study_helper_backend.Pdf.Chunks.Laws.{
  all_words, Keeps, chunk_sections-Keeps, chunk_sections-total,
}
use study_helper_backend.Pdf.Parse.{
  Opened, broken, opened, read_page, read_all, texts_of, sample_text, page_warning, parsed_document,
  scanned, too_large, is_scanned, read_shown, read_pdf, read_opened, parse_pdf,
}

-- The pages up to the limit decide the outcome but for the count and the warning.
abbrev pub content : Result ParsedDocument → Result (List ParsedSection × Text × ℕ)
content (err failed) = err failed
content (ok d) = ok (d.sections, d.full_text, d.word_count)

take-take : (n : ℕ) (ps : List PdfPage) → take n (take n ps) ≡ take n ps
take-take zero ps = refl
take-take (suc n) [] = refl
take-take (suc n) (p ∷ ps) = ap (λ qs. p ∷ qs) (take-take n ps)

-- A page whose words or whose text the library cannot give.
abbrev pub is_broken : PdfPage → Bool
is_broken p = elim (read_page p) [ none ↦ true | some page ↦ false ]

read_all-broken : (ps : List PdfPage) → read_all ps ≡ none → any is_broken ps ≡ true
unfolding read_all
read_all-broken [] h = absurd (cc h)
read_all-broken (p ∷ ps) h = elim (Option-cases (read_page p)) [
  | inl raised ↦ rw (raised, is_broken) refl
  | inr (page, read) ↦ elim (Option-cases (read_all ps)) [
    | inl later ↦ rw (read, is_broken) (read_all-broken ps later)
    | inr (pages, all) ↦ absurd (cc (rw (read, all, read_all) at h))
  ]
]

texts_of-broken : (ps : List PdfPage) → texts_of ps ≡ none → any is_broken ps ≡ true
unfolding texts_of read_page
texts_of-broken [] h = absurd (cc h)
texts_of-broken (p ∷ ps) h = elim (Option-cases p.extract_text) [
  | inl raised ↦ elim (Option-cases p.extract_words) [
    | inl wordless ↦ rw wordless refl
    | inr (ws, got) ↦ rw (got, raised) refl
  ]
  | inr (t, shown) ↦ elim (Option-cases (texts_of ps)) [
    | inl later ↦ elim (Bool-cases (is_broken p)) [
      | inl here ↦ rw here refl
      | inr other ↦ rw other (texts_of-broken ps later)
    ]
    | inr (ts, all) ↦ absurd (cc (rw (shown, all, texts_of) at h))
  ]
]

any-take :
    (p : PdfPage → Bool) (n : ℕ) (ps : List PdfPage) → any p (take n ps) ≡ true → any p ps ≡ true
any-take p zero ps h = absurd (cc h)
any-take p (suc n) [] h = absurd (cc h)
any-take p (suc n) (q ∷ ps) h = elim (Bool-cases (p q)) [
  | inl here ↦ rw here refl
  | inr other ↦ rw other (any-take p n ps (rw other at h))
]

module _ (rt : Runtime) (st : Settings) where
  content-shown :
      (a b : ℕ) (pages : List Page)
      → content (read_shown rt st a pages) ≡ content (read_shown rt st b pages)
  unfolding read_shown parsed_document
  content-shown a b pages = go (chunk_sections st.chunk_token_size (extract_sections rt pages))
    where
      go :
          (chunked : Result (List ParsedSection))
          → content (chunked >>= λ chunks. ok (parsed_document st a chunks))
            ≡ content (chunked >>= λ chunks. ok (parsed_document st b chunks))
      go (err failed) = refl
      go (ok chunks) = refl

  abbrev pub cut : List PdfPage → List PdfPage
  cut pages = take st.max_pdf_pages pages

  -- Pages after the limit change neither the sections nor the text nor the number of words.
  pub content-take :
      (pages : List PdfPage)
      → content (read_pdf rt st pages) ≡ content (read_pdf rt st (take st.max_pdf_pages pages))
  unfolding read_pdf sample_text
  content-take pages =
      rw (take-take st.max_pdf_pages pages) (elim (Option-cases (texts_of (take 5 (cut pages)))) [
        | inl raised ↦ rw raised refl
        | inr (ts, shown) ↦ elim (Bool-cases (is_scanned rt st (join [] ts))) [
          | inl scan ↦ rw (shown, scan) refl
          | inr fine ↦ elim (Option-cases (read_all (cut pages))) [
            | inl stuck ↦ rw (shown, fine, stuck) refl
            | inr (read, all) ↦
                rw (shown, fine, all) (content-shown (length pages) (length (cut pages)) read)
          ]
        ]
      ])

  -- The pages up to the limit were read, and their sample has 50 characters.
  pub record Legible (pages : List PdfPage) (read : List Page) : Type 0 where
    pub sample : Text
    pub sampled : sample_text (cut pages) ≡ ok sample
    pub long : 50 ≤ length (strip sample)
    pub all : read_all (cut pages) ≡ some read

  -- How the reading of the pages ends.
  pub read_pdf-cases :
      (pages : List PdfPage)
      → ((read : List Page) × Legible pages read
          × (read_pdf rt st pages ≡ read_shown rt st (length pages) read))
        ⊎ ((read_pdf rt st pages ≡ err (pdf_parse_error 422 scanned))
            ⊎ ((read_pdf rt st pages ≡ err (crash library_error))
                × (any is_broken (cut pages) ≡ true)))
  unfolding read_pdf sample_text
  read_pdf-cases pages = elim (Option-cases (texts_of (take 5 (cut pages)))) [
    | inl raised ↦ inr (
        inr (
          rw raised refl,
          any-take is_broken 5 (cut pages) (texts_of-broken (take 5 (cut pages)) raised),
        ))
    | inr (ts, shown) ↦ elim (Bool-cases (is_scanned rt st (join [] ts))) [
      | inl scan ↦ inr (inl (rw (shown, scan) refl))
      | inr fine ↦ elim (Option-cases (read_all (cut pages))) [
        | inl stuck ↦ inr (inr (rw (shown, fine, stuck) refl, read_all-broken (cut pages) stuck))
        | inr (read, all) ↦ inl (
          read,
          record {
            sample = join [] ts;
            sampled = rw shown refl;
            long = ground (arith, fine);
            all = all;
          },
          rw (shown, fine, all) refl,
        )
      ]
    ]
  ]

  -- What a parsed document has in common with the pages.
  pub record Parsed (pages : List PdfPage) (read : List Page) (d : ParsedDocument) : Type 0 where
    pub chunks : Keeps st.chunk_token_size (all_words (extract_sections rt read)) d.sections
    pub count : d.page_count ≡ length pages
    pub cut_off : d.truncated ≡ ltb st.max_pdf_pages (length pages)
    pub told : d.warning ≡ (if d.truncated then some (page_warning st (length pages)) else none)

  read_shown-Parsed :
      (pages : List PdfPage) (read : List Page) (d : ParsedDocument)
      → read_shown rt st (length pages) read ≡ ok d
      → Parsed pages read d
  unfolding read_shown parsed_document
  read_shown-Parsed pages read d h =
      let secs = extract_sections rt read in
      let (chunks, e, r) = >>=-eq-ok (chunk_sections st.chunk_token_size secs) _ h in
      let same : parsed_document st (length pages) chunks ≡ d = cc r in
      rw (← same) (record {
        chunks = chunk_sections-Keeps st.chunk_token_size secs chunks e;
        count = refl;
        cut_off = refl;
        told = refl;
      })

  -- A refusal: the class of the exception, with one of its three statuses.
  abbrev pub Refused : Result ParsedDocument → Type 0
  Refused r =
      (code : ℕ) × (message : Text) × (r ≡ err (pdf_parse_error code message))
      × ((code ≡ 413) ⊎ ((code ≡ 400) ⊎ (code ≡ 422)))

  -- A file that opens, but the list of whose pages, or one of whose pages up to the limit, the
  -- library cannot read: its exception.
  abbrev pub Broken : {A : Type 0} → Opened → Result A → Type 0
  Broken o r =
      (r ≡ err (crash library_error))
      × ((o ≡ opened false none)
          ⊎ ((pages : List PdfPage) × (o ≡ opened false (some pages))
              × (any is_broken (take st.max_pdf_pages pages) ≡ true)))

  -- An open file that is accepted, and its document.
  abbrev Read : Opened → Result ParsedDocument → Type 0
  Read o r =
      (pages : List PdfPage) × (read : List Page) × (d : ParsedDocument) × (r ≡ ok d)
      × Parsed pages read d
      × ((o ≡ opened false (some pages)) × Legible pages read)

  -- Bytes that are accepted, and their document.
  abbrev pub Accepted : (List ℕ → Opened) → List ℕ → Result ParsedDocument → Type 0
  Accepted open_pdf file_bytes r =
      (pages : List PdfPage) × (read : List Page) × (d : ParsedDocument) × (r ≡ ok d)
      × Parsed pages read d
      × ((open_pdf file_bytes ≡ opened false (some pages))
          × ((length file_bytes ≤ st.max_pdf_size_mb * 1024 * 1024) × Legible pages read))

  read_shown-total :
      (total : ℕ) (read : List Page)
      → st.chunk_token_size ≢ 0
      → (d : ParsedDocument) × (read_shown rt st total read ≡ ok d)
  unfolding read_shown
  read_shown-total total read positive =
      let (chunks, e) = go st.chunk_token_size positive in
      (parsed_document st total chunks, rw e refl)
    where
      go :
          (n : ℕ)
          → n ≢ 0
          → (out : List ParsedSection) × (chunk_sections n (extract_sections rt read) ≡ ok out)
      go zero p = absurd (p refl)
      go (suc n) p = chunk_sections-total n (extract_sections rt read)

  read_opened-total :
      (o : Opened)
      → st.chunk_token_size ≢ 0
      → Read o (read_opened rt st o)
        ⊎ (Refused (read_opened rt st o) ⊎ Broken o (read_opened rt st o))
  unfolding read_opened
  read_opened-total (broken message) positive = inr (inl (400, _, refl, inr (inl refl)))
  read_opened-total (opened true pages) positive = inr (inl (400, _, refl, inr (inl refl)))
  read_opened-total (opened false none) positive = inr (inr (refl, inl refl))
  read_opened-total (opened false (some pages)) positive = elim (read_pdf-cases pages) [
    | inl (read, legible, e) ↦
        let (d, shown) = read_shown-total (length pages) read positive in
        inl (pages, read, d, e ∙ shown, read_shown-Parsed pages read d shown, (refl, legible))
    | inr (inl scan) ↦ inr (inl (422, scanned, scan, inr (inr refl)))
    | inr (inr (raised, which)) ↦ inr (inr (raised, inr (pages, refl, which)))
  ]

  -- For a chunk size that is not 0, one of three: the file is within the limit, opens without a
  -- password, all its pages up to the limit can be read, with 50 characters on the first five, and a
  -- document comes back that has the words of the extracted sections in chunks of at most that size,
  -- counts all pages, and has a warning exactly where pages were cut; or the parser's own exception
  -- is raised, with status 413, 400 or 422; or an exception of the library, and then the list of the
  -- pages or one of the pages up to the limit cannot be read.
  pub parse_pdf-total :
      (open_pdf : List ℕ → Opened) (file_bytes : List ℕ)
      → st.chunk_token_size ≢ 0
      → Accepted open_pdf file_bytes (parse_pdf rt st open_pdf file_bytes)
        ⊎ (Refused (parse_pdf rt st open_pdf file_bytes)
            ⊎ Broken (open_pdf file_bytes) (parse_pdf rt st open_pdf file_bytes))
  unfolding parse_pdf
  parse_pdf-total open_pdf file_bytes positive =
      elim (Bool-cases (ltb (st.max_pdf_size_mb * 1024 * 1024) (length file_bytes))) [
        | inl large ↦ inr (inl (413, too_large st, rw large refl, inl refl))
        | inr fits ↦ elim (read_opened-total (open_pdf file_bytes) positive) [
          | inl (pages, read, d, e, parsed, (o, legible)) ↦
              inl (pages, read, d, rw (fits, e) refl, parsed, (o, (ground (arith, fits), legible)))
          | inr (inl (code, message, e, known)) ↦
              inr (inl (code, message, rw (fits, e) refl, known))
          | inr (inr (raised, which)) ↦ inr (inr (rw (fits, raised) refl, which))
        ]
      ]
