-- ===== src/Pdf/Parse.antt =====
-- `parse_pdf`.
pub mod Laws
pub mod Shown
use study_helper_backend.Prelude.{
  ℕ, ◌*◌, Bool, true, false, List, [], ◌∷◌, ◌++◌, Option, none, some, map, take, length, ltb,
  if◌then◌else◌,
}
use study_helper_backend.Text.{Text, text, strip, join, words}
use study_helper_backend.Outcome.{Result, ok, err, ◌>>=◌, pdf_parse_error, crash, library_error}
use study_helper_backend.Config.{Settings}
use study_helper_backend.Runtime.{Runtime}
use study_helper_backend.Runtime.Number.{decimal}
use study_helper_backend.Pdf.{PdfPage, Page, ParsedSection, ParsedDocument}
use study_helper_backend.Pdf.Sections.{extract_sections}
use study_helper_backend.Pdf.Chunks.{chunk_sections}

-- What `pdfplumber.open` gives: the text of its exception, or whether the document is encrypted,
-- and `pdf.pages`, `none` where that raises.
pub data Opened : Type 0 where
  broken : Text → Opened
  opened : Bool → Option (List PdfPage) → Opened

-- `f"## {s.title}\n{s.content}"`
unfoldable pub headed : ParsedSection → Text
unfolding text
headed s = text "## " ++ (s.title ++ (text "\n" ++ s.content))

-- A value of the library. None of its exceptions is caught once the file is open.
abbrev pub from_library : {A : Type 0} → Option A → Result A
from_library none = err (crash library_error)
from_library (some a) = ok a

-- `extract_words` and then `extract_text`.
unfoldable pub read_page : PdfPage → Option Page
read_page p = elim p.extract_words [
  | none ↦ none
  | some ws ↦ elim p.extract_text [
    | none ↦ none
    | some t ↦ some (record { words = ws; page_text = t })
  ]
]

-- The pages of the loop of `_extract_sections`, which does nothing else that can fail: it ends in an
-- exception at the first page that raises.
unfoldable pub read_all : List PdfPage → Option (List Page)
unfolding read_page
read_all [] = some []
read_all (p ∷ ps) =
    let rest = read_all ps in
    elim (read_page p) [
      | none ↦ none
      | some page ↦ elim rest [ none ↦ none | some pages ↦ some (page ∷ pages) ]
    ]

unfoldable pub texts_of : List PdfPage → Option (List Text)
texts_of [] = some []
texts_of (p ∷ ps) =
    let rest = texts_of ps in
    elim p.extract_text [
      | none ↦ none
      | some t ↦ elim rest [ none ↦ none | some ts ↦ some (t ∷ ts) ]
    ]

-- `"".join((p.extract_text() or "") for p in pages[:5])`
unfoldable pub sample_text : List PdfPage → Result Text
unfolding texts_of join
sample_text pages = from_library (texts_of (take 5 pages)) >>= λ ts. ok (join [] ts)

unfoldable pub page_warning : Settings → ℕ → Text
unfolding decimal text
page_warning st total =
    text "PDF has "
    ++ (decimal total
        ++ (text " pages; only the first "
            ++ (decimal st.max_pdf_pages ++ text " pages were processed.")))

-- The document of the chunks.
unfoldable pub parsed_document : Settings → ℕ → List ParsedSection → ParsedDocument
unfolding join words headed page_warning text
parsed_document st total chunks =
    let full_text = join (text "\n\n") (map headed chunks) in
    let truncated = ltb st.max_pdf_pages total in
    record {
      sections = chunks;
      full_text = full_text;
      page_count = total;
      word_count = length (words full_text);
      truncated = truncated;
      warning = if truncated then some (page_warning st total) else none;
    }

abbrev pub scanned : Text
scanned =
    text
      "This PDF appears to be a scanned image without a text layer. OCR is not supported. Please use a text-based PDF."

unfoldable pub too_large : Settings → Text
unfolding decimal text
too_large st = text "PDF exceeds maximum size of " ++ (decimal st.max_pdf_size_mb ++ text "MB.")

module _ (rt : Runtime) (st : Settings) where
  -- The sections of the pages that were read, in chunks, for a file of so many pages.
  unfoldable pub read_shown : ℕ → List Page → Result ParsedDocument
  unfolding extract_sections chunk_sections parsed_document
  read_shown total pages =
      chunk_sections st.chunk_token_size (extract_sections rt pages) >>= λ chunks.
      ok (parsed_document st total chunks)

  abbrev pub is_scanned : Text → Bool
  is_scanned sample = ltb (length (strip sample)) 50

  -- From the pages on.
  unfoldable pub read_pdf : List PdfPage → Result ParsedDocument
  unfolding sample_text read_all read_shown strip text
  read_pdf all_pages =
      let pages = take st.max_pdf_pages all_pages in
      sample_text pages >>= λ sample.
      if is_scanned sample
      then err (pdf_parse_error 422 scanned)
      else from_library (read_all pages) >>= read_shown (length all_pages)

  unfoldable pub read_opened : Opened → Result ParsedDocument
  unfolding read_pdf text
  read_opened (broken message) = err (pdf_parse_error 400 (text "Cannot open PDF: " ++ message))
  read_opened (opened true pages) =
      err (pdf_parse_error 400 (text "PDF is password-protected. Please provide an unlocked file."))
  read_opened (opened false pages) = from_library pages >>= read_pdf

  -- `parse_pdf`, for a library that opens the bytes.
  unfoldable pub parse_pdf : (List ℕ → Opened) → List ℕ → Result ParsedDocument
  unfolding read_opened too_large
  parse_pdf open_pdf file_bytes =
      if ltb (st.max_pdf_size_mb * 1024 * 1024) (length file_bytes)
      then err (pdf_parse_error 413 (too_large st))
      else read_opened (open_pdf file_bytes)
