-- ===== src/Pdf.antt =====
-- app/services/pdf_parser.py. pdfplumber is a parameter: it opens the bytes, and a page gives its
-- words and its text, or raises.
pub mod Clean
pub mod Sections
pub mod Chunks
pub mod Parse
use study_helper_backend.Prelude.{ℕ, Bool, List, Option}
use study_helper_backend.Text.{Text}
use study_helper_backend.Prelude.Int.{ℤ}

-- A size is `mantissa / 2 ^ scale`; `none` where the key is missing or the value is falsy.
pub record Size : Type 0 where
  pub mantissa : ℤ
  pub scale : ℕ

-- An item of `extract_words`.
pub record Word : Type 0 where
  pub word : Text
  pub fontname : Text
  pub size : Option Size

-- A page of pdfplumber: what its two methods give, `none` where one raises. They give the same each
-- time.
pub record PdfPage : Type 0 where
  pub extract_words : Option (List Word)
  pub extract_text : Option Text

-- A page whose words and text were read.
pub record Page : Type 0 where
  pub words : List Word
  pub page_text : Text

pub record ParsedSection : Type 0 where
  pub title : Text
  pub content : Text
  pub first_page : ℕ
  pub last_page : ℕ

pub record ParsedDocument : Type 0 where
  pub sections : List ParsedSection
  pub full_text : Text
  pub page_count : ℕ
  pub word_count : ℕ
  pub truncated : Bool
  pub warning : Option Text
