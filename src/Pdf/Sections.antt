-- ===== src/Pdf/Sections.antt =====
-- `_is_heading` and `_extract_sections`. The lines of a section are kept as they are until the end
-- of the loop, where the code cleans and joins them as it closes the section.
pub mod Lines
pub mod Pages
pub mod Contents
use study_helper_backend.Prelude.{
  ℕ, ◌+◌, ◌*◌, ◌^◌, Bool, true, false, ◌&&◌, ◌||◌, List, [], ◌∷◌, ◌++◌, Option, none, some, map,
  any, is_empty, length, leb, ltb, if◌then◌else◌,
}
use study_helper_backend.Prelude.Int.{ℤ, pos, negsuc}
use study_helper_backend.Text.{Text, text, strip, split, join, contains}
use study_helper_backend.Runtime.{Runtime}
use study_helper_backend.Pdf.{Size, Word, Page, ParsedSection}
use study_helper_backend.Pdf.Clean.{clean_text}

-- `size >= 14`
abbrev is_large : Option Size → Bool
is_large none = false
is_large (some s) = elim s.mantissa [ pos m ↦ leb (14 * 2 ^ s.scale) m | negsuc m ↦ false ]

unfoldable pub is_heading : Word → Bool
unfolding contains text
is_heading w =
    contains w.fontname (text "Bold")
    || (contains w.fontname (text "bold") || contains w.fontname (text "Heavy"))
    || is_large w.size

-- `heading_lines`, whose order does not matter.
unfoldable pub heading_words : List Word → List Text
unfolding is_heading
heading_words [] = []
heading_words (w ∷ ws) = let rest = heading_words ws in if is_heading w then w.word ∷ rest else rest

unfoldable pub is_title : List Text → Text → Bool
unfolding contains
is_title headings line = any (contains line) headings && ltb (length line) 120

pub record Group : Type 0 where
  pub title : Text
  pub lines : List Text
  pub first_page : ℕ
  pub last_page : ℕ

-- The variables of the loops: the sections so far, and the one that is open.
pub record Open : Type 0 where
  pub closed_sections : List Group
  pub current_title : Text
  pub current_lines : List Text
  pub current_start : ℕ

-- A section without a line is dropped, its title too.
unfoldable pub flush : ℕ → Open → List Group
flush page o =
    if is_empty o.current_lines
    then o.closed_sections
    else o.closed_sections
      ++ (record {
        title = o.current_title;
        lines = o.current_lines;
        first_page = o.current_start;
        last_page = page;
      })
        ∷ []

-- One line of a page, stripped.
unfoldable pub read_line : List Text → ℕ → Text → Open → Open
read_line headings page line o =
    if is_empty line
    then o
    else if is_title headings line
    then record {
      closed_sections = flush page o;
      current_title = line;
      current_lines = [];
      current_start = page;
    }
    else record o { current_lines = o.current_lines ++ line ∷ [] }

unfoldable pub read_lines : List Text → ℕ → List Text → Open → Open
unfolding strip
read_lines headings page [] o = o
read_lines headings page (line ∷ lines) o =
    read_lines headings page lines (read_line headings page (strip line) o)

-- The pages, the first of which has the number that is given.
unfoldable pub read_pages : ℕ → List Page → Open → Open
unfolding split text
read_pages number [] o = o
read_pages number (p ∷ ps) o =
    read_pages (number + 1) ps
      (read_lines (heading_words p.words) number (split (text "\n") p.page_text) o)

abbrev pub introduction : Open
introduction = record {
  closed_sections = [];
  current_title = text "Introduction";
  current_lines = [];
  current_start = 1;
}

-- The sections of the pages, before they are cleaned.
unfoldable pub groups : List Page → List Group
groups pages = flush (length pages) (read_pages 1 pages introduction)

module _ (rt : Runtime) where
  unfoldable pub section_of : Group → ParsedSection
  unfolding clean_text join text
  section_of g = record {
    title = g.title;
    content = clean_text rt (join (text "\n") g.lines);
    first_page = g.first_page;
    last_page = g.last_page;
  }

  unfoldable pub whole_document : List Page → ParsedSection
  unfolding clean_text join text
  whole_document pages = record {
    title = text "Document Content";
    content = join (text "\n") (map (λ (p : Page). clean_text rt p.page_text) pages);
    first_page = 1;
    last_page = length pages;
  }

  abbrev pub or_whole : List Page → List Group → List ParsedSection
  or_whole pages [] = whole_document pages ∷ []
  or_whole pages (g ∷ gs) = section_of g ∷ map section_of gs

  unfoldable pub extract_sections : List Page → List ParsedSection
  extract_sections pages = or_whole pages (groups pages)
