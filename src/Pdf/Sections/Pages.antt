-- ===== src/Pdf/Sections/Pages.antt =====
-- The page range of a section lies within the document.
use study_helper_backend.Prelude.{
  ℕ, suc, ◌+◌, ◌≤◌, ◌≡◌, false, List, [], ◌∷◌, length, is_empty, arith, All, All-append, All-map,
  Bool-cases, inl, inr, subst,
}
use study_helper_backend.Text.{Text, text, strip, split}
use study_helper_backend.Pdf.{Page}
use study_helper_backend.Pdf.Sections.{
  heading_words, is_title, Group, Open, flush, read_line, read_lines, read_pages, introduction,
  groups,
}

-- A section of a document of `n` pages: it has a line, and its pages are pages of the document.
abbrev pub Spans : ℕ → Group → Type 0
Spans n g =
    (is_empty g.lines ≡ false)
    × (1 ≤ g.first_page)
    × (g.first_page ≤ g.last_page)
    × (g.last_page ≤ n)

-- The variables of the loops on page `n`.
abbrev OnPage : ℕ → Open → Type 0
OnPage n o = All (Spans n) o.closed_sections × ((1 ≤ o.current_start) × (o.current_start ≤ n))

flush-Spans : (n : ℕ) (o : Open) → OnPage n o → All (Spans n) (flush n o)
unfolding flush
flush-Spans n o (closed, (from, to)) = elim (Bool-cases (is_empty o.current_lines)) [
  | inl nothing ↦ rw nothing closed
  | inr some_lines ↦
      rw some_lines
        (All-append (Spans n) o.closed_sections _ closed ((some_lines, from, to, omega arith), tt))
]

read_line-OnPage :
    (headings : List Text) (n : ℕ) (line : Text) (o : Open)
    → OnPage n o
    → OnPage n (read_line headings n line o)
unfolding read_line
read_line-OnPage headings n line o (closed, (from, to)) = elim (Bool-cases (is_empty line)) [
  | inl blank ↦ rw blank (closed, (from, to))
  | inr shown ↦ elim (Bool-cases (is_title headings line)) [
    | inl titled ↦
        rw (shown, titled)
          (flush-Spans n o (closed, (from, to)), (omega (arith, from, to), omega arith))
    | inr plain ↦ rw (shown, plain) (closed, (from, to))
  ]
]

read_lines-OnPage :
    (headings : List Text) (n : ℕ) (lines : List Text) (o : Open)
    → OnPage n o
    → OnPage n (read_lines headings n lines o)
unfolding read_lines
read_lines-OnPage headings n [] o h = h
read_lines-OnPage headings n (line ∷ lines) o h =
    read_lines-OnPage headings n lines _ (read_line-OnPage headings n (strip line) o h)

next-OnPage : (n : ℕ) (o : Open) → OnPage n o → OnPage (n + 1) o
next-OnPage n o (closed, (from, to)) = (
  All-map (Spans n) (Spans (n + 1))
      (λ g (some_lines, first, order, last). (some_lines, first, order, omega (arith, last)))
      o.closed_sections closed,
  (from, omega (arith, to)),
)

abbrev page_read : ℕ → Page → Open → Open
page_read n p o = read_lines (heading_words p.words) n (split (text "\n") p.page_text) o

page_read-OnPage : (n : ℕ) (p : Page) (o : Open) → OnPage n o → OnPage n (page_read n p o)
page_read-OnPage n p o h =
    read_lines-OnPage (heading_words p.words) n (split (text "\n") p.page_text) o h

same_page : (m n : ℕ) (o : Open) → m ≡ n → OnPage m o → OnPage n o
same_page m n o e h = subst (λ k. OnPage k o) e h

read_pages-OnPage :
    (n : ℕ) (p : Page) (ps : List Page) (o : Open)
    → OnPage n o
    → OnPage (n + length ps) (read_pages n (p ∷ ps) o)
unfolding read_pages
read_pages-OnPage n p [] o h =
    same_page n (n + 0) (page_read n p o) (omega arith) (page_read-OnPage n p o h)
read_pages-OnPage n p (q ∷ ps) o h =
    same_page (n + 1 + length ps) (n + suc (length ps))
      (read_pages (n + 1) (q ∷ ps) (page_read n p o)) (omega arith)
      (read_pages-OnPage (n + 1) q ps (page_read n p o)
        (next-OnPage n (page_read n p o) (page_read-OnPage n p o h)))

-- Every section has a line, and its page range is not empty and lies within the document.
pub groups-Spans : (pages : List Page) → All (Spans (length pages)) (groups pages)
unfolding groups read_pages flush
groups-Spans [] = tt
groups-Spans (p ∷ ps) =
    let read = read_pages 1 (p ∷ ps) introduction in
    flush-Spans (suc (length ps)) read (
      same_page (1 + length ps) (suc (length ps)) read (omega arith)
        (read_pages-OnPage 1 p ps introduction (tt, (omega arith, omega arith))))
