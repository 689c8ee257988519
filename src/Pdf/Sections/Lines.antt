-- ===== src/Pdf/Sections/Lines.antt =====
-- The lines that the sections hold are the lines of the pages that are no titles.
use mathlib.Core.List.{append_assoc, append-nil}
use study_helper_backend.Prelude.{
  ℕ, ◌+◌, ◌≡◌, refl, sym, ap, ◌∙◌, true, List, [], ◌∷◌, ◌++◌, length, is_empty, Bool-cases, inl,
  inr, if◌then◌else◌,
}
use study_helper_backend.Text.{Text, text, strip, split}
use study_helper_backend.Pdf.{Page}
use study_helper_backend.Pdf.Sections.{
  heading_words, is_title, Group, Open, flush, read_line, read_lines, read_pages, introduction,
  groups,
}

-- The lines of the sections, in order.
abbrev pub held : List Group → List Text
held [] = []
held (g ∷ gs) = g.lines ++ held gs

-- The line where it belongs to the body: not empty and not a title.
abbrev pub body_line : List Text → Text → List Text
body_line headings line =
    if is_empty line then [] else if is_title headings line then [] else line ∷ []

abbrev pub body_lines : List Text → List Text → List Text
body_lines headings [] = []
body_lines headings (line ∷ lines) = body_line headings (strip line) ++ body_lines headings lines

-- The body of the pages: page after page, its lines that belong to it.
abbrev pub body : List Page → List Text
body [] = []
body (p ∷ ps) = body_lines (heading_words p.words) (split (text "\n") p.page_text) ++ body ps

abbrev so_far : Open → List Text
so_far o = held o.closed_sections ++ o.current_lines

held-append : (gs hs : List Group) → held (gs ++ hs) ≡ held gs ++ held hs
held-append [] hs = refl
held-append (g ∷ gs) hs =
    ap (λ ls. g.lines ++ ls) (held-append gs hs) ∙ sym (append_assoc g.lines (held gs) (held hs))

held-flush : (page : ℕ) (o : Open) → held (flush page o) ≡ so_far o
unfolding flush
held-flush page o = elim (Bool-cases (is_empty o.current_lines)) [
  | inl nothing ↦ rw nothing (
      sym (
        ap (λ ls. held o.closed_sections ++ ls) (empty-nil o.current_lines nothing)
        ∙ append-nil (held o.closed_sections)))
  | inr some_lines ↦ rw some_lines (
      held-append o.closed_sections _
      ∙ ap (λ ls. held o.closed_sections ++ ls) (append-nil o.current_lines))
]
  where
    empty-nil : (ls : List Text) → is_empty ls ≡ true → ls ≡ []
    empty-nil [] h = refl
    empty-nil (l ∷ ls) h = absurd (cc h)

so_far-read_line :
    (headings : List Text) (page : ℕ) (line : Text) (o : Open)
    → so_far (read_line headings page line o) ≡ so_far o ++ body_line headings line
unfolding read_line
so_far-read_line headings page line o = elim (Bool-cases (is_empty line)) [
  | inl blank ↦ rw blank (sym (append-nil (so_far o)))
  | inr shown ↦ elim (Bool-cases (is_title headings line)) [
    | inl titled ↦
        rw (shown, titled)
          (append-nil (held (flush page o)) ∙ held-flush page o ∙ sym (append-nil (so_far o)))
    | inr plain ↦
        rw (shown, plain) (sym (append_assoc (held o.closed_sections) o.current_lines (line ∷ [])))
  ]
]

so_far-read_lines :
    (headings : List Text) (page : ℕ) (lines : List Text) (o : Open)
    → so_far (read_lines headings page lines o) ≡ so_far o ++ body_lines headings lines
unfolding read_lines
so_far-read_lines headings page [] o = sym (append-nil (so_far o))
so_far-read_lines headings page (line ∷ lines) o =
    so_far-read_lines headings page lines (read_line headings page (strip line) o)
    ∙ ap (λ ls. ls ++ body_lines headings lines) (so_far-read_line headings page (strip line) o)
    ∙ append_assoc (so_far o) (body_line headings (strip line)) (body_lines headings lines)

so_far-read_pages :
    (number : ℕ) (ps : List Page) (o : Open) → so_far (read_pages number ps o) ≡ so_far o ++ body ps
unfolding read_pages
so_far-read_pages number [] o = sym (append-nil (so_far o))
so_far-read_pages number (p ∷ ps) o =
    let lines = split (text "\n") p.page_text in
    let headings = heading_words p.words in
    so_far-read_pages (number + 1) ps (read_lines headings number lines o)
    ∙ ap (λ ls. ls ++ body ps) (so_far-read_lines headings number lines o)
    ∙ append_assoc (so_far o) (body_lines headings lines) (body ps)

-- The groups hold exactly the lines of the pages that are neither empty nor titles, each once and in
-- the order of the pages.
pub held-groups : (pages : List Page) → held (groups pages) ≡ body pages
unfolding groups
held-groups pages = held-flush (length pages) _ ∙ so_far-read_pages 1 pages introduction
