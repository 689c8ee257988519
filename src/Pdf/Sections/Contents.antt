-- ===== src/Pdf/Sections/Contents.antt =====
-- What the sections of a document hold of its pages.
use study_helper_backend.Prelude.{
  ℕ, ◌≡◌, ◌≢◌, ◌⊎◌, refl, sym, ap, ◌∙◌, false, List, [], ◌∷◌, ◌++◌, length, is_empty, map, All, inl,
  inr,
}
use study_helper_backend.Text.{Text, text, join}
use study_helper_backend.Runtime.{Runtime}
use study_helper_backend.Pdf.{Page, ParsedSection}
use study_helper_backend.Pdf.Clean.{clean_text}
use study_helper_backend.Pdf.Sections.{
  Group, groups, section_of, whole_document, or_whole, extract_sections,
}
use study_helper_backend.Pdf.Sections.Lines.{held, body, held-groups}
use study_helper_backend.Pdf.Sections.Pages.{Spans, groups-Spans}

-- The text that `_clean_text` makes of each run of lines.
abbrev pub cleaned : Runtime → List (List Text) → List Text
cleaned rt [] = []
cleaned rt (run ∷ runs) = clean_text rt (join (text "\n") run) ∷ cleaned rt runs

abbrev pub contents : List ParsedSection → List Text
contents [] = []
contents (s ∷ secs) = s.content ∷ contents secs

abbrev pub joined : List (List Text) → List Text
joined [] = []
joined (run ∷ runs) = run ++ joined runs

abbrev runs_of : List Group → List (List Text)
runs_of [] = []
runs_of (g ∷ gs) = g.lines ∷ runs_of gs

joined-runs_of : (gs : List Group) → joined (runs_of gs) ≡ held gs
joined-runs_of [] = refl
joined-runs_of (g ∷ gs) = ap (λ ls. g.lines ++ ls) (joined-runs_of gs)

contents-section_of :
    (rt : Runtime) (gs : List Group) → contents (map (section_of rt) gs) ≡ cleaned rt (runs_of gs)
unfolding section_of
contents-section_of rt [] = refl
contents-section_of rt (g ∷ gs) =
    ap (λ ts. clean_text rt (join (text "\n") g.lines) ∷ ts) (contents-section_of rt gs)

-- No run is empty.
abbrev pub Filled : List (List Text) → Type 0
Filled runs = All (λ run. is_empty run ≡ false) runs

runs_of-Filled : (n : ℕ) (gs : List Group) → All (Spans n) gs → Filled (runs_of gs)
runs_of-Filled n [] h = tt
runs_of-Filled n (g ∷ gs) (spans, h) = (spans.0, runs_of-Filled n gs h)

-- The pages have no line that is neither empty nor a title, and then one section with the cleaned
-- text of every page comes back; or the lines that are neither, in the order of the pages, fall into
-- runs, none of them empty, and the sections hold the runs one by one, each run cleaned.
pub extract_sections-contents :
    (rt : Runtime) (pages : List Page)
    → ((body pages ≡ []) × (extract_sections rt pages ≡ whole_document rt pages ∷ []))
      ⊎ ((runs : List (List Text)) × (joined runs ≡ body pages)
          × Filled runs
          × (runs ≢ [])
          × (contents (extract_sections rt pages) ≡ cleaned rt runs))
unfolding extract_sections
extract_sections-contents rt pages = go (groups pages) (held-groups pages) (groups-Spans pages)
  where
    go :
        (gs : List Group)
        → held gs ≡ body pages
        → All (Spans (length pages)) gs
        → ((body pages ≡ []) × (or_whole rt pages gs ≡ whole_document rt pages ∷ []))
          ⊎ ((runs : List (List Text)) × (joined runs ≡ body pages)
              × Filled runs
              × (runs ≢ [])
              × (contents (or_whole rt pages gs) ≡ cleaned rt runs))
    go [] lines spans = inl (sym lines, refl)
    go (g ∷ gs) lines spans = inr (
      runs_of (g ∷ gs),
      joined-runs_of (g ∷ gs) ∙ lines,
      runs_of-Filled (length pages) (g ∷ gs) spans,
      (λ e. cc e),
      contents-section_of rt (g ∷ gs),
    )
