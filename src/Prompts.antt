-- ===== src/Prompts.antt =====
-- app/services/prompt_builder.py: the prompts of the three stages, and the numbers of questions.
pub mod Laws
use study_helper_backend.Prelude.{ℕ, ◌*◌, List, [], ◌∷◌, ◌++◌, min, max, Option, none, some}
use study_helper_backend.Text.{Text, text, join}
use study_helper_backend.Outcome.{Result, ok, err, ◌>>=◌, crash, type_error, key_error}
use study_helper_backend.Json.{
  Value, null, bool, int, float, str, list, dict, Fields, end, field, get, get_or, to_list,
  from_list,
}
use study_helper_backend.Runtime.{Runtime}
use study_helper_backend.Runtime.Number.{decimal}

pub data Lang : Type 0 where
  ko en : Lang

-- The lines of a literal.
lines : List Text → Text
unfolding join text
lines = join (text "\n")

-- `_LANG_INSTRUCTION`
lang_note : Lang → Text
unfolding text
lang_note ko =
    text
      "모든 출력(term, definition, question, explanation, hint 등)은 반드시 한국어로 작성하세요. JSON 키 이름은 영어 그대로 유지하세요."
lang_note en =
    text "Write all output fields (term, definition, question, explanation, hint, etc.) in English."

abbrev pub notes_system : Text
notes_system =
    text
      "You are an expert study coach creating structured learning materials. Your output must be valid JSON only — no markdown fences, no extra text. Base everything strictly on the provided document. Do NOT invent or hallucinate concepts."

abbrev pub mcq_system : Text
mcq_system =
    text
      "You are an expert educational assessment designer specializing in rigorous exam questions. Your output must be valid JSON only — no markdown fences, no extra text. Every question must genuinely test understanding, not mere recall. Distractors must be plausible and require careful reasoning to eliminate."

abbrev pub fill_system : Text
fill_system =
    text
      "You are an expert at creating fill-in-the-blank study exercises. Your output must be valid JSON only — no markdown fences, no extra text. Blanks must target key terms from the document, not filler words."

mcq_level_guide : Text
unfolding lines text
mcq_level_guide = lines (
    text "LEVEL DEFINITIONS (assign level 1–5 to each question):"
    ∷ text "  Level 1 — Basic recall: reproduce a term, name, or isolated fact verbatim."
    ∷ text "  Level 2 — Comprehension: explain or paraphrase a concept in your own words."
    ∷ text
        "  Level 3 — Application (minimum exam level): apply a concept to a concrete scenario; simple inference."
    ∷ text
        "  Level 4 — Analysis (standard exam): compare/contrast multiple concepts, identify causes, evaluate trade-offs."
    ∷ text
        "  Level 5 — Synthesis/Critical (hard exam): design solutions, expose edge cases, integrate multiple concepts, argue for/against."
    ∷ text ""
    ∷ text "DISTRIBUTION: ~8% level-1, ~12% level-2, ~20% level-3, ~35% level-4, ~25% level-5"
    ∷ text "(Round to nearest whole question. Most questions should be level 4–5.)"
    ∷ text ""
    ∷ text "QUESTION TYPE:"
    ∷ text "  \"concept\"     — tests theoretical knowledge: definitions, principles, mechanisms."
    ∷ text
        "  \"application\" — tests practical use: problem-solving, calculation, scenario analysis."
    ∷ [])

fill_level_guide : Text
unfolding lines text
fill_level_guide = lines (
    text "LEVEL DEFINITIONS (assign level 1–5 to each question):"
    ∷ text "  Level 1 — Recall a single term or label directly stated in the document."
    ∷ text "  Level 2 — Complete a definition or explanatory phrase."
    ∷ text "  Level 3 — Fill a term that requires understanding the surrounding context."
    ∷ text "  Level 4 — Fill a technical term embedded in a comparative or analytical sentence."
    ∷ text "  Level 5 — Fill a term in a complex sentence requiring synthesis of multiple concepts."
    ∷ text ""
    ∷ text "DISTRIBUTION: ~10% level-1, ~15% level-2, ~25% level-3, ~35% level-4, ~15% level-5"
    ∷ text ""
    ∷ text "QUESTION TYPE:"
    ∷ text "  \"concept\"     — the blank is a theoretical term or principle."
    ∷ text "  \"application\" — the blank is a result, method, or outcome in a practical context."
    ∷ [])

-- What `build_notes_prompt` puts into the user prompt.
unfoldable pub notes_text : Text → Lang → Text
unfolding lines lang_note text
notes_text document lang =
    (lang_note lang)
    ++ ((lines (
          text ""
          ∷ text ""
          ∷ text "Generate structured study notes from the document below."
          ∷ text ""
          ∷ text "OUTPUT FORMAT (JSON only):"
          ∷ text "{"
          ∷ text "  \"key_concepts\": ["
          ∷ text
              "    {\"id\": \"<uuid>\", \"term\": \"<term>\", \"definition\": \"<precise def>\", \"importance\": \"high|medium|low\"}"
          ∷ text "  ],"
          ∷ text "  \"sections\": ["
          ∷ text
              "    {\"title\": \"<title>\", \"summary\": \"<2-3 sentence summary>\", \"bullets\": [\"<bullet>\", ...]}"
          ∷ text "  ],"
          ∷ text "  \"glossary\": ["
          ∷ text "    {\"term\": \"<term>\", \"brief_def\": \"<one-line definition>\"}"
          ∷ text "  ]"
          ∷ text "}"
          ∷ text ""
          ∷ text "RULES:"
          ∷ text "- importance \"high\" only for concepts that recur or are definitionally central"
          ∷ text "- definitions must be precise, not vague paraphrases"
          ∷ text "- bullets should be complete, standalone statements"
          ∷ text
              "- include 5-15 key_concepts, 1 section per document section, 5-20 glossary entries"
          ∷ text ""
          ∷ text "DOCUMENT:"
          ∷ text ""
          ∷ []))
        ++ ((document) ++ (lines (text "" ∷ text "" ∷ []))))

-- The system prompt and the user prompt.
unfoldable pub build_notes_prompt : Text → Lang → Text × Text
unfolding notes_text
build_notes_prompt document lang = (notes_system, notes_text document lang)

-- `c["id"]`, on a value of any type.
abbrev item : Value → Text → Result Value
item (dict fs) key = elim (get fs key) [ none ↦ err (crash key_error) | some v ↦ ok v ]
item _ key = err (crash type_error)

abbrev listed : Value → Value → Value
listed id term = dict (field (text "id") id (field (text "term") term end))

-- `[{"id": c["id"], "term": c["term"]} for c in values]`
unfoldable pub list_concepts : List Value → Result (List Value)
unfolding get text
list_concepts [] = ok []
list_concepts (c ∷ cs) = do
  id ← item c (text "id")
  term ← item c (text "term")
  rest ← list_concepts cs
  ok (listed id term ∷ rest)

-- What the comprehension goes over. An item of a dict or of a string is a string, which has no "id".
abbrev pub concept_items : Value → Result (List Value)
concept_items (list vs) = ok (to_list vs)
concept_items (dict end) = ok []
concept_items (str []) = ok []
concept_items _ = err (crash type_error)

unfoldable pub concepts_of : Fields → Result (List Value)
unfolding list_concepts get_or text
concepts_of notes = do
  values ← concept_items (get_or notes (text "key_concepts") (list (from_list [])))
  list_concepts values

module _ (rt : Runtime) where
  mcq_text : Text → Fields → Text → ℕ → Lang → Text
  unfolding lines lang_note mcq_level_guide decimal text
  mcq_text document notes concept_list count lang =
      (lang_note lang)
      ++ ((lines (text "" ∷ text "" ∷ text "Generate exactly " ∷ []))
          ++ ((decimal count)
              ++ ((lines (
                    text " multiple-choice questions based on the document and study notes."
                    ∷ text ""
                    ∷ text "AVAILABLE CONCEPT IDs (use these for concept_id field):"
                    ∷ text ""
                    ∷ []))
                  ++ ((concept_list)
                      ++ ((lines (text "" ∷ text "" ∷ text "" ∷ []))
                          ++ ((mcq_level_guide)
                              ++ ((lines (
                                    text ""
                                    ∷ text ""
                                    ∷ text "OUTPUT FORMAT (JSON only):"
                                    ∷ text "{"
                                    ∷ text "  \"questions\": ["
                                    ∷ text "    {"
                                    ∷ text "      \"id\": \"<uuid>\","
                                    ∷ text "      \"question\": \"<question ending with ?>\","
                                    ∷ text
                                        "      \"options\": {\"A\": \"<option>\", \"B\": \"<option>\", \"C\": \"<option>\", \"D\": \"<option>\"},"
                                    ∷ text "      \"correct_answer\": \"A|B|C|D\","
                                    ∷ text
                                        "      \"explanation\": \"<why the correct answer is right, referencing the document>\","
                                    ∷ text
                                        "      \"concept_id\": \"<one of the concept IDs above>\","
                                    ∷ text "      \"level\": 1|2|3|4|5,"
                                    ∷ text "      \"question_type\": \"concept|application\""
                                    ∷ text "    }"
                                    ∷ text "  ]"
                                    ∷ text "}"
                                    ∷ text ""
                                    ∷ text "RULES:"
                                    ∷ text
                                        "- Each option must be distinct — no duplicate option text"
                                    ∷ text
                                        "- Explanation must reference specific content from the document"
                                    ∷ text
                                        "- Every question MUST have a concept_id from the list above"
                                    ∷ text
                                        "- Aim for the level distribution above; do NOT cluster everything at level 3"
                                    ∷ text ""
                                    ∷ text "STUDY NOTES (for context):"
                                    ∷ text ""
                                    ∷ []))
                                  ++ ((rt.dumps_indented (dict notes))
                                      ++ ((lines
                                            (text "" ∷ text "" ∷ text "DOCUMENT:" ∷ text "" ∷ []))
                                          ++ ((document)
                                              ++ (lines (text "" ∷ text "" ∷ []))))))))))))

  unfoldable pub build_mcq_prompt : Text → Fields → ℕ → Lang → Result (Text × Text)
  unfolding mcq_text concepts_of
  build_mcq_prompt document notes count lang = do
    concepts ← concepts_of notes
    ok (mcq_system, mcq_text document notes (rt.dumps (list (from_list concepts))) count lang)

  fill_text : Text → Fields → Text → ℕ → Lang → Text
  unfolding lines lang_note fill_level_guide decimal text
  fill_text document notes concept_list count lang =
      (lang_note lang)
      ++ ((lines (text "" ∷ text "" ∷ text "Generate exactly " ∷ []))
          ++ ((decimal count)
              ++ ((lines (
                    text " fill-in-the-blank questions from the document."
                    ∷ text ""
                    ∷ text "AVAILABLE CONCEPT IDs:"
                    ∷ text ""
                    ∷ []))
                  ++ ((concept_list)
                      ++ ((lines (text "" ∷ text "" ∷ text "" ∷ []))
                          ++ ((fill_level_guide)
                              ++ ((lines (
                                    text ""
                                    ∷ text ""
                                    ∷ text "OUTPUT FORMAT (JSON only):"
                                    ∷ text "{"
                                    ∷ text "  \"questions\": ["
                                    ∷ text "    {"
                                    ∷ text "      \"id\": \"<uuid>\","
                                    ∷ text
                                        "      \"sentence_with_blank\": \"<full sentence with ___ for the blank>\","
                                    ∷ text "      \"answer\": \"<exact word or phrase>\","
                                    ∷ text
                                        "      \"acceptable_variants\": [\"<synonym or alternate phrasing>\"],"
                                    ∷ text
                                        "      \"hint\": \"<brief hint that doesn't give away the answer>\","
                                    ∷ text "      \"concept_id\": \"<concept ID from list above>\","
                                    ∷ text "      \"level\": 1|2|3|4|5,"
                                    ∷ text "      \"question_type\": \"concept|application\""
                                    ∷ text "    }"
                                    ∷ text "  ]"
                                    ∷ text "}"
                                    ∷ text ""
                                    ∷ text "RULES:"
                                    ∷ text "- Use exactly one ___ per sentence"
                                    ∷ text
                                        "- Blanks must be key terms (nouns, verbs, technical terms) — never articles or prepositions"
                                    ∷ text "- The answer must appear verbatim in the document"
                                    ∷ text
                                        "- acceptable_variants should include common synonyms that are also correct"
                                    ∷ text
                                        "- hint should be a category or definition clue, not the answer itself"
                                    ∷ text ""
                                    ∷ text "STUDY NOTES (for context):"
                                    ∷ text ""
                                    ∷ []))
                                  ++ ((rt.dumps_indented (dict notes))
                                      ++ ((lines
                                            (text "" ∷ text "" ∷ text "DOCUMENT:" ∷ text "" ∷ []))
                                          ++ ((document)
                                              ++ (lines (text "" ∷ text "" ∷ []))))))))))))

  unfoldable pub build_fill_prompt : Text → Fields → ℕ → Lang → Result (Text × Text)
  unfolding fill_text concepts_of
  build_fill_prompt document notes count lang = do
    concepts ← concepts_of notes
    ok (fill_system, fill_text document notes (rt.dumps (list (from_list concepts))) count lang)

-- The numbers of multiple-choice and of fill-in questions for a number of sections.
unfoldable pub calculate_question_counts : ℕ → ℕ × ℕ
calculate_question_counts sections = (max 10 (min 20 (sections * 3)), max 6 (min 15 (sections * 2)))
