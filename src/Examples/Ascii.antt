-- ===== src/Examples/Ascii.antt =====
-- A runtime whose tables are those of ASCII, and the values that the examples parse.
use Prim.Native.String.{String}
use study_helper_backend.Prelude.{
  ℕ, ◌+◌, true, false, ◌&&◌, ◌||◌, [], ◌∷◌, Option, none, some, map, leb, arith, if◌then◌else◌,
}
use study_helper_backend.Text.{Text, text, text_eq, member}
use study_helper_backend.Text.Laws.{text_eq_refl}
use study_helper_backend.Json.{Value, str, list, dict, Fields, end, field, from_list}
use study_helper_backend.Runtime.{Runtime, IsSound}
use study_helper_backend.Runtime.Number.{decimal}

abbrev lower_letter : ℕ → ℕ
lower_letter c = elim (leb 65 c && leb c 90) [ true ↦ c + 32 | false ↦ c ]

abbrev pub ascii : (Text → Option Value) → Runtime
ascii loads = record {
  lower = map lower_letter;
  upper = λ s. s;
  is_word = λ c. leb 48 c && leb c 57 || (leb 65 c && leb c 90 || leb 97 c && leb c 122);
  digit = λ c. none;
  render = λ v. [];
  loads = loads;
  dumps = λ v. [];
  dumps_indented = λ v. [];
  uuid4 = λ n. decimal n;
  first = λ x xs. x;
}

pub ascii-IsSound : (loads : Text → Option Value) → IsSound (ascii loads)
unfolding member
ascii-IsSound loads = record { first_member = λ x xs. ground (arith, text_eq_refl x) }

abbrev pub entry : String → Value → Fields → Fields
entry key v fs = field (text key) v fs

abbrev pub literal : String → Value
literal s = str (text s)

-- A question of four options.
abbrev pub question : String → String → Value
question asked concept = dict (
    entry "question" (literal asked) (
      entry "options"
        (dict (
          entry "A" (literal "one") (
            entry "B" (literal "two")
              (entry "C" (literal "three") (entry "D" (literal "four") end)))))
        (entry "correct_answer" (literal "B") (
          entry "explanation" (literal "As defined.")
            (entry "difficulty" (literal "hard") (entry "concept_id" (literal concept) end))))))

-- The second question is the first, but for one word.
abbrev pub mcq_fields : Fields
mcq_fields =
    entry "questions"
      (list (
        from_list (
          question "Which layer routes packets" "c1"
          ∷ question "Which layer routes packets now" "c1"
          ∷ question "What encrypts traffic" "zz"
          ∷ [])))
      end

abbrev pub mcq_answer : Value
mcq_answer = dict mcq_fields

abbrev pub fill_answer : Value
fill_answer = dict (
    entry "questions"
      (list (
        from_list (
          dict (
            entry "sentence_with_blank" (literal "A ___ routes ___ packets.")
              (entry "answer" (literal "router") (entry "level" (literal "9") end)))
          ∷ [])))
      end)

abbrev pub notes_fields : Fields
notes_fields =
    entry "key_concepts"
      (list
        (from_list (dict (entry "id" (literal "c1") (entry "term" (literal "Routing") end)) ∷ [])))
      end

-- The texts that the examples read are single words.
abbrev pub loads : Text → Option Value
loads t =
    if text_eq t (text "mcq")
    then some mcq_answer
    else if text_eq t (text "fill")
    then some fill_answer
    else if text_eq t (text "notes")
    then some (dict notes_fields)
    else if text_eq t (text "document")
    then some (dict (entry "full_text" (literal "Packets are routed.") end))
    else none
