-- ===== src/QuestionBank.antt =====
-- app/services/question_bank.py: contents that were generated, by the hash of their PDF.
pub mod Laws
use study_helper_backend.Prelude.{
  ℕ, ◌+◌, Bool, true, false, not, ◌&&◌, ◌||◌, Option, none, some, List, [], ◌∷◌, ◌++◌, is_empty,
  if◌then◌else◌,
}
use study_helper_backend.Text.{Text, text_eq}

pub record BankRow : Type 0 where
  pub pdf_hash : Text
  pub pdf_name : Text
  pub page_count : ℕ
  pub word_count : ℕ
  pub content_json : Text
  pub hit_count : ℕ

-- Whether there is a pool, whether its server answers, and the table.
pub record Bank : Type 0 where
  pub connected : Bool
  pub reachable : Bool
  pub rows : List BankRow

-- `WHERE pdf_hash = …`: the hash is the primary key.
unfoldable pub find_hash : Text → List BankRow → Option BankRow
find_hash hash [] = none
find_hash hash (r ∷ rs) = if text_eq r.pdf_hash hash then some r else find_hash hash rs

-- `SET hit_count = hit_count + 1`
unfoldable pub count_hit : Text → List BankRow → List BankRow
count_hit hash [] = []
count_hit hash (r ∷ rs) =
    let rest = count_hit hash rs in
    if text_eq r.pdf_hash hash then record r { hit_count = r.hit_count + 1 } ∷ rest else r ∷ rest

-- A statement is made only with a pool, and its failure is logged and passed over.
abbrev pub serves : Bank → Text → Bool
serves bank hash = bank.connected && (not (is_empty hash) && bank.reachable)

unfoldable pub get_cached : Text → Bank → Bank × Option Text
unfolding find_hash count_hit
get_cached hash bank =
    if serves bank hash
    then elim (find_hash hash bank.rows) [
      | none ↦ (bank, none)
      | some r ↦ (record bank { rows = count_hit hash bank.rows }, some r.content_json)
    ]
    else (bank, none)

-- `INSERT … ON CONFLICT (pdf_hash) DO NOTHING`
unfoldable pub insert_new : BankRow → List BankRow → List BankRow
unfolding find_hash
insert_new r rows = elim (find_hash r.pdf_hash rows) [ none ↦ rows ++ r ∷ [] | some _ ↦ rows ]

unfoldable pub save_to_bank : BankRow → Bank → Bank
unfolding insert_new
save_to_bank r bank =
    if serves bank r.pdf_hash then record bank { rows = insert_new r bank.rows } else bank
