-- ===== src/QuestionBank/Laws.antt =====
-- The question bank as a cache: the first content that is saved for a hash is the one it gives.
use study_helper_backend.Prelude.{
  ◌+◌, ◌≡◌, refl, ◌&&◌, Option, none, some, List, [], ◌∷◌, ◌++◌, arith, if◌then◌else◌,
}
use study_helper_backend.Text.{Text, text_eq}
use study_helper_backend.Text.Laws.{text_eq_iff}
use study_helper_backend.QuestionBank.{
  BankRow, Bank, find_hash, count_hit, serves, get_cached, insert_new, save_to_bank,
}

abbrev hit : Option BankRow → Option BankRow
hit none = none
hit (some r) = some (record r { hit_count = r.hit_count + 1 })

find_hash-count_hit :
    (hash j : Text) (rows : List BankRow)
    → find_hash j (count_hit hash rows)
      ≡ (if text_eq hash j then hit (find_hash j rows) else find_hash j rows)
unfolding find_hash count_hit
find_hash-count_hit hash j [] = ground arith
find_hash-count_hit hash j (r ∷ rs) = ground (
  arith,
  find_hash-count_hit hash j rs,
  text_eq_iff r.pdf_hash hash,
  text_eq_iff r.pdf_hash j,
  text_eq_iff hash j,
)

find_hash-append :
    (j : Text) (rows : List BankRow) (r : BankRow)
    → find_hash j (rows ++ r ∷ []) ≡ (elim (find_hash j rows) as (λ _. Option BankRow) [
      | none ↦ if text_eq r.pdf_hash j then some r else none
      | some q ↦ some q
    ])
unfolding find_hash
find_hash-append j [] r = refl
find_hash-append j (q ∷ rows) r = ground (arith, find_hash-append j rows r)

abbrev content : Option BankRow → Option Text
content none = none
content (some r) = some r.content_json

get_cached-content :
    (j : Text) (bank : Bank)
    → (get_cached j bank).1 ≡ (if serves bank j then content (find_hash j bank.rows) else none)
unfolding get_cached
get_cached-content j bank = ground arith

find_hash-insert_new :
    (j : Text) (r : BankRow) (rows : List BankRow)
    → find_hash j (insert_new r rows) ≡ (elim (find_hash j rows) as (λ _. Option BankRow) [
      | none ↦ if text_eq r.pdf_hash j then some r else none
      | some q ↦ some q
    ])
unfolding insert_new
find_hash-insert_new j r rows = ground (arith, find_hash-append j rows r, text_eq_iff r.pdf_hash j)

-- A read counts a hit and changes no content: every later read gives what it gave before.
pub get_cached_stable :
    (hash j : Text) (bank : Bank)
    → (get_cached j (get_cached hash bank).0).1 ≡ (get_cached j bank).1
unfolding get_cached
get_cached_stable hash j bank = ground (arith, find_hash-count_hit hash j bank.rows)

-- After a save, a read of any hash gives what it gave before, and where it gave nothing, the content
-- that was saved, if it is the hash of that and there is a database to save it in. So the first
-- content that is saved for a hash stays.
pub get_cached-save_to_bank :
    (r : BankRow) (j : Text) (bank : Bank)
    → (get_cached j (save_to_bank r bank)).1 ≡ (elim (get_cached j bank).1 as (λ _. Option Text) [
      | none ↦ if serves bank r.pdf_hash && text_eq r.pdf_hash j then some r.content_json else none
      | some c ↦ some c
    ])
unfolding save_to_bank get_cached
get_cached-save_to_bank r j bank =
    ground (arith, find_hash-insert_new j r bank.rows, text_eq_iff r.pdf_hash j)
