-- ===== src/Examples/Stores.antt =====
-- The stores, with two sessions, a row of each and one content.
use study_helper_backend.Prelude.{
  ◌≡◌, refl, ◌&&◌, true, [], ◌∷◌, Option, none, some, arith, if◌then◌else◌,
}
use study_helper_backend.Text.{Text, text, text_eq}
use study_helper_backend.Text.Laws.{text_eq_iff}
use study_helper_backend.Outcome.{ok}
use study_helper_backend.Sessions.{SessionRecord, Store, uploaded, get}
use study_helper_backend.Sessions.Laws.{IsKeyed}
use study_helper_backend.UserStore.{
  require_pool, is_row, set_status, pending, ready, SessionRow, UserDb, update_session_status,
}
use study_helper_backend.QuestionBank.{BankRow, Bank, serves, get_cached, save_to_bank}
use study_helper_backend.QuestionBank.Laws.{get_cached-save_to_bank}

abbrev pub session : SessionRecord
session = record {
  session_id = text "s1";
  pdf_name = text "a.pdf";
  page_count = 3;
  word_count = 300;
  s3_key = [];
  pdf_hash = text "h1";
  user_id = some (text "u1");
  status = uploaded;
  progress_pct = 0;
  error_message = none;
  result_json = some (text "document");
}

abbrev pub store : Store
store = (text "s1", session) ∷ []

pub store-IsKeyed : IsKeyed store
unfolding get
store-IsKeyed = record { own_id = λ id r found. ground (arith, text_eq_iff (text "s1") id) }

abbrev pub user_row : SessionRow
user_row = record {
  id = text "s1";
  user_id = text "u1";
  pdf_name = text "a.pdf";
  pdf_hash = some (text "h1");
  subject_id = none;
  page_count = 3;
  word_count = 300;
  status = pending;
  created_at = 0;
  last_accessed = none;
}

abbrev pub users : UserDb
users = record {
  connected = true;
  reachable = true;
  subjects = [];
  sessions = user_row ∷ [];
  reviews = [];
  inserted = 1;
}

row_updated : (update_session_status (text "u1") (text "s1") ready users).1 ≡ ok true
unfolding text_eq is_row set_status require_pool text update_session_status
row_updated = refl

abbrev pub bank_row : BankRow
bank_row = record {
  pdf_hash = text "h2";
  pdf_name = text "b.pdf";
  page_count = 1;
  word_count = 100;
  content_json = text "content";
  hit_count = 0;
}

abbrev pub bank : Bank
bank = record { connected = true; reachable = true; rows = bank_row ∷ [] }

abbrev second_content : BankRow
second_content = record bank_row { content_json = text "other" }

get_cached-save_to_bank_example :
    (get_cached (text "h2") (save_to_bank second_content bank)).1
    ≡ (elim (get_cached (text "h2") bank).1 as (λ _. Option Text) [
      | none ↦
          if serves bank second_content.pdf_hash && text_eq second_content.pdf_hash (text "h2")
          then some second_content.content_json
          else none
      | some c ↦ some c
    ])
get_cached-save_to_bank_example = get_cached-save_to_bank second_content (text "h2") bank
