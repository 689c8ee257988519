-- ===== src/Sessions.antt =====
-- app/services/session_store.py: the records of sessions, and `SessionStore` on its in-process dict.
pub mod Laws
use study_helper_backend.Prelude.{
  ℕ, Bool, true, false, Option, none, some, List, [], ◌∷◌, if◌then◌else◌,
}
use study_helper_backend.Text.{Text, text, text_eq}

pub data Status : Type 0 where
  uploaded processing complete failed : Status

pub record SessionRecord : Type 0 where
  pub session_id : Text
  pub pdf_name : Text
  pub page_count : ℕ
  pub word_count : ℕ
  pub s3_key : Text
  pub pdf_hash : Text
  pub user_id : Option Text
  pub status : Status
  pub progress_pct : ℕ
  pub error_message : Option Text
  pub result_json : Option Text

-- `_local_store`. A write in place keeps the place of the key, and a new key goes to the end.
abbrev pub Store : Type 0
Store = List (Text × SessionRecord)

-- `get`
unfoldable pub get : Store → Text → Option SessionRecord
get [] id = none
get ((k, r) ∷ store) id = if text_eq k id then some r else get store id

unfoldable pub put : Store → Text → SessionRecord → Store
put [] id r = (id, r) ∷ []
put ((k, r') ∷ store) id r = if text_eq k id then (k, r) ∷ store else (k, r') ∷ put store id r

-- `save`
unfoldable pub save : SessionRecord → Store → Store
unfolding put
save r store = put store r.session_id r

unfoldable pub without : Store → Text → Store
without [] id = []
without ((k, r) ∷ store) id =
    let rest = without store id in if text_eq k id then rest else (k, r) ∷ rest

-- `delete`
unfoldable pub delete : Text → Store → Store × Bool
unfolding get without
delete id store = elim (get store id) [ none ↦ (store, false) | some _ ↦ (without store id, true) ]

-- A keyword argument that is None leaves the field as it is.
abbrev pub or_keep : Option Text → Option Text → Option Text
or_keep none old = old
or_keep (some t) old = some t

-- The arguments of `update_status`.
pub record Update : Type 0 where
  pub status : Status
  pub progress_pct : ℕ
  pub error_message : Option Text
  pub result_json : Option Text

unfoldable pub apply : Update → SessionRecord → SessionRecord
apply u r = record r {
  status = u.status;
  progress_pct = u.progress_pct;
  error_message = or_keep u.error_message r.error_message;
  result_json = or_keep u.result_json r.result_json;
}

-- `update_status`: an unknown session is only logged.
unfoldable pub update_status : Text → Update → Store → Store
unfolding get apply save
update_status id u store = elim (get store id) [ none ↦ store | some r ↦ save (apply u r) store ]

abbrev pub progress : ℕ → Update
progress pct = record {
  status = processing;
  progress_pct = pct;
  error_message = none;
  result_json = none;
}
