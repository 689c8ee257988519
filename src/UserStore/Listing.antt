-- ===== src/UserStore/Listing.antt =====
-- `get_sessions`, with the repair of sessions whose content the question bank has.
use study_helper_backend.Prelude.{
  Bool, true, false, ◌&&◌, Option, none, some, List, [], ◌∷◌, filter, order_by, map, leb, is_empty,
  if◌then◌else◌,
}
use study_helper_backend.Text.{Text, text_eq, member}
use study_helper_backend.Outcome.{ok}
use study_helper_backend.UserStore.{RowStatus, pending, ready, failed, SessionRow, UserDb}
use study_helper_backend.UserStore.Query.{Query, ◌>>◌, pool}
use study_helper_backend.QuestionBank.{BankRow, Bank}

-- `ORDER BY created_at DESC`
unfoldable pub user_sessions : Text → UserDb → List SessionRow
user_sessions user db =
    order_by (λ a b. leb b.created_at a.created_at)
      (filter (λ (r : SessionRow). text_eq r.user_id user) db.sessions)

-- The id and the hash of a row that is pending.
abbrev pub waiting : RowStatus → Text → Option Text → Option (Text × Text)
waiting pending id (some hash) = if is_empty hash then none else some (id, hash)
waiting pending id none = none
waiting ready id hash = none
waiting failed id hash = none

-- `zip(pending_ids, pending_hashes)`
unfoldable pub pending_pairs : List SessionRow → List (Text × Text)
pending_pairs [] = []
pending_pairs (r ∷ rs) = elim (waiting r.status r.id r.pdf_hash) [
  | none ↦ pending_pairs rs
  | some p ↦ p ∷ pending_pairs rs
]

-- The hashes that the question bank has: none without a pool, and an exception, which `get_sessions`
-- passes over, where its server does not answer.
unfoldable pub ready_hashes : Bank → List (Text × Text) → List Text
unfolding member
ready_hashes bank pairs =
    if bank.connected && bank.reachable
    then filter (λ h. member h (map (λ (p : Text × Text). p.1) pairs))
        (map (λ (b : BankRow). b.pdf_hash) bank.rows)
    else []

unfoldable pub heal_ids : List Text → List (Text × Text) → List Text
unfolding member
heal_ids hashes [] = []
heal_ids hashes ((id, hash) ∷ pairs) =
    if member hash hashes then id ∷ heal_ids hashes pairs else heal_ids hashes pairs

abbrev pub with_ready : Bool → SessionRow → SessionRow
with_ready true r = record r { status = ready }
with_ready false r = r

-- `UPDATE … SET status = 'ready' WHERE user_id = … AND id = ANY(…)`
unfoldable pub heal : Text → List Text → List SessionRow → List SessionRow
unfolding member
heal user ids rows = map (λ r. with_ready (text_eq r.user_id user && member r.id ids) r) rows

-- The rows of the user, repaired.
unfoldable pub repaired : Bank → Text → Query (List SessionRow)
unfolding user_sessions pending_pairs ready_hashes heal_ids heal member
repaired bank user db =
    let rows = user_sessions user db in
    let pairs = pending_pairs rows in
    let ids = heal_ids (ready_hashes bank pairs) pairs in
    if is_empty ids then (db, ok rows) else (
      record db { sessions = heal user ids db.sessions },
      ok (map (λ (r : SessionRow). with_ready (member r.id ids) r) rows),
    )

unfoldable pub get_sessions : Bank → Text → Query (List SessionRow)
unfolding repaired
get_sessions bank user = do pool; repaired bank user
