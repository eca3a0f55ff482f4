-- ===== src/TaskRepository.antt =====
-- internal/repository/task_repository.go: the operations on `upload_tasks`, over the database `S`.
-- An operation returns its result and the database that it leaves. `time.Now()` is the argument
-- `now`. The theorems are in the modules below.
pub mod Rows
pub mod Answers
pub mod Operation
pub mod RowStep
pub mod Moves
pub mod Refines
pub mod Redirections
pub mod Transitions
pub mod WellFormed
pub mod Exclusive
pub mod Written
pub mod Claims
pub mod Finishing
pub mod Deleting
pub mod Retrying
use rclone_sync_hub_go_backe.Prelude.{
  ℕ, zero, suc, ◌+◌, Text, codes, Bool, true, false, ltb, leb, ◌==◌, ◌&&◌, ◌||◌, is_some, Option,
  none, some, List, [], ◌∷◌, length, text_eq, map, if◌then◌else◌, not,
}
use rclone_sync_hub_go_backe.Model.{
  UploadTask, FileRecord, Status, pending, running, success, failed, paused, canceled, is,
}
use rclone_sync_hub_go_backe.Database.Statement.{Sql, Err, Result, ok, err, not_found, conflict}
use rclone_sync_hub_go_backe.Database.Transaction.{
  Tx, ◌>>=◌, ◌>>◌, pure, leave, write, read, transact, single,
}
pub use Answers.{required, touched, error_of}
use Rows.{
  queued_cancellation, cancel_queued, abandoned_cancellation, cancel_abandoned, exhausted,
  fail_exhausted, claimable, claim_order, claim, by_id, leased, leased_not_canceling,
  leased_canceling, renew, report, succeed, cancel_leased, after_failure, settle_failure, release,
  request_cancel_row, resettable, reset, pausable, pause, deletable,
}

abbrev pub effective_attempts : ℕ → ℕ
effective_attempts max_attempts = if leb max_attempts 0 then 1 else max_attempts

-- The rows that an update of FinishSuccess marks as uploaded.
abbrev pub uploaded_version : ℕ → Text → Text → Text → FileRecord → Bool
uploaded_version file_record_id fingerprint remote_name remote_path f =
    f.id == file_record_id
    && (text_eq fingerprint [] || text_eq f.fingerprint fingerprint)
    && (text_eq f.remote_name remote_name && text_eq f.remote_path remote_path)

abbrev pub mark_uploaded : ℕ → FileRecord → FileRecord
mark_uploaded finished_at f = record f { uploaded_at = some finished_at }

abbrev pub Claimed : Type 0
Claimed = UploadTask × Option FileRecord

abbrev pub release_message : Text
release_message = codes "task canceled while worker lease was being released"

-- DeleteMany: the map `failed`, and the passes over the requested ids and the rows found.
abbrev pub Rejections : Type 0
Rejections = List (ℕ × Err)

abbrev pub put : ℕ → Err → Rejections → Rejections
put id e [] = (id, e) ∷ []
put id e ((j, d) ∷ m) = if j == id then (id, e) ∷ m else (j, d) ∷ put id e m

abbrev pub remove : ℕ → Rejections → Rejections
remove id [] = []
remove id ((j, d) ∷ m) = let rest = remove id m in if j == id then rest else (j, d) ∷ rest

-- `failed[id]`
abbrev pub rejection : ℕ → Rejections → Option Err
rejection id [] = none
rejection id ((j, e) ∷ m) = if j == id then some e else rejection id m

unfoldable pub all_missing : List ℕ → Rejections
all_missing [] = []
all_missing (id ∷ ids) = put id not_found (all_missing ids)

unfoldable pub reject_running : Rejections → List UploadTask → Rejections
reject_running m [] = m
reject_running m (t ∷ ts) =
    reject_running (if is t.status running then put t.id conflict m else remove t.id m) ts

unfoldable pub deletable_ids : List UploadTask → List ℕ
deletable_ids [] = []
deletable_ids (t ∷ ts) =
    let rest = deletable_ids ts in if is t.status running then rest else t.id ∷ rest

abbrev pub in_ids : List ℕ → UploadTask → Bool
in_ids [] t = false
in_ids (id ∷ ids) t = t.id == id || in_ids ids t

module _ (S : Sql) where
  open S use {
    Db, begin, commit, updates, update_files, delete, create, first, find, first_unlocked, preload,
  }

  -- The reload after the claim, by `Preload("FileRecord").First`.
  abbrev pub reload : ℕ → Tx Db (Option Claimed) (Option Claimed)
  reload id = do
    found ← read (first (by_id id))
    t ← read (λ _. required found)
    f ← read (preload t)
    pure (some (t, f))

  -- `gorm.ErrRecordNotFound` rolls back, with neither a task nor an error.
  unfoldable pub take_claim :
      ℕ → Text → ℕ → Option UploadTask → Tx Db (Option Claimed) (Option Claimed)
  take_claim now owner lease_expires_at none = leave (ok none)
  take_claim now owner lease_expires_at (some t) = do
    write (updates (by_id t.id) (claim now owner lease_expires_at))
    reload t.id

  unfoldable pub claim_body : ℕ → Text → ℕ → ℕ → Tx Db (Option Claimed) (Option Claimed)
  claim_body now owner lease_duration max_attempts = do
    write (updates queued_cancellation (cancel_queued now))
    write (updates (abandoned_cancellation now) (cancel_abandoned now))
    write (updates (exhausted now max_attempts) (fail_exhausted now))
    found ← read (first_unlocked (claimable now max_attempts) claim_order)
    take_claim now owner (now + lease_duration) found

  unfoldable pub claim_next : ℕ → Text → ℕ → ℕ → Db → Result (Option Claimed) × Db
  claim_next now owner lease_duration max_attempts =
      transact begin commit (claim_body now owner lease_duration (effective_attempts max_attempts))

  unfoldable pub renew_lease : ℕ → ℕ → Text → ℕ → Db → Result Bool × Db
  renew_lease now id owner lease_duration db =
      touched (single (updates (leased_not_canceling id owner) (renew now lease_duration)) db)

  unfoldable pub update_progress : ℕ → Text → ℕ → ℕ → ℕ → Db → Result (Unit {0}) × Db
  update_progress id owner percent speed at db =
      error_of (single (updates (leased id owner) (report percent speed at)) db)

  -- The file record is marked in the transaction of the transition, or neither is.
  unfoldable pub mark_file : Text → ℕ → Text → Text → ℕ → ℕ → Tx Db (Bool × Bool) (Bool × Bool)
  mark_file fingerprint file_record_id remote_name remote_path finished_at zero =
      leave (ok (false, false))
  mark_file fingerprint file_record_id remote_name remote_path finished_at (suc n) = do
    marked ← write (
        update_files (uploaded_version file_record_id fingerprint remote_name remote_path)
          (mark_uploaded finished_at))
    pure (true, ltb 0 marked)

  unfoldable pub finish_success :
      ℕ → Text → ℕ → Text → Text → Text → ℕ → ℕ → Db → Result (Bool × Bool) × Db
  finish_success id owner file_record_id fingerprint remote_name remote_path finished_at seconds =
      transact begin commit do
        affected ← write (updates (leased_not_canceling id owner) (succeed finished_at seconds))
        mark_file fingerprint file_record_id remote_name remote_path finished_at affected

  unfoldable pub finish_canceled : ℕ → Text → ℕ → Text → Db → Result Bool × Db
  finish_canceled id owner finished_at message db =
      touched (single (updates (leased id owner) (cancel_leased finished_at message)) db)

  unfoldable pub fail_or_retry : ℕ → ℕ → Text → Text → ℕ → ℕ → Db → Result Status × Db
  fail_or_retry now id owner message next_retry_at max_attempts = transact begin commit do
    found ← read (first (leased id owner))
    t ← read (λ _. required found)
    write (
        updates (by_id id)
          (settle_failure now message next_retry_at (after_failure max_attempts t)))
    pure (after_failure max_attempts t)

  -- The second update runs if the first met no row; there is no transaction around the two.
  unfoldable pub release_uncanceled : ℕ → Text → Result ℕ × Db → Result ℕ × Db
  release_uncanceled id owner (err e, db) = (err e, db)
  release_uncanceled id owner (ok zero, db) =
      single (updates (leased_not_canceling id owner) release) db
  release_uncanceled id owner (ok (suc n), db) = (ok (suc n), db)

  unfoldable pub release_lease : ℕ → ℕ → Text → Db → Result (Unit {0}) × Db
  unfolding release_uncanceled
  release_lease now id owner db = error_of (
      release_uncanceled id owner
        (single (updates (leased_canceling id owner) (cancel_leased now release_message)) db))

  unfoldable pub is_cancellation_requested : ℕ → Db → Result Bool
  is_cancellation_requested id db = elim (first (by_id id) db) [
    | err e ↦ err e
    | ok none ↦ err not_found
    | ok (some t) ↦ ok (is t.status canceled || is_some t.cancel_requested_at)
  ]

  unfoldable pub mark_canceling : ℕ → ℕ → UploadTask → Tx Db Status Status
  mark_canceling id at t =
      if is t.status success || is t.status canceled then leave (ok t.status) else (do
        write (updates (by_id id) (request_cancel_row at t.status))
        pure (if is t.status running then running else canceled))

  unfoldable pub request_cancel : ℕ → ℕ → Db → Result Status × Db
  request_cancel id at =
      transact begin commit
        do found ← read (first (by_id id)); t ← read (λ _. required found); mark_canceling id at t

  unfoldable pub reset_for_retry : ℕ → ℕ → Db → Result Bool × Db
  reset_for_retry id at db = touched (single (updates (resettable id) (reset at)) db)

  unfoldable pub pause_if_not_running : ℕ → ℕ → Db → Result Bool × Db
  pause_if_not_running id at db = touched (single (updates (pausable id) (pause at)) db)

  -- Where no row was deleted, a second query tells a missing task from a running one.
  unfoldable pub verify_delete : ℕ → Result ℕ × Db → Result ℕ × Db
  verify_delete id (err e, db) = (err e, db)
  verify_delete id (ok (suc n), db) = (ok (suc n), db)
  verify_delete id (ok zero, db) = elim (first (by_id id) db) [
    | err e ↦ (err e, db)
    | ok none ↦ (err not_found, db)
    | ok (some t) ↦ (err conflict, db)
  ]

  unfoldable pub delete_task : ℕ → Db → Result (Unit {0}) × Db
  unfolding verify_delete
  delete_task id db = error_of (verify_delete id (single (delete (deletable id)) db))

  unfoldable pub delete_listed : Rejections → List ℕ → Tx Db Rejections Rejections
  delete_listed failures [] = pure failures
  delete_listed failures (id ∷ rest) = do
    write (delete (λ t. in_ids (id ∷ rest) t && not (is t.status running)))
    pure failures

  -- The select locks the rows that it returns.
  unfoldable pub delete_many : List ℕ → Db → Result Rejections × Db
  unfolding delete_listed
  delete_many [] db = (ok [], db)
  delete_many (id ∷ ids) db =
      transact begin commit
        (do
          found ← read (find (in_ids (id ∷ ids)))
          delete_listed (reject_running (all_missing (id ∷ ids)) found) (deletable_ids found))
        db

  unfoldable pub create_many : List UploadTask → ℕ → Db → Result ℕ × Db
  create_many [] size db = (ok 0, db)
  create_many (t ∷ ts) size db = single (create (t ∷ ts) (if leb size 0 then 500 else size)) db
