-- ===== src/Worker/Process.antt =====
-- internal/worker/queue.go: `processClaimed`, from a claim to the end of its attempt.
use rclone_sync_hub_go_backe.Prelude.{
  ℕ, ◌+◌, Text, codes, text_eq, [], ◌∷◌, ◌++◌, List, Bool, false, Option, none, some, if◌then◌else◌,
  pos_part,
}
use rclone_sync_hub_go_backe.Model.{UploadTask, FileRecord}
use rclone_sync_hub_go_backe.Database.Statement.{Sql, Result, ok, err}
use rclone_sync_hub_go_backe.TaskRepository.{Claimed, is_cancellation_requested, release_lease}
use rclone_sync_hub_go_backe.TaskRepository.Operation.{run}
use rclone_sync_hub_go_backe.Worker.Config.{Config}
use rclone_sync_hub_go_backe.Worker.Finish.{end_success, end_canceled, end_failure}
use rclone_sync_hub_go_backe.Worker.Upload.{Phase, upload}
use rclone_sync_hub_go_backe.Worker.Effects.{
  Attempt, Policy, Checked, refused, allowed, Stat, stat_failed, stat_of, Effect, observed,
  released, lease_lost,
}

-- validateClaimedTask: the message of the first defect.
unfoldable pub validate_claimed_task : Claimed → Option Text
validate_claimed_task (t, none) = some (codes "task has no file record")
validate_claimed_task (t, some f) =
    if text_eq f.local_path []
    then some (codes "task local path is empty")
    else if text_eq t.remote_name []
    then some (codes "task remote name is empty")
    else if text_eq t.remote_path []
    then some (codes "task remote path is empty")
    else none

-- What the checks before the upload decide: to fail, to cancel, or to upload a task whose paths are
-- those that the policy returned.
pub data Ready : Type 0 where
  failing : Text → Ready
  canceling : Text → Ready
  ready : UploadTask → FileRecord → Ready

abbrev pub local_path_of : Claimed → Text
local_path_of (t, none) = []
local_path_of (t, some f) = f.local_path

abbrev pub compare_version : Attempt → UploadTask → FileRecord → Stat → Ready
compare_version a t f (stat_failed e) = failing (codes "stat local file: " ++ e)
compare_version a t f (stat_of size modified) =
    if text_eq (a.fingerprint_of size modified) t.file_fingerprint
    then ready t f
    else canceling (codes "file version was superseded before upload")

unfoldable pub check_version : Attempt → UploadTask → FileRecord → Ready
check_version a t f =
    if text_eq t.file_fingerprint []
    then ready t f
    else compare_version a t f (a.stat_before f.local_path)

abbrev pub check_remote : Attempt → UploadTask → FileRecord → Checked → Ready
check_remote a t f (refused e) = failing e
check_remote a t f (allowed path) = check_version a (record t { remote_path = path }) f

abbrev pub check_local : Attempt → Policy → UploadTask → FileRecord → Checked → Ready
check_local a p t f (refused e) = failing e
check_local a p t f (allowed path) =
    check_remote a t (record f { local_path = path })
      (p.validate_remote t.remote_name t.remote_path)

unfoldable pub check_policy : Attempt → Option Policy → UploadTask → FileRecord → Ready
check_policy a none t f = check_version a t f
check_policy a (some p) t f = check_local a p t f (p.validate_local_file f.local_path)

unfoldable pub prepare : Attempt → Claimed → Ready
prepare a (t, none) = failing (codes "task has no file record")
prepare a (t, some f) = elim (validate_claimed_task (t, some f)) [
  | some defect ↦ failing defect
  | none ↦ check_policy a a.policy t f
]

-- verifyTaskFileFingerprint
abbrev pub compare_after : Attempt → UploadTask → Stat → Option Text
compare_after a t (stat_failed e) =
    some (codes "file became unavailable during upload; rescan required: " ++ e)
compare_after a t (stat_of size modified) =
    if text_eq (a.fingerprint_of size modified) t.file_fingerprint
    then none
    else some (codes "file changed during upload; rescan required")

unfoldable pub verify_task_file_fingerprint : Attempt → UploadTask → FileRecord → Option Text
verify_task_file_fingerprint a t f =
    if text_eq t.file_fingerprint [] then none else compare_after a t (a.stat_after f.local_path)

-- The error of the copy: the timeout comes before what rclone returned.
abbrev pub copy_failure : Attempt → Option Text
copy_failure a =
    if a.deadline_exceeded then some (codes "upload exceeded task timeout") else a.copy_error

abbrev pub with_message : Text → Text → Text
with_message failure message =
    if text_eq message [] then failure else failure ++ (codes ": " ++ message)

module _ (S : Sql) (c : Config) (owner : Text) (a : Attempt) where
  open S use {Db}

  unfoldable pub conclude : UploadTask → FileRecord → Option Text → Db → List Effect × Db
  conclude t f (some failure) db =
      end_failure S c owner a.random t (with_message failure a.copy_message) a.finished db
  conclude t f none db =
      if a.copy_success
      then elim (verify_task_file_fingerprint a t f) [
        | some problem ↦ end_canceled S c owner t.id problem a.finished db
        | none ↦ end_success S c owner (t, some f) a.started a.finished db
      ]
      else end_failure S c owner a.random t (with_message a.copy_message a.copy_message) a.finished
          db

  -- `if cancelRequested`: an error of the check counts as no.
  abbrev pub requested : Result Bool → Bool
  requested (ok b) = b
  requested (err e) = false

  unfoldable pub finalize : UploadTask → FileRecord → Bool → Bool → Db → List Effect × Db
  finalize t f cancel_requested lost db =
      if cancel_requested
      then end_canceled S c owner t.id (codes "task canceled by user") a.finished db
      else if a.shutting_down
      then (observed released ∷ [], (release_lease S a.finished t.id owner db).1)
      else if lost
      then (observed lease_lost ∷ [], db)
      else conclude t f (copy_failure a) db

  abbrev pub lease_deadline_of : UploadTask → Option ℕ
  lease_deadline_of t = elim t.lease_expires_at [
    | none ↦ some (a.started + pos_part c.lease_duration)
    | some at ↦ some at
  ]

  unfoldable pub upload_of : UploadTask → Db → Phase Db
  upload_of t db = upload S c owner t.id a.events (record {
    db = db;
    last_progress_at = none;
    lease_deadline = lease_deadline_of t;
    lease_lost = false;
    effects = [];
  })

  unfoldable pub checked_db : UploadTask → Db → Db
  checked_db t db = run S a.before_check (upload_of t db).db

  unfoldable pub attempt : UploadTask → FileRecord → Db → List Effect × Db
  attempt t f db =
      let s = upload_of t db in
      let db1 = checked_db t db in
      let (effects, db2) =
        finalize t f (requested (is_cancellation_requested S t.id db1)) s.lease_lost
          (run S a.before_finish db1) in
      (s.effects ++ effects, db2)

  unfoldable pub process_claimed : Claimed → Db → List Effect × Db
  process_claimed (t, f) db = elim (prepare a (t, f)) [
    | failing message ↦ end_failure S c owner a.random t message a.finished db
    | canceling message ↦ end_canceled S c owner t.id message a.finished db
    | ready t' f' ↦ attempt t' f' db
  ]
