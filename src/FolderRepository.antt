-- ===== src/FolderRepository.antt =====
-- internal/repository/watch_folder_repository.go: the operations that write `watch_folders`, with
-- their updates of `upload_tasks` and `file_records`, over the database `S`. `time.Now()` is the
-- argument `now`.
pub mod Columns
pub mod Calls
pub mod Keeping
pub mod Leases
pub mod Written
pub mod Retirement
use rclone_sync_hub_go_backe.Prelude.{
  ℕ, zero, suc, ◌+◌, Text, codes, Bool, true, false, ◌==◌, ◌&&◌, ◌||◌, not, List, [], ◌∷◌, Option,
  none, some, is_none, if◌then◌else◌,
}
use rclone_sync_hub_go_backe.Model.{
  UploadTask, FileRecord, Status, pending, running, failed, paused, canceled, is,
}
use rclone_sync_hub_go_backe.Model.Folders.{
  WatchFolder, FolderPipeline, FolderStatus, detecting, is_folder,
}
use rclone_sync_hub_go_backe.Database.Outcome.{
  Err, Result, ok, err, driver, not_found, conflict, classified,
}
use rclone_sync_hub_go_backe.Database.Statement.{Sql}
use rclone_sync_hub_go_backe.Database.Transaction.{
  Tx, Step, next, rollback, ◌>>=◌, ◌>>◌, pure, leave, write, write_classified, when, read, transact,
  single,
}
use rclone_sync_hub_go_backe.TaskRepository.Answers.{required, touched, error_of}
use rclone_sync_hub_go_backe.TaskRepository.Rows.{
  in_folders, running_in, waiting_in, stop_running, cancel_waiting,
}
use Columns.{
  folder_id, live_scan, scan_claimable, start_scan, scan_leased, renew_scan, ScanEnd, scan_owned,
  end_scan, updatable, update_columns, schedulable, schedule, count_success, count_failure,
}

-- What `json.Marshal` makes of the steps of a pipeline.
pub data Marshaled : Type 0 where
  no_steps : Marshaled
  steps_json : Text → Marshaled
  not_marshaled : Marshaled

abbrev pub of_folders : List ℕ → FileRecord → Bool
of_folders [] f = false
of_folders (id ∷ ids) f = f.watch_folder_id == id || of_folders ids f

abbrev pub forget_upload : FileRecord → FileRecord
forget_upload f = record f { uploaded_at = none }

abbrev pub detach : FileRecord → FileRecord
detach f = record f { watch_folder_id = 0 }

-- FinishScan: `RowsAffected == 0` is an error of its own.
abbrev pub lost_lease : {D : Type 0} → Result ℕ × D → Result (Unit {0}) × D
lost_lease (ok zero, d) = (err driver, d)
lost_lease (ok (suc n), d) = (ok tt, d)
lost_lease (err x, d) = (err x, d)

abbrev pub pipeline_of : ℕ → FolderPipeline → Bool
pipeline_of id p = p.watch_folder_id == id

module _ (S : Sql) where
  open S use {Db, begin, commit, updates, update_files, folders, pipelines}

  -- The running tasks are asked to stop, and those that wait are canceled.
  unfoldable pub cancel_tasks : {R : Type 0} → ℕ → List ℕ → Text → Tx Db R (Unit {0})
  cancel_tasks now ids message = do
    write (updates (running_in ids) (stop_running now))
    write (updates (waiting_in ids) (cancel_waiting now message))
    pure tt

  -- The uploads to the old destination are forgotten and canceled.
  unfoldable pub leave_destination : {R : Type 0} → ℕ → List ℕ → Text → Tx Db R (Unit {0})
  leave_destination now ids message = do
    write (update_files (of_folders ids) forget_upload)
    cancel_tasks now ids message

  unfoldable pub save_pipeline : {R : Type 0} → ℕ → Marshaled → Tx Db R (Unit {0})
  save_pipeline id no_steps = do write (pipelines.remove (pipeline_of id)); pure tt
  save_pipeline id (steps_json json) = do
    write (
        pipelines.upsert (pipeline_of id) (λ p. record p { steps_json = json })
          (λ n. record { watch_folder_id = id; steps_json = json }))
    pure tt
  save_pipeline id not_marshaled = leave (err driver)

  -- Where no row was updated, a missing folder is told from one that changed meanwhile.
  unfoldable pub verify_update : ℕ → ℕ → Tx Db (Unit {0}) (Unit {0})
  verify_update id (suc n) = pure tt
  verify_update id zero = do
    found ← read (folders.first (folder_id id))
    leave (err (if is_none found then not_found else conflict))

  unfoldable pub update_folder :
      ℕ → WatchFolder → Marshaled → Bool → Bool → Db → Result (Unit {0}) × Db
  update_folder now f steps require_idle destination_changed = transact begin commit do
    affected ← write_classified (folders.update (updatable f require_idle) (update_columns now f))
    verify_update f.id affected
    when destination_changed
        (leave_destination now (f.id ∷ []) (codes "watch folder upload destination changed"))
    save_pipeline f.id steps

  unfoldable pub delete_idle : ℕ → ℕ → WatchFolder → Tx Db (Unit {0}) (Unit {0})
  delete_idle now id f = if live_scan now f then leave (err conflict) else (do
    cancel_tasks now (id ∷ []) (codes "watch folder deleted")
    write (update_files (of_folders (id ∷ [])) detach)
    write (pipelines.remove (pipeline_of id))
    write (folders.remove (folder_id id))
    pure tt)

  unfoldable pub delete_folder : ℕ → ℕ → Db → Result (Unit {0}) × Db
  delete_folder now id = transact begin commit do
    found ← read (folders.first (folder_id id))
    f ← read (λ _. required found)
    delete_idle now id f

  unfoldable pub create_folder : WatchFolder → Marshaled → Db → Result ℕ × Db
  create_folder f steps = transact begin commit do
    id ← write_classified (folders.insert (λ n. record f { id = n }))
    save_pipeline id steps
    pure id

  unfoldable pub claim_for_scan : ℕ → ℕ → Text → ℕ → ℕ → ℕ → Db → Result Bool × Db
  claim_for_scan now id owner expected started_at lease_duration db = touched (
      single
        (folders.update (scan_claimable id expected started_at)
          (start_scan now owner started_at lease_duration))
        db)

  unfoldable pub renew_scan_lease : ℕ → ℕ → Text → ℕ → Db → Result Bool × Db
  renew_scan_lease now id owner lease_duration db =
      touched (single (folders.update (scan_leased id owner) (renew_scan now lease_duration)) db)

  unfoldable pub finish_scan : ℕ → ℕ → Text → ScanEnd → Db → Result (Unit {0}) × Db
  finish_scan now id owner e db =
      lost_lease (single (folders.update (scan_owned id owner) (end_scan now e)) db)

  unfoldable pub record_upload_success : ℕ → ℕ → ℕ → ℕ → Db → Result (Unit {0}) × Db
  record_upload_success now id size at db =
      error_of (single (folders.update (folder_id id) (count_success now size at)) db)

  unfoldable pub record_upload_failure : ℕ → ℕ → ℕ → Db → Result (Unit {0}) × Db
  record_upload_failure now id at db =
      error_of (single (folders.update (folder_id id) (count_failure now at)) db)

  unfoldable pub schedule_all_enabled_now : ℕ → Db → Result ℕ × Db
  schedule_all_enabled_now now = single (folders.update schedulable (schedule now))
