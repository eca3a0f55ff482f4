-- ===== src/TaskRepository/Operation.antt =====
-- One call that writes `upload_tasks`, with its arguments and the time at which it runs, and the
-- database that it leaves: the operations of internal/repository/task_repository.go, the changes of
-- folders and routes that end tasks, and a DELETE of internal/service/maintenance_service.go.
use rclone_sync_hub_go_backe.Prelude.{ℕ, Text, Bool, List, [], ◌∷◌}
use rclone_sync_hub_go_backe.Model.{UploadTask}
use rclone_sync_hub_go_backe.Model.Folders.{WatchFolder, RemoteRoute}
use rclone_sync_hub_go_backe.Database.Statement.{Sql}
use rclone_sync_hub_go_backe.Database.Transaction.{single}
use rclone_sync_hub_go_backe.FolderRepository.{Marshaled, update_folder, delete_folder}
use rclone_sync_hub_go_backe.RouteRepository.{update_route}
use rclone_sync_hub_go_backe.TaskRepository.Rows.{outdated}
use rclone_sync_hub_go_backe.TaskRepository.{
  claim_next, renew_lease, update_progress, finish_success, finish_canceled, fail_or_retry,
  release_lease, request_cancel, reset_for_retry, pause_if_not_running, delete_task, delete_many,
  create_many,
}

pub data Operation : Type 0 where
  claiming : (now : ℕ) (owner : Text) (lease_duration max_attempts : ℕ) → Operation
  renewing : (now id : ℕ) (owner : Text) (lease_duration : ℕ) → Operation
  reporting : (id : ℕ) (owner : Text) (percent speed at : ℕ) → Operation
  succeeding :
      (id : ℕ) (owner : Text) (file_record_id : ℕ) (fingerprint remote_name remote_path : Text)
      (finished_at seconds : ℕ)
      → Operation
  canceling : (id : ℕ) (owner : Text) (finished_at : ℕ) (message : Text) → Operation
  failing : (now id : ℕ) (owner message : Text) (next_retry_at max_attempts : ℕ) → Operation
  releasing : (now id : ℕ) (owner : Text) → Operation
  requesting_cancel : (id at : ℕ) → Operation
  resetting : (id at : ℕ) → Operation
  pausing : (id at : ℕ) → Operation
  deleting : (id : ℕ) → Operation
  deleting_many : (ids : List ℕ) → Operation
  creating : (given : List UploadTask) (size : ℕ) → Operation
  updating_folder :
      (now : ℕ) (folder : WatchFolder) (steps : Marshaled) (require_idle destination_changed : Bool)
      → Operation
  deleting_folder : (now id : ℕ) → Operation
  updating_route : (now : ℕ) (route : RemoteRoute) (destination_changed : Bool) → Operation
  cleaning : (cutoff size : ℕ) → Operation

module _ (S : Sql) where
  open S use {Db}

  unfoldable pub apply : Operation → Db → Db
  apply (claiming now owner d m) db = (claim_next S now owner d m db).1
  apply (renewing now id owner d) db = (renew_lease S now id owner d db).1
  apply (reporting id owner p s at) db = (update_progress S id owner p s at db).1
  apply (succeeding id owner f fp rn rp at s) db = (finish_success S id owner f fp rn rp at s db).1
  apply (canceling id owner at m) db = (finish_canceled S id owner at m db).1
  apply (failing now id owner m at n) db = (fail_or_retry S now id owner m at n db).1
  apply (releasing now id owner) db = (release_lease S now id owner db).1
  apply (requesting_cancel id at) db = (request_cancel S id at db).1
  apply (resetting id at) db = (reset_for_retry S id at db).1
  apply (pausing id at) db = (pause_if_not_running S id at db).1
  apply (deleting id) db = (delete_task S id db).1
  apply (deleting_many ids) db = (delete_many S ids db).1
  apply (creating given size) db = (create_many S given size db).1
  apply (updating_folder now f steps idle changed) db =
      (update_folder S now f steps idle changed db).1
  apply (deleting_folder now id) db = (delete_folder S now id db).1
  apply (updating_route now r changed) db = (update_route S now r changed db).1
  apply (cleaning cutoff size) db = (single (S.delete_some (outdated cutoff) size) db).1

  -- Calls one after the other, by any workers and clients.
  unfoldable pub run : List Operation → Db → Db
  run [] db = db
  run (o ∷ os) db = run os (apply o db)
