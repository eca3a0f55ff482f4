-- ===== src/Examples/Folders.antt =====
-- The theorems of FolderRepository on a folder that is scanned, and those of the cleanup.
use rclone_sync_hub_go_backe.Prelude.{
  ◌⊎◌, ℕ, codes, [], ◌∷◌, List, ◌≡◌, ◌≢◌, true, false, refl, some, none, arith, pos, inr,
}
use rclone_sync_hub_go_backe.Model.{success}
use rclone_sync_hub_go_backe.Model.Folders.{WatchFolder, suspended, watching}
use rclone_sync_hub_go_backe.Database.Outcome.{Result, ok, err, Ran}
use rclone_sync_hub_go_backe.Database.Table.{all_gone}
use rclone_sync_hub_go_backe.Database.Transaction.{Final}
use rclone_sync_hub_go_backe.Database.InMemory.{Memory, in_memory}
use rclone_sync_hub_go_backe.TaskRepository.Rows.{outdated}
use rclone_sync_hub_go_backe.FolderRepository.{
  no_steps, steps_json, claim_for_scan, delete_folder, update_folder,
}
use rclone_sync_hub_go_backe.FolderRepository.Columns.{ScanEnd}
use rclone_sync_hub_go_backe.FolderRepository.Calls.{
  FolderCall, claiming_scan, renewing_scan, finishing_scan, scheduling_all, updating, rerouting,
  calls,
}
use rclone_sync_hub_go_backe.FolderRepository.Leases.{HasLease, calls-exclusive}
use rclone_sync_hub_go_backe.FolderRepository.Retirement.{
  IsDeleted, NotDeleted, delete_folder_lem, IsRedirected, NotRedirected, update_folder_lem,
}
use rclone_sync_hub_go_backe.Maintenance.{MaintenanceConfig, normalized, Log, Logs, cleanup}
use rclone_sync_hub_go_backe.Maintenance.Cleanup.{Cleaned, cleanup_lem}
use rclone_sync_hub_go_backe.Examples.{
  first_worker, second_worker, queued, leased_task, folder, route, store,
}
use rclone_sync_hub_go_backe.Examples.Tasks.{is_other}

abbrev scan_end : ScanEnd
scan_end = record {
  status = watching;
  last_error = [];
  finished_at = 160;
  duration_ms = 1;
  next_scan_at = none;
  total_file_count = 0;
  total_file_size = 0;
  succeeded = true;
}

-- Calls of the second scanner and of clients, while the first scanner's lease is good.
abbrev folder_calls : List FolderCall
folder_calls =
    claiming_scan 150 3 second_worker 0 150 90
    ∷ updating 155 (record folder { status = suspended }) no_steps false true
    ∷ finishing_scan 160 3 second_worker scan_end
    ∷ scheduling_all 165
    ∷ renewing_scan 170 3 second_worker 90
    ∷ rerouting 175 route true
    ∷ []

folder-HasLease : HasLease 3 first_worker 200 folder
folder-HasLease = record { owned = λ e. refl; expires = λ e. refl }

calls-exclusive_example :
    (claim_for_scan in_memory 180 3 second_worker 0 180 90 (calls in_memory folder_calls store)).0
    ≢ ok true
calls-exclusive_example =
    calls-exclusive in_memory 3 first_worker 200 folder_calls store 180 second_worker 0 180 90
      (omega arith, (tt, (is_other, (tt, (is_other, (tt, tt)))))) (folder-HasLease, tt)
      (omega arith)

delete_folder_example :
    Final
      (IsDeleted in_memory store 250 3)
      (NotDeleted in_memory store 250 3)
      store
      (delete_folder in_memory 250 3 store)
delete_folder_example = delete_folder_lem in_memory store 250 3

abbrev moved_folder : WatchFolder
moved_folder = record folder { remote_path = codes "other" }

update_folder_example :
    Final
      (IsRedirected in_memory store 250 moved_folder (steps_json (codes "[]")) false)
      (NotRedirected in_memory store 250 moved_folder (steps_json (codes "[]")) false)
      store
      (update_folder in_memory 250 moved_folder (steps_json (codes "[]")) false true store)
update_folder_example =
    update_folder_lem in_memory store 250 moved_folder (steps_json (codes "[]")) false

-- A cleanup with a task that ended long ago, and logs without rows.
abbrev cleaned_config : MaintenanceConfig
cleaned_config = record {
  interval = pos 0;
  upload_log_retention = pos 100;
  task_retention = pos 100;
  scan_run_retention = pos 0;
  audit_log_retention = pos 100;
  delete_batch_size = pos 0;
}

abbrev old_store : Memory
old_store = record store {
  rows = record queued { status = success; finished_at = some 50 } ∷ leased_task ∷ [];
}

abbrev no_rows : List ℕ
no_rows = []

abbrev empty_logs : Logs in_memory
empty_logs = record {
  created = λ l m. no_rows;
  delete_before = λ l cutoff limit m. ok (0, m);
  delete_before_law = λ l cutoff limit m. (all_gone, omega arith, (λ h. refl), refl, unchanged);
  tasks_law = λ cutoff limit m. any (in_memory.delete_some (outdated cutoff) limit m);
}
  where
    unchanged : {l : Log} (k : Log) → (k ≡ l) ⊎ (no_rows ≡ no_rows)
    unchanged k = inr refl

    any : (r : Result (ℕ × Memory)) → Ran (λ n m'. (l : Log) → no_rows ≡ no_rows) r
    any (ok x) = λ l. refl
    any (err e) = tt

cleanup_example :
    Cleaned in_memory empty_logs cleaned_config 1000 5 old_store
      (cleanup in_memory empty_logs (normalized cleaned_config) 1000 5 old_store)
cleanup_example =
    cleanup_lem in_memory empty_logs cleaned_config 1000 5 old_store (omega arith)
      (λ l. omega arith)
