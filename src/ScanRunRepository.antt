-- ===== src/ScanRunRepository.antt =====
-- internal/repository/scan_run_repository.go: the operations that write `scan_runs`, over the database
-- `S`.
use rclone_sync_hub_go_backe.Prelude.{ℕ, ◌==◌}
use rclone_sync_hub_go_backe.Model.Folders.{ScanRun}
use rclone_sync_hub_go_backe.Database.Outcome.{Result}
use rclone_sync_hub_go_backe.Database.Statement.{Sql}
use rclone_sync_hub_go_backe.Database.Transaction.{single}
use rclone_sync_hub_go_backe.TaskRepository.Answers.{error_of}

module _ (S : Sql) where
  open S use {Db, runs}

  -- Create, with the id of the new row, and Finish by `Save`.
  unfoldable pub create_run : ScanRun → Db → Result ℕ × Db
  create_run run = single (runs.insert (λ n. record run { id = n }))

  unfoldable pub finish_run : ScanRun → Db → Result (Unit {0}) × Db
  finish_run run db = error_of (single (runs.upsert (λ r. r.id == run.id) (λ r. run) (λ n. run)) db)
