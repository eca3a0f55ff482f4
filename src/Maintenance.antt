-- ===== src/Maintenance.antt =====
-- internal/service/maintenance_service.go: the deletion of old logs, scan runs and tasks in batches.
-- `Run` and its ticker are not modelled.
pub mod Purge
pub mod Cleanup
use rclone_sync_hub_go_backe.Prelude.{
  ℕ, zero, suc, ◌-◌, ◌*◌, ◌^◌, ◌≤◌, ◌<◌, ◌≡◌, ◌⊎◌, true, false, ltb, ℤ, pos, leb_ℤ, pos_part,
  Option, none, some, List, some_of, if◌then◌else◌,
}
use rclone_sync_hub_go_backe.Database.Outcome.{Result, ok, err, Ran}
use rclone_sync_hub_go_backe.Database.Table.{Drops}
use rclone_sync_hub_go_backe.Database.Statement.{Sql}
use rclone_sync_hub_go_backe.TaskRepository.Rows.{outdated}

pub record MaintenanceConfig : Type 0 where
  pub interval : ℤ
  pub upload_log_retention : ℤ
  pub task_retention : ℤ
  pub scan_run_retention : ℤ
  pub audit_log_retention : ℤ
  pub delete_batch_size : ℤ

abbrev pub positive_or : ℤ → ℤ → ℤ
positive_or n fallback = if leb_ℤ n (pos 0) then fallback else n

-- NewMaintenanceService
unfoldable pub normalized : MaintenanceConfig → MaintenanceConfig
normalized c = record c {
  interval = positive_or c.interval (pos (86400 * 10 ^ 9));
  delete_batch_size = positive_or c.delete_batch_size (pos 5000);
}

pub data Log : Type 0 where
  upload_logs scan_runs audit_logs : Log

-- The tables without tasks: the times `created_at` of their rows, and a DELETE with LIMIT.
pub record Logs (S : Sql) : Type 0 where
  pub created : Log → S.Db → List ℕ
  pub delete_before : Log → ℕ → ℕ → S.Db → Result (ℕ × S.Db)
  pub delete_before_law :
      (l : Log) (cutoff limit : ℕ) (db : S.Db)
      → Ran
          (λ n db'.
            Drops (λ at. ltb at cutoff) (created l db) (created l db') n
            × (n ≤ limit)
            × (n < limit → some_of (λ at. ltb at cutoff) (created l db') ≡ false)
            × (S.tasks db' ≡ S.tasks db)
            × ((m : Log) → (m ≡ l) ⊎ (created m db' ≡ created m db)))
          (delete_before l cutoff limit db)
  pub tasks_law :
      (cutoff limit : ℕ) (db : S.Db)
      → Ran
          (λ n db'. (m : Log) → created m db' ≡ created m db)
          (S.delete_some (outdated cutoff) limit db)

-- The loop that deletes until a round deletes fewer rows than it may, with at most `rounds` rounds.
unfoldable pub purge :
    {D : Type 0} → (ℕ → D → Result (ℕ × D)) → ℕ → ℕ → D → Option (Result (Unit {0}) × D)
purge delete size zero d = none
purge delete size (suc rounds) d = elim (delete size d) [
  | err e ↦ some (err e, d)
  | ok x ↦ elim (ltb x.0 size) [ true ↦ some (ok tt, x.1) | false ↦ purge delete size rounds x.1 ]
]

-- A retention that is not positive keeps the rows. Times before 0 do not occur, so that a cutoff
-- before 0 may be 0.
unfoldable pub clean_table :
    {D : Type 0} → (ℕ → ℕ → D → Result (ℕ × D)) → ℤ → ℕ → ℕ → ℕ → D → Option (Result (Unit {0}) × D)
clean_table delete retention now size rounds d =
    if leb_ℤ retention (pos 0)
    then some (ok tt, d)
    else purge (delete (now - pos_part retention)) size rounds d

-- The next table, unless there was an error.
abbrev pub and_then :
    {D : Type 0}
    → Option (Result (Unit {0}) × D)
    → (D → Option (Result (Unit {0}) × D))
    → Option (Result (Unit {0}) × D)
and_then none k = none
and_then (some (err e, d)) k = some (err e, d)
and_then (some (ok u, d)) k = k d

module _ (S : Sql) (L : Logs S) where
  open S use {Db, delete_some}
  open L use {delete_before}

  unfoldable pub cleanup : MaintenanceConfig → ℕ → ℕ → Db → Option (Result (Unit {0}) × Db)
  cleanup c now rounds db =
      let size = pos_part c.delete_batch_size in
      and_then (clean_table (delete_before upload_logs) c.upload_log_retention now size rounds db)
        λ d1.
          and_then (clean_table (delete_before scan_runs) c.scan_run_retention now size rounds d1)
            λ d2.
              and_then
                (clean_table (delete_before audit_logs) c.audit_log_retention now size rounds d2)
                λ d3.
                  clean_table (λ cutoff. delete_some (outdated cutoff)) c.task_retention now size
                    rounds d3
