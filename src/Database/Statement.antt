-- ===== src/Database/Statement.antt =====
-- The statements of the database that the repositories of internal/repository call through GORM.
-- The database is not in the repository: its state and its statements are the parameter `Sql`,
-- with the documented behaviour of each statement as laws. A statement or a commit may fail at
-- any state. A transaction's row locks make it one step; `locked` tells the rows that other
-- transactions hold at that moment.
use rclone_sync_hub_go_backe.Prelude.{
  ℕ, Bool, true, false, ◌≡◌, Option, none, some, List, map, ◌++◌, not, ◌≤◌, ◌<◌, ltb, length,
  select, some_of, Member, All,
}
use rclone_sync_hub_go_backe.Model.{UploadTask, FileRecord}
use rclone_sync_hub_go_backe.Model.Folders.{
  WatchFolder, FolderPipeline, RemoteRoute, RemoteFileRecord, ScanRun,
}
use rclone_sync_hub_go_backe.Database.Table.{Table, Drops}
pub use rclone_sync_hub_go_backe.Database.Outcome.{
  Err, driver, duplicate, not_found, conflict, classified, Result, ok, err, Ran, Read, Ran-map,
  Read-map, patch,
}

-- What a `SELECT … LIMIT 1` over the rows may return: a row that meets the condition, with no
-- visible row before it, or nothing if no visible row meets the condition.
abbrev pub Picked :
    (UploadTask → Bool)
    → (UploadTask → UploadTask → Bool)
    → (UploadTask → Bool)
    → List UploadTask
    → Option UploadTask
    → Type 0
Picked p before locked rows none = (u : UploadTask) → Member u rows → p u ≡ true → locked u ≡ true
Picked p before locked rows (some t) =
    Member t rows
    × (p t ≡ true)
    × ((u : UploadTask) → Member u rows → p u ≡ true → locked u ≡ false → before u t ≡ false)

pub record Sql : Type 1 where
  pub Db : Type 0
  pub tasks : Db → List UploadTask
  pub files : Db → List FileRecord
  pub folder_rows : Db → List WatchFolder
  pub pipeline_rows : Db → List FolderPipeline
  pub route_rows : Db → List RemoteRoute
  pub remote_file_rows : Db → List RemoteFileRecord
  pub run_rows : Db → List ScanRun
  pub begin : Db → Result (Unit {0})
  pub commit : Db → Result (Unit {0})
  -- `Where(p).Updates(f)` and `Where(p).Delete` with their `RowsAffected`.
  pub updates : (UploadTask → Bool) → (UploadTask → UploadTask) → Db → Result (ℕ × Db)
  pub update_files : (FileRecord → Bool) → (FileRecord → FileRecord) → Db → Result (ℕ × Db)
  pub delete : (UploadTask → Bool) → Db → Result (ℕ × Db)
  -- `DELETE … LIMIT`
  pub delete_some : (UploadTask → Bool) → ℕ → Db → Result (ℕ × Db)
  -- `Clauses(OnConflict{DoNothing: true}).CreateInBatches`
  pub create : List UploadTask → ℕ → Db → Result (ℕ × Db)
  -- `First` by primary key, `Find`, and `First` in a given order that skips locked rows.
  pub first : (UploadTask → Bool) → Db → Result (Option UploadTask)
  pub find : (UploadTask → Bool) → Db → Result (List UploadTask)
  pub locked : Db → UploadTask → Bool
  pub first_unlocked :
      (UploadTask → Bool) → (UploadTask → UploadTask → Bool) → Db → Result (Option UploadTask)
  -- `Preload("FileRecord")`
  pub preload : UploadTask → Db → Result (Option FileRecord)
  pub primary_key :
      (db : Db) (t u : UploadTask) → Member t (tasks db) → Member u (tasks db) → t.id ≡ u.id → t ≡ u
  -- An update sets `updated_at` too, so each row that meets the condition is an affected row.
  pub updates_law :
      (p : UploadTask → Bool) (f : UploadTask → UploadTask) (db : Db)
      → Ran
          (λ n db'.
            (tasks db' ≡ map (patch p f) (tasks db))
            × (files db' ≡ files db)
            × (ltb 0 n ≡ some_of p (tasks db)))
          (updates p f db)
  pub update_files_law :
      (p : FileRecord → Bool) (f : FileRecord → FileRecord) (db : Db)
      → Ran
          (λ n db'.
            (tasks db' ≡ tasks db)
            × (files db' ≡ map (patch p f) (files db))
            × (ltb 0 n ≡ some_of p (files db)))
          (update_files p f db)
  pub delete_law :
      (p : UploadTask → Bool) (db : Db)
      → Ran
          (λ n db'.
            (tasks db' ≡ select (λ t. not (p t)) (tasks db))
            × (files db' ≡ files db)
            × (ltb 0 n ≡ some_of p (tasks db)))
          (delete p db)
  -- The rows that are added are given ones, each under the id that it got.
  pub create_law :
      (given : List UploadTask) (size : ℕ) (db : Db)
      → Ran
          (λ n db'.
            (added : List UploadTask) × (tasks db' ≡ tasks db ++ added)
            × (files db' ≡ files db)
            × (n ≡ length added)
            × All (λ t. (c : UploadTask) × Member c given × (t ≡ record c { id = t.id })) added)
          (create given size db)
  pub first_law :
      (p : UploadTask → Bool) (db : Db)
      → Read (Picked p (λ t u. ltb t.id u.id) (λ u. false) (tasks db)) (first p db)
  pub find_law :
      (p : UploadTask → Bool) (db : Db) → Read (λ found. found ≡ select p (tasks db)) (find p db)
  pub first_unlocked_law :
      (p : UploadTask → Bool) (before : UploadTask → UploadTask → Bool) (db : Db)
      → Read (Picked p before (locked db) (tasks db)) (first_unlocked p before db)
  -- At most the given number of rows go, and a row that meets the condition stays only if that
  -- number is reached.
  pub delete_some_law :
      (p : UploadTask → Bool) (limit : ℕ) (db : Db)
      → Ran
          (λ n db'.
            Drops p (tasks db) (tasks db') n
            × (n ≤ limit)
            × (n < limit → some_of p (tasks db') ≡ false))
          (delete_some p limit db)
  -- The statements on the other tables, and what these leave alone.
  pub folders :
      Table folder_rows (λ db db'.
        (tasks db' ≡ tasks db) × (files db' ≡ files db) × (route_rows db' ≡ route_rows db))
  pub pipelines : Table pipeline_rows (λ db db'.
      (tasks db' ≡ tasks db)
      × (files db' ≡ files db)
      × (route_rows db' ≡ route_rows db)
      × (folder_rows db' ≡ folder_rows db))
  pub routes : Table route_rows (λ db db'.
      (tasks db' ≡ tasks db) × (files db' ≡ files db) × (folder_rows db' ≡ folder_rows db))
  pub remote_files : Table remote_file_rows (λ db db'.
      (tasks db' ≡ tasks db)
      × (files db' ≡ files db)
      × (route_rows db' ≡ route_rows db)
      × (folder_rows db' ≡ folder_rows db))
  pub runs : Table run_rows (λ db db'.
      (tasks db' ≡ tasks db)
      × (files db' ≡ files db)
      × (route_rows db' ≡ route_rows db)
      × (folder_rows db' ≡ folder_rows db))
  pub snapshots : Table files (λ db db'.
      (tasks db' ≡ tasks db)
      × (folder_rows db' ≡ folder_rows db)
      × (route_rows db' ≡ route_rows db))
  pub updates_rest :
      (p : UploadTask → Bool) (f : UploadTask → UploadTask) (db : Db)
      → Ran
          (λ n db'. (folder_rows db' ≡ folder_rows db) × (route_rows db' ≡ route_rows db))
          (updates p f db)
  pub update_files_rest :
      (p : FileRecord → Bool) (f : FileRecord → FileRecord) (db : Db)
      → Ran
          (λ n db'. (folder_rows db' ≡ folder_rows db) × (route_rows db' ≡ route_rows db))
          (update_files p f db)
