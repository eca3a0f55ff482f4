-- ===== src/Scanner/Storing.antt =====
-- internal/scheduler/watch_folder_scanner.go: the reads and the writes of `scanFolder` around its
-- walk, over the database `S`, with the calls that others make meanwhile.
use rclone_sync_hub_go_backe.Prelude.{
  ℕ, ◌+◌, ◌-◌, ◌==◌, Text, [], ◌∷◌, ◌++◌, List, Bool, true, false, length, map, Option, none, some,
  ◌⊎◌, inl, inr, if◌then◌else◌,
}
use rclone_sync_hub_go_backe.Model.{UploadTask, FileRecord}
use rclone_sync_hub_go_backe.Database.Outcome.{Err, Result, ok, err}
use rclone_sync_hub_go_backe.Database.Statement.{Sql}
use rclone_sync_hub_go_backe.TaskRepository.{create_many}
use rclone_sync_hub_go_backe.TaskRepository.Rows.{open_in}
use rclone_sync_hub_go_backe.TaskRepository.Operation.{Operation, run}
use rclone_sync_hub_go_backe.FileRecordRepository.{
  list_for_watch_folder, update_snapshots, mark_missing, create_snapshots,
}
use rclone_sync_hub_go_backe.Scanner.{Folder}
use rclone_sync_hub_go_backe.Scanner.Visit.{
  Scan, Problem, Cause, stopped, without_record, first_of, record_problem,
}
use rclone_sync_hub_go_backe.Scanner.Walk.{Tree, scan, missing_ids, valid_tasks, unassigned}

-- `context.Canceled` and `context.DeadlineExceeded`
pub data Stop : Type 0 where
  canceled timed_out : Stop

pub data Failure : Type 0 where
  unprepared : Text → Failure
  interrupted : Stop → Failure
  unstored : Err → Failure
  incomplete : (errors : ℕ) → Problem → Failure

-- folderScanStats
pub record Stats : Type 0 where
  pub files_seen : ℕ
  pub total_bytes : ℕ
  pub files_unchanged : ℕ
  pub files_skipped : ℕ
  pub files_missing : ℕ
  pub tasks_created : ℕ
  pub scan_errors : ℕ

-- What a scan meets: `filepath.Rel`, the tree, the end of its context where the walk stopped and
-- after the walk, the calls of others during the walk and before the tasks are created, and the id
-- that CreateInBatches leaves in a new snapshot.
pub record Circumstances : Type 0 where
  pub tree : Tree
  pub relative : Text → Text → Option Text
  pub walk_stop : Stop
  pub ended : Option Stop
  pub during_walk : List Operation
  pub before_tasks : List Operation
  pub left_id : Text → ℕ
  pub now : ℕ
  pub batch_size : ℕ

abbrev pub no_stats : Stats
no_stats = record {
  files_seen = 0;
  total_bytes = 0;
  files_unchanged = 0;
  files_skipped = 0;
  files_missing = 0;
  tasks_created = 0;
  scan_errors = 0;
}

abbrev pub stats_of : Scan → ℕ → Stats
stats_of s missing = record {
  files_seen = s.files_seen;
  total_bytes = s.total_bytes;
  files_unchanged = s.files_unchanged;
  files_skipped = s.files_skipped;
  files_missing = missing;
  tasks_created = 0;
  scan_errors = s.scan_errors;
}

-- Of the valid tasks, those that were there already count as unchanged.
abbrev pub with_created : ℕ → ℕ → Stats → Stats
with_created valid inserted s = record s {
  tasks_created = s.tasks_created + inserted;
  files_unchanged = s.files_unchanged + (valid - inserted);
}

abbrev pub note_unassigned : List UploadTask → Scan → Scan
note_unassigned [] s = s
note_unassigned (t ∷ ts) s = note_unassigned ts (record_problem without_record t.local_path s)

-- The records by their paths, after the new snapshots are stored.
abbrev pub identified : (Text → ℕ) → FileRecord → FileRecord
identified left f = if f.id == 0 then record f { id = left f.local_path } else f

abbrev pub is_stopped : Cause → Bool
is_stopped stopped = true
is_stopped _ = false

abbrev pub failure_of : ℕ → Option Problem → Option Failure
failure_of errors none = none
failure_of errors (some p) = some (incomplete errors p)

-- The error of a scan that has stored its tasks.
abbrev pub concluded : Stop → Option Problem → Scan → Option Failure
concluded stop none s = failure_of s.scan_errors s.first_problem
concluded stop (some p) s =
    if is_stopped p.cause
    then some (interrupted stop)
    else failure_of s.scan_errors (first_of s.first_problem p)

module _ (S : Sql) where
  open S use {Db, find}

  abbrev pub Answer : Type 0
  Answer = (Stats × Option Failure) × Db

  abbrev pub failed : Stats → Err → Db → Answer
  failed s e db = ((s, some (unstored e)), db)

  -- After CreateManyIfAbsent.
  abbrev pub after_tasks : Circumstances → Option Problem → Scan → ℕ → ℕ → Result ℕ × Db → Answer
  after_tasks u p s missing valid (err e, db) = failed (stats_of s missing) e db
  after_tasks u p s missing valid (ok n, db) =
      ((with_created valid n (stats_of s missing), concluded u.walk_stop p s), db)

  unfoldable pub store_tasks :
      Circumstances → Option Problem → Scan → ℕ → List FileRecord → Db → Answer
  store_tasks u p s missing stored db =
      let valid = valid_tasks stored s.candidates in
      after_tasks u p (note_unassigned (unassigned stored s.candidates) s) missing (length valid)
        (create_many S valid u.batch_size (run S u.before_tasks db))

  abbrev pub after_reload :
      Circumstances → Option Problem → Scan → ℕ → Result (List FileRecord) → Db → Answer
  after_reload u p s missing (err e) db = failed (stats_of s missing) e db
  after_reload u p s missing (ok persisted) db =
      store_tasks u p s missing (map (identified u.left_id) s.records ++ persisted) db

  abbrev pub after_create :
      Folder → Circumstances → Option Problem → Scan → ℕ → Result (Unit {0}) × Db → Answer
  after_create w u p s missing (err e, db) = failed (stats_of s missing) e db
  after_create w u p s missing (ok v, db) =
      after_reload u p s missing (list_for_watch_folder S w.id w.root db) db

  unfoldable pub store_new :
      Folder → Circumstances → Option Problem → Scan → ℕ → List FileRecord → Db → Answer
  store_new w u p s missing [] db = store_tasks u p s missing s.records db
  store_new w u p s missing (f ∷ fs) db =
      after_create w u p s missing (create_snapshots S (f ∷ fs) db)

  abbrev pub after_missing :
      Folder → Circumstances → Option Problem → Scan → ℕ → Result (Unit {0}) × Db → Answer
  after_missing w u p s missing (err e, db) = failed (stats_of s 0) e db
  after_missing w u p s missing (ok v, db) = store_new w u p s missing s.new_snapshots db

  abbrev pub after_update :
      Folder
      → Circumstances
      → List FileRecord
      → Option Problem × Scan
      → Result (Unit {0}) × Db
      → Answer
  after_update w u records x (err e, db) = failed (stats_of x.1 0) e db
  after_update w u records x (ok v, db) =
      let ids = missing_ids u.relative records x in
      after_missing w u x.0 x.1 (length ids) (mark_missing S ids u.now u.batch_size db)

  -- After the walk.
  unfoldable pub store_scan :
      Folder → Circumstances → List FileRecord → Option Problem × Scan → Option Stop → Db → Answer
  store_scan w u records x (some stop) db = ((stats_of x.1 0, some (interrupted stop)), db)
  store_scan w u records x none db =
      after_update w u records x
        (update_snapshots S x.1.changed_snapshots x.1.clear_uploaded u.batch_size db)

  abbrev pub after_open :
      Folder → Circumstances → List FileRecord → Result (List UploadTask) → Db → Answer
  after_open w u records (err e) db = failed no_stats e db
  after_open w u records (ok open_tasks) db =
      store_scan w u records (scan w u.tree records open_tasks) u.ended (run S u.during_walk db)

  abbrev pub after_list : Folder → Circumstances → Result (List FileRecord) → Db → Answer
  after_list w u (err e) db = failed no_stats e db
  after_list w u (ok records) db = after_open w u records (find (open_in w.id) db) db

  -- scanFolder
  unfoldable pub scan_folder : Folder ⊎ Text → Circumstances → Db → Answer
  scan_folder (inr message) u db = ((no_stats, some (unprepared message)), db)
  scan_folder (inl w) u db = after_list w u (list_for_watch_folder S w.id w.root db) db
