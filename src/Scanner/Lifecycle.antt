-- ===== src/Scanner/Lifecycle.antt =====
-- internal/scheduler/watch_folder_scanner.go: `scanOneFolder`, from the claim of a folder to the end
-- of its scan. The renewals of the lease and the calls that others make on folders meanwhile stand
-- before the statements of the scan, which write other tables.
use rclone_sync_hub_go_backe.Prelude.{
  ℕ, zero, suc, ◌+◌, ◌-◌, ◌/◌, ◌^◌, Text, [], ◌∷◌, List, Bool, true, false, not, ◌&&◌, ◌||◌, Option,
  none, some, is_none, ◌⊎◌, ℤ, pos_part, neg_part, if◌then◌else◌,
}
use rclone_sync_hub_go_backe.Model.Folders.{
  WatchFolder, FolderStatus, watching, broken, RunStatus, run_running, run_success, run_failed,
  run_canceled, ScanRun,
}
use rclone_sync_hub_go_backe.Database.Outcome.{Err, Result, ok, err}
use rclone_sync_hub_go_backe.Database.Statement.{Sql}
use rclone_sync_hub_go_backe.FolderRepository.{claim_for_scan, renew_scan_lease, finish_scan}
use rclone_sync_hub_go_backe.FolderRepository.Columns.{ScanEnd}
use rclone_sync_hub_go_backe.FolderRepository.Calls.{FolderCall, call}
use rclone_sync_hub_go_backe.ScanRunRepository.{create_run, finish_run}
use rclone_sync_hub_go_backe.Scanner.{Folder}
use rclone_sync_hub_go_backe.Scanner.Config.{ScannerConfig, interval_for}
use rclone_sync_hub_go_backe.Scanner.Storing.{
  Circumstances, canceled, Failure, interrupted, unstored, Stats, Answer, scan_folder,
}

-- During a scan its heartbeat ticks, and others call.
pub data Beat : Type 0 where
  ticked : (now : ℕ) → Beat
  others : FolderCall → Beat

-- When a scan starts and ends, whether the context of the scanner is done at its end, and what the
-- scan meets.
pub record Occasion : Type 0 where
  pub started : ℕ
  pub finished : ℕ
  pub context_done : Bool
  -- Whether an error of a statement, or of a renewal, is that of its canceled context.
  pub canceled_statement : Bool
  pub canceled_renewal : Bool
  pub beats : List Beat
  pub circumstances : Circumstances
  -- The text of the errors of the scan.
  pub message_of : Option Failure → Bool → Text

abbrev pub take : ℕ → Text → Text
take zero s = []
take (suc n) [] = []
take (suc n) (c ∷ s) = c ∷ take n s

-- The errors that scanFolder and the heartbeat leave.
abbrev pub is_clean : Option Failure → Bool → Bool
is_clean failure lease_problem = is_none failure && not lease_problem

-- `errors.Is(scanErr, context.Canceled)`
abbrev pub is_canceled : Occasion → Option Failure → Bool
is_canceled o (some (interrupted canceled)) = true
is_canceled o (some (unstored e)) = o.canceled_statement
is_canceled o _ = false

abbrev pub is_cancellation : Occasion → Option Failure → Bool → Bool
is_cancellation o failure lease_problem =
    is_canceled o failure || lease_problem && o.canceled_renewal

abbrev pub outcome_of : Occasion → Option Failure → Bool → RunStatus
outcome_of o failure lease_problem =
    if is_clean failure lease_problem
    then run_success
    else if is_cancellation o failure lease_problem && o.context_done
    then run_canceled
    else run_failed

abbrev pub status_of : RunStatus → FolderStatus
status_of run_failed = broken
status_of _ = watching

-- `finished.Add(interval)`
abbrev pub later_by : ℤ → ℕ → ℕ
later_by d at = at + pos_part d - neg_part d

-- A scan that was canceled with its process is due again at once.
abbrev pub due_after : RunStatus → ℕ → Option ℕ
due_after run_canceled at = none
due_after _ at = some at

abbrev pub error_text : Occasion → Option Failure → Bool → Text
error_text o failure lease_problem =
    if is_clean failure lease_problem then [] else take 4096 (o.message_of failure lease_problem)

abbrev pub scan_end :
    ScannerConfig → WatchFolder → Occasion → Stats → Option Failure → Bool → ScanEnd
scan_end c f o s failure lease_problem =
    let outcome = outcome_of o failure lease_problem in
    record {
      status = status_of outcome;
      last_error = error_text o failure lease_problem;
      finished_at = o.finished;
      duration_ms = (o.finished - o.started) / 10 ^ 6;
      next_scan_at =
          due_after outcome (later_by (interval_for c f.scan_interval_seconds) o.finished);
      total_file_count = s.files_seen;
      total_file_size = s.total_bytes;
      succeeded = is_clean failure lease_problem;
    }

abbrev pub started_run : WatchFolder → Occasion → ScanRun
started_run f o = record {
  id = 0;
  watch_folder_id = f.id;
  watch_folder_name = f.name;
  status = run_running;
  started_at = o.started;
  finished_at = none;
  duration_ms = 0;
  files_seen = 0;
  total_bytes = 0;
  files_unchanged = 0;
  files_skipped = 0;
  files_missing = 0;
  tasks_created = 0;
  scan_errors = 0;
  error_message = [];
}

abbrev pub ended_run : ℕ → WatchFolder → Occasion → Stats → Option Failure → Bool → ScanRun
ended_run id f o s failure lease_problem = record {
  id = id;
  watch_folder_id = f.id;
  watch_folder_name = f.name;
  status = outcome_of o failure lease_problem;
  started_at = o.started;
  finished_at = some o.finished;
  duration_ms = (o.finished - o.started) / 10 ^ 6;
  files_seen = s.files_seen;
  total_bytes = s.total_bytes;
  files_unchanged = s.files_unchanged;
  files_skipped = s.files_skipped;
  files_missing = s.files_missing;
  tasks_created = s.tasks_created;
  scan_errors = s.scan_errors;
  error_message = error_text o failure lease_problem;
}

-- What scanOneFolder returns: the number of tasks that it created, and whether its scan and its end
-- had errors.
pub record Report : Type 0 where
  pub claimed : Bool
  pub created : ℕ
  pub clean : Bool
  pub unfinished : Option Err
  pub unrecorded : Option Err

abbrev pub nothing : Option Err → Report
nothing e = record {
  claimed = false;
  created = 0;
  clean = is_none e;
  unfinished = none;
  unrecorded = none;
}

abbrev pub error_in : Result (Unit {0}) → Option Err
error_in (ok u) = none
error_in (err e) = some e

module _ (S : Sql) (c : ScannerConfig) where
  open S use {Db}

  -- The heartbeat ends at the first renewal that fails or finds the lease lost.
  abbrev pub is_problem : Result Bool → Bool
  is_problem (ok renewed) = not renewed
  is_problem (err e) = true

  unfoldable pub beat_all : ℕ → Bool → List Beat → Db → Bool × Db
  beat_all id problem [] db = (problem, db)
  beat_all id problem (others o ∷ bs) db = beat_all id problem bs (call S o db)
  beat_all id true (ticked now ∷ bs) db = beat_all id true bs db
  beat_all id false (ticked now ∷ bs) db =
      let x = renew_scan_lease S now id c.instance_id (pos_part c.lease_duration) db in
      beat_all id (is_problem x.0) bs x.1

  -- An id of 0 is that of a run that could not be created.
  unfoldable pub record_run : ℕ → ScanRun → Db → Result (Unit {0}) × Db
  record_run zero run db = (ok tt, db)
  record_run (suc n) run db = finish_run S run db

  unfoldable pub end_of_scan : WatchFolder → Occasion → ℕ → Bool → Answer S → Report × Db
  end_of_scan f o run_id problem ((s, failure), db) =
      let x = finish_scan S o.finished f.id c.instance_id (scan_end c f o s failure problem) db in
      let y = record_run run_id (ended_run run_id f o s failure problem) x.1 in
      (
        record {
          claimed = true;
          created = s.tasks_created;
          clean = is_clean failure problem;
          unfinished = error_in x.0;
          unrecorded = error_in y.0;
        },
        y.1,
      )

  unfoldable pub scan_claimed : WatchFolder → Folder ⊎ Text → Occasion → ℕ → Db → Report × Db
  scan_claimed f prepared o run_id db =
      let x = beat_all f.id false o.beats db in
      end_of_scan f o run_id x.0 (scan_folder S prepared o.circumstances x.1)

  abbrev pub run_id_of : Result ℕ → ℕ
  run_id_of (ok id) = id
  run_id_of (err e) = 0

  abbrev pub with_run : WatchFolder → Folder ⊎ Text → Occasion → Result ℕ × Db → Report × Db
  with_run f prepared o x = scan_claimed f prepared o (run_id_of x.0) x.1

  abbrev pub if_claimed : WatchFolder → Folder ⊎ Text → Occasion → Result Bool × Db → Report × Db
  if_claimed f prepared o (err e, db) = (nothing (some e), db)
  if_claimed f prepared o (ok false, db) = (nothing none, db)
  if_claimed f prepared o (ok true, db) = with_run f prepared o (create_run S (started_run f o) db)

  -- scanOneFolder
  unfoldable pub scan_one_folder : WatchFolder → Folder ⊎ Text → Occasion → Db → Report × Db
  scan_one_folder f prepared o db = if_claimed f prepared o (
      claim_for_scan S o.started f.id c.instance_id f.updated_at o.started
        (pos_part c.lease_duration) db)
