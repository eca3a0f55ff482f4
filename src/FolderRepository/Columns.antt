-- ===== src/FolderRepository/Columns.antt =====
-- internal/repository/watch_folder_repository.go: the conditions and the assignments of its
-- statements on `watch_folders`, as functions of one row. A time of 0 is Go's zero time.
use rclone_sync_hub_go_backe.Prelude.{
  ℕ, ◌+◌, Text, codes, text_eq, Bool, true, not, ◌&&◌, ◌||◌, ◌==◌, ltb, Option, none, some,
  if◌then◌else◌,
}
use rclone_sync_hub_go_backe.Model.Folders.{
  WatchFolder, FolderStatus, detecting, stopped, suspended, is_folder,
}
use rclone_sync_hub_go_backe.TaskRepository.Rows.{null_or_past}

abbrev pub folder_id : ℕ → WatchFolder → Bool
folder_id id f = f.id == id

abbrev pub schedulable : WatchFolder → Bool
schedulable f = f.enabled && not (is_folder f.status stopped || is_folder f.status suspended)

-- `x == nil || x.After(now)`
abbrev pub null_or_after : Option ℕ → ℕ → Bool
null_or_after none now = true
null_or_after (some at) now = ltb now at

-- Delete: a scan whose lease has not expired.
abbrev pub live_scan : ℕ → WatchFolder → Bool
live_scan now f = is_folder f.status detecting && null_or_after f.scan_lease_expires_at now

abbrev pub due : ℕ → WatchFolder → Bool
due at f =
    schedulable f && null_or_past f.next_scan_at at && null_or_past f.scan_lease_expires_at at

abbrev pub scan_claimable : ℕ → ℕ → ℕ → WatchFolder → Bool
scan_claimable id expected started_at f =
    f.id == id && due started_at f && (expected == 0 || f.updated_at == expected)

abbrev pub start_scan : ℕ → Text → ℕ → ℕ → WatchFolder → WatchFolder
start_scan now owner started_at lease_duration f = record f {
  status = detecting;
  last_error = codes "";
  last_scan_at = some started_at;
  last_scan_started_at = some started_at;
  scan_lease_owner = owner;
  scan_lease_expires_at = some (started_at + lease_duration);
  updated_at = now;
}

abbrev pub scan_leased : ℕ → Text → WatchFolder → Bool
scan_leased id owner f =
    f.id == id && is_folder f.status detecting && text_eq f.scan_lease_owner owner

abbrev pub renew_scan : ℕ → ℕ → WatchFolder → WatchFolder
renew_scan now lease_duration f = record f {
  scan_lease_expires_at = some (now + lease_duration);
  updated_at = now;
}

-- The columns with which scanOneFolder ends a scan.
pub record ScanEnd : Type 0 where
  pub status : FolderStatus
  pub last_error : Text
  pub finished_at : ℕ
  pub duration_ms : ℕ
  pub next_scan_at : Option ℕ
  pub total_file_count : ℕ
  pub total_file_size : ℕ
  pub succeeded : Bool

abbrev pub scan_owned : ℕ → Text → WatchFolder → Bool
scan_owned id owner f = f.id == id && text_eq f.scan_lease_owner owner

-- The desired status is set on an enabled folder that was neither stopped nor paused meanwhile.
abbrev pub end_scan : ℕ → ScanEnd → WatchFolder → WatchFolder
end_scan now e f = record f {
  status = if schedulable f then e.status else f.status;
  last_error = e.last_error;
  last_scan_finished_at = some e.finished_at;
  last_scan_duration_ms = e.duration_ms;
  next_scan_at = e.next_scan_at;
  total_file_count = e.total_file_count;
  total_file_size = e.total_file_size;
  scan_lease_owner = codes "";
  scan_lease_expires_at = none;
  last_scan_success_at = if e.succeeded then some e.finished_at else f.last_scan_success_at;
  updated_at = now;
}

-- Update: the version that was read, and no scan where an idle folder is required.
abbrev pub updatable : WatchFolder → Bool → WatchFolder → Bool
updatable given require_idle f =
    f.id == given.id
    && (given.updated_at == 0 || f.updated_at == given.updated_at)
    && not (require_idle && is_folder f.status detecting)

abbrev pub update_columns : ℕ → WatchFolder → WatchFolder → WatchFolder
update_columns now given f = record f {
  name = given.name;
  local_path = given.local_path;
  remote_route_id = given.remote_route_id;
  remote_name = given.remote_name;
  remote_path = given.remote_path;
  sync_type = given.sync_type;
  max_depth = given.max_depth;
  filter_keywords = given.filter_keywords;
  scan_interval_seconds = given.scan_interval_seconds;
  status = given.status;
  enabled = given.enabled;
  next_scan_at = none;
  updated_at = now;
}

abbrev pub schedule : ℕ → WatchFolder → WatchFolder
schedule now f = record f { next_scan_at = some now; updated_at = now }

abbrev pub count_success : ℕ → ℕ → ℕ → WatchFolder → WatchFolder
count_success now size at f = record f {
  uploaded_file_count = f.uploaded_file_count + 1;
  uploaded_bytes = f.uploaded_bytes + size;
  window_uploaded_files = f.window_uploaded_files + 1;
  window_uploaded_bytes = f.window_uploaded_bytes + size;
  last_sync_at = some at;
  last_active_at = some at;
  updated_at = now;
}

abbrev pub count_failure : ℕ → ℕ → WatchFolder → WatchFolder
count_failure now at f = record f {
  failed_file_count = f.failed_file_count + 1;
  last_active_at = some at;
  updated_at = now;
}
