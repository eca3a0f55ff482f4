-- ===== src/Model/Folders.antt =====
-- internal/model/watch_folder.go, internal/model/remote_route.go and
-- internal/model/remote_file_record.go: the rows of `watch_folders`, `watch_folder_path_pipelines`,
-- `remote_routes` and `remote_file_records`. GORM sets `updated_at` in each update.
use rclone_sync_hub_go_backe.Prelude.{ℕ, ℤ, Text, Bool, ◌==◌, Option}

-- The strings `WatchFolderStatus…` of the column `status`.
pub data FolderStatus : Type 0 where
  detecting watching stopped suspended broken : FolderStatus

abbrev pub folder_rank : FolderStatus → ℕ
folder_rank detecting = 0
folder_rank watching = 1
folder_rank stopped = 2
folder_rank suspended = 3
folder_rank broken = 4

abbrev pub is_folder : FolderStatus → FolderStatus → Bool
is_folder a b = folder_rank a == folder_rank b

pub record WatchFolder : Type 0 where
  pub id : ℕ
  pub name : Text
  pub local_path : Text
  pub remote_route_id : ℕ
  pub remote_name : Text
  pub remote_path : Text
  pub sync_type : Text
  pub max_depth : ℤ
  pub filter_keywords : Text
  pub enabled : Bool
  pub status : FolderStatus
  pub last_error : Text
  pub last_scan_at : Option ℕ
  pub last_scan_started_at : Option ℕ
  pub last_scan_finished_at : Option ℕ
  pub last_scan_success_at : Option ℕ
  pub last_scan_duration_ms : ℕ
  pub last_sync_at : Option ℕ
  pub next_scan_at : Option ℕ
  pub last_active_at : Option ℕ
  pub scan_lease_owner : Text
  pub scan_lease_expires_at : Option ℕ
  pub total_file_count : ℕ
  pub total_file_size : ℕ
  pub uploaded_file_count : ℕ
  pub uploaded_bytes : ℕ
  pub failed_file_count : ℕ
  pub window_uploaded_files : ℕ
  pub window_uploaded_bytes : ℕ
  pub scan_interval_seconds : ℤ
  pub created_at : ℕ
  pub updated_at : ℕ

-- The steps of a folder's pipeline, as JSON.
pub record FolderPipeline : Type 0 where
  pub watch_folder_id : ℕ
  pub steps_json : Text

-- The strings `RemoteRouteStatus…`.
pub data RouteStatus : Type 0 where
  waiting scanning ready faulty disabled : RouteStatus

abbrev pub route_rank : RouteStatus → ℕ
route_rank waiting = 0
route_rank scanning = 1
route_rank ready = 2
route_rank faulty = 3
route_rank disabled = 4

abbrev pub is_route : RouteStatus → RouteStatus → Bool
is_route a b = route_rank a == route_rank b

pub record RemoteRoute : Type 0 where
  pub id : ℕ
  pub name : Text
  pub route_key : Text
  pub remote_name : Text
  pub remote_path : Text
  pub enabled : Bool
  pub status : RouteStatus
  pub scan_interval_seconds : ℤ
  pub last_error : Text
  pub last_scan_started_at : Option ℕ
  pub last_scan_finished_at : Option ℕ
  pub last_scan_success_at : Option ℕ
  pub last_scan_duration_ms : ℕ
  pub next_scan_at : Option ℕ
  pub scan_lease_owner : Text
  pub scan_lease_expires_at : Option ℕ
  pub total_file_count : ℕ
  pub total_file_size : ℕ
  pub created_at : ℕ
  pub updated_at : ℕ

pub record RemoteFileRecord : Type 0 where
  pub id : ℕ
  pub remote_route_id : ℕ
  pub path_hash : Text
  pub path : Text
  pub parent_hash : Text
  pub parent_path : Text
  pub name : Text
  pub is_dir : Bool
  pub size : ℕ
  pub mod_time : Option ℕ
  pub mime_type : Text
  pub last_seen_at : Option ℕ
  pub missing_at : Option ℕ
  pub updated_at : ℕ

-- The strings `ScanRunStatus…`.
pub data RunStatus : Type 0 where
  run_running run_success run_failed run_canceled : RunStatus

pub record ScanRun : Type 0 where
  pub id : ℕ
  pub watch_folder_id : ℕ
  pub watch_folder_name : Text
  pub status : RunStatus
  pub started_at : ℕ
  pub finished_at : Option ℕ
  pub duration_ms : ℕ
  pub files_seen : ℕ
  pub total_bytes : ℕ
  pub files_unchanged : ℕ
  pub files_skipped : ℕ
  pub files_missing : ℕ
  pub tasks_created : ℕ
  pub scan_errors : ℕ
  pub error_message : Text
