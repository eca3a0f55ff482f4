-- ===== src/Examples.antt =====
-- Concrete tasks, files and runs of internal/repository, internal/worker, internal/security,
-- internal/pathpipeline and internal/scheduler, on which the theorems are applied.
mod Tasks
mod Workers
mod Names
mod Scans
mod Tokens
mod Hubs
mod Folders
mod Requests
mod Moves
use rclone_sync_hub_go_backe.Prelude.{Text, codes, [], ◌∷◌, List, none, some, refl, true, pos}
use rclone_sync_hub_go_backe.Model.{UploadTask, FileRecord, pending, running}
use rclone_sync_hub_go_backe.Model.Folders.{WatchFolder, detecting, RemoteRoute, ready}
use rclone_sync_hub_go_backe.Database.InMemory.{Memory}

abbrev pub first_worker : Text
first_worker = codes "w1"

abbrev pub second_worker : Text
second_worker = codes "w2"

-- A task that waits, for the file record 7.
abbrev pub queued : UploadTask
queued = record {
  id = 1;
  file_record_id = 7;
  watch_folder_id = 3;
  watch_folder_name = codes "in";
  file_name = codes "a.txt";
  local_path = codes "/in/a.txt";
  remote_name = codes "box";
  remote_path = codes "up/a.txt";
  status = pending;
  progress = 0;
  speed = 0;
  retry_count = 0;
  priority = 0;
  error_msg = [];
  duration_seconds = 0;
  started_at = none;
  finished_at = none;
  last_status_at = none;
  last_progress_at = none;
  next_retry_at = none;
  lease_owner = [];
  lease_expires_at = none;
  heartbeat_at = none;
  cancel_requested_at = none;
  canceled_at = none;
  file_size = 5;
  file_fingerprint = codes "v1";
  idempotency_key = none;
  accumulated_failures = 0;
}

-- A task that the first worker runs until 200.
abbrev pub leased_task : UploadTask
leased_task = record queued {
  id = 2;
  status = running;
  retry_count = 1;
  started_at = some 100;
  lease_owner = first_worker;
  lease_expires_at = some 200;
}

abbrev pub file : FileRecord
file = record {
  id = 7;
  watch_folder_id = 3;
  local_path = codes "/in/a.txt";
  relative_path = codes "a.txt";
  remote_name = codes "box";
  remote_path = codes "up/a.txt";
  file_size = 5;
  file_mod_time = 9;
  fingerprint = codes "v1";
  last_seen_at = none;
  missing_at = none;
  uploaded_at = none;
}

-- The folder of the tasks, during a scan of the first worker until 200.
abbrev pub folder : WatchFolder
folder = record {
  id = 3;
  name = codes "in";
  local_path = codes "/in";
  remote_route_id = 5;
  remote_name = codes "box";
  remote_path = codes "up";
  sync_type = codes "local_to_remote";
  max_depth = pos 0;
  filter_keywords = [];
  enabled = true;
  status = detecting;
  last_error = [];
  last_scan_at = some 100;
  last_scan_started_at = some 100;
  last_scan_finished_at = none;
  last_scan_success_at = none;
  last_scan_duration_ms = 0;
  last_sync_at = none;
  next_scan_at = none;
  last_active_at = none;
  scan_lease_owner = first_worker;
  scan_lease_expires_at = some 200;
  total_file_count = 1;
  total_file_size = 5;
  uploaded_file_count = 0;
  uploaded_bytes = 0;
  failed_file_count = 0;
  window_uploaded_files = 0;
  window_uploaded_bytes = 0;
  scan_interval_seconds = pos 300;
  created_at = 1;
  updated_at = 100;
}

abbrev pub route : RemoteRoute
route = record {
  id = 5;
  name = codes "box";
  route_key = codes "k";
  remote_name = codes "box";
  remote_path = codes "up";
  enabled = true;
  status = ready;
  scan_interval_seconds = pos 3600;
  last_error = [];
  last_scan_started_at = none;
  last_scan_finished_at = none;
  last_scan_success_at = none;
  last_scan_duration_ms = 0;
  next_scan_at = none;
  scan_lease_owner = [];
  scan_lease_expires_at = none;
  total_file_count = 0;
  total_file_size = 0;
  created_at = 1;
  updated_at = 1;
}

abbrev pub store : Memory
store = record {
  rows = queued ∷ leased_task ∷ [];
  records = file ∷ [];
  watched = folder ∷ [];
  configured = [];
  routed = route ∷ [];
  indexed = [];
  ran = [];
  keyed = refl;
}
