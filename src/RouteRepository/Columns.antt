-- ===== src/RouteRepository/Columns.antt =====
-- internal/repository/remote_route_repository.go: the conditions and the assignments of its
-- statements, as functions of one row. A time of 0 is Go's zero time.
use rclone_sync_hub_go_backe.Prelude.{
  ℕ, ◌+◌, Text, codes, text_eq, Bool, not, ◌&&◌, ◌||◌, ◌==◌, Option, none, some, is_some, is_none,
  if◌then◌else◌,
}
use rclone_sync_hub_go_backe.Model.Folders.{
  WatchFolder, RemoteRoute, RemoteFileRecord, RouteStatus, scanning, disabled, waiting, is_route,
}
use rclone_sync_hub_go_backe.TaskRepository.Rows.{null_or_past, before}
use rclone_sync_hub_go_backe.FolderRepository.Columns.{null_or_after}

abbrev pub route_id : ℕ → RemoteRoute → Bool
route_id id r = r.id == id

abbrev pub live_index : ℕ → RemoteRoute → Bool
live_index now r = is_route r.status scanning && null_or_after r.scan_lease_expires_at now

-- Update: the row was changed after it was read.
abbrev pub changed_since : RemoteRoute → RemoteRoute → Bool
changed_since given r = not (given.updated_at == 0) && not (r.updated_at == given.updated_at)

abbrev pub route_columns : ℕ → RemoteRoute → RemoteRoute → RemoteRoute
route_columns now given r = record r {
  name = given.name;
  route_key = given.route_key;
  remote_name = given.remote_name;
  remote_path = given.remote_path;
  enabled = given.enabled;
  scan_interval_seconds = given.scan_interval_seconds;
  status = if given.enabled then given.status else disabled;
  next_scan_at = if given.enabled then given.next_scan_at else none;
  updated_at = now;
}

abbrev pub linked_to : ℕ → WatchFolder → Bool
linked_to id f = f.remote_route_id == id

abbrev pub redirect : ℕ → RemoteRoute → WatchFolder → WatchFolder
redirect now given f = record f {
  remote_name = given.remote_name;
  remote_path = given.remote_path;
  next_scan_at = some now;
  updated_at = now;
}

abbrev pub present_in : ℕ → RemoteFileRecord → Bool
present_in id r = r.remote_route_id == id && is_none r.missing_at

abbrev pub lose : ℕ → RemoteFileRecord → RemoteFileRecord
lose now r = record r { missing_at = some now; updated_at = now }

abbrev pub index_of : ℕ → RemoteFileRecord → Bool
index_of id r = r.remote_route_id == id

-- ClaimForScan
abbrev pub index_claimable : ℕ → ℕ → ℕ → RemoteRoute → Bool
index_claimable id expected started_at r =
    r.id == id
    && r.enabled
    && null_or_past r.next_scan_at started_at
    && null_or_past r.scan_lease_expires_at started_at
    && (expected == 0 || r.updated_at == expected)

abbrev pub start_index : ℕ → Text → ℕ → ℕ → RemoteRoute → RemoteRoute
start_index now owner started_at lease_duration r = record r {
  status = scanning;
  last_error = codes "";
  last_scan_started_at = some started_at;
  scan_lease_owner = owner;
  scan_lease_expires_at = some (started_at + lease_duration);
  updated_at = now;
}

abbrev pub index_leased : ℕ → Text → RemoteRoute → Bool
index_leased id owner r =
    r.id == id && is_route r.status scanning && text_eq r.scan_lease_owner owner

abbrev pub renew_index : ℕ → ℕ → RemoteRoute → RemoteRoute
renew_index now lease_duration r = record r {
  scan_lease_expires_at = some (now + lease_duration);
  updated_at = now;
}

-- The columns with which scanOne of the remote route scanner ends; the totals of a scan that
-- succeeded.
pub record IndexEnd : Type 0 where
  pub status : RouteStatus
  pub last_error : Text
  pub finished_at : ℕ
  pub duration_ms : ℕ
  pub next_scan_at : Option ℕ
  pub totals : Option (ℕ × ℕ)

abbrev pub index_owned : ℕ → Text → RemoteRoute → Bool
index_owned id owner r = r.id == id && text_eq r.scan_lease_owner owner

abbrev pub with_totals : Option (ℕ × ℕ) → ℕ → RemoteRoute → RemoteRoute
with_totals none at r = r
with_totals (some (files, bytes)) at r = record r {
  last_scan_success_at = some at;
  total_file_count = files;
  total_file_size = bytes;
}

abbrev pub end_index : ℕ → IndexEnd → RemoteRoute → RemoteRoute
end_index now e r = with_totals e.totals e.finished_at (record r {
  status = if r.enabled then e.status else disabled;
  last_error = e.last_error;
  last_scan_finished_at = some e.finished_at;
  last_scan_duration_ms = e.duration_ms;
  next_scan_at = e.next_scan_at;
  scan_lease_owner = codes "";
  scan_lease_expires_at = none;
  updated_at = now;
})

abbrev pub index_idle : ℕ → RemoteRoute → Bool
index_idle now r = r.enabled && null_or_past r.scan_lease_expires_at now

abbrev pub schedule_index : ℕ → RemoteRoute → RemoteRoute
schedule_index now r = record r { next_scan_at = some now; status = waiting; updated_at = now }

-- The unique index of `remote_file_records`, and the columns of ON DUPLICATE KEY UPDATE.
abbrev pub same_entry : RemoteFileRecord → RemoteFileRecord → Bool
same_entry a b = b.remote_route_id == a.remote_route_id && text_eq b.path_hash a.path_hash

abbrev pub refresh_entry : RemoteFileRecord → RemoteFileRecord → RemoteFileRecord
refresh_entry a b = record a {
  id = b.id;
  remote_route_id = b.remote_route_id;
  path_hash = b.path_hash;
}

-- DeleteUnseenFileRecords
abbrev pub unseen : ℕ → ℕ → RemoteFileRecord → Bool
unseen id scan_started r =
    r.remote_route_id == id
    && (is_some r.missing_at || is_none r.last_seen_at || before r.last_seen_at scan_started)
