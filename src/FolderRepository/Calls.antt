-- ===== src/FolderRepository/Calls.antt =====
-- One call that writes `watch_folders`, with its arguments and the time at which it runs. The
-- creation of a folder, which gets an id that no folder had, is left out.
use rclone_sync_hub_go_backe.Prelude.{ℕ, Text, Bool, List, [], ◌∷◌}
use rclone_sync_hub_go_backe.Model.Folders.{WatchFolder, RemoteRoute}
use rclone_sync_hub_go_backe.Database.Statement.{Sql}
use rclone_sync_hub_go_backe.FolderRepository.{
  Marshaled, update_folder, delete_folder, claim_for_scan, renew_scan_lease, finish_scan,
  record_upload_success, record_upload_failure, schedule_all_enabled_now,
}
use rclone_sync_hub_go_backe.FolderRepository.Columns.{ScanEnd}
use rclone_sync_hub_go_backe.RouteRepository.{update_route}

pub data FolderCall : Type 0 where
  claiming_scan : (now id : ℕ) (owner : Text) (expected started_at lease_duration : ℕ) → FolderCall
  renewing_scan : (now id : ℕ) (owner : Text) (lease_duration : ℕ) → FolderCall
  finishing_scan : (now id : ℕ) (owner : Text) (end : ScanEnd) → FolderCall
  counting_success : (now id size at : ℕ) → FolderCall
  counting_failure : (now id at : ℕ) → FolderCall
  scheduling_all : (now : ℕ) → FolderCall
  updating :
      (now : ℕ) (folder : WatchFolder) (steps : Marshaled) (require_idle destination_changed : Bool)
      → FolderCall
  removing : (now id : ℕ) → FolderCall
  rerouting : (now : ℕ) (route : RemoteRoute) (destination_changed : Bool) → FolderCall

module _ (S : Sql) where
  open S use {Db}

  unfoldable pub call : FolderCall → Db → Db
  call (claiming_scan now id w e s d) db = (claim_for_scan S now id w e s d db).1
  call (renewing_scan now id w d) db = (renew_scan_lease S now id w d db).1
  call (finishing_scan now id w e) db = (finish_scan S now id w e db).1
  call (counting_success now id size at) db = (record_upload_success S now id size at db).1
  call (counting_failure now id at) db = (record_upload_failure S now id at db).1
  call (scheduling_all now) db = (schedule_all_enabled_now S now db).1
  call (updating now f steps idle changed) db = (update_folder S now f steps idle changed db).1
  call (removing now id) db = (delete_folder S now id db).1
  call (rerouting now r changed) db = (update_route S now r changed db).1

  -- Calls one after the other, by any scanners and clients.
  unfoldable pub calls : List FolderCall → Db → Db
  calls [] db = db
  calls (c ∷ cs) db = calls cs (call c db)
