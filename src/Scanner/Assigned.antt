-- ===== src/Scanner/Assigned.antt =====
-- The file records that the tasks of a scan are created for.
use rclone_sync_hub_go_backe.Prelude.{◌≡◌, ◌≢◌, List, Member, ◌⊎◌}
use rclone_sync_hub_go_backe.Paths.{clean}
use rclone_sync_hub_go_backe.Model.{UploadTask, FileRecord}
use rclone_sync_hub_go_backe.TaskRepository.Written.{HasVersion}
use rclone_sync_hub_go_backe.Scanner.Proposals.{IsAt}

-- A task that is to be created: it has the path, the version and the destination of a snapshot, and
-- the id of a record, which is that of the record at its path after the snapshots were stored, or of
-- the snapshot, where no such record has an id.
pub record IsIdentified (stored records changed : List FileRecord) (t : UploadTask) : Type 0 where
  pub identified : t.file_record_id ≢ 0
  pub snapshot : FileRecord
  pub is_written : Member snapshot records ⊎ Member snapshot changed
  pub version : HasVersion snapshot.id t.file_fingerprint t.remote_name t.remote_path snapshot
  pub place : IsAt t.local_path snapshot
  pub named :
      ((f : FileRecord) × Member f stored
        × (f.id ≡ t.file_record_id)
        × (clean f.local_path ≡ clean t.local_path))
      ⊎ (snapshot.id ≡ t.file_record_id)
