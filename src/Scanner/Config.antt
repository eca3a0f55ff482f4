-- ===== src/Scanner/Config.antt =====
-- internal/scheduler/watch_folder_scanner.go: the configuration of a scanner, its normalisation by
-- `NewWatchFolderScanner`, and the interval of a folder.
use rclone_sync_hub_go_backe.Prelude.{
  ◌*◌, Text, text_eq, [], ltb_ℤ, if◌then◌else◌, ℤ, pos, i64, pos_part,
}
use rclone_sync_hub_go_backe.Worker.Config.{second, positive_or, heartbeat_or}

pub record ScannerConfig : Type 0 where
  pub poll_interval : ℤ
  pub default_interval : ℤ
  pub folder_timeout : ℤ
  pub file_stable_period : ℤ
  pub max_concurrent : ℤ
  pub batch_size : ℤ
  pub instance_id : Text
  pub lease_duration : ℤ
  pub heartbeat : ℤ

unfoldable pub new_scanner : Text → ScannerConfig → ScannerConfig
new_scanner generated c =
    let lease = positive_or (90 * second) c.lease_duration in
    record {
      poll_interval = positive_or (30 * second) c.poll_interval;
      default_interval = positive_or (300 * second) c.default_interval;
      folder_timeout = positive_or (1800 * second) c.folder_timeout;
      file_stable_period =
          if ltb_ℤ c.file_stable_period (pos 0) then pos 0 else c.file_stable_period;
      max_concurrent = positive_or 2 c.max_concurrent;
      batch_size = positive_or 500 c.batch_size;
      instance_id = if text_eq c.instance_id [] then generated else c.instance_id;
      lease_duration = lease;
      heartbeat = heartbeat_or lease c.heartbeat;
    }

-- intervalFor; `seconds` is the folder's own interval.
unfoldable pub interval_for : ScannerConfig → ℤ → ℤ
interval_for c seconds =
    if ltb_ℤ (pos 0) seconds then i64 (pos (pos_part seconds * second)) else c.default_interval
