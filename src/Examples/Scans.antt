-- ===== src/Examples/Scans.antt =====
-- The theorems of Scanner on a folder with a stored file and a new one.
use rclone_sync_hub_go_backe.Prelude.{
  ◌≤◌, ◌≡◌, ◌≢◌, refl, sym, ◌∙◌, inl, inr, ◌⊎◌, pos, ℕ, false, arith, Any, text_eq, Text, codes, [],
  ◌∷◌, ◌++◌, true, false, none, some, All,
}
use rclone_sync_hub_go_backe.Model.{FileRecord}
use rclone_sync_hub_go_backe.Database.Outcome.{ok as answered}
use rclone_sync_hub_go_backe.Database.InMemory.{Memory, in_memory}
use rclone_sync_hub_go_backe.TaskRepository.Operation.{run, requesting_cancel, claiming}
use rclone_sync_hub_go_backe.TaskRepository.Exclusive.{IsHeld}
use rclone_sync_hub_go_backe.TaskRepository.WellFormed.{IsWellFormed}
use rclone_sync_hub_go_backe.Model.Folders.{WatchFolder, watching}
use rclone_sync_hub_go_backe.PathPipeline.{ok}
use rclone_sync_hub_go_backe.Paths.{clean, split, trim_space, cleaned, join}
use rclone_sync_hub_go_backe.Scanner.{
  Entry, Folder, match_filter_keywords, parse_filter_keywords, lines, unix_lines, contains,
  join_remote_path, file_version_stable,
}
use rclone_sync_hub_go_backe.Scanner.Visit.{
  visit, visit_file, visit_version, propose, snapshot, find_record, note_snapshot,
}
use rclone_sync_hub_go_backe.Scanner.Walk.{
  Tree, file, directory, leaf, node, scan, walk, open_keys_of, legacy_paths_of,
}
use rclone_sync_hub_go_backe.Scanner.Sound.{accounted, scan-accounted}
use rclone_sync_hub_go_backe.Scanner.Proposals.{IsNew, scan-IsNew}
use rclone_sync_hub_go_backe.Scanner.Identified.{Once}
use rclone_sync_hub_go_backe.Scanner.Config.{ScannerConfig}
use rclone_sync_hub_go_backe.Scanner.Storing.{Circumstances, canceled, scan_folder, store_scan}
use rclone_sync_hub_go_backe.Scanner.Refreshing.{scan-Refreshed}
use rclone_sync_hub_go_backe.Scanner.Kept.{Kept, IsKeyed}
use rclone_sync_hub_go_backe.Scanner.Tasks.{scan_folder-keeps}
use rclone_sync_hub_go_backe.Scanner.Lifecycle.{
  Occasion, ticked, scan_one_folder, scan_claimed, end_of_scan, beat_all,
}
use rclone_sync_hub_go_backe.Scanner.Released.{IsGivenUp, due_time, scan_one_folder-claim}
use rclone_sync_hub_go_backe.FileRecordRepository.Refreshed.{Refreshed}
use rclone_sync_hub_go_backe.ScanRunRepository.{create_run}
use rclone_sync_hub_go_backe.FolderRepository.{claim_for_scan, finish_scan, renew_scan_lease}
use rclone_sync_hub_go_backe.FolderRepository.Columns.{schedulable}
use rclone_sync_hub_go_backe.Examples.{
  queued, file as stored_file, store, first_worker, second_worker, folder as watched,
}
use rclone_sync_hub_go_backe.Examples.Tasks.{
  queued-IsWellFormed, leased_task-IsWellFormed, leased_task-IsHeld,
}

abbrev folder : Folder
folder = record {
  id = 3;
  title = codes "in";
  root = codes "/in";
  remote_name = codes "box";
  remote_path = codes "up";
  filter_keywords = codes ".tmp";
  max_depth = 0;
  stable_period = 5;
  resolve_directory = λ name. ok none;
  fingerprint_of = λ size modified. codes "v2";
  key_of = λ path fingerprint remote_path. path ++ fingerprint;
  legacy_paths = [];
}

abbrev entry : Text → Text → Entry
entry path relative = record {
  path = path;
  relative = some relative;
  name = relative;
  info = some (record { size = 5; modified = 90; is_regular = true });
  canceled = false;
  now = 100;
}

abbrev tree : Tree
tree = directory (entry (codes "/in") (codes ".")) (
    node (file (entry (codes "/in/a.txt") (codes "a.txt")))
      (node (file (entry (codes "/in/b.txt") (codes "b.txt"))) leaf))

scan-accounted_example :
    (scan folder tree (stored_file ∷ []) (queued ∷ [])).1.files_seen
    ≤ accounted (scan folder tree (stored_file ∷ []) (queued ∷ [])).1
scan-accounted_example = scan-accounted folder tree (stored_file ∷ []) (queued ∷ [])

scan-IsNew_example :
    IsNew
      (open_keys_of (queued ∷ []))
      (scan folder tree (stored_file ∷ []) (queued ∷ [])).1.candidates
      (scan folder tree (stored_file ∷ []) (queued ∷ [])).1.active_keys
scan-IsNew_example = scan-IsNew folder tree (stored_file ∷ []) (queued ∷ [])

abbrev circumstances : Circumstances
circumstances = record {
  tree = tree;
  relative = λ root path. none;
  walk_stop = canceled;
  ended = none;
  during_walk = [];
  before_tasks = [];
  left_id = λ path. 0;
  now = 101;
  batch_size = 1;
}

abbrev missing_file : FileRecord
missing_file = record stored_file { missing_at = some 50 }

abbrev missing_store : Memory
missing_store = record store { records = missing_file ∷ [] }

one_record : IsKeyed (missing_file ∷ [])
one_record r f (inl a) (inl b) e = a ∙ sym b
one_record r f (inl a) (inr b) e = absurd b
one_record r f (inr a) b e = absurd a

tree-Once : Once (scan folder tree (missing_file ∷ []) (queued ∷ [])).1.seen
unfolding scan walk visit text_eq match_filter_keywords parse_filter_keywords lines unix_lines
    trim_space contains split visit_file join_remote_path visit_version propose file_version_stable
    snapshot find_record clean note_snapshot open_keys_of legacy_paths_of cleaned join
tree-Once = (refl, (refl, tt))

scan-Refreshed_example :
    Refreshed
      (Kept (missing_file ∷ []))
      (missing_file ∷ [])
      (store_scan in_memory folder circumstances
        (missing_file ∷ [])
        (scan folder tree (missing_file ∷ []) (queued ∷ []))
        none
        missing_store).1.records
unfolding run
scan-Refreshed_example =
    scan-Refreshed in_memory folder circumstances (missing_file ∷ []) (queued ∷ []) none
      missing_store (λ d. refl) (λ f m. m) one_record ((λ e. absurd (omega arith)), tt) tree-Once

-- The queued task is canceled during the walk, and the second worker claims one after it.
abbrev busy : Circumstances
busy = record circumstances {
  during_walk = requesting_cancel 1 90 ∷ [];
  before_tasks = claiming 150 second_worker 90 3 ∷ [];
}

scan_folder-keeps_example :
    Any (IsHeld 2 first_worker 200) (scan_folder in_memory (inl folder) busy store).1.rows
    × All IsWellFormed (scan_folder in_memory (inl folder) busy store).1.rows
scan_folder-keeps_example =
    scan_folder-keeps in_memory (inl folder) busy 2 first_worker 200 store (tt, tt)
      (omega arith, tt) (tt, tt) (tt, tt) (inr (inl leased_task-IsHeld))
      (queued-IsWellFormed, (leased_task-IsWellFormed, tt))

abbrev configuration : ScannerConfig
configuration = record {
  poll_interval = pos 30;
  default_interval = pos 300;
  folder_timeout = pos 1800;
  file_stable_period = pos 5;
  max_concurrent = pos 2;
  batch_size = pos 1;
  instance_id = second_worker;
  lease_duration = pos 90;
  heartbeat = pos 30;
}

-- A folder that no scanner has, and its scan.
abbrev idle : WatchFolder
idle = record watched { status = watching; scan_lease_owner = []; scan_lease_expires_at = none }

abbrev idle_store : Memory
idle_store = record store { watched = idle ∷ [] }

abbrev occasion : Occasion
occasion = record {
  started = 95;
  finished = 120;
  context_done = false;
  canceled_statement = false;
  canceled_renewal = false;
  beats = ticked 110 ∷ [];
  circumstances = circumstances;
  message_of = λ failure problem. codes "scan failed";
}

-- The root of the folder cannot be read.
abbrev unreadable : Folder ⊎ Text
unreadable = inr (codes "stat local path")

claimed_idle :
    (scan_one_folder in_memory configuration idle unreadable occasion idle_store).0.claimed ≡ true
unfolding scan_one_folder claim_for_scan scan_claimed end_of_scan text_eq
claimed_idle = refl

finished_idle :
    (scan_one_folder in_memory configuration idle unreadable occasion idle_store).0.unfinished
    ≡ none
unfolding scan_one_folder claim_for_scan scan_claimed end_of_scan text_eq finish_scan beat_all
    renew_scan_lease scan_folder create_run
finished_idle = refl

scan_one_folder-claim_example :
    (r : WatchFolder) × IsGivenUp in_memory configuration idle occasion
      (scan_one_folder in_memory configuration idle unreadable occasion idle_store).1
      r
    × ((now expected t lease : ℕ) (owner : Text)
        → (expected ≡ 0) ⊎ (expected ≡ r.updated_at)
        → schedulable r ≡ true
        → due_time in_memory configuration idle occasion ≤ t
        → (claim_for_scan in_memory now idle.id owner expected t lease
            (scan_one_folder in_memory configuration idle unreadable occasion idle_store).1).0
          ≢ answered false)
scan_one_folder-claim_example =
    scan_one_folder-claim in_memory configuration idle occasion unreadable idle_store claimed_idle
      finished_idle
