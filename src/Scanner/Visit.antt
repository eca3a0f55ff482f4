-- ===== src/Scanner/Visit.antt =====
-- internal/scheduler/watch_folder_scanner.go: what the callback of `WalkDir` does with one entry. The
-- snapshot of a path is written at most once in a walk, so the model keeps values, not pointers.
use rclone_sync_hub_go_backe.Prelude.{
  ℕ, ◌+◌, Text, text_eq, [], ◌∷◌, ◌++◌, List, Bool, true, false, not, ◌&&◌, ◌||◌, ◌==◌, ltb, length,
  some_of, is_some, if◌then◌else◌, Option, none, some,
}
use rclone_sync_hub_go_backe.Paths.{clean, dot, trim_last_slash}
use rclone_sync_hub_go_backe.Model.{UploadTask, FileRecord, pending}
use rclone_sync_hub_go_backe.PathPipeline.{Outcome, ok, fail}
use rclone_sync_hub_go_backe.Scanner.{
  Info, Entry, Folder, Version, base, file_version_stable, join_remote_path, relative_depth,
  match_filter_keywords, parse_filter_keywords,
}

pub data Cause : Type 0 where
  stopped walking relative_path file_info upload_path long_remote_path without_record : Cause

pub record Problem : Type 0 where
  pub cause : Cause
  pub at : Text

-- The variables of scanFolder that the callback writes.
pub record Scan : Type 0 where
  pub files_seen : ℕ
  pub total_bytes : ℕ
  pub files_unchanged : ℕ
  pub files_skipped : ℕ
  pub scan_errors : ℕ
  pub first_problem : Option Problem
  pub records : List FileRecord
  pub new_snapshots : List FileRecord
  pub changed_snapshots : List FileRecord
  pub clear_uploaded : List ℕ
  pub candidates : List UploadTask
  pub active_keys : List Text
  pub seen : List Text
  pub excluded : List Text

-- What the callback returns: nil, `filepath.SkipDir`, or an error that ends the walk.
pub data Verdict : Type 0 where
  go_on skip_directory : Verdict
  stop : Problem → Verdict

abbrev pub listed : Text → List Text → Bool
listed x xs = some_of (text_eq x) xs

abbrev pub first_of : Option Problem → Problem → Option Problem
first_of none p = some p
first_of (some q) p = some q

-- recordProblem
abbrev pub record_problem : Cause → Text → Scan → Scan
record_problem c path s = record s {
  scan_errors = s.scan_errors + 1;
  first_problem = first_of s.first_problem (record { cause = c; at = path });
}

-- `recordByPath`: of two records of one path, the later.
unfoldable pub find_record : Text → List FileRecord → Option FileRecord
find_record path [] = none
find_record path (f ∷ fs) = elim (find_record path fs) [
  | some g ↦ some g
  | none ↦ if text_eq (clean f.local_path) path then some f else none
]

abbrev pub blank : Text → FileRecord
blank path = record {
  id = 0;
  watch_folder_id = 0;
  local_path = path;
  relative_path = [];
  remote_name = [];
  remote_path = [];
  file_size = 0;
  file_mod_time = 0;
  fingerprint = [];
  last_seen_at = none;
  missing_at = none;
  uploaded_at = none;
}

abbrev pub refreshed : Folder → Version → FileRecord → FileRecord
refreshed w v f = record f {
  watch_folder_id = w.id;
  relative_path = v.relative;
  remote_name = w.remote_name;
  remote_path = v.remote_path;
  file_size = v.size;
  file_mod_time = v.modified;
  fingerprint = v.fingerprint;
  last_seen_at = some v.now;
}

abbrev pub version_changed : Version → FileRecord → Bool
version_changed v f = not (text_eq f.fingerprint []) && not (text_eq f.fingerprint v.fingerprint)

abbrev pub target_changed : Folder → Version → FileRecord → Bool
target_changed w v f =
    not (f.watch_folder_id == w.id)
    || (not (text_eq f.remote_name w.remote_name) || not (text_eq f.remote_path v.remote_path))

abbrev pub needs_write : Folder → Version → FileRecord → Bool
needs_write w v f =
    not (text_eq f.fingerprint v.fingerprint)
    || target_changed w v f
    || not (text_eq f.relative_path v.relative)
    || is_some f.missing_at

abbrev pub clears_upload : Folder → Version → FileRecord → Bool
clears_upload w v f =
    not (text_eq f.fingerprint []) && (version_changed v f || target_changed w v f)

-- The snapshot after the visit.
unfoldable pub snapshot : Folder → Version → Option FileRecord → FileRecord
snapshot w v none = refreshed w v (blank v.path)
snapshot w v (some f) =
    if needs_write w v f
    then (if clears_upload w v f
        then record (refreshed w v f) { uploaded_at = none }
        else refreshed w v f)
    else f

-- The lists of snapshots to write.
unfoldable pub note_snapshot : Folder → Version → Option FileRecord → Scan → Scan
note_snapshot w v none s =
    let f = snapshot w v none in
    record s { new_snapshots = s.new_snapshots ++ f ∷ []; records = s.records ++ f ∷ [] }
note_snapshot w v (some f) s =
    if needs_write w v f
    then record s {
      changed_snapshots = s.changed_snapshots ++ snapshot w v (some f) ∷ [];
      clear_uploaded =
          if clears_upload w v f then s.clear_uploaded ++ f.id ∷ [] else s.clear_uploaded;
    }
    else s

abbrev pub candidate : Folder → Version → FileRecord → Text → UploadTask
candidate w v f key = record {
  id = 0;
  file_record_id = f.id;
  watch_folder_id = w.id;
  watch_folder_name = w.title;
  file_name = base v.path;
  local_path = v.path;
  remote_name = w.remote_name;
  remote_path = v.remote_path;
  status = pending;
  progress = 0;
  speed = 0;
  retry_count = 0;
  priority = 0;
  error_msg = [];
  duration_seconds = 0;
  started_at = none;
  finished_at = none;
  last_status_at = none;
  last_progress_at = none;
  next_retry_at = none;
  lease_owner = [];
  lease_expires_at = none;
  heartbeat_at = none;
  cancel_requested_at = none;
  canceled_at = none;
  file_size = v.size;
  file_fingerprint = v.fingerprint;
  idempotency_key = some key;
  accumulated_failures = 0;
}

abbrev pub unchanged : Scan → Scan
unchanged s = record s { files_unchanged = s.files_unchanged + 1 }

abbrev pub skipped : Scan → Scan
skipped s = record s { files_skipped = s.files_skipped + 1 }

abbrev pub version_key : Folder → Version → Text
version_key w v = w.key_of v.path v.fingerprint v.remote_path

abbrev pub proposed : Folder → Version → FileRecord → Scan → Scan
proposed w v f s = record s {
  candidates = s.candidates ++ candidate w v f (version_key w v) ∷ [];
  active_keys = version_key w v ∷ s.active_keys;
}

-- Whether the version becomes an upload task.
unfoldable pub propose : Folder → Version → FileRecord → Scan → Scan
propose w v f s =
    if not (file_version_stable v.now v.modified f.last_seen_at w.stable_period)
    then skipped s
    else if is_some f.uploaded_at
    then unchanged s
    else if listed (version_key w v) s.active_keys
    then unchanged s
    else if listed v.path w.legacy_paths
    then unchanged s
    else proposed w v f s

unfoldable pub visit_version : Folder → Version → Scan → Scan
visit_version w v s =
    let o = find_record v.path s.records in propose w v (snapshot w v o) (note_snapshot w v o s)

abbrev pub remote_path_of : Folder → Text → Option Text → Text
remote_path_of w relative none = join_remote_path (trim_last_slash w.remote_path) relative
remote_path_of w relative (some d) =
    join_remote_path (trim_last_slash w.remote_path) (join_remote_path d relative)

abbrev pub visit_target : Folder → Entry → Info → Text → Outcome (Option Text) → Scan → Scan
visit_target w e i relative (fail x) s = record_problem upload_path (clean e.path) s
visit_target w e i relative (ok d) s =
    if ltb 768 (length (remote_path_of w relative d))
    then record_problem long_remote_path (clean e.path) s
    else visit_version w
        (record {
          path = clean e.path;
          relative = relative;
          name = e.name;
          size = i.size;
          modified = i.modified;
          fingerprint = w.fingerprint_of i.size i.modified;
          remote_path = remote_path_of w relative d;
          now = e.now;
        })
        s

abbrev pub count_file : Entry → Info → Scan → Scan
count_file e i s = record s {
  files_seen = s.files_seen + 1;
  total_bytes = s.total_bytes + i.size;
  seen = clean e.path ∷ s.seen;
}

-- A file that no keyword excludes.
unfoldable pub visit_file : Folder → Entry → Text → Option Info → Scan → Scan
visit_file w e relative none s = record_problem file_info e.path s
visit_file w e relative (some i) s =
    if i.is_regular
    then visit_target w e i relative (w.resolve_directory e.name) (count_file e i s)
    else s

abbrev pub excluded_by : Folder → Text → Bool
excluded_by w relative =
    not (text_eq relative dot)
    && match_filter_keywords relative (parse_filter_keywords w.filter_keywords)

abbrev pub exclude : Entry → Scan → Verdict × Scan
exclude e s = (skip_directory, record s { excluded = clean e.path ∷ s.excluded })

abbrev pub too_deep : Folder → Text → Bool
too_deep w relative =
    ltb 0 w.max_depth && (not (text_eq relative dot) && ltb w.max_depth (relative_depth relative))

abbrev pub visit_placed : Folder → Bool → Entry → Option Text → Scan → Verdict × Scan
visit_placed w is_directory e none s = (go_on, record_problem relative_path e.path s)
visit_placed w true e (some relative) s =
    if excluded_by w relative || too_deep w relative then exclude e s else (go_on, s)
visit_placed w false e (some relative) s =
    if excluded_by w relative
    then (go_on, record s { seen = clean e.path ∷ s.seen })
    else (go_on, visit_file w e relative e.info s)

abbrev pub stopped_at : Entry → Verdict
stopped_at e = stop (record { cause = stopped; at = e.path })

-- The callback without a problem of the walk.
unfoldable pub visit : Folder → Bool → Entry → Scan → Verdict × Scan
visit w is_directory e s =
    if e.canceled then (stopped_at e, s) else visit_placed w is_directory e e.relative s

-- The callback with a problem; that of the root ends the walk.
unfoldable pub visit_problem : Folder → Bool → Entry → Scan → Verdict × Scan
visit_problem w is_directory e s =
    if e.canceled
    then (stopped_at e, s)
    else if text_eq e.path w.root
    then (stop (record { cause = walking; at = e.path }), record_problem walking e.path s)
    else if is_directory
    then (skip_directory, record_problem walking e.path s)
    else (go_on, record_problem walking e.path s)
