-- ===== src/Scanner/Walk.antt =====
-- internal/scheduler/watch_folder_scanner.go: `filepath.WalkDir` with the callback of `scanFolder`
-- over the tree of a folder, and what follows the walk.
use rclone_sync_hub_go_backe.Prelude.{
  ℕ, Text, text_eq, [], ◌∷◌, List, Bool, true, false, not, ◌&&◌, ◌||◌, ◌==◌, is_some, is_none,
  if◌then◌else◌, Option, none, some, some_of,
}
use rclone_sync_hub_go_backe.Paths.{clean}
use rclone_sync_hub_go_backe.Model.{UploadTask, FileRecord}
use rclone_sync_hub_go_backe.Security.Policy.{stays_below}
use rclone_sync_hub_go_backe.Scanner.{Entry, Folder}
use rclone_sync_hub_go_backe.Scanner.Visit.{
  Scan, Problem, Verdict, go_on, skip_directory, stop, visit, visit_problem, listed, find_record,
}

-- A file, a directory that can be read, one that cannot, and an entry without information.
mutual
  pub data Tree : Type 0 where
    file : Entry → Tree
    directory : Entry → Forest → Tree
    unreadable : Entry → (again : Entry) → Tree
    unknown : Entry → Tree

  pub data Forest : Type 0 where
    leaf : Forest
    node : Tree → Forest → Forest

-- An error ends the walk; `SkipDir` is none.
abbrev pub error_of : Verdict → Option Problem
error_of go_on = none
error_of skip_directory = none
error_of (stop p) = some p

-- Goes on with the second part of a walk unless the first has ended it.
abbrev pub then_walk :
    Option Problem × Scan → (Scan → Option Problem × Scan) → Option Problem × Scan
then_walk x f = elim x.0 [ some p ↦ (some p, x.1) | none ↦ f x.1 ]

-- The entries below a directory, unless the callback has skipped it or ended the walk.
abbrev pub enter : Verdict × Scan → (Scan → Option Problem × Scan) → Option Problem × Scan
enter x f = elim x.0 [ go_on ↦ f x.1 | skip_directory ↦ (none, x.1) | stop p ↦ (some p, x.1) ]

abbrev pub leave : Verdict × Scan → Option Problem × Scan
leave x = (error_of x.0, x.1)

unfoldable mutual
  pub walk : Folder → Tree → Scan → Option Problem × Scan
  walk w (file e) s = leave (visit w false e s)
  walk w (directory e f) s = enter (visit w true e s) (λ t. walk_all w f t)
  walk w (unreadable e again) s =
      enter (visit w true e s) (λ t. leave (visit_problem w true again t))
  walk w (unknown e) s = leave (visit_problem w false e s)

  pub walk_all : Folder → Forest → Scan → Option Problem × Scan
  walk_all w leaf s = (none, s)
  walk_all w (node t f) s = then_walk (walk w t s) (λ u. walk_all w f u)

-- The keys of the open tasks, and the paths of those without a key.
unfoldable pub open_keys_of : List UploadTask → List Text
open_keys_of [] = []
open_keys_of (t ∷ ts) =
    let rest = open_keys_of ts in
    elim t.idempotency_key [ none ↦ rest | some k ↦ if text_eq k [] then rest else k ∷ rest ]

abbrev pub has_key : Option Text → Bool
has_key none = false
has_key (some k) = not (text_eq k [])

unfoldable pub legacy_paths_of : List UploadTask → List Text
legacy_paths_of [] = []
legacy_paths_of (t ∷ ts) =
    let rest = legacy_paths_of ts in
    if has_key t.idempotency_key || text_eq t.local_path [] then rest else clean t.local_path ∷ rest

abbrev pub start : List FileRecord → List UploadTask → Scan
start records open_tasks = record {
  files_seen = 0;
  total_bytes = 0;
  files_unchanged = 0;
  files_skipped = 0;
  scan_errors = 0;
  first_problem = none;
  records = records;
  new_snapshots = [];
  changed_snapshots = [];
  clear_uploaded = [];
  candidates = [];
  active_keys = open_keys_of open_tasks;
  seen = [];
  excluded = [];
}

-- The walk of a folder with its stored records and its open tasks.
unfoldable pub scan : Folder → Tree → List FileRecord → List UploadTask → Option Problem × Scan
scan w t records open_tasks =
    walk (record w { legacy_paths = legacy_paths_of open_tasks }) t (start records open_tasks)

-- pathWithinAny; `relative` is `filepath.Rel`, none for its error.
abbrev pub path_within_any : (Text → Text → Option Text) → Text → List Text → Bool
path_within_any relative candidate roots =
    some_of (λ root. stays_below (relative root candidate)) roots

abbrev pub is_missing : (Text → Text → Option Text) → Scan → FileRecord → Bool
is_missing relative s f = not (
    listed (clean f.local_path) s.seen
    || is_some f.missing_at
    || path_within_any relative (clean f.local_path) s.excluded)

unfoldable pub missing_of : (Text → Text → Option Text) → Scan → List FileRecord → List ℕ
missing_of relative s [] = []
missing_of relative s (f ∷ fs) =
    let rest = missing_of relative s fs in if is_missing relative s f then f.id ∷ rest else rest

-- The records to mark as missing: none after a walk with a problem.
unfoldable pub missing_ids :
    (Text → Text → Option Text) → List FileRecord → Option Problem × Scan → List ℕ
missing_ids relative records x =
    if is_none x.0 && is_none x.1.first_problem then missing_of relative x.1 records else []

-- The candidates with the ids of the records that are stored now. One without such a record keeps its
-- id, and is dropped where that is 0.
abbrev pub assigned : UploadTask → Option FileRecord → ℕ
assigned t none = t.file_record_id
assigned t (some f) = if f.id == 0 then t.file_record_id else f.id

unfoldable pub valid_tasks : List FileRecord → List UploadTask → List UploadTask
valid_tasks stored [] = []
valid_tasks stored (t ∷ ts) =
    let rest = valid_tasks stored ts in
    let id = assigned t (find_record (clean t.local_path) stored) in
    if id == 0 then rest else record t { file_record_id = id } ∷ rest

-- The candidates for which recordProblem notes that they have no stored record.
unfoldable pub unassigned : List FileRecord → List UploadTask → List UploadTask
unassigned stored [] = []
unassigned stored (t ∷ ts) =
    let rest = unassigned stored ts in
    elim (find_record (clean t.local_path) stored) [
      | none ↦ t ∷ rest
      | some f ↦ if f.id == 0 then t ∷ rest else rest
    ]
