-- ===== src/Scanner.antt =====
-- internal/scheduler/watch_folder_scanner.go: what a scan of a watched folder computes with, on a
-- system whose path separator is a slash. The SHA-256 digests and the pipeline are parameters.
pub mod Config
pub mod Visit
pub mod Walk
pub mod Sound
pub mod Keeping
pub mod Proposals
pub mod Versions
pub mod Identified
pub mod Assigned
pub mod Preparing
pub mod Storing
pub mod Kept
pub mod Refreshing
pub mod Tasks
pub mod Lifecycle
pub mod Released
use rclone_sync_hub_go_backe.Prelude.{
  ℕ, zero, suc, ◌+◌, ◌-◌, Text, codes, text_eq, [], ◌∷◌, ◌++◌, List, Bool, true, false, not, ◌&&◌,
  ◌||◌, ◌==◌, ltb, leb, length, some_of, if◌then◌else◌, Option, none, some, ℤ, pos, leb_ℤ, pos_part,
}
use rclone_sync_hub_go_backe.Paths.{
  slash, has_prefix, trim_slash, trim_last_slash, trim_space, clean, dot, split,
}
use rclone_sync_hub_go_backe.Model.{FileRecord}
use rclone_sync_hub_go_backe.PathPipeline.{Outcome}

-- `strings.Contains`
unfoldable pub contains : Text → Text → Bool
contains [] keyword = text_eq keyword []
contains (c ∷ s) keyword = has_prefix keyword (c ∷ s) || contains s keyword

-- `strings.Split(…, "\n")` with the carriage return of a line's end taken off.
abbrev newline : ℕ
newline = 10

abbrev carriage_return : ℕ
carriage_return = 13

unfoldable pub unix_lines : Text → Text
unix_lines [] = []
unix_lines (c ∷ []) = c ∷ []
unix_lines (c ∷ d ∷ s) =
    let rest = unix_lines (d ∷ s) in
    if (c == carriage_return) && (d == newline) then rest else c ∷ rest

abbrev extend_line : ℕ → List Text → List Text
extend_line c [] = (c ∷ []) ∷ []
extend_line c (l ∷ ls) = (c ∷ l) ∷ ls

unfoldable pub lines : Text → List Text
lines [] = [] ∷ []
lines (c ∷ s) = let rest = lines s in if c == newline then [] ∷ rest else extend_line c rest

abbrev pub keywords_of : List Text → List Text
keywords_of [] = []
keywords_of (l ∷ ls) =
    let rest = keywords_of ls in if text_eq (trim_space l) [] then rest else trim_space l ∷ rest

unfoldable pub parse_filter_keywords : Text → List Text
parse_filter_keywords raw = keywords_of (lines (unix_lines raw))

-- `filepath.Base` of a path below the root.
abbrev last_of : Text → List Text → Text
last_of d [] = d
last_of d (s ∷ ss) = last_of s ss

abbrev pub base : Text → Text
base path = last_of [] (split path)

unfoldable pub match_filter_keywords : Text → List Text → Bool
match_filter_keywords path keywords =
    some_of (λ k. contains path k || contains (base path) k) keywords

-- `period` is not negative after NewWatchFolderScanner.
unfoldable pub file_version_stable : ℕ → ℕ → Option ℕ → ℕ → Bool
file_version_stable now modified observed zero = true
file_version_stable now modified observed (suc p) =
    if ltb now modified
    then elim observed [ none ↦ false | some at ↦ leb (at + suc p) now ]
    else leb (modified + suc p) now

unfoldable pub join_remote_path : Text → Text → Text
join_remote_path prefix relative =
    if text_eq (trim_last_slash prefix) []
    then trim_slash relative
    else trim_last_slash prefix ++ (slash ∷ trim_slash relative)

unfoldable pub relative_depth : Text → ℕ
relative_depth path =
    if text_eq (clean path) dot || text_eq (clean path) [] then 0 else length (split (clean path))

-- `os.FileInfo`, an entry of the walk as its callback meets it, and when it does.
pub record Info : Type 0 where
  pub size : ℕ
  pub modified : ℕ
  pub is_regular : Bool

pub record Entry : Type 0 where
  pub path : Text
  pub relative : Option Text
  pub name : Text
  pub info : Option Info
  pub canceled : Bool
  pub now : ℕ

-- The folder, with what scanFolder computes before its walk.
pub record Folder : Type 0 where
  pub id : ℕ
  pub title : Text
  pub root : Text
  pub remote_name : Text
  pub remote_path : Text
  pub filter_keywords : Text
  pub max_depth : ℕ
  pub stable_period : ℕ
  pub resolve_directory : Text → Outcome (Option Text)
  pub fingerprint_of : ℕ → ℕ → Text
  pub key_of : (path fingerprint remote_path : Text) → Text
  pub legacy_paths : List Text

-- The version of a file that a visit finds, and where it goes.
pub record Version : Type 0 where
  pub path : Text
  pub relative : Text
  pub name : Text
  pub size : ℕ
  pub modified : ℕ
  pub fingerprint : Text
  pub remote_path : Text
  pub now : ℕ
