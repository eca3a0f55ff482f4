-- ===== src/Scanner/Preparing.antt =====
-- internal/scheduler/watch_folder_scanner.go: what `scanFolder` checks and computes before its walk.
use rclone_sync_hub_go_backe.Prelude.{
  ℕ, Text, codes, text_eq, [], List, Option, none, some, ◌⊎◌, inl, inr, if◌then◌else◌, pos_part,
}
use rclone_sync_hub_go_backe.Paths.{clean, trim_space}
use rclone_sync_hub_go_backe.Model.Folders.{WatchFolder}
use rclone_sync_hub_go_backe.PathPipeline.{
  Regexp, Step, Extract, Outcome, ok, fail, compile, resolve,
}
use rclone_sync_hub_go_backe.Worker.Effects.{Checked, allowed, refused}
use rclone_sync_hub_go_backe.Security.Policy.{
  FileSystem, ResourcePolicy, Kind, validate_local_directory, validate_remote,
}
use rclone_sync_hub_go_backe.Scanner.{Folder}

-- metadataFingerprint and taskIdempotencyKey, which are SHA-256 digests, as functions of what they
-- digest; the stable period is that of the scanner.
pub record Digests : Type 0 where
  pub fingerprint_of : ℕ → ℕ → Text
  pub key_of : (folder_id : ℕ) (path fingerprint remote_name remote_path : Text) → Text
  pub stable_period : ℕ

module _ (X : Regexp) (os : FileSystem) (g : Digests) where
  abbrev folder_at : WatchFolder → Text → Text → List Extract → Folder
  folder_at f root remote_path steps = record {
    id = f.id;
    title = f.name;
    root = root;
    remote_name = f.remote_name;
    remote_path = remote_path;
    filter_keywords = f.filter_keywords;
    max_depth = pos_part f.max_depth;
    stable_period = g.stable_period;
    resolve_directory = λ name. resolve X steps name;
    fingerprint_of = g.fingerprint_of;
    key_of = λ path fingerprint to. g.key_of f.id path fingerprint f.remote_name to;
    legacy_paths = [];
  }

  abbrev compiled : WatchFolder → Text → Text → Outcome (List Extract) → Folder ⊎ Text
  compiled f root remote_path (fail x) = inr (codes "compile upload path pipeline")
  compiled f root remote_path (ok steps) = inl (folder_at f root remote_path steps)

  abbrev directory_kind : WatchFolder → List Step → Text → Text → Option Kind → Folder ⊎ Text
  directory_kind f steps root remote_path none = inr (codes "stat local path")
  directory_kind f steps root remote_path (some Kind.directory) =
      compiled f root remote_path (compile X steps)
  directory_kind f steps root remote_path (some _) = inr (codes "local path is not a directory")

  abbrev with_remote_path : WatchFolder → List Step → Text → Checked → Folder ⊎ Text
  with_remote_path f steps root (refused m) = inr m
  with_remote_path f steps root (allowed p) = directory_kind f steps root p (os.stat root)

  abbrev with_root : ResourcePolicy → WatchFolder → List Step → Checked → Folder ⊎ Text
  with_root p f steps (refused m) = inr m
  with_root p f steps (allowed root) =
      with_remote_path f steps root (validate_remote (some p) f.remote_name f.remote_path)

  abbrev under_policy :
      Option ResourcePolicy → WatchFolder → List Step → Option Text → Folder ⊎ Text
  under_policy p f steps none = inr (codes "resolve local path")
  under_policy none f steps (some root) = directory_kind f steps root f.remote_path (os.stat root)
  under_policy (some p) f steps (some root) =
      with_root p f steps (validate_local_directory os (some p) root)

  -- The folder for the walk, or an error.
  unfoldable pub prepare : Option ResourcePolicy → WatchFolder → List Step → Folder ⊎ Text
  prepare p f steps =
      if text_eq (trim_space f.local_path) []
      then inr (codes "local path is empty")
      else under_policy p f steps (os.absolute (clean f.local_path))
