-- ===== src/Scanner/Keeping.antt =====
-- What a walk keeps if each version that it finds does.
use rclone_sync_hub_go_backe.Prelude.{
  ℕ, Text, text_eq, List, Bool, true, false, ◌||◌, ltb, length, Option, none, some,
}
use rclone_sync_hub_go_backe.Model.{UploadTask, FileRecord}
use rclone_sync_hub_go_backe.PathPipeline.{Outcome, ok, fail}
use rclone_sync_hub_go_backe.Scanner.{Info, Entry, Folder, Version}
use rclone_sync_hub_go_backe.Scanner.Visit.{
  Scan, visit, visit_problem, visit_version, visit_target, visit_file, remote_path_of, visit_placed,
  excluded_by, too_deep, count_file,
}
use rclone_sync_hub_go_backe.Scanner.Walk.{Tree, walk}
use rclone_sync_hub_go_backe.Scanner.Sound.{pick, choose, walk-Keeps}

-- What a version may change.
pub record Part : Type 0 where
  pub candidates : List UploadTask
  pub active_keys : List Text
  pub records : List FileRecord
  pub new_snapshots : List FileRecord
  pub changed_snapshots : List FileRecord
  pub clear_uploaded : List ℕ

abbrev pub part_of : Scan → Part
part_of s = record {
  candidates = s.candidates;
  active_keys = s.active_keys;
  records = s.records;
  new_snapshots = s.new_snapshots;
  changed_snapshots = s.changed_snapshots;
  clear_uploaded = s.clear_uploaded;
}

-- A condition on what a version may change, which a version keeps, is one that a visit keeps.
module _ (w : Folder) (Q : Part → Type 0)
    (keeps : (v : Version) (s : Scan) → Q (part_of s) → Q (part_of (visit_version w v s))) where
  abbrev On : Scan → Type 0
  On s = Q (part_of s)

  visit_target-On :
      (e : Entry) (i : Info) (r : Text) (o : Outcome (Option Text)) (s : Scan)
      → On s
      → On (visit_target w e i r o s)
  visit_target-On e i r (fail x) s h = h
  visit_target-On e i r (ok d) s h =
      choose On (ltb 768 (length (remote_path_of w r d))) _ _ h (keeps _ s h)

  visit_file-On :
      (e : Entry) (r : Text) (o : Option Info) (s : Scan) → On s → On (visit_file w e r o s)
  unfolding visit_file
  visit_file-On e r none s h = h
  visit_file-On e r (some i) s h =
      choose On i.is_regular (visit_target w e i r (w.resolve_directory e.name) (count_file e i s))
        s (visit_target-On e i r (w.resolve_directory e.name) (count_file e i s) h) h

  visit-On : (d : Bool) (e : Entry) (s : Scan) → On s → On (visit w d e s).1
  unfolding visit
  visit-On d e s h = pick On e.canceled _ _ h (placed d e.relative)
    where
      placed : (b : Bool) (o : Option Text) → On (visit_placed w b e o s).1
      placed b none = h
      placed true (some r) = pick On (excluded_by w r || too_deep w r) _ _ h h
      placed false (some r) = pick On (excluded_by w r) _ _ h (visit_file-On e r e.info s h)

  visit_problem-On : (d : Bool) (e : Entry) (s : Scan) → On s → On (visit_problem w d e s).1
  unfolding visit_problem
  visit_problem-On d e s h =
      pick On e.canceled _ _ h (pick On (text_eq e.path w.root) _ _ h (pick On d _ _ h h))

  pub walk-On : (t : Tree) (s : Scan) → On s → On (walk w t s).1
  walk-On t s h =
      walk-Keeps w On (λ d e u k. visit-On d e u k) (λ d e u k. visit_problem-On d e u k) t s h
