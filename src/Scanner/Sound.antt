-- ===== src/Scanner/Sound.antt =====
-- What a walk keeps if each visit does, and the files that it has counted.
use rclone_sync_hub_go_backe.Prelude.{
  ℕ, ◌+◌, ◌≤◌, ◌≡◌, refl, ap, ◌∙◌, Text, text_eq, [], ◌∷◌, List, Bool, true, false, ◌||◌, ltb,
  length, length-append, if◌then◌else◌, Option, none, some, inl, inr, Bool-cases, arith,
}
use rclone_sync_hub_go_backe.Model.{UploadTask, FileRecord}
use rclone_sync_hub_go_backe.PathPipeline.{Outcome, ok, fail}
use rclone_sync_hub_go_backe.Scanner.{Info, Entry, Folder, Version}
use rclone_sync_hub_go_backe.Scanner.Visit.{
  Scan, Problem, Verdict, go_on, skip_directory, stop, visit, visit_problem, find_record, propose,
  note_snapshot, snapshot, visit_version, visit_target, visit_file, remote_path_of, candidate,
  visit_placed, excluded_by, too_deep, count_file,
}
use rclone_sync_hub_go_backe.Scanner.Walk.{
  Tree, file, directory, unreadable, unknown, Forest, leaf, node, walk, walk_all, enter, then_walk,
  leave, scan, start, legacy_paths_of,
}

-- What a visit of every kind keeps, a walk keeps.
module _ (w : Folder) (I : Scan → Type 0)
    (keeps_visit : (d : Bool) (e : Entry) (s : Scan) → I s → I (visit w d e s).1)
    (keeps_problem : (d : Bool) (e : Entry) (s : Scan) → I s → I (visit_problem w d e s).1) where
  enter-Keeps :
      (x : Verdict × Scan) (f : Scan → Option Problem × Scan)
      → I x.1
      → ((s : Scan) → I s → I (f s).1)
      → I (enter x f).1
  enter-Keeps (go_on, s) f h k = k s h
  enter-Keeps (skip_directory, s) f h k = h
  enter-Keeps (stop p, s) f h k = h

  then_walk-Keeps :
      (x : Option Problem × Scan) (f : Scan → Option Problem × Scan)
      → I x.1
      → ((s : Scan) → I s → I (f s).1)
      → I (then_walk x f).1
  then_walk-Keeps (none, s) f h k = k s h
  then_walk-Keeps (some p, s) f h k = h

  mutual
    unfolding walk walk_all

    pub walk-Keeps : (t : Tree) (s : Scan) → I s → I (walk w t s).1
    walk-Keeps (file e) s h = keeps_visit false e s h
    walk-Keeps (directory e f) s h =
        enter-Keeps (visit w true e s) (λ t. walk_all w f t) (keeps_visit true e s h)
          (λ t k. walk_all-Keeps f t k)
    walk-Keeps (unreadable e again) s h =
        enter-Keeps (visit w true e s) (λ t. leave (visit_problem w true again t))
          (keeps_visit true e s h) (λ t k. keeps_problem true again t k)
    walk-Keeps (unknown e) s h = keeps_problem false e s h

    walk_all-Keeps : (f : Forest) (s : Scan) → I s → I (walk_all w f s).1
    walk_all-Keeps leaf s h = h
    walk_all-Keeps (node t f) s h =
        then_walk-Keeps (walk w t s) (λ u. walk_all w f u) (walk-Keeps t s h)
          (λ u k. walk_all-Keeps f u k)

-- What holds on both branches holds of a test.
pub pick :
    (I : Scan → Type 0) (b : Bool) (x y : Verdict × Scan) → I x.1 → I y.1 → I (if b then x else y).1
pick I true x y h k = h
pick I false x y h k = k

pub choose : (I : Scan → Type 0) (b : Bool) (x y : Scan) → I x → I y → I (if b then x else y)
choose I true x y h k = h
choose I false x y h k = k

pub choose_at :
    (I : Scan → Type 0) (b : Bool) (x y : Scan)
    → (b ≡ true → I x)
    → (b ≡ false → I y)
    → I (if b then x else y)
choose_at I true x y h k = h refl
choose_at I false x y h k = k refl

-- The files that are accounted for.
abbrev pub accounted : Scan → ℕ
accounted s = s.files_unchanged + s.files_skipped + length s.candidates + s.scan_errors

propose-accounted :
    (w : Folder) (v : Version) (f : FileRecord) (s : Scan)
    → (accounted (propose w v f s) ≡ accounted s + 1)
      × ((propose w v f s).files_seen ≡ s.files_seen)
unfolding propose
propose-accounted w v f s = ground (
  arith,
  length-append s.candidates (candidate w v f (w.key_of v.path v.fingerprint v.remote_path) ∷ []),
)

note_snapshot-accounted :
    (w : Folder) (v : Version) (o : Option FileRecord) (s : Scan)
    → (accounted (note_snapshot w v o s) ≡ accounted s)
      × ((note_snapshot w v o s).files_seen ≡ s.files_seen)
unfolding note_snapshot
note_snapshot-accounted w v none s = (refl, refl)
note_snapshot-accounted w v (some f) s = ground arith

visit_version-accounted :
    (w : Folder) (v : Version) (s : Scan)
    → (accounted (visit_version w v s) ≡ accounted s + 1)
      × ((visit_version w v s).files_seen ≡ s.files_seen)
unfolding visit_version
visit_version-accounted w v s =
    let o = find_record v.path s.records in
    let p = propose-accounted w v (snapshot w v o) (note_snapshot w v o s) in
    let n = note_snapshot-accounted w v o s in (p.0 ∙ ap (λ k. k + 1) n.0, p.1 ∙ n.1)

visit_target-accounted :
    (w : Folder) (e : Entry) (i : Info) (r : Text) (o : Outcome (Option Text)) (s : Scan)
    → (accounted (visit_target w e i r o s) ≡ accounted s + 1)
      × ((visit_target w e i r o s).files_seen ≡ s.files_seen)
visit_target-accounted w e i r (fail x) s = (omega arith, refl)
visit_target-accounted w e i r (ok d) s =
    elim (Bool-cases (ltb 768 (length (remote_path_of w r d)))) [
      | inl k ↦ rw k (omega arith, refl)
      | inr k ↦ rw k (visit_version-accounted w _ s)
    ]

abbrev pub IsCounted : Scan → Type 0
IsCounted s = s.files_seen ≤ accounted s

visit_file-IsCounted :
    (w : Folder) (e : Entry) (r : Text) (o : Option Info) (s : Scan)
    → IsCounted s
    → IsCounted (visit_file w e r o s)
unfolding visit_file
visit_file-IsCounted w e r none s h = omega arith
visit_file-IsCounted w e r (some i) s h =
    choose IsCounted i.is_regular _ s
      (one_more (visit_target w e i r (w.resolve_directory e.name) (count_file e i s))
        (visit_target-accounted w e i r (w.resolve_directory e.name) (count_file e i s)))
      h
  where
    one_more :
        (t : Scan)
        → (accounted t ≡ accounted s + 1) × (t.files_seen ≡ s.files_seen + 1)
        → IsCounted t
    one_more t k = omega arith

visit-IsCounted :
    (w : Folder) (d : Bool) (e : Entry) (s : Scan) → IsCounted s → IsCounted (visit w d e s).1
unfolding visit
visit-IsCounted w d e s h = pick IsCounted e.canceled _ _ h (placed d e.relative)
  where
    placed : (b : Bool) (o : Option Text) → IsCounted (visit_placed w b e o s).1
    placed b none = omega arith
    placed true (some r) = pick IsCounted (excluded_by w r || too_deep w r) _ _ h h
    placed false (some r) =
        pick IsCounted (excluded_by w r) _ _ h (visit_file-IsCounted w e r e.info s h)

visit_problem-IsCounted :
    (w : Folder) (d : Bool) (e : Entry) (s : Scan)
    → IsCounted s
    → IsCounted (visit_problem w d e s).1
unfolding visit_problem
visit_problem-IsCounted w d e s h = pick IsCounted e.canceled _ _ h (
    pick IsCounted (text_eq e.path w.root) _ _ (omega arith)
      (pick IsCounted d _ _ (omega arith) (omega arith)))

-- However a scan ends, each regular file that it counted is unchanged, is skipped until it is
-- stable, is a candidate for an upload, or is behind an error: the files seen are at most those.
pub scan-accounted :
    (w : Folder) (t : Tree) (records : List FileRecord) (open_tasks : List UploadTask)
    → (scan w t records open_tasks).1.files_seen ≤ accounted (scan w t records open_tasks).1
unfolding scan
scan-accounted w t records open_tasks =
    walk-Keeps (record w { legacy_paths = legacy_paths_of open_tasks }) IsCounted
      (λ d e u k. visit-IsCounted _ d e u k) (λ d e u k. visit_problem-IsCounted _ d e u k) t
      (start records open_tasks) (omega arith)
