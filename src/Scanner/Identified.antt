-- ===== src/Scanner/Identified.antt =====
-- The ids of the snapshots that a walk changes, where it meets each path once.
use rclone_sync_hub_go_backe.Prelude.{
  ◌≡◌, ◌≢◌, refl, sym, ◌∙◌, subst, Text, text_eq, [], ◌∷◌, ◌++◌, List, Bool, true, false, ◌||◌, ltb,
  length, some_of, some_of-none, Option, none, some, All, All-Member, Member, inl, inr, ◌⊎◌,
}
use rclone_sync_hub_go_backe.Paths.{clean}
use rclone_sync_hub_go_backe.Model.{UploadTask, FileRecord}
use rclone_sync_hub_go_backe.PathPipeline.{Outcome, ok, fail}
use rclone_sync_hub_go_backe.Scanner.{Info, Entry, Folder, Version}
use rclone_sync_hub_go_backe.Scanner.Visit.{
  Scan, visit, visit_problem, visit_version, visit_target, visit_file, remote_path_of, visit_placed,
  excluded_by, too_deep, count_file, find_record, note_snapshot, snapshot, needs_write,
}
use rclone_sync_hub_go_backe.Scanner.Walk.{Tree, scan, start, legacy_paths_of}
use rclone_sync_hub_go_backe.Scanner.Sound.{pick, choose, choose_at, walk-Keeps}
use rclone_sync_hub_go_backe.Scanner.Keeping.{part_of}
use rclone_sync_hub_go_backe.Scanner.Proposals.{Member-find_record, find_record-path, propose-cases}
use rclone_sync_hub_go_backe.Scanner.Versions.{
  IsTraced, All-mono, All-append_last, snapshot_fields, start-IsTraced, visit_version-IsTraced,
}

-- No path is seen again, nor one that is that path after it is cleaned.
abbrev pub Once : List Text → Type 0
Once [] = Unit
Once (x ∷ xs) = (some_of (λ y. text_eq (clean y) x) xs ≡ false) × Once xs

abbrev pub HasId : FileRecord → Type 0
HasId f = f.id ≢ 0

pub Member-split :
    (f : FileRecord) (xs ys : List FileRecord) → Member f (xs ++ ys) → Member f xs ⊎ Member f ys
Member-split f [] ys m = inr m
Member-split f (x ∷ xs) ys (inl e) = inl (inl e)
Member-split f (x ∷ xs) ys (inr m) = deeper (Member-split f xs ys m)
  where
    deeper : Member f xs ⊎ Member f ys → Member f (x ∷ xs) ⊎ Member f ys
    deeper (inl k) = inl (inr k)
    deeper (inr k) = inr k

-- The changed snapshots have ids, and the paths of the new ones have been seen.
abbrev IsNumbered : Scan → Type 0
IsNumbered s =
    Once s.seen
    → All HasId s.changed_snapshots × All (λ f. Member f.local_path s.seen) s.new_snapshots

module _ (w : Folder) (stored : List FileRecord) (has_ids : All HasId stored) where
  abbrev Both : Scan → Type 0
  Both s = IsTraced stored (part_of s) × IsNumbered s

  seen_more : (path : Text) (s : Scan) → Both s → Both (record s { seen = path ∷ s.seen })
  seen_more path s (t, h) = (
    t,
    λ o.
        let (c, n) = h o.1 in
        (c, All-mono _ (λ f. Member f.local_path (path ∷ s.seen)) s.new_snapshots (λ f m. inr m) n),
  )

  -- A record that is found at a path that was not seen has an id.
  found-HasId :
      (path : Text) (s : Scan) (f : FileRecord)
      → IsTraced stored (part_of s)
      → All (λ g. Member g.local_path s.seen) s.new_snapshots
      → some_of (λ y. text_eq (clean y) path) s.seen ≡ false
      → find_record path s.records ≡ some f
      → HasId f
  found-HasId path s f t n unseen e = at (
      Member-split f stored s.new_snapshots
        (subst (Member f) t.known (Member-find_record path s.records f e)))
    where
      seen_before : Member f.local_path s.seen → ⊥
      seen_before m =
          clash (some_of-none (λ y. text_eq (clean y) path) s.seen f.local_path unseen m)
            (find_record-path path s.records f e)
        where
          clash :
              text_eq (clean f.local_path) path ≡ false
              → text_eq (clean f.local_path) path ≡ true
              → ⊥
          clash a b = cc

      at : Member f stored ⊎ Member f s.new_snapshots → HasId f
      at (inl m) = All-Member HasId stored has_ids m
      at (inr m) =
          absurd (seen_before (All-Member (λ g. Member g.local_path s.seen) s.new_snapshots n m))

  note_snapshot-IsNumbered :
      (v : Version) (o : Option FileRecord) (s : Scan)
      → find_record v.path s.records ≡ o
      → Both s
      → IsNumbered (note_snapshot w v o (record s { seen = v.path ∷ s.seen }))
  unfolding note_snapshot
  note_snapshot-IsNumbered v none s e (t, h) = λ q.
      let (c, n) = h q.1 in
      (
        c,
        All-append_last _ s.new_snapshots (snapshot w v none)
            (All-mono _ (λ f. Member f.local_path (v.path ∷ s.seen)) s.new_snapshots (λ f m. inr m)
              n)
            (inl (unfold snapshot in refl)),
      )
  note_snapshot-IsNumbered v (some f) s e (t, h) =
      choose_at IsNumbered (needs_write w v f) _ _
        (λ k q.
          let (c, n) = h q.1 in
          (
            All-append_last HasId s.changed_snapshots (snapshot w v (some f)) c
                (λ z. found-HasId v.path s f t n q.0 e (sym (snapshot_fields w v f).0 ∙ z)),
            All-mono _ (λ g. Member g.local_path (v.path ∷ s.seen)) s.new_snapshots (λ g m. inr m)
                n,
          ))
        (λ k. (seen_more v.path s (t, h)).1)

  visit_version-Both :
      (v : Version) (s : Scan)
      → Both s
      → Both (visit_version w v (record s { seen = v.path ∷ s.seen }))
  visit_version-Both v s h = (
    visit_version-IsTraced w v (record s { seen = v.path ∷ s.seen }) stored h.0,
    unfold visit_version in
        (let o = find_record v.path s.records in
          let noted = note_snapshot-IsNumbered v o s refl h in
          propose-cases IsNumbered w v (snapshot w v o) _ noted noted (λ e. noted)),
  )

  visit_target-Both :
      (e : Entry) (i : Info) (r : Text) (o : Outcome (Option Text)) (s : Scan)
      → Both s
      → Both (visit_target w e i r o (count_file e i s))
  visit_target-Both e i r (fail x) s h = seen_more (clean e.path) s h
  visit_target-Both e i r (ok d) s h =
      choose Both (ltb 768 (length (remote_path_of w r d))) _ _ (seen_more (clean e.path) s h)
        (visit_version-Both _ (record (count_file e i s) { seen = s.seen }) h)

  visit_file-Both :
      (e : Entry) (r : Text) (o : Option Info) (s : Scan) → Both s → Both (visit_file w e r o s)
  unfolding visit_file
  visit_file-Both e r none s h = h
  visit_file-Both e r (some i) s h =
      choose Both i.is_regular
        (visit_target w e i r (w.resolve_directory e.name) (count_file e i s)) s
        (visit_target-Both e i r (w.resolve_directory e.name) s h) h

  visit-Both : (d : Bool) (e : Entry) (s : Scan) → Both s → Both (visit w d e s).1
  unfolding visit
  visit-Both d e s h = pick Both e.canceled _ _ h (placed d e.relative)
    where
      placed : (b : Bool) (o : Option Text) → Both (visit_placed w b e o s).1
      placed b none = h
      placed true (some r) = pick Both (excluded_by w r || too_deep w r) _ _ h h
      placed false (some r) =
          pick Both (excluded_by w r) _ _ (seen_more (clean e.path) s h)
            (visit_file-Both e r e.info s h)

  visit_problem-Both : (d : Bool) (e : Entry) (s : Scan) → Both s → Both (visit_problem w d e s).1
  unfolding visit_problem
  visit_problem-Both d e s h =
      pick Both e.canceled _ _ h (pick Both (text_eq e.path w.root) _ _ h (pick Both d _ _ h h))

-- If the stored records have ids and the walk meets each path once, then however it ends, each
-- snapshot that it changes has an id.
pub scan-HasId :
    (w : Folder) (t : Tree) (records : List FileRecord) (open_tasks : List UploadTask)
    → All HasId records
    → Once (scan w t records open_tasks).1.seen
    → All HasId (scan w t records open_tasks).1.changed_snapshots
unfolding scan
scan-HasId w t records open_tasks has_ids o =
    let folder = record w { legacy_paths = legacy_paths_of open_tasks } in
    ((walk-Keeps folder (Both folder records has_ids) (visit-Both folder records has_ids)
        (visit_problem-Both folder records has_ids) t (start records open_tasks)
        (start-IsTraced records open_tasks, λ k. (tt, tt))).1
      o).0
