-- ===== src/Scanner/Refreshing.antt =====
-- What a scan makes of the file records that are stored.
use rclone_sync_hub_go_backe.Prelude.{
  ℕ, ◌≡◌, ◌≢◌, leb, if◌then◌else◌, sym, ◌∙◌, subst, [], ◌∷◌, List, length, Option, none, some, All,
  All-Member, Member, inl, inr, ◌⊎◌,
}
use rclone_sync_hub_go_backe.Model.{UploadTask, FileRecord}
use rclone_sync_hub_go_backe.Database.Outcome.{Result, ok, err, Ran-map}
use rclone_sync_hub_go_backe.Database.Keeping.{single-keeps}
use rclone_sync_hub_go_backe.Database.Statement.{Sql}
use rclone_sync_hub_go_backe.TaskRepository.{create_many}
use rclone_sync_hub_go_backe.TaskRepository.Operation.{run}
use rclone_sync_hub_go_backe.FileRecordRepository.{
  mark_lost, create_snapshots, list_for_watch_folder,
}
use rclone_sync_hub_go_backe.FileRecordRepository.Refreshed.{IsFresh, Refreshed}
use rclone_sync_hub_go_backe.FileRecordRepository.Refreshing.{IsAssignable, update_snapshots-Holds}
use rclone_sync_hub_go_backe.FileRecordRepository.Marking.{
  create_snapshots-Holds, mark_missing-Holds,
}
use rclone_sync_hub_go_backe.Scanner.{Folder}
use rclone_sync_hub_go_backe.Scanner.Visit.{Scan, Problem}
use rclone_sync_hub_go_backe.Scanner.Walk.{scan, missing_ids}
use rclone_sync_hub_go_backe.Scanner.Keeping.{part_of}
use rclone_sync_hub_go_backe.Scanner.Versions.{HasOrigin, IsTraced, scan-IsTraced}
use rclone_sync_hub_go_backe.Scanner.Identified.{HasId, Once, Member-split, scan-HasId}
use rclone_sync_hub_go_backe.Scanner.Storing.{
  Circumstances, Stop, store_scan, after_update, after_missing, store_new, after_create,
  after_reload, store_tasks, after_tasks,
}
use rclone_sync_hub_go_backe.Scanner.Kept.{Kept, IsKeyed, Refreshed-start, forget_Kept, assignable}

All-IsFresh :
    (fs : List FileRecord) → All (λ f. (f.id ≡ 0) × (f.uploaded_at ≡ none)) fs → All IsFresh fs
All-IsFresh [] h = tt
All-IsFresh (f ∷ fs) h = (h.0.1, All-IsFresh fs h.1)

module _ (S : Sql) (w : Folder) (u : Circumstances) (records : List FileRecord) (db : S.Db)
    (quiet : (d : S.Db) → S.files (run S u.before_tasks d) ≡ S.files d) where
  open S use {Db, files, create, create_law}

  abbrev Good : Db → Type 0
  Good d = Refreshed (Kept (files db)) (files db) (files d)

  module _ (p : Option Problem) (missing : ℕ) where
    after_tasks-Good :
        (s : Scan) (valid : ℕ) (x : Result ℕ × Db)
        → Good x.1
        → Good (after_tasks S u p s missing valid x).1
    after_tasks-Good s valid (err e, d) h = h
    after_tasks-Good s valid (ok n, d) h = h

    create_many-Good :
        (ts : List UploadTask) (d : Db) → Good d → Good (create_many S ts u.batch_size d).1
    unfolding create_many
    create_many-Good [] d h = h
    create_many-Good (c ∷ cs) d h = single-keeps Good (create (c ∷ cs) size) d h (
        Ran-map _ (λ n d'. Good d') (create (c ∷ cs) size d)
          (λ n d' k. subst (Refreshed (Kept (files db)) (files db)) (sym k.2) h)
          (create_law (c ∷ cs) size d))
      where
        size : ℕ
        size = if leb u.batch_size 0 then 500 else u.batch_size

    store_tasks-Good :
        (s : Scan) (stored : List FileRecord) (d : Db)
        → Good d
        → Good (store_tasks S u p s missing stored d).1
    unfolding store_tasks
    store_tasks-Good s stored d h = after_tasks-Good _ _ _ (
        create_many-Good _ (run S u.before_tasks d)
          (subst (Refreshed (Kept (files db)) (files db)) (sym (quiet d)) h))

    store_new-Good :
        (s : Scan) (fs : List FileRecord) (d : Db)
        → All IsFresh fs
        → Good d
        → Good (store_new S w u p s missing fs d).1
    unfolding store_new
    store_new-Good s [] d a h = store_tasks-Good s s.records d h
    store_new-Good s (f ∷ fs) d a h =
        created (create_snapshots S (f ∷ fs) d)
          (create_snapshots-Holds S (files db) (Kept (files db)) (f ∷ fs) d a h)
      where
        reloaded :
            (r : Result (List FileRecord)) (d' : Db)
            → Good d'
            → Good (after_reload S u p s missing r d').1
        reloaded (err e) d' k = k
        reloaded (ok fs') d' k = store_tasks-Good s _ d' k

        created :
            (x : Result (Unit {0}) × Db) → Good x.1 → Good (after_create S w u p s missing x).1
        created (err e, d') k = k
        created (ok v, d') k = reloaded (list_for_watch_folder S w.id w.root d') d' k

  lost_Kept :
      (r r' : FileRecord)
      → Kept (files db) r r'
      → r'.missing_at ≡ none
      → Kept (files db) r (mark_lost u.now r')
  lost_Kept r r' k e = record {
    member = k.member;
    same_id = k.same_id;
    same_path = k.same_path;
    still_missing = λ at h. absurd (clash (r'.missing_at) at e (k.still_missing at h));
    justified = k.justified;
  }
    where
      clash : (o : Option ℕ) (at : ℕ) → o ≡ none → o ≡ some at → ⊥
      clash o at a b = cc

  -- The snapshots that the walk wrote are those of stored records and new ones.
  module _ (x : Option Problem × Scan) (traced : IsTraced records (part_of x.1))
      (stored : (f : FileRecord) → Member f records → Member f (files db))
      (has_ids : All (λ g. g.id ≢ 0) x.1.changed_snapshots) (keyed : IsKeyed (files db)) where
    after_missing-Good :
        (y : Result (Unit {0}) × Db) (missing : ℕ)
        → Good y.1
        → Good (after_missing S w u x.0 x.1 missing y).1
    after_missing-Good (err e, d) missing h = h
    after_missing-Good (ok v, d) missing h =
        store_new-Good x.0 missing x.1 x.1.new_snapshots d
          (All-IsFresh x.1.new_snapshots traced.fresh) h

    after_update-Good :
        (y : Result (Unit {0}) × Db) → Good y.1 → Good (after_update S w u records x y).1
    after_update-Good (err e, d) h = h
    after_update-Good (ok v, d) h =
        after_missing-Good _ (length (missing_ids u.relative records x)) (
          mark_missing-Holds S (files db) (Kept (files db)) u.now lost_Kept
            (missing_ids u.relative records x) u.batch_size d h)

    originating :
        (g : FileRecord)
        → g.id ≢ 0
        → HasOrigin x.1.records x.1.clear_uploaded g
        → IsAssignable S
            (files db)
            x.1.clear_uploaded
            (Kept (files db))
            (forget_Kept (files db) keyed S x.1.clear_uploaded)
            g
    originating g n (f, m, o) =
        from (Member-split f records x.1.new_snapshots (subst (Member f) traced.known m))
      where
        from :
            Member f records ⊎ Member f x.1.new_snapshots
            → IsAssignable S
                (files db)
                x.1.clear_uploaded
                (Kept (files db))
                (forget_Kept (files db) keyed S x.1.clear_uploaded)
                g
        from (inl k) = assignable (files db) keyed S x.1.clear_uploaded f g (stored f k) o n
        from (inr k) = absurd (
            n (
              o.same_id
              ∙ (All-Member (λ h. (h.id ≡ 0) × (h.uploaded_at ≡ none)) x.1.new_snapshots
                  traced.fresh k).0))

    assignables :
        (gs : List FileRecord)
        → All (λ g. g.id ≢ 0) gs
        → All (HasOrigin x.1.records x.1.clear_uploaded) gs
        → All
            (IsAssignable S
              (files db)
              x.1.clear_uploaded
              (Kept (files db))
              (forget_Kept (files db) keyed S x.1.clear_uploaded))
            gs
    assignables [] n h = tt
    assignables (g ∷ gs) n h = (originating g n.0 h.0, assignables gs n.1 h.1)

    stored-Good : (stop : Option Stop) → Good (store_scan S w u records x stop db).1
    unfolding store_scan
    stored-Good (some stop) = Refreshed-start (files db) (files db) (λ r m. m)
    stored-Good none = after_update-Good _ (
        update_snapshots-Holds S (files db) x.1.clear_uploaded (Kept (files db))
          (forget_Kept (files db) keyed S x.1.clear_uploaded) x.1.changed_snapshots u.batch_size db
          (assignables x.1.changed_snapshots has_ids traced.traced)
          (Refreshed-start (files db) (files db) (λ r m. m)))

-- However the writes of a scan end, each record that was stored keeps its id, its path and its mark as
-- missing, even if its file was found again. A record counts as uploaded afterwards only if it did
-- before, and then either its version and its destination are those of before or it had no version;
-- a new record does not count as uploaded. It is assumed that the records that the walk started from
-- are stored, with ids, under unique ids and paths, that the walk meets each path once, and that the
-- calls of others before the tasks are created leave the file records alone.
pub scan-Refreshed :
    (S : Sql) (w : Folder) (u : Circumstances) (records : List FileRecord)
    (open_tasks : List UploadTask) (stop : Option Stop) (db : S.Db)
    → ((d : S.Db) → S.files (run S u.before_tasks d) ≡ S.files d)
    → ((f : FileRecord) → Member f records → Member f (S.files db))
    → IsKeyed (S.files db)
    → All HasId records
    → Once (scan w u.tree records open_tasks).1.seen
    → Refreshed
        (Kept (S.files db))
        (S.files db)
        (S.files (store_scan S w u records (scan w u.tree records open_tasks) stop db).1)
scan-Refreshed S w u records open_tasks stop db quiet stored keyed has_ids once =
    stored-Good S w u records db quiet (scan w u.tree records open_tasks)
      (scan-IsTraced w u.tree records open_tasks) stored
      (scan-HasId w u.tree records open_tasks has_ids once) keyed stop
