-- ===== src/Scanner/Tasks.antt =====
-- What a scan does to the upload tasks.
use rclone_sync_hub_go_backe.Prelude.{
  ℕ, ◌≡◌, sym, subst, Text, [], ◌∷◌, List, Bool, true, false, ◌==◌, length, Option, none, some, All,
  Any, ◌⊎◌, inl, inr, if◌then◌else◌, arith,
}
use rclone_sync_hub_go_backe.Paths.{clean}
use rclone_sync_hub_go_backe.Model.{UploadTask, FileRecord}
use rclone_sync_hub_go_backe.Database.Outcome.{Result, ok, err, Ran, Ran-map}
use rclone_sync_hub_go_backe.Database.Statement.{Sql}
use rclone_sync_hub_go_backe.TaskRepository.Rows.{open_in}
use rclone_sync_hub_go_backe.TaskRepository.Operation.{Operation, creating, apply, run}
use rclone_sync_hub_go_backe.TaskRepository.Exclusive.{IsHeld, Foreign, apply-IsHeld}
use rclone_sync_hub_go_backe.TaskRepository.WellFormed.{
  IsWellFormed, Admissible, apply-IsWellFormed,
}
use rclone_sync_hub_go_backe.FileRecordRepository.{
  update_snapshots, mark_missing, create_snapshots, list_for_watch_folder,
}
use rclone_sync_hub_go_backe.FileRecordRepository.Frame.{
  update_snapshots-view, create_snapshots-view, mark_missing-view,
}
use rclone_sync_hub_go_backe.Scanner.{Folder, Version}
use rclone_sync_hub_go_backe.Scanner.Visit.{
  Scan, Problem, find_record, candidate, visit_version, snapshot, note_snapshot,
}
use rclone_sync_hub_go_backe.Scanner.Walk.{
  Tree, scan, missing_ids, valid_tasks, assigned, start, legacy_paths_of,
}
use rclone_sync_hub_go_backe.Scanner.Keeping.{walk-On}
use rclone_sync_hub_go_backe.Scanner.Proposals.{
  propose-cases, note_snapshot-candidates, All-append_one,
}
use rclone_sync_hub_go_backe.Scanner.Storing.{
  Circumstances, Stop, scan_folder, after_list, after_open, store_scan, after_update, after_missing,
  store_new, after_create, after_reload, store_tasks, after_tasks,
}

-- A property of the tasks that every call under `P` keeps, the creation of tasks under `G` among them.
module _ (S : Sql) (M : List UploadTask → Type 0) (P : Operation → Type 0)
    (G : List UploadTask → Type 0)
    (keeps : (o : Operation) (db : S.Db) → P o → M (S.tasks db) → M (S.tasks (apply S o db)))
    (creates : (ts : List UploadTask) (size : ℕ) → G ts → P (creating ts size)) (u : Circumstances)
    (during : All P u.during_walk) (before : All P u.before_tasks) where
  open S use {Db, tasks, find}

  abbrev N : Db → Type 0
  N d = M (tasks d)

  run_keeps : (os : List Operation) (db : Db) → All P os → N db → N (run S os db)
  unfolding run
  run_keeps [] db p h = h
  run_keeps (o ∷ os) db p h = run_keeps os (apply S o db) p.1 (keeps o db p.0 h)

  upsert_keeps :
      (p : FileRecord → Bool) (f : FileRecord → FileRecord) (g : ℕ → FileRecord) (d : Db)
      → Ran {A = ℕ} (λ n d'. tasks d' ≡ tasks d) (S.snapshots.upsert p f g d)
  upsert_keeps p f g d =
      Ran-map _ (λ n d'. tasks d' ≡ tasks d) (S.snapshots.upsert p f g d) (λ n d' q. q.1.0)
        (S.snapshots.upsert_law p f g d)

  update_keeps :
      (p : FileRecord → Bool) (f : FileRecord → FileRecord) (d : Db)
      → Ran {A = ℕ} (λ n d'. tasks d' ≡ tasks d) (S.update_files p f d)
  update_keeps p f d =
      Ran-map _ (λ n d'. tasks d' ≡ tasks d) (S.update_files p f d) (λ n d' q. q.0)
        (S.update_files_law p f d)

  -- The tasks that the walk proposes, under any ids of their records, may be created.
  module _ (w : Folder) (records : List FileRecord) (x : Option Problem × Scan)
      (valid : (stored : List FileRecord) → G (valid_tasks stored x.1.candidates)) where
    after_tasks_keeps :
        (s : Scan) (missing n : ℕ) (y : Result ℕ × Db)
        → N y.1
        → N (after_tasks S u x.0 s missing n y).1
    after_tasks_keeps s missing n (err e, d) h = h
    after_tasks_keeps s missing n (ok k, d) h = h

    store_tasks_keeps :
        (missing : ℕ) (stored : List FileRecord) (d : Db)
        → N d
        → N (store_tasks S u x.0 x.1 missing stored d).1
    unfolding store_tasks apply
    store_tasks_keeps missing stored d h = after_tasks_keeps _ missing _ _ (
        keeps (creating (valid_tasks stored x.1.candidates) u.batch_size) (run S u.before_tasks d)
          (creates (valid_tasks stored x.1.candidates) u.batch_size (valid stored))
          (run_keeps u.before_tasks d before h))

    after_reload_keeps :
        (missing : ℕ) (r : Result (List FileRecord)) (d : Db)
        → N d
        → N (after_reload S u x.0 x.1 missing r d).1
    after_reload_keeps missing (err e) d h = h
    after_reload_keeps missing (ok fs) d h = store_tasks_keeps missing _ d h

    after_create_keeps :
        (missing : ℕ) (y : Result (Unit {0}) × Db)
        → N y.1
        → N (after_create S w u x.0 x.1 missing y).1
    after_create_keeps missing (err e, d) h = h
    after_create_keeps missing (ok v, d) h =
        after_reload_keeps missing (list_for_watch_folder S w.id w.root d) d h

    store_new_keeps :
        (missing : ℕ) (fs : List FileRecord) (d : Db)
        → N d
        → N (store_new S w u x.0 x.1 missing fs d).1
    unfolding store_new
    store_new_keeps missing [] d h = store_tasks_keeps missing x.1.records d h
    store_new_keeps missing (f ∷ fs) d h =
        after_create_keeps missing (create_snapshots S (f ∷ fs) d)
          (subst M (sym (create_snapshots-view S tasks upsert_keeps update_keeps (f ∷ fs) d)) h)

    after_missing_keeps :
        (missing : ℕ) (y : Result (Unit {0}) × Db)
        → N y.1
        → N (after_missing S w u x.0 x.1 missing y).1
    after_missing_keeps missing (err e, d) h = h
    after_missing_keeps missing (ok v, d) h = store_new_keeps missing x.1.new_snapshots d h

    after_update_keeps : (y : Result (Unit {0}) × Db) → N y.1 → N (after_update S w u records x y).1
    after_update_keeps (err e, d) h = h
    after_update_keeps (ok v, d) h =
        let ids = missing_ids u.relative records x in
        after_missing_keeps (length ids) (mark_missing S ids u.now u.batch_size d) (
          subst M
            (sym (mark_missing-view S tasks upsert_keeps update_keeps ids u.now u.batch_size d)) h)

    store_scan_keeps : (stop : Option Stop) (d : Db) → N d → N (store_scan S w u records x stop d).1
    unfolding store_scan
    store_scan_keeps (some stop) d h = h
    store_scan_keeps none d h =
        after_update_keeps
          (update_snapshots S x.1.changed_snapshots x.1.clear_uploaded u.batch_size d)
          (subst M
            (sym (
              update_snapshots-view S tasks upsert_keeps update_keeps x.1.changed_snapshots
                x.1.clear_uploaded u.batch_size d))
            h)

  module _
      (valid : (w : Folder) (records : List FileRecord) (open_tasks : List UploadTask)
          (stored : List FileRecord)
        → G (valid_tasks stored (scan w u.tree records open_tasks).1.candidates)) where
    after_open_keeps :
        (w : Folder) (records : List FileRecord) (r : Result (List UploadTask)) (d : Db)
        → N d
        → N (after_open S w u records r d).1
    after_open_keeps w records (err e) d h = h
    after_open_keeps w records (ok open_tasks) d h =
        store_scan_keeps w records (scan w u.tree records open_tasks) (valid w records open_tasks)
          u.ended (run S u.during_walk d) (run_keeps u.during_walk d during h)

    after_list_keeps :
        (w : Folder) (r : Result (List FileRecord)) (d : Db) → N d → N (after_list S w u r d).1
    after_list_keeps w (err e) d h = h
    after_list_keeps w (ok records) d h = after_open_keeps w records (find (open_in w.id) d) d h

    scan_folder_keeps : (f : Folder ⊎ Text) (d : Db) → N d → N (scan_folder S f u d).1
    unfolding scan_folder
    scan_folder_keeps (inr m) d h = h
    scan_folder_keeps (inl w) d h = after_list_keeps w (list_for_watch_folder S w.id w.root d) d h

candidate-IsWellFormed :
    (w : Folder) (v : Version) (f : FileRecord) (key : Text) → IsWellFormed (candidate w v f key)
candidate-IsWellFormed w v f key = ground arith

assigned-IsWellFormed :
    (t : UploadTask) (id : ℕ) → IsWellFormed t → IsWellFormed (record t { file_record_id = id })
assigned-IsWellFormed t id h = ground arith

valid_tasks-IsWellFormed :
    (stored : List FileRecord) (ts : List UploadTask)
    → All IsWellFormed ts
    → All IsWellFormed (valid_tasks stored ts)
unfolding valid_tasks
valid_tasks-IsWellFormed stored [] h = tt
valid_tasks-IsWellFormed stored (t ∷ ts) h =
    pick (assigned t (find_record (clean t.local_path) stored) == 0)
      (valid_tasks-IsWellFormed stored ts h.1)
  where
    pick :
        (b : Bool)
        → All IsWellFormed (valid_tasks stored ts)
        → All IsWellFormed (
            if b
            then valid_tasks stored ts
            else record t { file_record_id = assigned t (find_record (clean t.local_path) stored) }
              ∷ valid_tasks stored ts)
    pick true k = k
    pick false k = (assigned-IsWellFormed t _ h.0, k)

visit_version-IsWellFormed :
    (w : Folder) (v : Version) (s : Scan)
    → All IsWellFormed s.candidates
    → All IsWellFormed (visit_version w v s).candidates
unfolding visit_version
visit_version-IsWellFormed w v s h =
    let o = find_record v.path s.records in
    let older = subst (λ ts. All IsWellFormed ts) (sym (note_snapshot-candidates w v o s).0) h in
    propose-cases (λ x. All IsWellFormed x.candidates) w v (snapshot w v o) (note_snapshot w v o s)
      older older
      (λ e.
        All-append_one IsWellFormed (note_snapshot w v o s).candidates _ older
          (candidate-IsWellFormed w v (snapshot w v o) _))

candidates-IsWellFormed :
    (w : Folder) (t : Tree) (records : List FileRecord) (open_tasks : List UploadTask)
    → All IsWellFormed (scan w t records open_tasks).1.candidates
unfolding scan
candidates-IsWellFormed w t records open_tasks =
    walk-On (record w { legacy_paths = legacy_paths_of open_tasks })
      (λ p. All IsWellFormed p.candidates)
      (λ v s h.
        visit_version-IsWellFormed (record w { legacy_paths = legacy_paths_of open_tasks }) v s h)
      t (start records open_tasks) tt

-- A scan of a folder, however it ends and whatever fails, takes no task from the worker that runs it
-- under a lease, if the calls that it meets are of other workers and of clients, and the claims among
-- those come before the lease expires; and it keeps every task well formed, if the tasks that those
-- calls create are.
pub scan_folder-keeps :
    (S : Sql) (f : Folder ⊎ Text) (u : Circumstances) (id : ℕ) (owner : Text) (expiry : ℕ)
    (db : S.Db)
    → All (Foreign owner expiry) u.during_walk
    → All (Foreign owner expiry) u.before_tasks
    → All Admissible u.during_walk
    → All Admissible u.before_tasks
    → Any (IsHeld id owner expiry) (S.tasks db)
    → All IsWellFormed (S.tasks db)
    → Any (IsHeld id owner expiry) (S.tasks (scan_folder S f u db).1)
      × All IsWellFormed (S.tasks (scan_folder S f u db).1)
scan_folder-keeps S f u id owner expiry db fd fb ad ab held formed = (
  scan_folder_keeps S (Any (IsHeld id owner expiry)) (Foreign owner expiry) (λ ts. Unit {0})
      (λ o d p h. apply-IsHeld S id owner expiry o d p h) (λ ts size g. tt) u fd fb
      (λ w records open_tasks stored. tt) f db held,
  scan_folder_keeps S (All IsWellFormed) Admissible (All IsWellFormed)
      (λ o d p h. apply-IsWellFormed S o d p h) (λ ts size g. g) u ad ab
      (λ w records open_tasks stored.
        valid_tasks-IsWellFormed stored (scan w u.tree records open_tasks).1.candidates
          (candidates-IsWellFormed w u.tree records open_tasks))
      f db formed,
)
