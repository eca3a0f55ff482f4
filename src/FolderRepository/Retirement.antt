-- ===== src/FolderRepository/Retirement.antt =====
-- The deletion of a folder and the change of its destination, and the tasks that they leave.
use rclone_sync_hub_go_backe.Prelude.{
  ℕ, zero, suc, Text, codes, Bool, true, false, not, ltb, ◌&&◌, ◌||◌, ◌≡◌, ◌≢◌, ◌∙◌, ap, refl, sym,
  subst, List, [], ◌∷◌, some, is_some, map, select, some_of, Member, All, Bool-cases, inl, inr,
  lt→ltb, ==_iff, Rowwise, Rowwise-map, arith,
}
use rclone_sync_hub_go_backe.Model.{UploadTask, FileRecord, is, running, success, canceled}
use rclone_sync_hub_go_backe.Model.Folders.{WatchFolder}
use rclone_sync_hub_go_backe.Database.Outcome.{Result, ok, err, Err, Ran, Read, patch}
use rclone_sync_hub_go_backe.Database.Table.{Found}
use rclone_sync_hub_go_backe.Database.Statement.{Sql}
use rclone_sync_hub_go_backe.Database.Transaction.{
  Tx, Step, next, rollback, ◌>>=◌, ◌>>◌, write_classified, Ends, Ends-bind, Ends-bind-write,
  Ends-bind-read, Final, Final-transact,
}
use rclone_sync_hub_go_backe.TaskRepository.Answers.{required}
use rclone_sync_hub_go_backe.TaskRepository.Claims.{required-ok}
use rclone_sync_hub_go_backe.TaskRepository.Rows.{
  claimable, running_in, waiting_in, stop_running, cancel_waiting,
}
use rclone_sync_hub_go_backe.FolderRepository.{
  Marshaled, no_steps, steps_json, not_marshaled, save_pipeline, verify_update, update_folder,
  of_folders, forget_upload, detach, pipeline_of, cancel_tasks, leave_destination, delete_idle,
  delete_folder,
}
use rclone_sync_hub_go_backe.FolderRepository.Written.{
  IsIdle, live_scan-IsIdle, Updates, update_columns-Updates, Forgets, forget_upload-Forgets,
}
use rclone_sync_hub_go_backe.FolderRepository.Columns.{
  folder_id, live_scan, updatable, update_columns,
}

-- A task of the folder is at its end, or runs with a cancellation request; no claim can take it.
pub record IsRetired (id : ℕ) (t : UploadTask) : Type 0 where
  pub stopped :
      t.watch_folder_id ≡ id
      → (is t.status success
          || is t.status canceled
          || is t.status running && is_some t.cancel_requested_at)
        ≡ true
  pub unclaimable :
      t.watch_folder_id ≡ id → (now max_attempts : ℕ) → claimable now max_attempts t ≡ false

IsRetired-row :
    (now id : ℕ) (msg : Text) (t : UploadTask)
    → IsRetired id (
        patch
          (waiting_in (id ∷ []))
          (cancel_waiting now msg)
          (patch (running_in (id ∷ [])) (stop_running now) t))
IsRetired-row now id msg t = ground arith

IsRetired-rows :
    (now id : ℕ) (msg : Text) (ts : List UploadTask)
    → All (IsRetired id) (
        map
          (patch (waiting_in (id ∷ [])) (cancel_waiting now msg))
          (map (patch (running_in (id ∷ [])) (stop_running now)) ts))
IsRetired-rows now id msg [] = tt
IsRetired-rows now id msg (t ∷ ts) = (IsRetired-row now id msg t, IsRetired-rows now id msg ts)

-- What a statement that returned has done.
done_by :
    {A D : Type 0} (Q : A → D → Type 0) {s : Result (A × D)} {a : A} {d : D}
    → Ran Q s
    → s ≡ ok (a, d)
    → Q a d
done_by Q q e = subst (Ran Q) e q

Ends-map :
    {D R A : Type 0} (P Q : A → D → Type 0) (Back : Result R → Type 0) (x : Step D R A)
    → ((a : A) (d : D) → P a d → Q a d)
    → Ends P Back x
    → Ends Q Back x
Ends-map P Q Back (next a d) f h = f a d h
Ends-map P Q Back (rollback r) f h = h

no_folder_left :
    (id : ℕ) (fs : List WatchFolder)
    → some_of (folder_id id) (select (λ f. not (folder_id id f)) fs) ≡ false
no_folder_left id [] = refl
no_folder_left id (f ∷ fs) = elim (Bool-cases (folder_id id f)) [
  | inl e ↦ rw e (no_folder_left id fs)
  | inr e ↦ rw e (rw e (no_folder_left id fs))
]

detached_rows :
    (id : ℕ) (fs : List FileRecord)
    → id ≢ 0
    → some_of (of_folders (id ∷ [])) (map (patch (of_folders (id ∷ [])) detach) fs) ≡ false
detached_rows id [] h = refl
detached_rows id (f ∷ fs) h = ground (arith, detached_rows id fs h)

module _ (S : Sql) (db : S.Db) where
  open S use {
    Db, tasks, files, folder_rows, begin, commit, updates, updates_law, updates_rest, update_files,
    update_files_law, update_files_rest, folders, pipelines,
  }

  module _ {R : Type 0} (Back : Result R → Type 0) (b : (e : Err) → Back (err e)) where
    -- Both updates of the tasks: the tasks are retired, and the rest is left alone.
    cancel_tasks-IsRetired :
        (now id : ℕ) (msg : Text) (d : Db)
        → Ends
            (λ u d'.
              All (IsRetired id) (tasks d')
              × (files d' ≡ files d)
              × (folder_rows d' ≡ folder_rows d))
            Back
            (cancel_tasks S now (id ∷ []) msg d)
    unfolding cancel_tasks
    cancel_tasks-IsRetired now id msg d =
        Ends-bind-write _ Back (updates (running_in (id ∷ [])) (stop_running now)) _ d b λ n d1 e1.
          Ends-bind-write _ Back (updates (waiting_in (id ∷ [])) (cancel_waiting now msg)) _ d1 b
            λ k d2 e2.
              let q1 = done_by _ (updates_law (running_in (id ∷ [])) (stop_running now) d) e1 in
              let r1 = done_by _ (updates_rest (running_in (id ∷ [])) (stop_running now) d) e1 in
              let q2 =
                done_by _ (updates_law (waiting_in (id ∷ [])) (cancel_waiting now msg) d1) e2 in
              let r2 =
                done_by _ (updates_rest (waiting_in (id ∷ [])) (cancel_waiting now msg) d1) e2 in
              (
                subst (All (IsRetired id))
                    (sym (
                      q2.0 ∙ ap (map (patch (waiting_in (id ∷ [])) (cancel_waiting now msg))) q1.0))
                    (IsRetired-rows now id msg (tasks d)),
                q2.1 ∙ q1.1,
                r2.0 ∙ r1.0,
              )

    -- And the records of the folder do not count as uploaded.
    leave_destination-IsRetired :
        (now id : ℕ) (msg : Text) (d : Db)
        → Ends
            (λ u d'.
              All (IsRetired id) (tasks d')
              × (files d' ≡ map (patch (of_folders (id ∷ [])) forget_upload) (files d))
              × (folder_rows d' ≡ folder_rows d))
            Back
            (leave_destination S now (id ∷ []) msg d)
    unfolding leave_destination
    leave_destination-IsRetired now id msg d =
        Ends-bind-write _ Back (update_files (of_folders (id ∷ [])) forget_upload) _ d b λ k d1 e1.
          let q1 = done_by _ (update_files_law (of_folders (id ∷ [])) forget_upload d) e1 in
          let r1 = done_by _ (update_files_rest (of_folders (id ∷ [])) forget_upload d) e1 in
          Ends-map _ _ Back (cancel_tasks S now (id ∷ []) msg d1)
            (λ u d2 h. (h.0, h.1 ∙ q1.1, h.2 ∙ r1.0)) (cancel_tasks-IsRetired now id msg d1)

  module _ (now id : ℕ) where
    -- The folder was there and in no live scan; it is gone, its file records are detached, and its
    -- tasks are retired.
    pub record IsDeleted (u : Unit {0}) (db' : Db) : Type 0 where
      pub folder : WatchFolder
      pub was_there : Member folder (folder_rows db)
      pub this : folder.id ≡ id
      pub was_idle : IsIdle now folder
      pub gone : some_of (folder_id id) (folder_rows db') ≡ false
      pub detached : id ≢ 0 → some_of (of_folders (id ∷ [])) (files db') ≡ false
      pub retired : All (IsRetired id) (tasks db')

    abbrev pub NotDeleted : Result (Unit {0}) → Type 0
    NotDeleted (ok u) = ⊥
    NotDeleted (err e) = Unit

    Found-folder :
        (f : WatchFolder)
        → folders.first (folder_id id) db ≡ ok (some f)
        → Found (folder_id id) (folder_rows db) (some f)
    Found-folder f e =
        subst (Read (Found (folder_id id) (folder_rows db))) e (folders.first_law (folder_id id) db)

    delete_idle-Post :
        (f : WatchFolder)
        → Member f (folder_rows db)
        → f.id ≡ id
        → Ends IsDeleted NotDeleted (delete_idle S now id f db)
    unfolding delete_idle
    delete_idle-Post f m i = elim (Bool-cases (live_scan now f)) [
      | inl e ↦ rw e tt
      | inr e ↦ rw e (
          Ends-bind _ IsDeleted NotDeleted
            (cancel_tasks S now (id ∷ []) (codes "watch folder deleted")) _ db
            (cancel_tasks-IsRetired NotDeleted (λ x. tt) now id (codes "watch folder deleted") db)
            λ u d1 h1.
              Ends-bind-write IsDeleted NotDeleted (update_files (of_folders (id ∷ [])) detach) _ d1
                (λ x. tt)
                λ n d2 e2.
                  Ends-bind-write IsDeleted NotDeleted (pipelines.remove (pipeline_of id)) _ d2
                    (λ x. tt)
                    λ k d3 e3.
                      Ends-bind-write IsDeleted NotDeleted (folders.remove (folder_id id)) _ d3
                        (λ x. tt)
                        λ j d4 e4.
                          let q2 =
                            done_by _ (update_files_law (of_folders (id ∷ [])) detach d1) e2 in
                          let q3 = done_by _ (pipelines.remove_law (pipeline_of id) d2) e3 in
                          let q4 = done_by _ (folders.remove_law (folder_id id) d3) e4 in
                          record {
                            folder = f;
                            was_there = m;
                            this = i;
                            was_idle = live_scan-IsIdle now f e;
                            gone =
                                subst (λ rs. some_of (folder_id id) rs ≡ false) (sym q4.0)
                                  (no_folder_left id (folder_rows d3));
                            detached = λ z.
                                subst (λ rs. some_of (of_folders (id ∷ [])) rs ≡ false)
                                  (sym (q4.1.1 ∙ q3.1.1 ∙ q2.1)) (detached_rows id (files d1) z);
                            retired =
                                subst (All (IsRetired id)) (sym (q4.1.0 ∙ q3.1.0 ∙ q2.0)) h1.0;
                          })
    ]

    -- Either the deletion of a folder commits: a folder with the id was there, in no scan or in one
    -- whose lease had expired, no folder with the id is left, no file record belongs to it if the id is not 0, and each of its
    -- tasks is at its end or runs with a cancellation request, so that no claim at any time can
    -- take it. Or it returns an error and leaves the database as it was.
    pub delete_folder_lem : Final IsDeleted NotDeleted db (delete_folder S now id db)
    unfolding delete_folder
    delete_folder_lem =
        Final-transact IsDeleted NotDeleted begin commit _ db (λ e. tt)
          (Ends-bind-read IsDeleted NotDeleted (folders.first (folder_id id)) _ db (λ e. tt)
            λ found ef.
              Ends-bind-read IsDeleted NotDeleted (λ _. required found) _ db (λ e. tt)
                λ f et.
                  let q = Found-folder f (ef ∙ ap ok (required-ok found f et)) in
                  delete_idle-Post f q.0 ((==_iff f.id id).0 q.1))

  module _ (now : ℕ) (f : WatchFolder) (steps : Marshaled) (idle : Bool) where
    -- A folder that may be updated has its new columns, no record of the folder counts as uploaded,
    -- no other folder or record has changed, and the tasks of the folder are retired.
    pub record IsRedirected (u : Unit {0}) (db' : Db) : Type 0 where
      pub forgotten : Rowwise (Forgets f.id) (files db) (files db')
      pub redirected : Rowwise (Updates now f idle) (folder_rows db) (folder_rows db')
      pub updated : some_of (updatable f idle) (folder_rows db) ≡ true
      pub retired : All (IsRetired f.id) (tasks db')

    abbrev pub NotRedirected : Result (Unit {0}) → Type 0
    NotRedirected (ok u) = ⊥
    NotRedirected (err e) = Unit

    save_pipeline-Post :
        (m : Marshaled) (d : Db)
        → IsRedirected tt d
        → Ends IsRedirected NotRedirected (save_pipeline S f.id m d)
    unfolding save_pipeline
    save_pipeline-Post no_steps d h =
        Ends-bind-write IsRedirected NotRedirected (pipelines.remove (pipeline_of f.id)) _ d
          (λ x. tt)
          λ n d' e.
            let q = done_by _ (pipelines.remove_law (pipeline_of f.id) d) e in
            record {
              forgotten = subst (Rowwise (Forgets f.id) (files db)) (sym q.1.1) h.forgotten;
              redirected =
                  subst (Rowwise (Updates now f idle) (folder_rows db)) (sym q.1.3) h.redirected;
              updated = h.updated;
              retired = subst (All (IsRetired f.id)) (sym q.1.0) h.retired;
            }
    save_pipeline-Post (steps_json json) d h =
        Ends-bind-write IsRedirected NotRedirected (pipelines.upsert _ _ _) _ d (λ x. tt)
          λ n d' e.
            let q = done_by _ (pipelines.upsert_law _ _ _ d) e in
            record {
              forgotten = subst (Rowwise (Forgets f.id) (files db)) (sym q.1.1) h.forgotten;
              redirected =
                  subst (Rowwise (Updates now f idle) (folder_rows db)) (sym q.1.3) h.redirected;
              updated = h.updated;
              retired = subst (All (IsRetired f.id)) (sym q.1.0) h.retired;
            }
    save_pipeline-Post not_marshaled d h = tt

    classified-bind :
        {A B : Type 0} (Q : B → Db → Type 0) (s : Db → Result (A × Db)) (k : A → Tx Db (Unit {0}) B)
        (d : Db)
        → ((a : A) (d' : Db) → s d ≡ ok (a, d') → Ends Q NotRedirected (k a d'))
        → Ends Q NotRedirected ((write_classified s >>= k) d)
    classified-bind {A} {B} Q s k d h = at (s d) refl
      where
        at :
            (r : Result (A × Db))
            → s d ≡ r
            → Ends Q NotRedirected ((write_classified (λ _. r) >>= k) d)
        at (ok (a, d')) e = h a d' e
        at (err x) e = tt

    rest_of_update :
        (n : ℕ) (d : Db)
        → files d ≡ files db
        → folder_rows d ≡ map (patch (updatable f idle) (update_columns now f)) (folder_rows db)
        → ltb 0 n ≡ some_of (updatable f idle) (folder_rows db)
        → Ends IsRedirected NotRedirected (
            (verify_update S f.id n >>= λ u.
            leave_destination S now (f.id ∷ []) (codes "watch folder upload destination changed")
            >> save_pipeline S f.id steps)
              d)
    unfolding verify_update
    rest_of_update zero d hf hr hn =
        Ends-bind _ IsRedirected NotRedirected (verify_update S f.id zero) _ d
          (Ends-bind-read (λ u d'. ⊥) NotRedirected (folders.first (folder_id f.id)) _ d (λ x. tt)
            λ found e. tt)
          λ u d' z. absurd z
    rest_of_update (suc n) d hf hr hn =
        Ends-bind _ IsRedirected NotRedirected
          (leave_destination S now (f.id ∷ []) (codes "watch folder upload destination changed")) _
          d
          (leave_destination-IsRetired NotRedirected (λ x. tt) now f.id
            (codes "watch folder upload destination changed") d)
          λ u d2 h. save_pipeline-Post steps d2 (record {
            forgotten =
                subst (Rowwise (Forgets f.id) (files db))
                  (sym (h.1 ∙ ap (map (patch (of_folders (f.id ∷ [])) forget_upload)) hf))
                  (Rowwise-map (Forgets f.id) _ (files db) (λ r. forget_upload-Forgets f.id r));
            redirected = subst (Rowwise (Updates now f idle) (folder_rows db)) (sym (h.2 ∙ hr)) (
                Rowwise-map (Updates now f idle) _ (folder_rows db)
                  (λ r. update_columns-Updates now f idle r));
            updated = sym hn ∙ lt→ltb 0 (suc n) (omega arith);
            retired = h.0;
          })

    -- Either an update of a folder with another destination commits: some folder had the id and the
    -- version that were read and, where that is asked, was in no scan; each such folder has the
    -- columns that were given, is due at once and keeps its lease; each file record of the folder
    -- loses the time of its upload and nothing else; no other folder and no other record changes;
    -- and each task of the folder is at its end or runs with a cancellation request, so that no
    -- claim at any time can take it. Or it returns an error and leaves the database as it was.
    pub update_folder_lem :
        Final IsRedirected NotRedirected db (update_folder S now f steps idle true db)
    unfolding update_folder
    update_folder_lem =
        Final-transact IsRedirected NotRedirected begin commit _ db (λ e. tt)
          (classified-bind IsRedirected (folders.update (updatable f idle) (update_columns now f)) _
            db
            λ n d e.
              let q =
                done_by _ (folders.update_law (updatable f idle) (update_columns now f) db) e in
              rest_of_update n d q.1.1 q.0 q.2)
