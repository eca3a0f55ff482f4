-- ===== src/FolderRepository/Keeping.antt =====
-- A property of every folder is kept by a call whose assignments keep it.
use rclone_sync_hub_go_backe.Prelude.{
  ℕ, zero, suc, Text, codes, Bool, true, ◌≡◌, sym, subst, List, [], ◌∷◌, map, select, some_of, All,
  Bool-cases, inl, inr,
}
use rclone_sync_hub_go_backe.Model.{UploadTask, FileRecord}
use rclone_sync_hub_go_backe.Model.Folders.{WatchFolder, RemoteRoute}
use rclone_sync_hub_go_backe.Database.Outcome.{Result, err, conflict, Ran, Ran-map, patch}
use rclone_sync_hub_go_backe.Database.Statement.{Sql}
use rclone_sync_hub_go_backe.Database.Transaction.{
  read, write, write_classified, when, leave, single,
}
use rclone_sync_hub_go_backe.Database.Keeping.{
  Stays, after, read-Stays, write-Stays, classified-Stays, when-Stays, unmoved, transact-keeps,
  single-keeps,
}
use rclone_sync_hub_go_backe.TaskRepository.Answers.{required}
use rclone_sync_hub_go_backe.TaskRepository.Rows.{
  running_in, waiting_in, stop_running, cancel_waiting,
}
use rclone_sync_hub_go_backe.FolderRepository.{
  Marshaled, no_steps, steps_json, not_marshaled, of_folders, forget_upload, detach, pipeline_of,
  cancel_tasks, leave_destination, save_pipeline, verify_update, update_folder, delete_idle,
  delete_folder,
}
use rclone_sync_hub_go_backe.FolderRepository.Columns.{
  folder_id, live_scan, updatable, update_columns,
}
use rclone_sync_hub_go_backe.RouteRepository.{
  one_of, folder_ids, redirect_folders, move_linked, update_route,
}
use rclone_sync_hub_go_backe.RouteRepository.Columns.{
  route_id, live_index, changed_since, route_columns, linked_to, redirect, present_in, lose,
}

All-patch :
    {Row : Type 0} (K : Row → Type 0) (p : Row → Bool) (f : Row → Row) (rs : List Row)
    → ((r : Row) → p r ≡ true → K r → K (f r))
    → All K rs
    → All K (map (patch p f) rs)
All-patch K p f [] k h = tt
All-patch K p f (r ∷ rs) k h = elim (Bool-cases (p r)) [
  | inl e ↦ rw e (k r e h.0, All-patch K p f rs k h.1)
  | inr e ↦ rw e (h.0, All-patch K p f rs k h.1)
]

All-select :
    {Row : Type 0} (K : Row → Type 0) (p : Row → Bool) (rs : List Row)
    → All K rs
    → All K (select p rs)
All-select K p [] h = tt
All-select K p (r ∷ rs) h = elim (Bool-cases (p r)) [
  | inl e ↦ rw e (h.0, All-select K p rs h.1)
  | inr e ↦ rw e (All-select K p rs h.1)
]

-- Statements and calls keep a property of every folder.
module _ (S : Sql) (K : WatchFolder → Type 0) where
  open S use {
    Db, folder_rows, begin, commit, updates, updates_rest, update_files, update_files_rest, folders,
    pipelines, routes, remote_files,
  }

  abbrev pub Kept : Db → Type 0
  Kept d = All K (folder_rows d)

  pub update-Kept :
      (p : WatchFolder → Bool) (f : WatchFolder → WatchFolder) (d : Db)
      → ((r : WatchFolder) → p r ≡ true → K r → K (f r))
      → Kept d
      → Ran (λ n d'. Kept d') (folders.update p f d)
  update-Kept p f d k h =
      Ran-map _ (λ n d'. Kept d') (folders.update p f d)
        (λ n d' q. subst (All K) (sym q.0) (All-patch K p f (folder_rows d) k h))
        (folders.update_law p f d)

  pub single-Kept :
      (p : WatchFolder → Bool) (f : WatchFolder → WatchFolder) (d : Db)
      → ((r : WatchFolder) → p r ≡ true → K r → K (f r))
      → Kept d
      → Kept (single (folders.update p f) d).1
  single-Kept p f d k h = single-keeps Kept (folders.update p f) d h (update-Kept p f d k h)

  tasks-Kept :
      (p : UploadTask → Bool) (f : UploadTask → UploadTask) (d : Db)
      → Kept d
      → Stays Kept (write (updates p f) d)
  tasks-Kept p f d h =
      write-Stays Kept (updates p f) d
        (unmoved folder_rows (All K) _ (updates p f d) d h (λ n d' q. q.0) (updates_rest p f d))

  files-Kept :
      (p : FileRecord → Bool) (f : FileRecord → FileRecord) (d : Db)
      → Kept d
      → Stays Kept (write (update_files p f) d)
  files-Kept p f d h = write-Stays Kept (update_files p f) d (
      unmoved folder_rows (All K) _ (update_files p f d) d h (λ n d' q. q.0)
        (update_files_rest p f d))

  cancel_tasks-Kept :
      (now : ℕ) (ids : List ℕ) (msg : Text) (d : Db)
      → Kept d
      → Stays Kept (cancel_tasks S now ids msg d)
  unfolding cancel_tasks
  cancel_tasks-Kept now ids msg d h =
      after Kept (write (updates (running_in ids) (stop_running now))) _ d
        (tasks-Kept (running_in ids) (stop_running now) d h)
        λ n d1 h1.
          after Kept (write (updates (waiting_in ids) (cancel_waiting now msg))) _ d1
            (tasks-Kept (waiting_in ids) (cancel_waiting now msg) d1 h1) λ k d2 h2. h2

  leave_destination-Kept :
      (now : ℕ) (ids : List ℕ) (msg : Text) (d : Db)
      → Kept d
      → Stays Kept (leave_destination S now ids msg d)
  unfolding leave_destination
  leave_destination-Kept now ids msg d h =
      after Kept (write (update_files (of_folders ids) forget_upload)) _ d
        (files-Kept (of_folders ids) forget_upload d h)
        λ n d' h'. cancel_tasks-Kept now ids msg d' h'

  pipelines-Kept :
      {A : Type 0} (s : Db → Result (A × Db)) (Q : A → Db → Type 0) (d : Db)
      → Kept d
      → ((a : A) (d' : Db) → Q a d' → folder_rows d' ≡ folder_rows d)
      → Ran Q (s d)
      → Stays Kept {A = A} (write s d)
  pipelines-Kept s Q d h k q = write-Stays Kept s d (unmoved folder_rows (All K) Q (s d) d h k q)

  save_pipeline-Kept :
      (id : ℕ) (m : Marshaled) (d : Db) → Kept d → Stays Kept (save_pipeline S id m d)
  unfolding save_pipeline
  save_pipeline-Kept id no_steps d h =
      after Kept (write (pipelines.remove (pipeline_of id))) _ d
        (pipelines-Kept (pipelines.remove (pipeline_of id)) _ d h (λ n d' q. q.1.3)
          (pipelines.remove_law (pipeline_of id) d))
        λ n d' h'. h'
  save_pipeline-Kept id (steps_json json) d h =
      after Kept (write (pipelines.upsert _ _ _)) _ d
        (pipelines-Kept (pipelines.upsert _ _ _) _ d h (λ n d' q. q.1.3)
          (pipelines.upsert_law _ _ _ d))
        λ n d' h'. h'
  save_pipeline-Kept id not_marshaled d h = tt

  verify_update-Kept : (id n : ℕ) (d : Db) → Kept d → Stays Kept (verify_update S id n d)
  unfolding verify_update
  verify_update-Kept id (suc n) d h = h
  verify_update-Kept id zero d h =
      after Kept (read (folders.first (folder_id id))) _ d
        (read-Stays Kept (folders.first (folder_id id)) d h) λ found d' h'. tt

  pub update_folder-Kept :
      (now : ℕ) (f : WatchFolder) (steps : Marshaled) (idle changed : Bool) (d : Db)
      → ((r : WatchFolder) → K r → updatable f idle r ≡ true → K (update_columns now f r))
      → Kept d
      → Kept (update_folder S now f steps idle changed d).1
  unfolding update_folder
  update_folder-Kept now f steps idle changed d k h = transact-keeps Kept begin commit _ d h (
      after Kept (write_classified (folders.update (updatable f idle) (update_columns now f))) _ d
        (classified-Stays Kept (folders.update (updatable f idle) (update_columns now f)) d
          (update-Kept (updatable f idle) (update_columns now f) d (λ r e x. k r x e) h))
        λ n d1 h1.
          after Kept (verify_update S f.id n) _ d1 (verify_update-Kept f.id n d1 h1) λ u d2 h2.
            after Kept (when changed _) _ d2
              (when-Stays Kept changed _ d2 h2 (
                leave_destination-Kept now (f.id ∷ [])
                  (codes "watch folder upload destination changed") d2 h2))
              λ v d3 h3. save_pipeline-Kept f.id steps d3 h3)

  delete_idle-Kept :
      (now id : ℕ) (f : WatchFolder) (d : Db) → Kept d → Stays Kept (delete_idle S now id f d)
  unfolding delete_idle
  delete_idle-Kept now id f d h = elim (Bool-cases (live_scan now f)) [
    | inl e ↦ rw e tt
    | inr e ↦ rw e (
        after Kept (cancel_tasks S now (id ∷ []) (codes "watch folder deleted")) _ d
          (cancel_tasks-Kept now (id ∷ []) (codes "watch folder deleted") d h)
          λ u d1 h1.
            after Kept (write (update_files (of_folders (id ∷ [])) detach)) _ d1
              (files-Kept (of_folders (id ∷ [])) detach d1 h1)
              λ n d2 h2.
                after Kept (write (pipelines.remove (pipeline_of id))) _ d2
                  (pipelines-Kept (pipelines.remove (pipeline_of id)) _ d2 h2 (λ n d' q. q.1.3)
                    (pipelines.remove_law (pipeline_of id) d2))
                  λ m d3 h3.
                    after Kept (write (folders.remove (folder_id id))) _ d3
                      (write-Stays Kept (folders.remove (folder_id id)) d3 (
                        Ran-map _ (λ n d'. Kept d') (folders.remove (folder_id id) d3)
                          (λ n d' q. subst (All K) (sym q.0) (All-select K _ (folder_rows d3) h3))
                          (folders.remove_law (folder_id id) d3)))
                      λ k d4 h4. h4)
  ]

  pub delete_folder-Kept : (now id : ℕ) (d : Db) → Kept d → Kept (delete_folder S now id d).1
  unfolding delete_folder
  delete_folder-Kept now id d h = transact-keeps Kept begin commit _ d h (
      after Kept (read (folders.first (folder_id id))) _ d
        (read-Stays Kept (folders.first (folder_id id)) d h)
        λ found d1 h1.
          after Kept (read (λ _. required found)) _ d1 (read-Stays Kept (λ _. required found) d1 h1)
            λ f d2 h2. delete_idle-Kept now id f d2 h2)

  redirect_folders-Kept :
      (now : ℕ) (r : RemoteRoute) (ids : List ℕ) (d : Db)
      → ((f : WatchFolder) → K f → K (redirect now r f))
      → Kept d
      → Stays Kept (redirect_folders S now r ids d)
  unfolding redirect_folders
  redirect_folders-Kept now r [] d k h = h
  redirect_folders-Kept now r (id ∷ ids) d k h =
      after Kept (write (folders.update (one_of (id ∷ ids)) (redirect now r))) _ d
        (write-Stays Kept (folders.update (one_of (id ∷ ids)) (redirect now r)) d
          (update-Kept (one_of (id ∷ ids)) (redirect now r) d (λ f e x. k f x) h))
        λ n d1 h1. leave_destination-Kept now (id ∷ ids) (codes "remote route changed") d1 h1

  move_linked-Kept :
      (now : ℕ) (r : RemoteRoute) (d : Db)
      → ((f : WatchFolder) → K f → K (redirect now r f))
      → Kept d
      → Stays Kept (move_linked S now r d)
  unfolding move_linked
  move_linked-Kept now r d k h =
      after Kept (read (folders.find (linked_to r.id))) _ d
        (read-Stays Kept (folders.find (linked_to r.id)) d h)
        λ linked d1 h1.
          after Kept (when (some_of (live_scan now) linked) _) _ d1
            (when-Stays Kept (some_of (live_scan now) linked) (leave (err conflict)) d1 h1 tt)
            λ u d2 h2.
              after Kept (write (remote_files.update (present_in r.id) (lose now))) _ d2
                (pipelines-Kept (remote_files.update (present_in r.id) (lose now)) _ d2 h2
                  (λ n d' q. q.1.3) (remote_files.update_law (present_in r.id) (lose now) d2))
                λ n d3 h3. redirect_folders-Kept now r (folder_ids linked) d3 k h3

  pub update_route-Kept :
      (now : ℕ) (r : RemoteRoute) (changed : Bool) (d : Db)
      → ((f : WatchFolder) → K f → K (redirect now r f))
      → Kept d
      → Kept (update_route S now r changed d).1
  unfolding update_route
  update_route-Kept now r changed d k h = transact-keeps Kept begin commit _ d h (
      after Kept (read (routes.first (route_id r.id))) _ d
        (read-Stays Kept (routes.first (route_id r.id)) d h)
        λ found d1 h1.
          after Kept (read (λ _. required found)) _ d1 (read-Stays Kept (λ _. required found) d1 h1)
            λ current d2 h2.
              after Kept (when (live_index now current) _) _ d2
                (when-Stays Kept (live_index now current) (leave (err conflict)) d2 h2 tt)
                λ u d3 h3.
                  after Kept (when (changed_since r current) _) _ d3
                    (when-Stays Kept (changed_since r current) (leave (err conflict)) d3 h3 tt)
                    λ v d4 h4.
                      after Kept
                        (write_classified (routes.update (route_id r.id) (route_columns now r))) _
                        d4
                        (classified-Stays Kept (routes.update (route_id r.id) (route_columns now r))
                          d4
                          (unmoved folder_rows (All K) _
                            (routes.update (route_id r.id) (route_columns now r) d4) d4 h4
                            (λ n d' q. q.1.2)
                            (routes.update_law (route_id r.id) (route_columns now r) d4)))
                        λ n d5 h5.
                          when-Stays Kept changed (move_linked S now r) d5 h5
                            (move_linked-Kept now r d5 k h5))
