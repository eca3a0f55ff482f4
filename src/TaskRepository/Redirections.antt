-- ===== src/TaskRepository/Redirections.antt =====
-- The changes of folders and routes, and the cleanup, as moves of the task state machine.
use rclone_sync_hub_go_backe.Prelude.{
  ℕ, zero, suc, Text, codes, Bool, true, false, List, [], ◌∷◌, some_of, inl, inr, Bool-cases,
}
use rclone_sync_hub_go_backe.Model.{UploadTask, FileRecord}
use rclone_sync_hub_go_backe.Model.Folders.{WatchFolder, RemoteRoute}
use rclone_sync_hub_go_backe.Database.Outcome.{Result, err, conflict, Ran, Ran-map}
use rclone_sync_hub_go_backe.Database.Table.{Drops, all_gone, kept, dropped}
use rclone_sync_hub_go_backe.Database.Statement.{Sql}
use rclone_sync_hub_go_backe.Database.Transaction.{
  Tx, Ends, Ends-bind-read, transact, single, Final, Final-transact, Final-single, read, write,
  write_classified, when, leave,
}
use rclone_sync_hub_go_backe.Database.Keeping.{
  Stays, after, read-Stays, write-Stays, classified-Stays, when-Stays, unmoved,
}
use rclone_sync_hub_go_backe.TaskRepository.Answers.{required}
use rclone_sync_hub_go_backe.TaskRepository.Rows.{
  running_in, waiting_in, stop_running, cancel_waiting, outdated,
}
use rclone_sync_hub_go_backe.FolderRepository.{
  Marshaled, no_steps, steps_json, not_marshaled, of_folders, forget_upload, detach, pipeline_of,
  cancel_tasks, leave_destination, save_pipeline, verify_update, update_folder, delete_idle,
  delete_folder,
}
use rclone_sync_hub_go_backe.FolderRepository.Columns.{
  folder_id, live_scan, updatable, update_columns,
}
use rclone_sync_hub_go_backe.RouteRepository.{
  one_of, folder_ids, redirect_folders, move_linked, update_route,
}
use rclone_sync_hub_go_backe.RouteRepository.Columns.{
  route_id, live_index, changed_since, route_columns, linked_to, redirect, present_in, lose,
}
use rclone_sync_hub_go_backe.TaskRepository.Operation.{
  Operation, updating_folder, deleting_folder, updating_route, cleaning,
}
use rclone_sync_hub_go_backe.TaskRepository.RowStep.{
  Redirects, destination_of_folder, deletion_of_folder, destination_of_route, here, stop, abandon,
  clean, Evolves, empty, row, gone,
}
use rclone_sync_hub_go_backe.TaskRepository.Moves.{
  Moves, Moves-refl, Anything, Evolves-Final, Evolves-refl, updates-Reached,
}

module _ (S : Sql) (o : Operation) (start : List UploadTask) where
  open S use {
    Db, tasks, updates, update_files, update_files_law, folders, pipelines, routes, remote_files,
  }

  -- The table of tasks is within reach of the one at the start.
  abbrev Near : Db → Type 0
  Near d = Moves o start (tasks d)

  files-Near :
      (p : FileRecord → Bool) (f : FileRecord → FileRecord) (d : Db)
      → Moves o start (tasks d)
      → Stays Near (write (update_files p f) d)
  files-Near p f d h = write-Stays Near (update_files p f) d (
      unmoved tasks (Moves o start) _ (update_files p f d) d h (λ n d' q. q.0)
        (update_files_law p f d))

  cancel_tasks-Near :
      {now : ℕ} {ids : List ℕ} {msg : Text} (d : Db)
      → Redirects o now ids msg
      → Moves o start (tasks d)
      → Stays Near (cancel_tasks S now ids msg d)
  unfolding cancel_tasks
  cancel_tasks-Near {now} {ids} {msg} d r h =
      after Near (write (updates (running_in ids) (stop_running now))) _ d
        (write-Stays Near (updates (running_in ids) (stop_running now)) d
          (updates-Reached S o start (running_in ids) (stop_running now) d h (λ u m g. stop u r g)))
        λ n d1 h1.
          after Near (write (updates (waiting_in ids) (cancel_waiting now msg))) _ d1
            (write-Stays Near (updates (waiting_in ids) (cancel_waiting now msg)) d1 (
              updates-Reached S o start (waiting_in ids) (cancel_waiting now msg) d1 h1
                (λ u m g. abandon u r g)))
            λ k d2 h2. h2

  leave_destination-Near :
      {now : ℕ} {ids : List ℕ} {msg : Text} (d : Db)
      → Redirects o now ids msg
      → Moves o start (tasks d)
      → Stays Near (leave_destination S now ids msg d)
  unfolding leave_destination
  leave_destination-Near {now} {ids} {msg} d r h =
      after Near (write (update_files (of_folders ids) forget_upload)) _ d
        (files-Near (of_folders ids) forget_upload d h) λ n d' h'. cancel_tasks-Near d' r h'

  save_pipeline-Near :
      (id : ℕ) (m : Marshaled) (d : Db)
      → Moves o start (tasks d)
      → Stays Near (save_pipeline S id m d)
  unfolding save_pipeline
  save_pipeline-Near id no_steps d h =
      after Near (write (pipelines.remove (pipeline_of id))) _ d
        (write-Stays Near (pipelines.remove (pipeline_of id)) d (
          unmoved tasks (Moves o start) _ (pipelines.remove (pipeline_of id) d) d h
            (λ n d' q. q.1.0) (pipelines.remove_law (pipeline_of id) d)))
        λ n d' h'. h'
  save_pipeline-Near id (steps_json json) d h =
      after Near (write (pipelines.upsert _ _ _)) _ d
        (write-Stays Near (pipelines.upsert _ _ _) d (
          unmoved tasks (Moves o start) _ (pipelines.upsert _ _ _ d) d h (λ n d' q. q.1.0)
            (pipelines.upsert_law _ _ _ d)))
        λ n d' h'. h'
  save_pipeline-Near id not_marshaled d h = tt

  verify_update-Near :
      (id n : ℕ) (d : Db) → Moves o start (tasks d) → Stays Near (verify_update S id n d)
  unfolding verify_update
  verify_update-Near id (suc n) d h = h
  verify_update-Near id zero d h =
      after Near (read (folders.first (folder_id id))) _ d
        (read-Stays Near (folders.first (folder_id id)) d h) λ found d' h'. tt

  folders-Near :
      (p : WatchFolder → Bool) (f : WatchFolder → WatchFolder) (d : Db)
      → Moves o start (tasks d)
      → Ran (λ n d'. Moves o start (tasks d')) (folders.update p f d)
  folders-Near p f d h =
      unmoved tasks (Moves o start) _ (folders.update p f d) d h (λ n d' q. q.1.0)
        (folders.update_law p f d)

-- The calls, from the table that they find.
module _ (S : Sql) (db : S.Db) where
  open S use {
    Db, tasks, begin, commit, folders, pipelines, routes, remote_files, delete_some,
    delete_some_law,
  }

  -- A transaction whose body stays within reach.
  body-Evolves :
      (o : Operation) (body : Tx Db (Unit {0}) (Unit {0}))
      → Ends (λ r d. Moves o (tasks db) (tasks d)) Anything (body db)
      → Evolves o (tasks db) (tasks (transact begin commit body db).1)
  body-Evolves o body h = Evolves-Final S o db _ (
      Final-transact (λ r d. Moves o (tasks db) (tasks d)) Anything begin commit body db (λ e. tt)
        h)

  -- The part that a flag switches on redirects tasks under that flag alone.
  leave_folder-Near :
      (now : ℕ) (f : WatchFolder) (steps : Marshaled) (idle changed : Bool) (d : Db)
      → Moves (updating_folder now f steps idle changed) (tasks db) (tasks d)
      → Ends {R = Unit {0}}
          (λ r d'. Moves (updating_folder now f steps idle changed) (tasks db) (tasks d'))
          Anything
          (when changed
            (leave_destination S now (f.id ∷ []) (codes "watch folder upload destination changed"))
            d)
  leave_folder-Near now f steps idle true d h =
      leave_destination-Near S (updating_folder now f steps idle true) (tasks db) d
        destination_of_folder h
  leave_folder-Near now f steps idle false d h = h

  pub update_folder-Evolves :
      (now : ℕ) (f : WatchFolder) (steps : Marshaled) (idle changed : Bool)
      → Evolves
          (updating_folder now f steps idle changed)
          (tasks db)
          (tasks (update_folder S now f steps idle changed db).1)
  unfolding update_folder
  update_folder-Evolves now f steps idle changed =
      let o = updating_folder now f steps idle changed in
      body-Evolves o _ (
        after (Near S o (tasks db))
          (write_classified (folders.update (updatable f idle) (update_columns now f))) _ db
          (classified-Stays (Near S o (tasks db))
            (folders.update (updatable f idle) (update_columns now f)) db
            (folders-Near S o (tasks db) (updatable f idle) (update_columns now f) db
              (Moves-refl o (tasks db))))
          λ n d1 h1.
            after (Near S o (tasks db)) (verify_update S f.id n) _ d1
              (verify_update-Near S o (tasks db) f.id n d1 h1)
              λ u d2 h2.
                after (Near S o (tasks db)) (when changed _) _ d2
                  (leave_folder-Near now f steps idle changed d2 h2)
                  λ v d3 h3. save_pipeline-Near S o (tasks db) f.id steps d3 h3)

  delete_idle-Near :
      (now id : ℕ) (f : WatchFolder)
      → Ends
          (λ r d. Moves (deleting_folder now id) (tasks db) (tasks d))
          Anything
          (delete_idle S now id f db)
  unfolding delete_idle
  delete_idle-Near now id f = elim (Bool-cases (live_scan now f)) [
    | inl e ↦ rw e tt
    | inr e ↦ rw e (
        after (Near S o (tasks db)) (cancel_tasks S now (id ∷ []) (codes "watch folder deleted")) _
          db (cancel_tasks-Near S o (tasks db) db deletion_of_folder (Moves-refl o (tasks db)))
          λ u d1 h1.
            after (Near S o (tasks db)) (write (S.update_files (of_folders (id ∷ [])) detach)) _ d1
              (files-Near S o (tasks db) (of_folders (id ∷ [])) detach d1 h1)
              λ n d2 h2.
                after (Near S o (tasks db)) (write (pipelines.remove (pipeline_of id))) _ d2
                  (write-Stays (Near S o (tasks db)) (pipelines.remove (pipeline_of id)) d2 (
                    unmoved tasks (Moves o (tasks db)) _ (pipelines.remove (pipeline_of id) d2) d2
                      h2 (λ k d q. q.1.0) (pipelines.remove_law (pipeline_of id) d2)))
                  λ m d3 h3.
                    after (Near S o (tasks db)) (write (folders.remove (folder_id id))) _ d3
                      (write-Stays (Near S o (tasks db)) (folders.remove (folder_id id)) d3 (
                        unmoved tasks (Moves o (tasks db)) _ (folders.remove (folder_id id) d3) d3
                          h3 (λ k d q. q.1.0) (folders.remove_law (folder_id id) d3)))
                      λ k d4 h4. h4)
  ]
    where
      o : Operation
      o = deleting_folder now id

  pub delete_folder-Evolves :
      (now id : ℕ)
      → Evolves (deleting_folder now id) (tasks db) (tasks (delete_folder S now id db).1)
  unfolding delete_folder
  delete_folder-Evolves now id =
      let o = deleting_folder now id in
      body-Evolves o _ (
        Ends-bind-read (λ r d. Moves o (tasks db) (tasks d)) Anything (folders.first (folder_id id))
          _ db (λ e. tt)
          λ found e.
            Ends-bind-read (λ r d. Moves o (tasks db) (tasks d)) Anything (λ _. required found) _ db
              (λ e. tt) λ f e. delete_idle-Near now id f)

  redirect_folders-Near :
      (now : ℕ) (r : RemoteRoute) (ids : List ℕ) (d : Db)
      → Moves (updating_route now r true) (tasks db) (tasks d)
      → Ends
          (λ u d'. Moves (updating_route now r true) (tasks db) (tasks d'))
          Anything
          (redirect_folders S now r ids d)
  unfolding redirect_folders
  redirect_folders-Near now r [] d h = h
  redirect_folders-Near now r (id ∷ ids) d h =
      let o = updating_route now r true in
      after (Near S o (tasks db)) (write (folders.update (one_of (id ∷ ids)) (redirect now r))) _ d
        (write-Stays (Near S o (tasks db)) (folders.update (one_of (id ∷ ids)) (redirect now r)) d
          (folders-Near S o (tasks db) (one_of (id ∷ ids)) (redirect now r) d h))
        λ n d1 h1. leave_destination-Near S o (tasks db) d1 destination_of_route h1

  move_linked-Near :
      (now : ℕ) (r : RemoteRoute) (changed : Bool) (d : Db)
      → Moves (updating_route now r changed) (tasks db) (tasks d)
      → Ends
          (λ u d'. Moves (updating_route now r changed) (tasks db) (tasks d'))
          Anything
          (when changed (move_linked S now r) d)
  unfolding move_linked
  move_linked-Near now r false d h = h
  move_linked-Near now r true d h =
      let o = updating_route now r true in
      after (Near S o (tasks db)) (read (folders.find (linked_to r.id))) _ d
        (read-Stays (Near S o (tasks db)) (folders.find (linked_to r.id)) d h)
        λ linked d1 h1.
          after (Near S o (tasks db)) (when (some_of (live_scan now) linked) _) _ d1
            (when-Stays (Near S o (tasks db)) (some_of (live_scan now) linked)
              (leave (err conflict)) d1 h1 tt)
            λ u d2 h2.
              after (Near S o (tasks db)) (write (remote_files.update (present_in r.id) (lose now)))
                _ d2
                (write-Stays (Near S o (tasks db))
                  (remote_files.update (present_in r.id) (lose now)) d2
                  (unmoved tasks (Moves o (tasks db)) _
                    (remote_files.update (present_in r.id) (lose now) d2) d2 h2 (λ k d' q. q.1.0)
                    (remote_files.update_law (present_in r.id) (lose now) d2)))
                λ n d3 h3. redirect_folders-Near now r (folder_ids linked) d3 h3

  pub update_route-Evolves :
      (now : ℕ) (r : RemoteRoute) (changed : Bool)
      → Evolves
          (updating_route now r changed)
          (tasks db)
          (tasks (update_route S now r changed db).1)
  unfolding update_route
  update_route-Evolves now r changed =
      let o = updating_route now r changed in
      body-Evolves o _ (
        Ends-bind-read (λ r d. Moves o (tasks db) (tasks d)) Anything (routes.first (route_id r.id))
          _ db (λ e. tt)
          λ found e.
            Ends-bind-read (λ r d. Moves o (tasks db) (tasks d)) Anything (λ _. required found) _ db
              (λ e. tt)
              λ current e.
                after (Near S o (tasks db)) (when (live_index now current) (leave (err conflict))) _
                  db
                  (when-Stays (Near S o (tasks db)) (live_index now current) (leave (err conflict))
                    db (Moves-refl o (tasks db)) tt)
                  λ u d1 h1.
                    after (Near S o (tasks db))
                      (when (changed_since r current) (leave (err conflict))) _ d1
                      (when-Stays (Near S o (tasks db)) (changed_since r current)
                        (leave (err conflict)) d1 h1 tt)
                      λ u d2 h2.
                        after (Near S o (tasks db))
                          (write_classified (routes.update (route_id r.id) (route_columns now r))) _
                          d2
                          (classified-Stays (Near S o (tasks db))
                            (routes.update (route_id r.id) (route_columns now r)) d2
                            (unmoved tasks (Moves o (tasks db)) _
                              (routes.update (route_id r.id) (route_columns now r) d2) d2 h2
                              (λ k d q. q.1.0)
                              (routes.update_law (route_id r.id) (route_columns now r) d2)))
                          λ n d3 h3. move_linked-Near now r changed d3 h3)

  Drops-Evolves :
      (cutoff size : ℕ) {n : ℕ} {ts us : List UploadTask}
      → Drops (outdated cutoff) ts us n
      → Evolves (cleaning cutoff size) ts us
  Drops-Evolves cutoff size all_gone = empty
  Drops-Evolves cutoff size (kept d) = row here (Drops-Evolves cutoff size d)
  Drops-Evolves cutoff size (dropped e d) = gone (clean _ e) (Drops-Evolves cutoff size d)

  pub cleaning-Evolves :
      (cutoff size : ℕ)
      → Evolves
          (cleaning cutoff size)
          (tasks db)
          (tasks (single (delete_some (outdated cutoff) size) db).1)
  cleaning-Evolves cutoff size = left (single (delete_some (outdated cutoff) size) db) (
      Final-single (λ n d. Evolves (cleaning cutoff size) (tasks db) (tasks d)) Anything
        (delete_some (outdated cutoff) size) db (λ e. tt)
        (Ran-map _ (λ n d. Evolves (cleaning cutoff size) (tasks db) (tasks d))
          (delete_some (outdated cutoff) size db) (λ n d q. Drops-Evolves cutoff size q.0)
          (delete_some_law (outdated cutoff) size db)))
    where
      left :
          (x : Result ℕ × Db)
          → Final (λ n d. Evolves (cleaning cutoff size) (tasks db) (tasks d)) Anything db x
          → Evolves (cleaning cutoff size) (tasks db) (tasks x.1)
      left x (inl h) = rw h.0 (Evolves-refl (cleaning cutoff size) (tasks db))
      left x (inr h) = h.2
