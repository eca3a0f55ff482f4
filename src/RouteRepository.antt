-- ===== src/RouteRepository.antt =====
-- internal/repository/remote_route_repository.go: the operations that write `remote_routes` and
-- `remote_file_records`, with their updates of the folders, the file records and the tasks, over the
-- database `S`. `time.Now()` is the argument `now`.
pub mod Columns
use rclone_sync_hub_go_backe.Prelude.{
  ℕ, zero, suc, Text, codes, Bool, true, false, ◌==◌, ◌&&◌, ◌||◌, not, List, [], ◌∷◌, Option, none,
  some, is_some, some_of, map, if◌then◌else◌,
}
use rclone_sync_hub_go_backe.Model.Folders.{WatchFolder, RemoteRoute, RemoteFileRecord}
use rclone_sync_hub_go_backe.Database.Outcome.{
  Err, Result, ok, err, driver, not_found, conflict, classified,
}
use rclone_sync_hub_go_backe.Database.Statement.{Sql}
use rclone_sync_hub_go_backe.Database.Transaction.{
  Tx, Step, next, rollback, ◌>>=◌, ◌>>◌, pure, leave, write, write_classified, when, read, transact,
  single,
}
use rclone_sync_hub_go_backe.TaskRepository.Answers.{required, touched}
use rclone_sync_hub_go_backe.FolderRepository.{lost_lease, leave_destination}
use rclone_sync_hub_go_backe.FolderRepository.Columns.{live_scan}
use Columns.{
  route_id, live_index, changed_since, route_columns, linked_to, redirect, present_in, lose,
  index_of, index_claimable, start_index, index_leased, renew_index, IndexEnd, index_owned,
  end_index, index_idle, schedule_index, same_entry, refresh_entry, unseen,
}

-- `id IN ?`
abbrev pub one_of : List ℕ → WatchFolder → Bool
one_of [] f = false
one_of (id ∷ ids) f = f.id == id || one_of ids f

abbrev pub folder_ids : List WatchFolder → List ℕ
folder_ids fs = map (λ (f : WatchFolder). f.id) fs

module _ (S : Sql) where
  open S use {Db, begin, commit, folders, routes, remote_files}

  unfoldable pub redirect_folders : ℕ → RemoteRoute → List ℕ → Tx Db (Unit {0}) (Unit {0})
  redirect_folders now given [] = pure tt
  redirect_folders now given (id ∷ ids) = do
    write (folders.update (one_of (id ∷ ids)) (redirect now given))
    leave_destination S now (id ∷ ids) (codes "remote route changed")

  -- No linked folder may be in a scan; the index of the old destination is gone.
  unfoldable pub move_linked : ℕ → RemoteRoute → Tx Db (Unit {0}) (Unit {0})
  move_linked now given = do
    linked ← read (folders.find (linked_to given.id))
    when (some_of (live_scan now) linked) (leave (err conflict))
    write (remote_files.update (present_in given.id) (lose now))
    redirect_folders now given (folder_ids linked)

  unfoldable pub update_route : ℕ → RemoteRoute → Bool → Db → Result (Unit {0}) × Db
  update_route now given destination_changed = transact begin commit do
    found ← read (routes.first (route_id given.id))
    current ← read (λ _. required found)
    when (live_index now current) (leave (err conflict))
    when (changed_since given current) (leave (err conflict))
    write_classified (routes.update (route_id given.id) (route_columns now given))
    when destination_changed (move_linked now given)

  unfoldable pub delete_route : ℕ → ℕ → Db → Result (Unit {0}) × Db
  delete_route now id = transact begin commit do
    found ← read (routes.first (route_id id))
    current ← read (λ _. required found)
    when (live_index now current) (leave (err conflict))
    linked ← read (folders.find (linked_to id))
    when (some_of (λ f. true) linked) (leave (err conflict))
    write (remote_files.remove (index_of id))
    write (routes.remove (route_id id))
    pure tt

  unfoldable pub create_route : RemoteRoute → Db → Result ℕ × Db
  create_route given db = renamed (single (routes.insert (λ n. record given { id = n })) db)
    where
      renamed : Result ℕ × Db → Result ℕ × Db
      renamed (ok id, d) = (ok id, d)
      renamed (err e, d) = (err (classified e), d)

  unfoldable pub claim_index : ℕ → ℕ → Text → ℕ → ℕ → ℕ → Db → Result Bool × Db
  claim_index now id owner expected started_at lease_duration db = touched (
      single
        (routes.update (index_claimable id expected started_at)
          (start_index now owner started_at lease_duration))
        db)

  unfoldable pub renew_index_lease : ℕ → ℕ → Text → ℕ → Db → Result Bool × Db
  renew_index_lease now id owner lease_duration db =
      touched (single (routes.update (index_leased id owner) (renew_index now lease_duration)) db)

  unfoldable pub finish_index : ℕ → ℕ → Text → IndexEnd → Db → Result (Unit {0}) × Db
  finish_index now id owner e db =
      lost_lease (single (routes.update (index_owned id owner) (end_index now e)) db)

  -- A second query tells a missing route from one that is disabled or in a scan.
  unfoldable pub verify_scheduled : ℕ → Result ℕ × Db → Result (Unit {0}) × Db
  verify_scheduled id (err e, db) = (err e, db)
  verify_scheduled id (ok (suc n), db) = (ok tt, db)
  verify_scheduled id (ok zero, db) = elim (routes.first (route_id id) db) [
    | err e ↦ (err e, db)
    | ok none ↦ (err not_found, db)
    | ok (some r) ↦ (err conflict, db)
  ]

  unfoldable pub schedule_scan : ℕ → ℕ → Db → Result (Unit {0}) × Db
  schedule_scan now id db =
      verify_scheduled id
        (single (routes.update (λ r. r.id == id && index_idle now r) (schedule_index now)) db)

  unfoldable pub schedule_all_scans : ℕ → Db → Result ℕ × Db
  schedule_all_scans now = single (routes.update (index_idle now) (schedule_index now))

  -- CreateInBatches stores all the records or none.
  unfoldable pub upsert_each : List RemoteFileRecord → Tx Db (Unit {0}) (Unit {0})
  upsert_each [] = pure tt
  upsert_each (r ∷ rs) = do
    write (remote_files.upsert (same_entry r) (refresh_entry r) (λ n. record r { id = n }))
    upsert_each rs

  unfoldable pub upsert_file_records : List RemoteFileRecord → Db → Result (Unit {0}) × Db
  upsert_file_records [] db = (ok tt, db)
  upsert_file_records (r ∷ rs) db = transact begin commit (upsert_each (r ∷ rs)) db

  unfoldable pub delete_unseen : ℕ → ℕ → Db → Result ℕ × Db
  delete_unseen id scan_started = single (remote_files.remove (unseen id scan_started))
