-- ===== src/RouteService/MoveFiles.antt =====
-- internal/service/remote_route_service.go: MoveFilesWithProgress, with its second loop.
use rclone_sync_hub_go_backe.Prelude.{
  ℕ, Text, codes, Bool, true, false, ltb, length, Option, List, [], ◌∷◌, if◌then◌else◌, ◌⊎◌, inl,
  inr,
}
use rclone_sync_hub_go_backe.Model.Folders.{RemoteRoute}
use rclone_sync_hub_go_backe.Database.Outcome.{Result, ok, err, driver}
use rclone_sync_hub_go_backe.Database.Statement.{Sql}
use rclone_sync_hub_go_backe.Security.Policy.{ResourcePolicy}
use rclone_sync_hub_go_backe.RouteRepository.{schedule_scan}
use rclone_sync_hub_go_backe.RouteRepository.Columns.{route_id}
use rclone_sync_hub_go_backe.UploadService.{Fault, told, untold, missing}
use rclone_sync_hub_go_backe.RouteService.{
  Located, at_path, nowhere, mutation_path, object_path, invalid, Stat, stat_failed, present,
  Remote, writable,
}
use rclone_sync_hub_go_backe.RouteService.Batch.{
  preparing, moving, refreshing, completed, Candidate, Batch, Ended, stopped, reached, report,
  move_to, reject, with_remote, no_moves, set_refresh, any_moved,
}
use rclone_sync_hub_go_backe.RouteService.Validation.{validate}

module _ (R : Remote) where
  open R use {State, stat, move}

  module _ (policy : Option ResourcePolicy) (route : RemoteRoute) (total : ℕ) (target : Text) where
    -- The second loop, over the candidates.
    abbrev pub after_move : Candidate → Bool → Batch R → Batch R
    after_move c true b = report R total moving c.source (move_to R c.source c.destination b)
    after_move c false b = reject R total moving c.source (codes "remote move failed") b

    abbrev pub move_one : Candidate → Batch R → Batch R
    move_one c b =
        let started = report R total moving c.source b in
        let x = move route.remote_name c.source_object c.destination_object started.remote in
        after_move c x.0 (with_remote R started x.1)

    unfoldable pub move_each : List Candidate → Batch R → Batch R
    move_each [] b = b
    move_each (c ∷ cs) b = move_each cs (move_one c b)

  module _ (S : Sql) where
    open S use {Db, routes}

    abbrev pub scheduled_ok : Result (Unit {0}) × Db → Bool
    scheduled_ok (ok u, d) = true
    scheduled_ok (err e, d) = false

    unfoldable pub refreshed : ℕ → Batch R → Result (Unit {0}) × Db → Ended R (Unit {0}) × Db
    refreshed total b x =
        (reached tt (report R total completed [] (set_refresh R (scheduled_ok x) b)), x.1)

    unfoldable pub finish_moves : ℕ → ℕ → RemoteRoute → Batch R → Db → Ended R (Unit {0}) × Db
    finish_moves now total route b db =
        if any_moved R b
        then refreshed total (report R total refreshing [] b) (schedule_scan S now route.id db)
        else (reached tt (report R total completed [] b), db)

    module _ (policy : Option ResourcePolicy) (now : ℕ) where
      unfoldable pub move_validated :
          RemoteRoute → ℕ → Text → Ended R (List Candidate) → Db → Ended R (Unit {0}) × Db
      move_validated route total target (stopped f b) db = (stopped f b, db)
      move_validated route total target (reached cs b) db =
          finish_moves now total route (move_each policy route total target cs b) db

      -- The target must be a folder.
      unfoldable pub move_into :
          RemoteRoute → List Text → Text → Batch R → Stat × State → Db → Ended R (Unit {0}) × Db
      move_into route raw target b (present true, s) db =
          move_validated route (length raw) target
            (validate R policy route (length raw) target raw
              (record { sources = []; destinations = []; found = [] }) (with_remote R b s))
            db
      move_into route raw target b (stat_failed, s) db = (stopped (untold driver) b, db)
      move_into route raw target b (_, s) db =
          (stopped (told missing (codes "target remote folder does not exist")) b, db)

      unfoldable pub move_below :
          RemoteRoute → List Text → Text → Batch R → Located → Db → Ended R (Unit {0}) × Db
      move_below route raw target b (nowhere f) db = (stopped f b, db)
      move_below route raw target b (at_path p) db =
          move_into route raw target b (stat route.remote_name p b.remote) db

      unfoldable pub move_to_folder :
          RemoteRoute → List Text → Batch R → Located → Db → Ended R (Unit {0}) × Db
      move_to_folder route raw b (nowhere f) db = (stopped f b, db)
      move_to_folder route raw b (at_path target) db =
          move_below route raw target b (object_path policy route target) db

      unfoldable pub move_on_route :
          List Text → Text → Batch R → RemoteRoute ⊎ Fault → Db → Ended R (Unit {0}) × Db
      move_on_route raw folder b (inr f) db = (stopped f b, db)
      move_on_route raw folder b (inl route) db =
          move_to_folder route raw b (mutation_path folder true) db

      -- MoveFilesWithProgress
      unfoldable pub move_files : ℕ → List Text → Text → State → Db → Ended R (Unit {0}) × Db
      move_files id [] folder s db = (
        stopped (invalid (codes "source_paths must contain at least one file")) (no_moves R s),
        db,
      )
      move_files id (r ∷ raw) folder s db =
          if ltb 100 (length (r ∷ raw))
          then (stopped (invalid (codes "a batch can move at most 100 files")) (no_moves R s), db)
          else move_on_route (r ∷ raw) folder
              (report R (length (r ∷ raw)) preparing [] (no_moves R s))
              (writable (routes.first (route_id id) db)) db
