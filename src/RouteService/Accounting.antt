-- ===== src/RouteService/Accounting.antt =====
-- What a batch of moves reports of its files.
use rclone_sync_hub_go_backe.Prelude.{
  ℕ, ◌≡◌, refl, subst, Text, Bool, true, false, ltb, Option, List, [], ◌∷◌, length, inl, inr, arith,
  ◌⊎◌, if◌then◌else◌,
}
use rclone_sync_hub_go_backe.Model.Folders.{RemoteRoute}
use rclone_sync_hub_go_backe.Database.Statement.{Sql}
use rclone_sync_hub_go_backe.Security.Policy.{ResourcePolicy}
use rclone_sync_hub_go_backe.UploadService.{Fault}
use rclone_sync_hub_go_backe.RouteService.{
  Located, at_path, nowhere, Stat, stat_failed, absent, present, Remote,
}
use rclone_sync_hub_go_backe.RouteService.Batch.{
  preparing, refreshing, completed, Candidate, Batch, Ended, stopped, reached, report, with_remote,
  no_moves, any_moved,
}
use rclone_sync_hub_go_backe.RouteService.Validation.{validate}
use rclone_sync_hub_go_backe.RouteService.MoveFiles.{
  move_each, refreshed, finish_moves, move_validated, move_into, move_below, move_to_folder,
  move_on_route, move_files,
}
use rclone_sync_hub_go_backe.RouteService.Counting.{
  IsCounted, Found, report-IsCounted, with_remote-IsCounted, validate-Found, move_each-IsCounted,
  set_refresh-IsCounted,
}

module _ (R : Remote) (S : Sql) where
  open S use {Db}

  -- A batch from `db` that is stopped has moved and written nothing, and one that is not has dealt
  -- with every one of the `n` sources.
  abbrev pub Accounted : ℕ → Db → Ended R (Unit {0}) × Db → Type 0
  Accounted n db (stopped f b, db') = (b.result.moved ≡ []) × (db' ≡ db)
  Accounted n db (reached u b, db') = IsCounted R n n b

  if-Accounted :
      (n : ℕ) (db : Db) (t : Bool) (x y : Ended R (Unit {0}) × Db)
      → Accounted n db x
      → Accounted n db y
      → Accounted n db (if t then x else y)
  if-Accounted n db true x y h k = h
  if-Accounted n db false x y h k = k

  finish_moves-Accounted :
      (now n : ℕ) (route : RemoteRoute) (b : Batch R) (db : Db)
      → IsCounted R n n b
      → Accounted n db (finish_moves R S now n route b db)
  unfolding finish_moves refreshed
  finish_moves-Accounted now n route b db h =
      if-Accounted n db (any_moved R b) _ _
        (report-IsCounted R n n completed [] _ (
          set_refresh-IsCounted R n n _ (report R n refreshing [] b)
            (report-IsCounted R n n refreshing [] b h)))
        (report-IsCounted R n n completed [] b h)

  module _ (policy : Option ResourcePolicy) (now : ℕ) where
    move_validated-Accounted :
        (route : RemoteRoute) (n : ℕ) (target : Text) (x : Ended R (List Candidate)) (db : Db)
        → Found R n policy route target n x
        → Accounted n db (move_validated R S policy now route n target x db)
    unfolding move_validated
    move_validated-Accounted route n target (stopped f b) db h = (h, refl)
    move_validated-Accounted route n target (reached cs b) db h =
        finish_moves-Accounted now n route (move_each R policy route n target cs b) db
          (move_each-IsCounted R n policy route target cs n h.0 b h.1 h.2)

    move_into-Accounted :
        (route : RemoteRoute) (raw : List Text) (target : Text) (b : Batch R) (x : Stat × R.State)
        (db : Db)
        → IsCounted R (length raw) 0 b
        → b.result.moved ≡ []
        → Accounted (length raw) db (move_into R S policy now route raw target b x db)
    unfolding move_into
    move_into-Accounted route raw target b (present true, s) db h z =
        move_validated-Accounted route (length raw) target _ db (
          subst
            (λ m. Found R (length raw) policy route target m (
              validate R policy route (length raw) target raw
                (record { sources = []; destinations = []; found = [] }) (with_remote R b s)))
            (omega arith)
            (validate-Found R (length raw) policy route target raw 0 0
              (record { sources = []; destinations = []; found = [] }) (with_remote R b s)
              (with_remote-IsCounted R (length raw) policy route target 0 b s h) (omega arith) z))
    move_into-Accounted route raw target b (present false, s) db h z = (z, refl)
    move_into-Accounted route raw target b (absent, s) db h z = (z, refl)
    move_into-Accounted route raw target b (stat_failed, s) db h z = (z, refl)

    move_below-Accounted :
        (route : RemoteRoute) (raw : List Text) (target : Text) (b : Batch R) (l : Located)
        (db : Db)
        → IsCounted R (length raw) 0 b
        → b.result.moved ≡ []
        → Accounted (length raw) db (move_below R S policy now route raw target b l db)
    unfolding move_below
    move_below-Accounted route raw target b (nowhere f) db h z = (z, refl)
    move_below-Accounted route raw target b (at_path p) db h z =
        move_into-Accounted route raw target b _ db h z

    move_to_folder-Accounted :
        (route : RemoteRoute) (raw : List Text) (b : Batch R) (l : Located) (db : Db)
        → IsCounted R (length raw) 0 b
        → b.result.moved ≡ []
        → Accounted (length raw) db (move_to_folder R S policy now route raw b l db)
    unfolding move_to_folder
    move_to_folder-Accounted route raw b (nowhere f) db h z = (z, refl)
    move_to_folder-Accounted route raw b (at_path target) db h z =
        move_below-Accounted route raw target b _ db h z

    move_on_route-Accounted :
        (raw : List Text) (folder : Text) (b : Batch R) (r : RemoteRoute ⊎ Fault) (db : Db)
        → IsCounted R (length raw) 0 b
        → b.result.moved ≡ []
        → Accounted (length raw) db (move_on_route R S policy now raw folder b r db)
    unfolding move_on_route
    move_on_route-Accounted raw folder b (inr f) db h z = (z, refl)
    move_on_route-Accounted raw folder b (inl route) db h z =
        move_to_folder-Accounted route raw b _ db h z

    no_moves-IsCounted : (n : ℕ) (s : R.State) → IsCounted R n 0 (no_moves R s)
    no_moves-IsCounted n s = record { counted = refl; reported = tt; rising = tt }

    -- Whatever the remote and the database answer: a batch of moves that stops with an error has
    -- listed no file as moved and left the database as it was; one that ends without an error has as many
    -- moved and failed files together as it has sources, and each of its progress reports has that
    -- number as its total, has processed no more, and no fewer than the report before it.
    pub move_files-Accounted :
        (id : ℕ) (raw : List Text) (folder : Text) (s : R.State) (db : Db)
        → Accounted (length raw) db (move_files R S policy now id raw folder s db)
    unfolding move_files
    move_files-Accounted id [] folder s db = (refl, refl)
    move_files-Accounted id (r ∷ raw) folder s db =
        if-Accounted (length (r ∷ raw)) db (ltb 100 (length (r ∷ raw))) _ _ (refl, refl)
          (move_on_route-Accounted (r ∷ raw) folder _ _ db
            (report-IsCounted R (length (r ∷ raw)) 0 preparing [] (no_moves R s)
              (no_moves-IsCounted (length (r ∷ raw)) s))
            refl)
