-- ===== src/FileRecordRepository/Frame.antt =====
-- What the operations on `file_records` leave alone.
use rclone_sync_hub_go_backe.Prelude.{ℕ, suc, ◌≡◌, refl, ◌∙◌, Bool, List, [], ◌∷◌, ltb, length}
use rclone_sync_hub_go_backe.Model.{FileRecord}
use rclone_sync_hub_go_backe.Database.Outcome.{Result, ok, err, Ran, Ran-map}
use rclone_sync_hub_go_backe.Database.Statement.{Sql}
use rclone_sync_hub_go_backe.Database.Transaction.{◌>>◌, pure, write, when, single}
use rclone_sync_hub_go_backe.Database.Keeping.{
  Stays, after, write-Stays, when-Stays, transact-keeps, single-keeps,
}
use rclone_sync_hub_go_backe.TaskRepository.Answers.{error_of}
use rclone_sync_hub_go_backe.FolderRepository.{forget_upload}
use rclone_sync_hub_go_backe.FileRecordRepository.{
  same_record, with_id, batches, assign_snapshot, clear_batch, file_in, present_file, mark_lost,
  insert_ignore, insert_or_assign, each, create_snapshots, update_batch, then_batch, update_batches,
  update_snapshots, mark_batches, mark_missing, room_of,
}
use rclone_sync_hub_go_backe.FileRecordRepository.Refreshed.{each-Stays, All-trivial}

-- A part of the database that the statements on the table leave alone.
module _ (S : Sql) {V : Type 0} (view : S.Db → V)
    (upsert_keeps : (p : FileRecord → Bool) (f : FileRecord → FileRecord) (g : ℕ → FileRecord)
        (d : S.Db)
      → Ran {A = ℕ} (λ n d'. view d' ≡ view d) (S.snapshots.upsert p f g d))
    (update_keeps : (p : FileRecord → Bool) (f : FileRecord → FileRecord) (d : S.Db)
      → Ran {A = ℕ} (λ n d'. view d' ≡ view d) (S.update_files p f d)) where
  open S use {Db, begin, commit, update_files}

  module _ (v : V) where
    abbrev Same : Db → Type 0
    Same d = view d ≡ v

    chained :
        (r : Result (ℕ × Db)) (d : Db)
        → Same d
        → Ran {A = ℕ} (λ n d'. view d' ≡ view d) r
        → Ran {A = ℕ} (λ n d'. Same d') r
    chained r d h k = Ran-map (λ n d'. view d' ≡ view d) (λ n d'. Same d') r (λ n d' e. e ∙ h) k

    each-Same :
        (insert : FileRecord → Db → Result (ℕ × Db))
        → ((f : FileRecord) (d : Db) → Ran {A = ℕ} (λ n d'. view d' ≡ view d) (insert f d))
        → (fs : List FileRecord) (d : Db) → Same d
        → Stays Same (each S insert fs d)
    each-Same insert k fs d h =
        each-Stays S Same insert (λ f. Unit {0}) (λ f d' g h'. chained (insert f d') d' h' (k f d'))
          fs d (All-trivial fs) h

    create_snapshots-Same :
        (fs : List FileRecord) (d : Db) → Same d → Same (create_snapshots S fs d).1
    unfolding create_snapshots
    create_snapshots-Same [] d h = h
    create_snapshots-Same (f ∷ fs) d h = transact-keeps Same begin commit _ d h (
        each-Same (insert_ignore S) (λ g d'. upsert_keeps (same_record g) (λ r. r) (with_id g) d')
          (f ∷ fs) d h)

    update_batch-Same :
        (clear : List ℕ) (batch : List FileRecord) (d : Db)
        → Same d
        → Same (update_batch S clear batch d).1
    unfolding update_batch
    update_batch-Same clear batch d h = transact-keeps Same begin commit _ d h (
        after Same
          (when (ltb 0 (length (clear_batch clear batch)))
            (do write (update_files (file_in (clear_batch clear batch)) forget_upload); pure tt))
          (λ u. each S (insert_or_assign S) batch) d
          (when-Stays Same (ltb 0 (length (clear_batch clear batch)))
            (do write (update_files (file_in (clear_batch clear batch)) forget_upload); pure tt) d h
            (after Same (write (update_files (file_in (clear_batch clear batch)) forget_upload))
              (λ n. pure tt) d
              (write-Stays Same (update_files (file_in (clear_batch clear batch)) forget_upload) d
                (chained _ d h (update_keeps (file_in (clear_batch clear batch)) forget_upload d)))
              (λ n d' k. k)))
          (λ u d' k.
            each-Same (insert_or_assign S)
              (λ g d''. upsert_keeps (same_record g) (assign_snapshot g) (with_id g) d'') batch d'
              k))

    then_batch-Same :
        (x : Result (Unit {0}) × Db) (rest : Db → Result (Unit {0}) × Db)
        → Same x.1
        → ((d : Db) → Same d → Same (rest d).1)
        → Same (then_batch S x rest).1
    then_batch-Same (err e, d) rest h k = h
    then_batch-Same (ok u, d) rest h k = k d h

    update_batches-Same :
        (clear : List ℕ) (bs : List (List FileRecord)) (d : Db)
        → Same d
        → Same (update_batches S clear bs d).1
    unfolding update_batches
    update_batches-Same clear [] d h = h
    update_batches-Same clear (b ∷ bs) d h =
        then_batch-Same (update_batch S clear b d) (λ d'. update_batches S clear bs d')
          (update_batch-Same clear b d h) (λ d' k. update_batches-Same clear bs d' k)

    mark_batches-Same :
        (bs : List (List ℕ)) (at : ℕ) (d : Db) → Same d → Same (mark_batches S bs at d).1
    unfolding mark_batches
    mark_batches-Same [] at d h = h
    mark_batches-Same (ids ∷ bs) at d h =
        then_batch-Same (error_of (single (update_files (present_file ids) (mark_lost at)) d))
          (λ d'. mark_batches S bs at d')
          (error_keeps _ (
            single-keeps Same (update_files (present_file ids) (mark_lost at)) d h
              (chained _ d h (update_keeps (present_file ids) (mark_lost at) d))))
          (λ d' k. mark_batches-Same bs at d' k)
      where
        error_keeps : (x : Result ℕ × Db) → Same x.1 → Same (error_of x).1
        error_keeps (ok n, d') k = k
        error_keeps (err e, d') k = k

  pub update_snapshots-view :
      (fs : List FileRecord) (clear : List ℕ) (size : ℕ) (d : Db)
      → view (update_snapshots S fs clear size d).1 ≡ view d
  unfolding update_snapshots
  update_snapshots-view [] clear size d = refl
  update_snapshots-view (f ∷ fs) clear size d =
      update_batches-Same (view d) clear (batches (room_of size) (suc (room_of size)) (f ∷ fs)) d
        refl

  pub create_snapshots-view :
      (fs : List FileRecord) (d : Db) → view (create_snapshots S fs d).1 ≡ view d
  create_snapshots-view fs d = create_snapshots-Same (view d) fs d refl

  pub mark_missing-view :
      (ids : List ℕ) (at size : ℕ) (d : Db) → view (mark_missing S ids at size d).1 ≡ view d
  unfolding mark_missing
  mark_missing-view [] at size d = refl
  mark_missing-view (id ∷ ids) at size d =
      mark_batches-Same (view d) (batches (room_of size) (suc (room_of size)) (id ∷ ids)) at d refl
