-- ===== src/FileRecordRepository/Marking.antt =====
-- New rows and missing ones: what CreateSnapshots and MarkMissing do to each row of before.
use rclone_sync_hub_go_backe.Prelude.{
  ℕ, suc, ◌≡◌, sym, subst, Bool, true, false, ◌==◌, some_of, none, List, [], ◌∷◌, ◌++◌, map,
  if◌then◌else◌, All, arith,
}
use rclone_sync_hub_go_backe.Model.{FileRecord}
use rclone_sync_hub_go_backe.Database.Outcome.{Result, ok, err, Ran, Ran-map, patch}
use rclone_sync_hub_go_backe.Database.Statement.{Sql}
use rclone_sync_hub_go_backe.Database.Transaction.{single}
use rclone_sync_hub_go_backe.Database.Keeping.{transact-keeps, single-keeps}
use rclone_sync_hub_go_backe.TaskRepository.Answers.{error_of}
use rclone_sync_hub_go_backe.FileRecordRepository.{
  same_record, with_id, batches, present_file, mark_lost, insert_ignore, create_snapshots,
  then_batch, mark_batches, mark_missing, room_of,
}
use rclone_sync_hub_go_backe.FileRecordRepository.Refreshed.{
  IsFresh, Refreshed, Refreshed-map, Refreshed-append, patch-IsFresh, patch_cases, each-Stays,
}

module _ (S : Sql) (rows : List FileRecord) (K : FileRecord → FileRecord → Type 0) where
  open S use {Db, files, begin, commit, update_files, update_files_law, snapshots}

  abbrev Holds : Db → Type 0
  Holds d = Refreshed K rows (files d)

  insert_ignore-Holds :
      (f : FileRecord) (d : Db)
      → IsFresh f
      → Holds d
      → Ran {A = ℕ} (λ n d'. Holds d') (insert_ignore S f d)
  insert_ignore-Holds f d a h =
      Ran-map _ (λ n d'. Holds d') (insert_ignore S f d)
        (λ n d' q. subst (Refreshed K rows) (sym q.0) (stays (some_of (same_record f) (files d)) n))
        (snapshots.upsert_law (same_record f) (λ r. r) (with_id f) d)
    where
      fresh : (b : Bool) (n : ℕ) → IsFresh (if b then record f { id = n } else f)
      fresh true n = a
      fresh false n = a

      stays :
          (b : Bool) (n : ℕ)
          → Refreshed K rows (
              if b
              then map (patch (same_record f) (λ r. r)) (files d)
              else files d ++ with_id f n ∷ [])
      stays true n =
          Refreshed-map K K _
            (λ r r' k. patch_cases (K r) (same_record f) (λ u. u) r' (λ e. k) (λ e. k))
            (λ g k. patch-IsFresh (same_record f) (λ u. u) g (λ u. u) k) h
      stays false n = Refreshed-append K (with_id f n) (fresh (f.id == 0) n) h

  pub create_snapshots-Holds :
      (fs : List FileRecord) (d : Db) → All IsFresh fs → Holds d → Holds (create_snapshots S fs d).1
  unfolding create_snapshots
  create_snapshots-Holds [] d a h = h
  create_snapshots-Holds (f ∷ fs) d a h =
      transact-keeps Holds begin commit _ d h
        (each-Stays S Holds (insert_ignore S) IsFresh insert_ignore-Holds (f ∷ fs) d a h)

  module _ (at : ℕ)
      (loses : (r r' : FileRecord) → K r r' → r'.missing_at ≡ none → K r (mark_lost at r')) where
    mark_Holds :
        (ids : List ℕ) (d : Db)
        → Holds d
        → Ran {A = ℕ} (λ n d'. Holds d') (update_files (present_file ids) (mark_lost at) d)
    mark_Holds ids d h =
        Ran-map _ (λ n d'. Holds d') (update_files (present_file ids) (mark_lost at) d)
          (λ n d' q. subst (Refreshed K rows) (sym q.1) (
            Refreshed-map K K _
              (λ r r' k.
                patch_cases (K r) (present_file ids) (mark_lost at) r'
                  (λ e. loses r r' k (present ids r' e)) (λ e. k))
              (λ g k. patch-IsFresh (present_file ids) (mark_lost at) g (λ u. u) k) h))
          (update_files_law (present_file ids) (mark_lost at) d)
      where
        present : (is : List ℕ) (f : FileRecord) → present_file is f ≡ true → f.missing_at ≡ none
        present is f e = ground arith

    mark_batches-Holds : (bs : List (List ℕ)) (d : Db) → Holds d → Holds (mark_batches S bs at d).1
    unfolding mark_batches
    mark_batches-Holds [] d h = h
    mark_batches-Holds (ids ∷ bs) d h =
        then_mark (error_of (single (update_files (present_file ids) (mark_lost at)) d))
          (error_keeps _ (
            single-keeps Holds (update_files (present_file ids) (mark_lost at)) d h
              (mark_Holds ids d h)))
          (λ d' k. mark_batches-Holds bs d' k)
      where
        error_keeps : (x : Result ℕ × Db) → Holds x.1 → Holds (error_of x).1
        error_keeps (ok n, d') k = k
        error_keeps (err e, d') k = k

        then_mark :
            (x : Result (Unit {0}) × Db)
            → Holds x.1
            → ((d' : Db) → Holds d' → Holds (mark_batches S bs at d').1)
            → Holds (then_batch S x (λ d'. mark_batches S bs at d')).1
        then_mark (err e, d') k l = k
        then_mark (ok u, d') k l = l d' k

    pub mark_missing-Holds :
        (ids : List ℕ) (size : ℕ) (d : Db) → Holds d → Holds (mark_missing S ids at size d).1
    unfolding mark_missing
    mark_missing-Holds [] size d h = h
    mark_missing-Holds (id ∷ ids) size d h =
        mark_batches-Holds (batches (room_of size) (suc (room_of size)) (id ∷ ids)) d h
