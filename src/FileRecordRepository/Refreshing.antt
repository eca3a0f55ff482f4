-- ===== src/FileRecordRepository/Refreshing.antt =====
-- What the writes of a scan do to each row of `file_records`.
use rclone_sync_hub_go_backe.Prelude.{
  ℕ, suc, ◌≡◌, refl, sym, subst, Bool, true, false, ltb, length, has_id, some_of, none, List, [],
  ◌∷◌, All, Member, inl, inr, arith,
}
use rclone_sync_hub_go_backe.Model.{FileRecord}
use rclone_sync_hub_go_backe.Database.Outcome.{Result, ok, err, Ran, Ran-map, patch}
use rclone_sync_hub_go_backe.Database.Statement.{Sql}
use rclone_sync_hub_go_backe.Database.Transaction.{◌>>◌, pure, write, when, Ends-bind}
use rclone_sync_hub_go_backe.Database.Keeping.{Stays, after, write-Stays, transact-keeps}
use rclone_sync_hub_go_backe.FolderRepository.{forget_upload}
use rclone_sync_hub_go_backe.FileRecordRepository.{
  same_record, with_id, batches, assign_snapshot, clear_batch, file_in, insert_or_assign, each,
  update_batch, then_batch, update_batches, update_snapshots, room_of,
}
use rclone_sync_hub_go_backe.FileRecordRepository.Refreshed.{
  Refreshed, Refreshed-map, Refreshed-weaken, patch-IsFresh, patch_cases, not-both, Stays-weaken,
  AllLists, batches-All, All-Members, each-Stays, none_of_empty,
}

clear_batch-Member :
    (clear : List ℕ) (batch : List FileRecord) (g : FileRecord)
    → Member g batch
    → has_id g.id clear ≡ true
    → has_id g.id (clear_batch clear batch) ≡ true
clear_batch-Member clear [] g m h = absurd m
clear_batch-Member clear (f ∷ fs) g (inl e) h =
    subst
      (λ (x : FileRecord).
        has_id x.id clear ≡ true → has_id x.id (clear_batch clear (f ∷ fs)) ≡ true)
      (sym e) (λ k. rw k (here f.id (clear_batch clear fs))) h
  where
    here : (id : ℕ) (ids : List ℕ) → has_id id (id ∷ ids) ≡ true
    here id ids = ground arith
clear_batch-Member clear (f ∷ fs) g (inr m) h = ground (arith, clear_batch-Member clear fs g m h)

-- A relation to the rows of before that the writes of UpdateSnapshots keep.
module _ (S : Sql) (rows : List FileRecord) (clear : List ℕ) (K : FileRecord → FileRecord → Type 0)
    (forgets : (r r' : FileRecord) → K r r' → K r (forget_upload r')) where
  open S use {Db, files, begin, commit, update_files, update_files_law, snapshots}

  abbrev pub Holds : Db → Type 0
  Holds d = Refreshed K rows (files d)

  -- A given row may be assigned to each row with its key, forgotten before if it is to be cleared;
  -- and there is such a row.
  pub record IsAssignable (g : FileRecord) : Type 0 where
    pub assigns :
        (r r' : FileRecord)
        → K r r'
        → same_record g r' ≡ true
        → (has_id g.id clear ≡ true → r'.id ≡ g.id → r'.uploaded_at ≡ none)
        → K r (assign_snapshot g r')
    pub is_there : (ss : List FileRecord) → Refreshed K rows ss → some_of (same_record g) ss ≡ true

  module _ (batch : List FileRecord) where
    -- The relation after the rows of the batch that are to be cleared are.
    abbrev Cleared : FileRecord → FileRecord → Type 0
    Cleared r r' = K r r' × (has_id r'.id (clear_batch clear batch) ≡ true → r'.uploaded_at ≡ none)

    abbrev HoldsCleared : Db → Type 0
    HoldsCleared d = Refreshed Cleared rows (files d)

    assign_Cleared :
        (g r r' : FileRecord)
        → IsAssignable g
        → Member g batch
        → Cleared r r'
        → Cleared r (patch (same_record g) (assign_snapshot g) r')
    assign_Cleared g r r' a m c =
        patch_cases (Cleared r) (same_record g) (assign_snapshot g) r'
          (λ e. (
            a.assigns r r' c.0 e (λ h same. c.1 (
                subst (λ id. has_id id (clear_batch clear batch) ≡ true) (sym same)
                  (clear_batch-Member clear batch g m h))),
            c.1,
          ))
          (λ e. c)

    insert_Cleared :
        (g : FileRecord) (d : Db)
        → IsAssignable g × Member g batch
        → HoldsCleared d
        → Ran {A = ℕ} (λ n d'. HoldsCleared d') (insert_or_assign S g d)
    insert_Cleared g d x h =
        Ran-map _ (λ n d'. HoldsCleared d') (insert_or_assign S g d)
          (λ n d' q. subst (Refreshed Cleared rows) (sym q.0) (
            rw (x.0.is_there (files d) (Refreshed-weaken Cleared K (λ r r' c. c.0) h)) (
              Refreshed-map Cleared Cleared _ (λ r r' c. assign_Cleared g r r' x.0 x.1 c)
                (λ f k. patch-IsFresh (same_record g) (assign_snapshot g) f (λ u. u) k) h)))
          (snapshots.upsert_law (same_record g) (assign_snapshot g) (with_id g) d)

    each_Cleared :
        (d : Db)
        → All IsAssignable batch
        → HoldsCleared d
        → Stays HoldsCleared (each S (insert_or_assign S) batch d)
    each_Cleared d a h =
        each-Stays S HoldsCleared (insert_or_assign S) (λ g. IsAssignable g × Member g batch)
          insert_Cleared batch d (All-Members IsAssignable batch a) h

    forget_Cleared :
        (d : Db)
        → Holds d
        → Ran {A = ℕ}
            (λ n d'. HoldsCleared d')
            (update_files (file_in (clear_batch clear batch)) forget_upload d)
    forget_Cleared d h =
        Ran-map _ (λ n d'. HoldsCleared d')
          (update_files (file_in (clear_batch clear batch)) forget_upload d)
          (λ n d' q. subst (Refreshed Cleared rows) (sym q.1) (
            Refreshed-map K Cleared _ cleared
              (λ f k.
                patch-IsFresh (file_in (clear_batch clear batch)) forget_upload f (λ u. refl) k)
              h))
          (update_files_law (file_in (clear_batch clear batch)) forget_upload d)
      where
        cleared :
            (r r' : FileRecord)
            → K r r'
            → Cleared r (patch (file_in (clear_batch clear batch)) forget_upload r')
        cleared r r' k =
            patch_cases (Cleared r) (file_in (clear_batch clear batch)) forget_upload r'
              (λ e. (forgets r r' k, λ u. refl)) (λ e. (k, λ u. absurd (not-both _ u e)))

    forgetting_Cleared :
        (b : Bool) (d : Db)
        → ltb 0 (length (clear_batch clear batch)) ≡ b
        → Holds d
        → Stays HoldsCleared (
            when b
              (do write (update_files (file_in (clear_batch clear batch)) forget_upload); pure tt)
              d)
    forgetting_Cleared true d e h =
        after HoldsCleared (write (update_files (file_in (clear_batch clear batch)) forget_upload))
          (λ n. pure tt) d
          (write-Stays HoldsCleared (update_files (file_in (clear_batch clear batch)) forget_upload)
            d (forget_Cleared d h))
          (λ n d' k. k)
    forgetting_Cleared false d e h =
        Refreshed-weaken K Cleared
          (λ r r' k. (k, λ u. absurd (none_of_empty r'.id (clear_batch clear batch) e u))) h

    pub update_batch-Holds :
        (d : Db) → All IsAssignable batch → Holds d → Holds (update_batch S clear batch d).1
    unfolding update_batch
    update_batch-Holds d a h = transact-keeps Holds begin commit _ d h (
        Ends-bind (λ u d'. HoldsCleared d') (λ u d'. Holds d') (λ r. Unit {0})
          (when (ltb 0 (length (clear_batch clear batch)))
            (do write (update_files (file_in (clear_batch clear batch)) forget_upload); pure tt))
          (λ u. each S (insert_or_assign S) batch) d (forgetting_Cleared _ d refl h)
          (λ u d' k.
            Stays-weaken HoldsCleared Holds _
              (λ d'' c. Refreshed-weaken Cleared K (λ r r' x. x.0) c) (each_Cleared d' a k)))

  -- Whatever the number of batches that are written, and the error that ends them.
  then_batch-Holds :
      (x : Result (Unit {0}) × Db) (rest : Db → Result (Unit {0}) × Db)
      → Holds x.1
      → ((d : Db) → Holds d → Holds (rest d).1)
      → Holds (then_batch S x rest).1
  then_batch-Holds (err e, d) rest h k = h
  then_batch-Holds (ok u, d) rest h k = k d h

  update_batches-Holds :
      (bs : List (List FileRecord)) (d : Db)
      → AllLists IsAssignable bs
      → Holds d
      → Holds (update_batches S clear bs d).1
  unfolding update_batches
  update_batches-Holds [] d a h = h
  update_batches-Holds (b ∷ bs) d a h =
      then_batch-Holds (update_batch S clear b d) (λ d'. update_batches S clear bs d')
        (update_batch-Holds b d a.0 h) (λ d' k. update_batches-Holds bs d' a.1 k)

  pub update_snapshots-Holds :
      (fs : List FileRecord) (size : ℕ) (d : Db)
      → All IsAssignable fs
      → Holds d
      → Holds (update_snapshots S fs clear size d).1
  unfolding update_snapshots
  update_snapshots-Holds [] size d a h = h
  update_snapshots-Holds (f ∷ fs) size d a h =
      update_batches-Holds (batches (room_of size) (suc (room_of size)) (f ∷ fs)) d
        (batches-All IsAssignable (room_of size) (suc (room_of size)) (f ∷ fs) a) h
