-- ===== src/FileRecordRepository.antt =====
-- internal/repository/file_record_repository.go: the operations on `file_records`, over the database
-- `S`. `time.Now()`, which only sets `updated_at` here, is left out.
pub mod Refreshed
pub mod Refreshing
pub mod Marking
pub mod Frame
use rclone_sync_hub_go_backe.Prelude.{
  ℕ, zero, suc, Text, text_eq, Bool, true, false, not, ◌&&◌, ◌||◌, ◌==◌, leb, ltb, length, has_id,
  Option, none, some, is_none, List, [], ◌∷◌, ◌++◌, map, if◌then◌else◌,
}
use rclone_sync_hub_go_backe.Paths.{slash, clean, has_prefix, trim_last_slash}
use rclone_sync_hub_go_backe.Model.{FileRecord}
use rclone_sync_hub_go_backe.Database.Outcome.{Result, ok, err}
use rclone_sync_hub_go_backe.Database.Statement.{Sql}
use rclone_sync_hub_go_backe.Database.Transaction.{
  Tx, ◌>>=◌, ◌>>◌, pure, write, when, transact, single,
}
use rclone_sync_hub_go_backe.TaskRepository.Answers.{required, error_of}
use rclone_sync_hub_go_backe.FolderRepository.{forget_upload}

-- The unique keys of the table: a row that an INSERT of `given` meets. An id of 0 is none.
abbrev pub same_record : FileRecord → FileRecord → Bool
same_record given f =
    (not (given.id == 0) && f.id == given.id) || text_eq f.local_path given.local_path

-- The row of an INSERT, under the id that it gets.
abbrev pub with_id : FileRecord → ℕ → FileRecord
with_id given n = if given.id == 0 then record given { id = n } else given

-- The rows in batches of `room + 1`; `left` is the room in the first of them.
abbrev extend_batch : {A : Type 0} → A → List (List A) → List (List A)
extend_batch a [] = (a ∷ []) ∷ []
extend_batch a (b ∷ bs) = (a ∷ b) ∷ bs

unfoldable pub batches : {A : Type 0} → ℕ → ℕ → List A → List (List A)
batches room left [] = [] ∷ []
batches room zero (a ∷ xs) = let rest = batches room room xs in [] ∷ extend_batch a rest
batches room (suc left) (a ∷ xs) = extend_batch a (batches room left xs)

-- The room in a batch after its first row; `batchSize <= 0` stands for 500.
abbrev pub room_of : ℕ → ℕ
room_of zero = 499
room_of (suc n) = n

-- UpdateSnapshots: `updateColumns`. UpdateSnapshot writes the same but for `missing_at`.
abbrev pub assign_snapshot : FileRecord → FileRecord → FileRecord
assign_snapshot given f = record f {
  watch_folder_id = given.watch_folder_id;
  relative_path = given.relative_path;
  remote_name = given.remote_name;
  remote_path = given.remote_path;
  file_size = given.file_size;
  file_mod_time = given.file_mod_time;
  fingerprint = given.fingerprint;
  last_seen_at = given.last_seen_at;
  missing_at = given.missing_at;
}

abbrev pub replace_snapshot : FileRecord → Bool → FileRecord → FileRecord
replace_snapshot given clear_uploaded f = record (assign_snapshot given f) {
  missing_at = none;
  uploaded_at = if clear_uploaded then none else f.uploaded_at;
}

abbrev pub clear_batch : List ℕ → List FileRecord → List ℕ
clear_batch clear [] = []
clear_batch clear (f ∷ fs) =
    let rest = clear_batch clear fs in if has_id f.id clear then f.id ∷ rest else rest

abbrev pub file_in : List ℕ → FileRecord → Bool
file_in ids f = has_id f.id ids

abbrev pub present_file : List ℕ → FileRecord → Bool
present_file ids f = has_id f.id ids && is_none f.missing_at

abbrev pub mark_lost : ℕ → FileRecord → FileRecord
mark_lost at f = record f { missing_at = some at }

-- ListForWatchFolder: the records of the folder, and those of no folder at or below the root, by
-- `LIKE` with the escaped prefix.
abbrev pub listed_for : ℕ → Text → FileRecord → Bool
listed_for id root f =
    f.watch_folder_id == id
    || (f.watch_folder_id == 0
        && (text_eq f.local_path (clean root)
            || has_prefix (trim_last_slash (clean root) ++ slash ∷ []) f.local_path))

module _ (S : Sql) where
  open S use {Db, begin, commit, update_files, snapshots}

  -- INSERT with DO NOTHING, and with ON DUPLICATE KEY UPDATE of the columns.
  abbrev pub insert_ignore : FileRecord → Db → Result (ℕ × Db)
  insert_ignore f = snapshots.upsert (same_record f) (λ r. r) (with_id f)

  abbrev pub insert_or_assign : FileRecord → Db → Result (ℕ × Db)
  insert_or_assign f = snapshots.upsert (same_record f) (assign_snapshot f) (with_id f)

  unfoldable pub create_snapshot : FileRecord → Db → Result (Unit {0}) × Db
  create_snapshot f db = error_of (single (insert_ignore f) db)

  unfoldable pub each :
      (FileRecord → Db → Result (ℕ × Db)) → List FileRecord → Tx Db (Unit {0}) (Unit {0})
  each insert [] = pure tt
  each insert (f ∷ fs) = do write (insert f); each insert fs

  -- `CreateInBatches` is one transaction, so the size of the batches does not matter.
  unfoldable pub create_snapshots : List FileRecord → Db → Result (Unit {0}) × Db
  create_snapshots [] db = (ok tt, db)
  create_snapshots (f ∷ fs) db = transact begin commit (each insert_ignore (f ∷ fs)) db

  -- A batch of UpdateSnapshots.
  unfoldable pub update_batch : List ℕ → List FileRecord → Db → Result (Unit {0}) × Db
  update_batch clear batch = transact begin commit do
    when (ltb 0 (length (clear_batch clear batch)))
        (do write (update_files (file_in (clear_batch clear batch)) forget_upload); pure tt)
    each insert_or_assign batch

  -- The batches up to the first that fails.
  abbrev pub then_batch :
      Result (Unit {0}) × Db → (Db → Result (Unit {0}) × Db) → Result (Unit {0}) × Db
  then_batch (err e, db) rest = (err e, db)
  then_batch (ok u, db) rest = rest db

  unfoldable pub update_batches : List ℕ → List (List FileRecord) → Db → Result (Unit {0}) × Db
  update_batches clear [] db = (ok tt, db)
  update_batches clear (b ∷ bs) db =
      then_batch (update_batch clear b db) (λ d. update_batches clear bs d)

  unfoldable pub update_snapshots : List FileRecord → List ℕ → ℕ → Db → Result (Unit {0}) × Db
  update_snapshots [] clear size db = (ok tt, db)
  update_snapshots (f ∷ fs) clear size db =
      update_batches clear (batches (room_of size) (suc (room_of size)) (f ∷ fs)) db

  unfoldable pub get_by_local_path : Text → Db → Result FileRecord
  get_by_local_path path db = elim (snapshots.first (λ f. text_eq f.local_path path) db) [
    | err e ↦ err e
    | ok found ↦ required found
  ]

  unfoldable pub list_for_watch_folder : ℕ → Text → Db → Result (List FileRecord)
  list_for_watch_folder id root db = snapshots.find (listed_for id root) db

  unfoldable pub update_snapshot : FileRecord → Bool → Db → Result (Unit {0}) × Db
  update_snapshot f clear_uploaded db =
      error_of (single (update_files (λ r. r.id == f.id) (replace_snapshot f clear_uploaded)) db)

  unfoldable pub mark_batches : List (List ℕ) → ℕ → Db → Result (Unit {0}) × Db
  mark_batches [] at db = (ok tt, db)
  mark_batches (ids ∷ rest) at db =
      then_batch (error_of (single (update_files (present_file ids) (mark_lost at)) db))
        (λ d. mark_batches rest at d)

  unfoldable pub mark_missing : List ℕ → ℕ → ℕ → Db → Result (Unit {0}) × Db
  mark_missing [] at size db = (ok tt, db)
  mark_missing (id ∷ ids) at size db =
      mark_batches (batches (room_of size) (suc (room_of size)) (id ∷ ids)) at db
