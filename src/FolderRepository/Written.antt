-- ===== src/FolderRepository/Written.antt =====
-- What an update of a folder leaves of each row, column by column, and when a folder is idle.
use rclone_sync_hub_go_backe.Prelude.{
  ℕ, ◌≤◌, Bool, true, false, ◌==◌, ==_iff, ◌≡◌, ◌≢◌, ◌⊎◌, inl, inr, refl, Option, none, some, [],
  ◌∷◌, Bool-cases, arith,
}
use rclone_sync_hub_go_backe.Model.{FileRecord}
use rclone_sync_hub_go_backe.Model.Folders.{WatchFolder, FolderStatus, detecting, is_folder}
use rclone_sync_hub_go_backe.Database.Outcome.{patch}
use rclone_sync_hub_go_backe.FolderRepository.{of_folders, forget_upload}
use rclone_sync_hub_go_backe.FolderRepository.Columns.{
  live_scan, null_or_after, updatable, update_columns,
}

detecting-test : (s : FolderStatus) → s ≡ detecting → is_folder s detecting ≡ true
detecting-test s e = rw e refl

-- A folder that is being scanned has a lease that has expired.
abbrev pub IsIdle : ℕ → WatchFolder → Type 0
IsIdle now f = f.status ≡ detecting → (at : ℕ) × (f.scan_lease_expires_at ≡ some at) × (at ≤ now)

pub live_scan-IsIdle : (now : ℕ) (f : WatchFolder) → live_scan now f ≡ false → IsIdle now f
live_scan-IsIdle now f h e = at f.scan_lease_expires_at (after (detecting-test f.status e))
  where
    after : is_folder f.status detecting ≡ true → null_or_after f.scan_lease_expires_at now ≡ false
    after k = ground arith

    at : (o : Option ℕ) → null_or_after o now ≡ false → (at : ℕ) × (o ≡ some at) × (at ≤ now)
    at none k = cc
    at (some t) k = (t, refl, ground arith)

-- The folder may be updated: it has the id and the version that were read, and it is in no scan
-- where that is asked.
pub record MayUpdate (given : WatchFolder) (idle : Bool) (old : WatchFolder) : Type 0 where
  pub this : old.id ≡ given.id
  pub version : (given.updated_at ≡ 0) ⊎ (old.updated_at ≡ given.updated_at)
  pub unscanned : idle ≡ true → old.status ≢ detecting

updatable-MayUpdate :
    (given : WatchFolder) (idle : Bool) (old : WatchFolder)
    → updatable given idle old ≡ true
    → MayUpdate given idle old
updatable-MayUpdate given idle old h = record {
  this = ground arith;
  version = elim (Bool-cases (given.updated_at == 0)) [
    | inl e ↦ inl ((==_iff given.updated_at 0).0 e)
    | inr e ↦ inr ((==_iff old.updated_at given.updated_at).0 (ground arith))
  ];
  unscanned = λ i d. clash i (detecting-test old.status d);
}
  where
    clash : idle ≡ true → is_folder old.status detecting ≡ true → ⊥
    clash i d = ground arith

-- The row has the columns that the client gave, and its next scan is due at once; its counts and its
-- lease are those of before.
pub record IsUpdated (now : ℕ) (given old new : WatchFolder) : Type 0 where
  pub same_id : new.id ≡ old.id
  pub named : new.name ≡ given.name
  pub path : new.local_path ≡ given.local_path
  pub route : new.remote_route_id ≡ given.remote_route_id
  pub destination : (new.remote_name ≡ given.remote_name) × (new.remote_path ≡ given.remote_path)
  pub filter : (new.max_depth ≡ given.max_depth) × (new.filter_keywords ≡ given.filter_keywords)
  pub interval : new.scan_interval_seconds ≡ given.scan_interval_seconds
  pub kind : new.sync_type ≡ given.sync_type
  pub switch : (new.status ≡ given.status) × (new.enabled ≡ given.enabled)
  pub due_now : new.next_scan_at ≡ none
  pub same_lease :
      (new.scan_lease_owner ≡ old.scan_lease_owner)
      × (new.scan_lease_expires_at ≡ old.scan_lease_expires_at)
  pub versioned : new.updated_at ≡ now

-- A folder that may be updated is, any other is as it was.
abbrev pub Updates : ℕ → WatchFolder → Bool → WatchFolder → WatchFolder → Type 0
Updates now given idle old new =
    (MayUpdate given idle old × IsUpdated now given old new)
    ⊎ ((updatable given idle old ≡ false) × (new ≡ old))

pub update_columns-Updates :
    (now : ℕ) (given : WatchFolder) (idle : Bool) (old : WatchFolder)
    → Updates now given idle old (patch (updatable given idle) (update_columns now given) old)
update_columns-Updates now given idle old = elim (Bool-cases (updatable given idle old)) [
  | inl e ↦ inl (
    updatable-MayUpdate given idle old e,
    rw e (record {
      same_id = refl;
      named = refl;
      path = refl;
      route = refl;
      destination = (refl, refl);
      filter = (refl, refl);
      interval = refl;
      kind = refl;
      switch = (refl, refl);
      due_now = refl;
      same_lease = (refl, refl);
      versioned = refl;
    }),
  )
  | inr e ↦ inr (e, rw e refl)
]

-- A record of the folder does not count as uploaded, any other is as it was.
abbrev pub Forgets : ℕ → FileRecord → FileRecord → Type 0
Forgets id old new =
    ((old.watch_folder_id ≡ id) × (new ≡ record old { uploaded_at = none }))
    ⊎ ((old.watch_folder_id ≢ id) × (new ≡ old))

pub forget_upload-Forgets :
    (id : ℕ) (f : FileRecord) → Forgets id f (patch (of_folders (id ∷ [])) forget_upload f)
forget_upload-Forgets id f = elim (Bool-cases (f.watch_folder_id == id)) [
  | inl e ↦ inl ((==_iff f.watch_folder_id id).0 e, rw e refl)
  | inr e ↦ inr ((λ h. clash ((==_iff f.watch_folder_id id).1 h) e), rw e refl)
]
  where
    clash : (f.watch_folder_id == id) ≡ true → (f.watch_folder_id == id) ≡ false → ⊥
    clash a b = cc
