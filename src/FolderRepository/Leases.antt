-- ===== src/FolderRepository/Leases.antt =====
-- A scan lease that has not expired, and the calls of other scanners and of clients.
use rclone_sync_hub_go_backe.Prelude.{
  ℕ, zero, suc, ◌<◌, Text, text_eq_iff, Bool, true, false, ltb, ◌≡◌, ◌≢◌, refl, List, [], ◌∷◌, some,
  some_of, All, arith,
}
use rclone_sync_hub_go_backe.Model.Folders.{WatchFolder}
use rclone_sync_hub_go_backe.Database.Outcome.{Result, ok, err, Ran, Ran-map}
use rclone_sync_hub_go_backe.Database.Statement.{Sql}
use rclone_sync_hub_go_backe.Database.Transaction.{single}
use rclone_sync_hub_go_backe.TaskRepository.Answers.{touched, error_of}
use rclone_sync_hub_go_backe.FolderRepository.{
  lost_lease, claim_for_scan, renew_scan_lease, finish_scan, record_upload_success,
  record_upload_failure, schedule_all_enabled_now,
}
use rclone_sync_hub_go_backe.FolderRepository.Columns.{
  ScanEnd, folder_id, scan_claimable, start_scan, scan_leased, renew_scan, scan_owned, end_scan,
  schedulable, schedule, count_success, count_failure,
}
use rclone_sync_hub_go_backe.FolderRepository.Keeping.{
  single-Kept, update_folder-Kept, delete_folder-Kept, update_route-Kept,
}
use rclone_sync_hub_go_backe.FolderRepository.Calls.{
  FolderCall, claiming_scan, renewing_scan, finishing_scan, counting_success, counting_failure,
  scheduling_all, updating, removing, rerouting, call, calls,
}

-- A row with the id is scanned by `owner` until `expiry`.
pub record HasLease (id : ℕ) (owner : Text) (expiry : ℕ) (f : WatchFolder) : Type 0 where
  pub owned : f.id ≡ id → f.scan_lease_owner ≡ owner
  pub expires : f.id ≡ id → f.scan_lease_expires_at ≡ some expiry

-- A claim before the expiry, whoever makes it, or another scanner's call about its lease.
abbrev pub ForeignScan : Text → ℕ → FolderCall → Type 0
ForeignScan owner expiry (claiming_scan now id w e started_at d) = started_at < expiry
ForeignScan owner expiry (renewing_scan now id w d) = w ≢ owner
ForeignScan owner expiry (finishing_scan now id w e) = w ≢ owner
ForeignScan owner expiry _ = Unit

module _ {id : ℕ} {owner : Text} {expiry : ℕ} where
  start_scan-HasLease :
      (now i : ℕ) (w : Text) (e s d : ℕ) (f : WatchFolder)
      → s < expiry
      → scan_claimable i e s f ≡ true
      → HasLease id owner expiry f
      → HasLease id owner expiry (start_scan now w s d f)
  start_scan-HasLease now i w e s d f l g h = ground arith

  renew_scan-HasLease :
      (now i : ℕ) (w : Text) (d : ℕ) (f : WatchFolder)
      → w ≢ owner
      → scan_leased i w f ≡ true
      → HasLease id owner expiry f
      → HasLease id owner expiry (renew_scan now d f)
  renew_scan-HasLease now i w d f n g h = ground (arith, text_eq_iff f.scan_lease_owner w)

  end_scan-HasLease :
      (now i : ℕ) (w : Text) (f : WatchFolder)
      → w ≢ owner
      → scan_owned i w f ≡ true
      → HasLease id owner expiry f
      → f.id ≡ id
      → ⊥
  end_scan-HasLease now i w f n g h k = ground (arith, text_eq_iff f.scan_lease_owner w)

module _ (S : Sql) (id : ℕ) (owner : Text) (expiry : ℕ) where
  open S use {Db, folder_rows, folders, begin, commit}

  -- Every row with the id is scanned under the lease.
  abbrev pub Scanned : Db → Type 0
  Scanned db = All (HasLease id owner expiry) (folder_rows db)

  touched-state : (x : Result ℕ × Db) → (touched x).1 ≡ x.1
  touched-state (ok n, d) = refl
  touched-state (err e, d) = refl

  error_of-state : (x : Result ℕ × Db) → (error_of x).1 ≡ x.1
  error_of-state (ok n, d) = refl
  error_of-state (err e, d) = refl

  finish_state :
      (now i : ℕ) (w : Text) (e : ScanEnd) (db : Db)
      → (finish_scan S now i w e db).1
        ≡ (single (folders.update (scan_owned i w) (end_scan now e)) db).1
  unfolding finish_scan
  finish_state now i w e db = at (single (folders.update (scan_owned i w) (end_scan now e)) db)
    where
      at : (x : Result ℕ × Db) → (lost_lease x).1 ≡ x.1
      at (ok zero, d) = refl
      at (ok (suc n), d) = refl
      at (err y, d) = refl

  touched-Scanned :
      (p : WatchFolder → Bool) (f : WatchFolder → WatchFolder) (db : Db)
      → ((r : WatchFolder)
          → p r ≡ true
          → HasLease id owner expiry r
          → HasLease id owner expiry (f r))
      → Scanned db
      → Scanned (touched (single (folders.update p f) db)).1
  touched-Scanned p f db k h =
      rw (touched-state (single (folders.update p f) db))
        (single-Kept S (HasLease id owner expiry) p f db k h)

  error_of-Scanned :
      (p : WatchFolder → Bool) (f : WatchFolder → WatchFolder) (db : Db)
      → ((r : WatchFolder)
          → p r ≡ true
          → HasLease id owner expiry r
          → HasLease id owner expiry (f r))
      → Scanned db
      → Scanned (error_of (single (folders.update p f) db)).1
  error_of-Scanned p f db k h =
      rw (error_of-state (single (folders.update p f) db))
        (single-Kept S (HasLease id owner expiry) p f db k h)

  call-Scanned :
      (c : FolderCall) (db : Db) → ForeignScan owner expiry c → Scanned db → Scanned (call S c db)
  unfolding call claim_for_scan renew_scan_lease record_upload_success record_upload_failure
      schedule_all_enabled_now
  call-Scanned (claiming_scan now i w e s d) db f h =
      touched-Scanned (scan_claimable i e s) (start_scan now w s d) db
        (λ r g k. start_scan-HasLease now i w e s d r f g k) h
  call-Scanned (renewing_scan now i w d) db f h =
      touched-Scanned (scan_leased i w) (renew_scan now d) db
        (λ r g k. renew_scan-HasLease now i w d r f g k) h
  call-Scanned (finishing_scan now i w e) db f h = rw (finish_state now i w e db) (
      single-Kept S (HasLease id owner expiry) (scan_owned i w) (end_scan now e) db
        (λ r g k. record {
          owned = λ j. absurd (end_scan-HasLease now i w r f g k j);
          expires = λ j. absurd (end_scan-HasLease now i w r f g k j);
        })
        h)
  call-Scanned (counting_success now i size at) db f h =
      error_of-Scanned (folder_id i) (count_success now size at) db
        (λ r g k. record { owned = k.owned; expires = k.expires }) h
  call-Scanned (counting_failure now i at) db f h =
      error_of-Scanned (folder_id i) (count_failure now at) db
        (λ r g k. record { owned = k.owned; expires = k.expires }) h
  call-Scanned (scheduling_all now) db f h =
      single-Kept S (HasLease id owner expiry) schedulable (schedule now) db
        (λ r g k. record { owned = k.owned; expires = k.expires }) h
  call-Scanned (updating now g steps idle changed) db f h =
      update_folder-Kept S (HasLease id owner expiry) now g steps idle changed db
        (λ r k e. record { owned = k.owned; expires = k.expires }) h
  call-Scanned (removing now i) db f h = delete_folder-Kept S (HasLease id owner expiry) now i db h
  call-Scanned (rerouting now r changed) db f h =
      update_route-Kept S (HasLease id owner expiry) now r changed db
        (λ f k. record { owned = k.owned; expires = k.expires }) h

  calls-Scanned :
      (cs : List FolderCall) (db : Db)
      → All (ForeignScan owner expiry) cs
      → Scanned db
      → Scanned (calls S cs db)
  unfolding calls
  calls-Scanned [] db f h = h
  calls-Scanned (c ∷ cs) db f h = calls-Scanned cs (call S c db) f.1 (call-Scanned c db f.0 h)

  unclaimable :
      (e s : ℕ) (fs : List WatchFolder)
      → s < expiry
      → All (HasLease id owner expiry) fs
      → some_of (scan_claimable id e s) fs ≡ false
  unclaimable e s [] l h = refl
  unclaimable e s (f ∷ fs) l h = ground (arith, unclaimable e s fs l h.1, h.0.owned, h.0.expires)

  -- A folder that is scanned under a lease is given to no scanner before the lease expires, after
  -- any calls of other scanners and of clients and any claims made before the expiry, with any
  -- outcomes.
  pub calls-exclusive :
      (cs : List FolderCall) (db : Db) (now : ℕ) (w : Text) (e s d : ℕ)
      → All (ForeignScan owner expiry) cs
      → All (HasLease id owner expiry) (folder_rows db)
      → s < expiry
      → (claim_for_scan S now id w e s d (calls S cs db)).0 ≢ ok true
  unfolding claim_for_scan
  calls-exclusive cs db now w e s d f h l =
      refused (folders.update (scan_claimable id e s) (start_scan now w s d) later) (
        Ran-map _ (λ n d'. ltb 0 n ≡ some_of (scan_claimable id e s) (folder_rows later))
          (folders.update (scan_claimable id e s) (start_scan now w s d) later) (λ n d' q. q.2)
          (folders.update_law (scan_claimable id e s) (start_scan now w s d) later))
    where
      later : Db
      later = calls S cs db

      refused :
          (r : Result (ℕ × Db))
          → Ran (λ n d'. ltb 0 n ≡ some_of (scan_claimable id e s) (folder_rows later)) r
          → (touched (single (λ _. r) later)).0 ≢ ok true
      refused (ok (n, d')) q k =
          let none = unclaimable e s (folder_rows later) l (calls-Scanned cs db f h) in cc
      refused (err x) q k = cc
