-- ===== src/Scanner/Released.antt =====
-- The lease of a folder after its scan has ended, and the claims that follow.
use rclone_sync_hub_go_backe.Prelude.{
  ℕ, zero, suc, ◌≤◌, ◌==◌, ◌||◌, ◌≡◌, ◌≢◌, refl, sym, ◌∙◌, subst, ap, Text, [], ◌∷◌, List, Bool,
  true, false, ltb, lt→ltb, none, some, map, Member, some_of, some_of-none, some_of-Member, ◌⊎◌,
  inl, inr, arith,
}
use rclone_sync_hub_go_backe.Model.Folders.{
  WatchFolder, RunStatus, run_running, run_success, run_failed, run_canceled, ScanRun,
}
use rclone_sync_hub_go_backe.Database.Outcome.{Err, Result, ok, err, Ran, Ran-map, patch}
use rclone_sync_hub_go_backe.Database.Statement.{Sql}
use rclone_sync_hub_go_backe.Database.Transaction.{single}
use rclone_sync_hub_go_backe.TaskRepository.Answers.{touched, error_of}
use rclone_sync_hub_go_backe.FolderRepository.{claim_for_scan, finish_scan, lost_lease}
use rclone_sync_hub_go_backe.FolderRepository.Columns.{
  ScanEnd, scan_owned, end_scan, schedulable, scan_claimable, start_scan,
}
use rclone_sync_hub_go_backe.ScanRunRepository.{finish_run}
use rclone_sync_hub_go_backe.Scanner.{Folder}
use rclone_sync_hub_go_backe.Scanner.Config.{ScannerConfig, interval_for}
use rclone_sync_hub_go_backe.Scanner.Storing.{Answer}
use rclone_sync_hub_go_backe.Scanner.Lifecycle.{
  Occasion, scan_one_folder, if_claimed, scan_claimed, end_of_scan, record_run, scan_end, ended_run,
  outcome_of, error_in, later_by, due_after,
}

Member-map : {A : Type 0} (h : A → A) (xs : List A) (a : A) → Member a xs → Member (h a) (map h xs)
Member-map h [] a m = absurd m
Member-map h (x ∷ xs) a (inl e) = inl (ap h e)
Member-map h (x ∷ xs) a (inr m) = inr (Member-map h xs a m)

module _ (S : Sql) where
  open S use {Db, folder_rows, folders}

  -- The folder that a scan has ended.
  abbrev Ended : ℕ → Text → ℕ → ScanEnd → Db → Type 0
  Ended id owner now e db =
      (r : WatchFolder) × (scan_owned id owner r ≡ true)
      × Member (end_scan now e r) (folder_rows db)

  abbrev Affects : ℕ → Text → ℕ → ScanEnd → Db → ℕ → Db → Type 0
  Affects id owner now e db n d =
      (folder_rows d ≡ map (patch (scan_owned id owner) (end_scan now e)) (folder_rows db))
      × (ltb 0 n ≡ some_of (scan_owned id owner) (folder_rows db))

  finish_scan-Ended :
      (now id : ℕ) (owner : Text) (e : ScanEnd) (db : Db)
      → error_in (finish_scan S now id owner e db).0 ≡ none
      → Ended id owner now e (finish_scan S now id owner e db).1
  unfolding finish_scan
  finish_scan-Ended now id owner e db h =
      at (folders.update (scan_owned id owner) (end_scan now e) db)
        (Ran-map _ (Affects id owner now e db)
          (folders.update (scan_owned id owner) (end_scan now e) db) (λ n d q. (q.0, q.2))
          (folders.update_law (scan_owned id owner) (end_scan now e) db))
        h
    where
      known :
          (n : ℕ) (d : Db)
          → folder_rows d ≡ map (patch (scan_owned id owner) (end_scan now e)) (folder_rows db)
          → some_of (scan_owned id owner) (folder_rows db) ≡ true
          → Ended id owner now e d
      known n d rows some_owned =
          let (r, m, o) = some_of-Member (scan_owned id owner) (folder_rows db) some_owned in
          (
            r,
            o,
            subst (Member (end_scan now e r)) (sym rows) (
                subst
                  (λ x.
                    Member x (map (patch (scan_owned id owner) (end_scan now e)) (folder_rows db)))
                  (patched r o)
                  (Member-map (patch (scan_owned id owner) (end_scan now e)) (folder_rows db) r m)),
          )
        where
          patched :
              (r : WatchFolder)
              → scan_owned id owner r ≡ true
              → patch (scan_owned id owner) (end_scan now e) r ≡ end_scan now e r
          patched r o = rw o refl

      refused : (y : Err) → some y ≡ none → ⊥
      refused y j = cc

      at :
          (x : Result (ℕ × Db))
          → Ran {A = ℕ} (Affects id owner now e db) x
          → error_in (lost_lease (single (λ d. x) db)).0 ≡ none
          → Ended id owner now e (lost_lease (single (λ d. x) db)).1
      at (err y) l k = absurd (refused _ k)
      at (ok (zero, d)) l k = absurd (refused _ k)
      at (ok (suc n, d)) l k = known n d l.0 (sym l.1 ∙ lt→ltb 0 (suc n) (omega arith))

  -- The run of the scan is in a table of its own.
  finish_run-folder_rows :
      (run : ScanRun) (d : Db) → folder_rows (finish_run S run d).1 ≡ folder_rows d
  unfolding finish_run
  finish_run-folder_rows run d = at (S.runs.upsert (λ r. r.id == run.id) (λ r. run) (λ n. run) d) (
      Ran-map _ (λ n d'. folder_rows d' ≡ folder_rows d)
        (S.runs.upsert (λ r. r.id == run.id) (λ r. run) (λ n. run) d) (λ n d' q. q.1.3)
        (S.runs.upsert_law (λ r. r.id == run.id) (λ r. run) (λ n. run) d))
    where
      at :
          (x : Result (ℕ × Db))
          → Ran {A = ℕ} (λ n d'. folder_rows d' ≡ folder_rows d) x
          → folder_rows (error_of (single (λ e. x) d)).1 ≡ folder_rows d
      at (ok (n, d')) l = l
      at (err e) l = refl

  record_run-folder_rows :
      (c : ScannerConfig) (id : ℕ) (run : ScanRun) (d : Db)
      → folder_rows (record_run S c id run d).1 ≡ folder_rows d
  unfolding record_run
  record_run-folder_rows c zero run d = refl
  record_run-folder_rows c (suc n) run d = finish_run-folder_rows run d

  -- A claim finds a row that can be claimed.
  claim_for_scan-finds :
      (now id : ℕ) (owner : Text) (expected t lease : ℕ) (r : WatchFolder) (d : Db)
      → Member r (folder_rows d)
      → scan_claimable id expected t r ≡ true
      → (claim_for_scan S now id owner expected t lease d).0 ≢ ok false
  unfolding claim_for_scan
  claim_for_scan-finds now id owner expected t lease r d m h k =
      at (folders.update (scan_claimable id expected t) (start_scan now owner t lease) d)
        (Ran-map _ (λ n d'. ltb 0 n ≡ some_of (scan_claimable id expected t) (folder_rows d))
          (folders.update (scan_claimable id expected t) (start_scan now owner t lease) d)
          (λ n d' q. q.2)
          (folders.update_law (scan_claimable id expected t) (start_scan now owner t lease) d))
        k
    where
      refused :
          (b : Bool) → b ≡ some_of (scan_claimable id expected t) (folder_rows d) → b ≡ false → ⊥
      refused b e z =
          clash (some_of-none (scan_claimable id expected t) (folder_rows d) r (sym e ∙ z) m)
        where
          clash : scan_claimable id expected t r ≡ false → ⊥
          clash j = cc

      at :
          (x : Result (ℕ × Db))
          → Ran {A = ℕ} (λ n d'. ltb 0 n ≡ some_of (scan_claimable id expected t) (folder_rows d)) x
          → (touched (single (λ e. x) d)).0 ≡ ok false
          → ⊥
      at (ok (n, d')) l j = refused (ltb 0 n) l (answer j)
        where
          answer : ok (ltb 0 n) ≡ ok false → ltb 0 n ≡ false
          answer i = cc
      at (err e) l j = wrong (err e) refl j
        where
          wrong : (y : Result Bool) → y ≡ err e → y ≡ ok false → ⊥
          wrong y a i = cc

  module _ (c : ScannerConfig) (f : WatchFolder) (o : Occasion) where
    -- The time from which the folder is due again.
    abbrev pub due_time : ℕ
    due_time = later_by (interval_for c f.scan_interval_seconds) o.finished

    -- The row of a folder whose scan has ended, in the database `db`.
    pub record IsGivenUp (db : Db) (r : WatchFolder) : Type 0 where
      pub stored : Member r (folder_rows db)
      pub same_id : r.id ≡ f.id
      pub unowned : r.scan_lease_owner ≡ []
      pub unleased : r.scan_lease_expires_at ≡ none
      pub finished : r.last_scan_finished_at ≡ some o.finished
      pub next : (r.next_scan_at ≡ none) ⊎ (r.next_scan_at ≡ some due_time)

    claimable :
        (r : WatchFolder) (expected t : ℕ)
        → r.id ≡ f.id
        → r.scan_lease_expires_at ≡ none
        → (r.next_scan_at ≡ none) ⊎ (r.next_scan_at ≡ some due_time)
        → schedulable r ≡ true
        → due_time ≤ t
        → (expected == 0 || r.updated_at == expected) ≡ true
        → scan_claimable f.id expected t r ≡ true
    claimable r expected t i l (inl n) s h v = ground arith
    claimable r expected t i l (inr n) s h v = ground arith

    versioned :
        (r : WatchFolder) (expected : ℕ)
        → (expected ≡ 0) ⊎ (expected ≡ r.updated_at)
        → (expected == 0 || r.updated_at == expected) ≡ true
    versioned r expected (inl e) = ground arith
    versioned r expected (inr e) = ground arith

    pub IsGivenUp-claim :
        (db : Db) (r : WatchFolder) (now expected t lease : ℕ) (owner : Text)
        → IsGivenUp db r
        → (expected ≡ 0) ⊎ (expected ≡ r.updated_at)
        → schedulable r ≡ true
        → due_time ≤ t
        → (claim_for_scan S now f.id owner expected t lease db).0 ≢ ok false
    IsGivenUp-claim db r now expected t lease owner g v s h =
        claim_for_scan-finds now f.id owner expected t lease r db g.stored
          (claimable r expected t g.same_id g.unleased g.next s h (versioned r expected v))

    next_of :
        (k : RunStatus) → (due_after k due_time ≡ none) ⊎ (due_after k due_time ≡ some due_time)
    next_of run_canceled = inl refl
    next_of run_running = inr refl
    next_of run_success = inr refl
    next_of run_failed = inr refl

    end_of_scan-IsGivenUp :
        (run_id : ℕ) (problem : Bool) (a : Answer S)
        → (end_of_scan S c f o run_id problem a).0.unfinished ≡ none
        → (r : WatchFolder) × IsGivenUp (end_of_scan S c f o run_id problem a).1 r
    unfolding end_of_scan
    end_of_scan-IsGivenUp run_id problem ((s, failure), db) h =
        let e = scan_end c f o s failure problem in
        let (r, owned, m) = finish_scan-Ended o.finished f.id c.instance_id e db h in
        (
          end_scan o.finished e r,
          record {
            stored =
                subst (Member (end_scan o.finished e r))
                  (sym (record_run-folder_rows c run_id (ended_run run_id f o s failure problem) _))
                  m;
            same_id = id_of r owned;
            unowned = refl;
            unleased = refl;
            finished = refl;
            next = next_of (outcome_of o failure problem);
          },
        )
      where
        id_of : (r : WatchFolder) → scan_owned f.id c.instance_id r ≡ true → r.id ≡ f.id
        id_of r k = ground arith

    if_claimed-IsGivenUp :
        (prepared : Folder ⊎ Text) (x : Result Bool × Db)
        → (if_claimed S c f prepared o x).0.claimed ≡ true
        → (if_claimed S c f prepared o x).0.unfinished ≡ none
        → (r : WatchFolder) × IsGivenUp (if_claimed S c f prepared o x).1 r
    unfolding scan_claimed
    if_claimed-IsGivenUp prepared (err e, d) h k = absurd (clash h)
      where
        clash : false ≡ true → ⊥
        clash i = cc
    if_claimed-IsGivenUp prepared (ok false, d) h k = absurd (clash h)
      where
        clash : false ≡ true → ⊥
        clash i = cc
    if_claimed-IsGivenUp prepared (ok true, d) h k = end_of_scan-IsGivenUp _ _ _ k

    -- However the scan of a folder ends after its claim, with errors or without: if the statement that
    -- ends it did not fail, the folder is stored with no owner and no lease, and is due at once or an
    -- interval after the end of the scan. From then on no claim by any scanner that has read the
    -- version of that row, or expects none, is refused, if the row is enabled and neither stopped nor
    -- paused: it is granted, or the database fails.
    pub scan_one_folder-claim :
        (prepared : Folder ⊎ Text) (db : Db)
        → (scan_one_folder S c f prepared o db).0.claimed ≡ true
        → (scan_one_folder S c f prepared o db).0.unfinished ≡ none
        → (r : WatchFolder) × IsGivenUp (scan_one_folder S c f prepared o db).1 r
          × ((now expected t lease : ℕ) (owner : Text)
              → (expected ≡ 0) ⊎ (expected ≡ r.updated_at)
              → schedulable r ≡ true
              → due_time ≤ t
              → (claim_for_scan S now f.id owner expected t lease
                  (scan_one_folder S c f prepared o db).1).0
                ≢ ok false)
    unfolding scan_one_folder
    scan_one_folder-claim prepared db h k =
        let (r, g) = if_claimed-IsGivenUp prepared _ h k in
        (
          r,
          g,
          (λ now expected t lease owner v s d.
              IsGivenUp-claim _ r now expected t lease owner g v s d),
        )
