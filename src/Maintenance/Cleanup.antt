-- ===== src/Maintenance/Cleanup.antt =====
-- What Cleanup leaves of the tables.
use rclone_sync_hub_go_backe.Prelude.{
  ℕ, ◌-◌, ◌<◌, ◌≤◌, ◌≡◌, ◌⊎◌, ◌∙◌, refl, sym, subst, Bool, true, false, ltb, ℤ, pos, negsuc, leb_ℤ,
  pos_part, Option, some, List, length, some_of, Bool-cases, inl, inr, arith,
}
use rclone_sync_hub_go_backe.Database.Outcome.{Err, Result, ok, err, Ran, Ran-map}
use rclone_sync_hub_go_backe.Database.Table.{Drops}
use rclone_sync_hub_go_backe.Database.Statement.{Sql}
use rclone_sync_hub_go_backe.TaskRepository.Rows.{outdated}
use rclone_sync_hub_go_backe.Maintenance.{
  MaintenanceConfig, positive_or, normalized, Log, upload_logs, scan_runs, audit_logs, Logs, purge,
  clean_table, and_then, cleanup,
}
use rclone_sync_hub_go_backe.Maintenance.Purge.{IsPurged, purge-IsPurged, Drops-refl}

pub normalized-size : (c : MaintenanceConfig) → 0 < pos_part (normalized c).delete_batch_size
unfolding normalized
normalized-size c = positive c.delete_batch_size
  where
    positive : (n : ℤ) → 0 < pos_part (positive_or n (pos 5000))
    positive (pos n) = ground arith
    positive (negsuc n) = ground arith

-- A table after its turn: rows that meet the condition are gone, all of them unless there was an
-- error, or none if its rows are kept for ever.
module _ {D Row : Type 0} (rows : D → List Row) (p : Row → Bool) (Same : D → D → Type 0) where
  pub record IsTidied (retention : ℤ) (d : D) (x : Result (Unit {0}) × D) : Type 0 where
    pub count : ℕ
    pub drops : Drops p (rows d) (rows x.1) count
    pub none_left : x.0 ≡ ok tt → leb_ℤ retention (pos 0) ≡ false → some_of p (rows x.1) ≡ false
    pub untouched : leb_ℤ retention (pos 0) ≡ true → rows x.1 ≡ rows d
    pub same : Same d x.1

clean_table-IsTidied :
    {D Row : Type 0} (rows : D → List Row) (p : ℕ → Row → Bool) (Same : D → D → Type 0)
    (delete : ℕ → ℕ → D → Result (ℕ × D)) (size : ℕ)
    → 0 < size
    → ((d : D) → Same d d)
    → ((d e f : D) → Same d e → Same e f → Same d f)
    → ((cutoff : ℕ) (d : D)
        → Ran
            (λ n d'.
              Drops (p cutoff) (rows d) (rows d') n
              × (n ≤ size)
              × (n < size → some_of (p cutoff) (rows d') ≡ false)
              × Same d d')
            (delete cutoff size d))
    → (retention : ℤ) (now rounds : ℕ) (d : D) → length (rows d) < rounds
    → (x : Result (Unit {0}) × D) × (clean_table delete retention now size rounds d ≡ some x)
      × IsTidied rows (p (now - pos_part retention)) Same retention d x
unfolding clean_table
clean_table-IsTidied rows p Same delete size positive same trans law retention now rounds d h =
    elim (Bool-cases (leb_ℤ retention (pos 0))) [
      | inl e ↦ rw e (
          (
            (ok tt, d),
            refl,
            record {
              count = 0;
              drops = Drops-refl (p (now - pos_part retention)) (rows d);
              none_left = λ k f. cc;
              untouched = λ f. refl;
              same = same d;
            },
          ))
      | inr e ↦ rw e (
          tidied e (
            purge-IsPurged rows (p (now - pos_part retention)) Same
              (delete (now - pos_part retention)) size positive same trans
              (law (now - pos_part retention)) rounds d h))
    ]
  where
    tidied :
        leb_ℤ retention (pos 0) ≡ false
        → (x : Result (Unit {0}) × _) × (purge (delete (now - pos_part retention)) size rounds d
            ≡ some x)
          × IsPurged rows (p (now - pos_part retention)) Same d x
        → (x : Result (Unit {0}) × _) × (purge (delete (now - pos_part retention)) size rounds d
            ≡ some x)
          × IsTidied rows (p (now - pos_part retention)) Same retention d x
    tidied e (x, l, k) = (
      x,
      l,
      record {
        count = k.count;
        drops = k.drops;
        none_left = λ r f. k.none_left r;
        untouched = λ f. cc;
        same = k.same;
      },
    )

abbrev pub retention_of : MaintenanceConfig → Log → ℤ
retention_of c upload_logs = c.upload_log_retention
retention_of c scan_runs = c.scan_run_retention
retention_of c audit_logs = c.audit_log_retention

module _ (S : Sql) (L : Logs S) where
  open S use {Db, tasks, delete_some, delete_some_law}
  open L use {created, delete_before, delete_before_law, tasks_law}

  -- The turn of a log leaves the tasks and the other logs alone.
  abbrev pub SameBut : Log → Db → Db → Type 0
  SameBut l d d' = (tasks d' ≡ tasks d) × ((m : Log) → (m ≡ l) ⊎ (created m d' ≡ created m d))

  SameBut-trans : (l : Log) (d e f : Db) → SameBut l d e → SameBut l e f → SameBut l d f
  SameBut-trans l d e f h k = (k.0 ∙ h.0, λ m. joined m (h.1 m) (k.1 m))
    where
      joined :
          (m : Log)
          → (m ≡ l) ⊎ (created m e ≡ created m d)
          → (m ≡ l) ⊎ (created m f ≡ created m e)
          → (m ≡ l) ⊎ (created m f ≡ created m d)
      joined m (inl a) b = inl a
      joined m (inr a) (inl b) = inl b
      joined m (inr a) (inr b) = inr (b ∙ a)

  abbrev pub SameLogs : Db → Db → Type 0
  SameLogs d d' = (m : Log) → created m d' ≡ created m d

  Ran-both :
      {A D : Type 0} (P Q : A → D → Type 0) (r : Result (A × D))
      → Ran P r
      → Ran Q r
      → Ran (λ a d. P a d × Q a d) r
  Ran-both P Q (ok (a, d)) h k = (h, k)
  Ran-both P Q (err e) h k = tt

  module _ (c : MaintenanceConfig) (now rounds : ℕ) where
    abbrev size : ℕ
    size = pos_part (normalized c).delete_batch_size

    abbrev old : ℤ → ℕ → Bool
    old retention at = ltb at (now - pos_part retention)

    abbrev Turn : Log → Db → Type 0
    Turn l d =
        (x : Result (Unit {0}) × Db) × (clean_table (delete_before l)
            (retention_of (normalized c) l) now size rounds d
          ≡ some x)
        × IsTidied (created l) (old (retention_of (normalized c) l)) (SameBut l)
            (retention_of (normalized c) l) d x

    turn : (l : Log) (d : Db) → length (created l d) < rounds → Turn l d
    turn l d h =
        clean_table-IsTidied (created l) (λ cutoff at. ltb at cutoff) (SameBut l) (delete_before l)
          size (normalized-size c) (λ e. (refl, λ m. inr refl)) (SameBut-trans l)
          (λ cutoff e.
            Ran-map _ _ (delete_before l cutoff size e) (λ n d' q. (q.0, q.1, q.2, (q.3, q.4)))
              (delete_before_law l cutoff size e))
          (retention_of (normalized c) l) now rounds d h

    abbrev Last : Db → Type 0
    Last d =
        (x : Result (Unit {0}) × Db) × (clean_table (λ cutoff. delete_some (outdated cutoff))
            (normalized c).task_retention now size rounds d
          ≡ some x)
        × IsTidied tasks (outdated (now - pos_part (normalized c).task_retention)) SameLogs
            (normalized c).task_retention d x

    Last-turn : (d : Db) → length (tasks d) < rounds → Last d
    Last-turn d h =
        clean_table-IsTidied tasks outdated SameLogs (λ cutoff. delete_some (outdated cutoff)) size
          (normalized-size c) (λ e m. refl) (λ d e f h k m. k m ∙ h m)
          (λ cutoff e.
            Ran-map _ _ (delete_some (outdated cutoff) size e)
              (λ n d' q. (q.0.0, q.0.1, q.0.2, q.1))
              (Ran-both _ _ (delete_some (outdated cutoff) size e)
                (delete_some_law (outdated cutoff) size e) (tasks_law cutoff size e)))
          (normalized c).task_retention now rounds d h

    -- Tasks at their end since before the cutoff are gone, and no other task; if there was no
    -- error, no such task is left, and no row of a log from before its cutoff.
    pub record IsCleaned (db : Db) (x : Result (Unit {0}) × Db) : Type 0 where
      pub count : ℕ
      pub drops : Drops (outdated (now - pos_part c.task_retention)) (tasks db) (tasks x.1) count
      pub tasks_left :
          x.0 ≡ ok tt
          → leb_ℤ c.task_retention (pos 0) ≡ false
          → some_of (outdated (now - pos_part c.task_retention)) (tasks x.1) ≡ false
      pub tasks_kept : leb_ℤ c.task_retention (pos 0) ≡ true → tasks x.1 ≡ tasks db
      pub logs_left :
          (l : Log)
          → x.0 ≡ ok tt
          → leb_ℤ (retention_of c l) (pos 0) ≡ false
          → some_of (old (retention_of c l)) (created l x.1) ≡ false

    abbrev pub Cleaned : Db → Option (Result (Unit {0}) × Db) → Type 0
    Cleaned db o = (x : Result (Unit {0}) × Db) × (o ≡ some x) × IsCleaned db x

    abbrev Emptied : Log → Db → Type 0
    Emptied l d =
        leb_ℤ (retention_of c l) (pos 0) ≡ false
        → some_of (old (retention_of c l)) (created l d) ≡ false

    failed_stage : (db d : Db) (e : Err) → tasks d ≡ tasks db → IsCleaned db (err e, d)
    failed_stage db d e h = record {
      count = 0;
      drops =
          subst (λ ts. Drops (outdated (now - pos_part c.task_retention)) (tasks db) ts 0) (sym h)
            (Drops-refl _ (tasks db));
      tasks_left = λ k. absurd (clash (err e) refl k);
      tasks_kept = λ k. h;
      logs_left = λ l k. absurd (clash (err e) refl k);
    }
      where
        clash : (r : Result (Unit {0})) → r ≡ err e → r ≡ ok tt → ⊥
        clash r a b = cc

    retention_same : (l : Log) → retention_of (normalized c) l ≡ retention_of c l
    unfolding normalized
    retention_same upload_logs = refl
    retention_same scan_runs = refl
    retention_same audit_logs = refl

    stage :
        (db : Db) (l : Log) (d : Db) (k : Db → Option (Result (Unit {0}) × Db))
        → length (created l d) < rounds
        → tasks d ≡ tasks db
        → ((d' : Db) → tasks d' ≡ tasks db → SameBut l d d' → Emptied l d' → Cleaned db (k d'))
        → Cleaned db (
            and_then
              (clean_table (delete_before l) (retention_of (normalized c) l) now size rounds d)
              k)
    stage db l d k h t next_stage = by_turn (turn l d h)
      where
        by_turn :
            Turn l d
            → Cleaned db (
                and_then
                  (clean_table (delete_before l) (retention_of (normalized c) l) now size rounds d)
                  k)
        by_turn ((ok u, d'), e, z) = rw e (
            next_stage d' (z.same.0 ∙ t) z.same λ f.
              subst (λ r. some_of (old r) (created l d') ≡ false) (retention_same l)
                (z.none_left refl
                  (subst (λ r. leb_ℤ r (pos 0) ≡ false) (sym (retention_same l)) f)))
        by_turn ((err x, d'), e, z) = rw e ((err x, d'), refl, failed_stage db d' x (z.same.0 ∙ t))

    other : {l m : Log} {A : Type 0} → (m ≡ l → ⊥) → (m ≡ l) ⊎ A → A
    other n (inl e) = absurd (n e)
    other n (inr a) = a

    still : (l m : Log) (d d' : Db) → (l ≡ m → ⊥) → SameBut m d d' → Emptied l d → Emptied l d'
    still l m d d' n s h f =
        subst (λ rs. some_of (old (retention_of c l)) rs ≡ false) (sym (other n (s.1 l))) (h f)

    final_stage :
        (db d : Db)
        → length (tasks d) < rounds
        → tasks d ≡ tasks db
        → ((l : Log) → Emptied l d)
        → Last d
        → Cleaned db (
            clean_table
              (λ cutoff. delete_some (outdated cutoff))
              (normalized c).task_retention
              now
              size
              rounds
              d)
    unfolding normalized
    final_stage db d h t l (x, e, z) = (
      x,
      e,
      record {
        count = z.count;
        drops =
            subst (λ ts. Drops (outdated (now - pos_part c.task_retention)) ts (tasks x.1) z.count)
              t z.drops;
        tasks_left = z.none_left;
        tasks_kept = λ k. z.untouched k ∙ t;
        logs_left = λ m k f.
            subst (λ rs. some_of (old (retention_of c m)) rs ≡ false) (sym (z.same m)) (l m f);
      },
    )

    -- With more rounds than the tables have rows, every loop of Cleanup ends. Tasks at their end
    -- since before the cutoff are gone and no other task, none if tasks are kept for ever; if there
    -- was no error, no such task is left, and in no log a row from before its cutoff, where that
    -- retention is positive.
    pub cleanup_lem :
        (db : Db)
        → length (tasks db) < rounds
        → ((l : Log) → length (created l db) < rounds)
        → Cleaned db (cleanup S L (normalized c) now rounds db)
    unfolding cleanup
    cleanup_lem db ht hl = stage db upload_logs db _ (hl upload_logs) refl λ d1 t1 s1 e1.
        stage db scan_runs d1 _ (rw (other (λ k. cc) (s1.1 scan_runs)) (hl scan_runs)) t1
          λ d2 t2 s2 e2.
            stage db audit_logs d2 _
              (rw (other (λ k. cc) (s2.1 audit_logs))
                (rw (other (λ k. cc) (s1.1 audit_logs)) (hl audit_logs)))
              t2
              λ d3 t3 s3 e3.
                final_stage db d3 (rw t3 ht) t3
                  (λ l. elim l as (λ m. Emptied m d3) [
                    | upload_logs ↦
                        still upload_logs audit_logs d2 d3 (λ k. cc) s3
                          (still upload_logs scan_runs d1 d2 (λ k. cc) s2 e1)
                    | scan_runs ↦ still scan_runs audit_logs d2 d3 (λ k. cc) s3 e2
                    | audit_logs ↦ e3
                  ])
                  (Last-turn d3 (rw t3 ht))
