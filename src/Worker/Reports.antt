-- ===== src/Worker/Reports.antt =====
-- What a worker reports as a success.
use rclone_sync_hub_go_backe.Prelude.{
  ℕ, ◌+◌, ◌-◌, ◌/◌, Text, codes, [], ◌∷◌, List, Bool, true, false, ◌≡◌, ◌≢◌, Option, none, some,
  ◌&&◌, Bool-cases, inl, inr, arith, refl, if◌then◌else◌, pos_part,
}
use rclone_sync_hub_go_backe.Model.{UploadTask, FileRecord}
use rclone_sync_hub_go_backe.Database.Statement.{Sql, Result, ok, err}
use rclone_sync_hub_go_backe.TaskRepository.{
  Claimed, finish_success, finish_canceled, fail_or_retry, release_lease, is_cancellation_requested,
}
use rclone_sync_hub_go_backe.TaskRepository.Finishing.{fail_or_retry-status}
use rclone_sync_hub_go_backe.TaskRepository.Operation.{run}
use rclone_sync_hub_go_backe.Worker.Config.{Config, second, max_attempts, retry_delay}
use rclone_sync_hub_go_backe.Worker.Effects.{
  Attempt, Effect, Event, reported, ticked, others, observed, released, lease_lost,
}
use rclone_sync_hub_go_backe.Worker.Finish.{
  truncate, end_success, end_canceled, end_failure, success_effects, expected_fingerprint,
}
use rclone_sync_hub_go_backe.Worker.Upload.{
  Phase, has_progress, due, on_progress, on_tick, on_event, upload,
}
use rclone_sync_hub_go_backe.Worker.Process.{
  Ready, ready, failing, canceling, prepare, verify_task_file_fingerprint, copy_failure,
  with_message, conclude, requested, finalize, upload_of, checked_db, attempt, process_claimed,
}
use rclone_sync_hub_go_backe.Worker.Checks.{IsPrepared, prepare-IsPrepared, Shows, verify-Shows}
use rclone_sync_hub_go_backe.Worker.Quiet.{
  reports_success, quiet-append, clash, last_part, cancel_quiet, failure_quiet, progress_quiet,
  verdict_on-effects,
}

module _ (S : Sql) (c : Config) (owner : Text) where
  open S use {Db}

  end_canceled-quiet :
      (id : ℕ) (m : Text) (now : ℕ) (db : Db)
      → reports_success (end_canceled S c owner id m now db).0 ≡ false
  unfolding end_canceled
  end_canceled-quiet id m now db = cancel_quiet m (finish_canceled S id owner now m db).0

  end_failure-quiet :
      (r : ℕ → ℕ) (t : UploadTask) (m : Text) (now : ℕ) (db : Db)
      → reports_success (end_failure S c owner r t m now db).0 ≡ false
  unfolding end_failure
  end_failure-quiet r t m now db =
      let delay = pos_part (retry_delay r c t.retry_count) in
      failure_quiet t now (truncate m 8192)
        (fail_or_retry S now t.id owner (truncate m 8192) (now + delay) (max_attempts c) db).0
        (fail_or_retry-status S db now t.id owner (truncate m 8192) (now + delay) (max_attempts c))

  not_failed :
      (r : ℕ → ℕ) (t : UploadTask) (m : Text) (now : ℕ) (db : Db)
      → reports_success (end_failure S c owner r t m now db).0 ≡ true
      → ⊥
  not_failed r t m now db h =
      clash (end_failure S c owner r t m now db).0 h (end_failure-quiet r t m now db)

  not_canceled :
      (id : ℕ) (m : Text) (now : ℕ) (db : Db)
      → reports_success (end_canceled S c owner id m now db).0 ≡ true
      → ⊥
  not_canceled id m now db h =
      clash (end_canceled S c owner id m now db).0 h (end_canceled-quiet id m now db)

  module _ (id : ℕ) where
    quiet_event :
        (e : Event) (s : Phase Db)
        → reports_success s.effects ≡ false
        → reports_success (on_event S c owner id e s).effects ≡ false
    unfolding on_event on_progress on_tick
    quiet_event (reported p now) s h =
        elim (Bool-cases
          (has_progress p && due s.last_progress_at now (pos_part c.progress_persist_interval))) [
            | inl e ↦ simp e (quiet-append s.effects _ h (progress_quiet p _))
            | inr e ↦ simp e h
          ]
    quiet_event (ticked from to) s h = elim (Bool-cases s.lease_lost) [
      | inl e ↦ rw e h
      | inr e ↦ rw (e, verdict_on-effects) h
    ]
    quiet_event (others o) s h = h

    quiet_upload :
        (es : List Event) (s : Phase Db)
        → reports_success s.effects ≡ false
        → reports_success (upload S c owner id es s).effects ≡ false
    unfolding upload
    quiet_upload [] s h = h
    quiet_upload (e ∷ es) s h = quiet_upload es (on_event S c owner id e s) (quiet_event e s h)

  -- What must have held when a success is reported: the task has a file record, its paths are those
  -- that the policy admitted, rclone copied the file in time and the process was not shutting down,
  -- the lease was not lost and no cancellation was seen; before the upload and after it the file had
  -- the version of the task, if the task has one; and the transition to success was committed with
  -- `marked`.
  pub record IsReported (a : Attempt) (task : Claimed) (db : Db) : Type 0 where
    pub row : UploadTask
    pub file : FileRecord
    pub marked : Bool
    pub prepared : IsPrepared a task row file
    pub copied : a.copy_success ≡ true
    pub in_time : a.deadline_exceeded ≡ false
    pub no_error : a.copy_error ≡ none
    pub kept_running : a.shutting_down ≡ false
    pub kept_lease : (upload_of S c owner a row db).lease_lost ≡ false
    pub not_requested :
        requested S c owner a (is_cancellation_requested S row.id (checked_db S c owner a row db))
        ≡ false
    pub version_after :
        row.file_fingerprint ≢ [] → Shows a (a.stat_after file.local_path) row.file_fingerprint
    pub committed :
        (finish_success S row.id owner row.file_record_id
          (expected_fingerprint (row, some file))
          row.remote_name
          row.remote_path
          a.finished
          ((a.finished - a.started) / second)
          (run S a.before_finish (checked_db S c owner a row db))).0
        ≡ ok (true, marked)

  module _ (a : Attempt) (t : UploadTask) (f : FileRecord) where
    -- A success report of the last step.
    record IsConcluded (o : Option Text) (db : Db) : Type 0 where
      marked : Bool
      copied : a.copy_success ≡ true
      no_failure : o ≡ none
      same_version : verify_task_file_fingerprint a t f ≡ none
      committed :
          (finish_success S t.id owner t.file_record_id
            (expected_fingerprint (t, some f))
            t.remote_name
            t.remote_path
            a.finished
            ((a.finished - a.started) / second)
            db).0
          ≡ ok (true, marked)

    abbrev version_end : Option Text → Db → List Effect × Db
    version_end o db = elim o [
      | some problem ↦ end_canceled S c owner t.id problem a.finished db
      | none ↦ end_success S c owner (t, some f) a.started a.finished db
    ]

    success_committed :
        (r : Result (Bool × Bool))
        → reports_success (success_effects (t, some f) a.finished r) ≡ true
        → (marked : Bool) × (r ≡ ok (true, marked))
    success_committed (err e) h = cc
    success_committed (ok (false, m)) h = cc
    success_committed (ok (true, m)) h = (m, refl)

    reported_success :
        (db : Db)
        → reports_success (end_success S c owner (t, some f) a.started a.finished db).0 ≡ true
        → (marked : Bool) × ((finish_success S t.id owner t.file_record_id
              (expected_fingerprint (t, some f))
              t.remote_name
              t.remote_path
              a.finished
              ((a.finished - a.started) / second)
              db).0
            ≡ ok (true, marked))
    unfolding end_success
    reported_success db h =
        success_committed
          (finish_success S t.id owner t.file_record_id (expected_fingerprint (t, some f))
            t.remote_name t.remote_path a.finished ((a.finished - a.started) / second) db).0
          h

    concluded :
        (o : Option Text) (db : Db)
        → reports_success (conclude S c owner a t f o db).0 ≡ true
        → IsConcluded o db
    unfolding conclude
    concluded (some x) db h =
        absurd (clash (conclude S c owner a t f (some x) db).0 h (end_failure-quiet _ t _ _ db))
    concluded none db h = by_copy a.copy_success refl h
      where
        by_version :
            (o : Option Text)
            → verify_task_file_fingerprint a t f ≡ o
            → a.copy_success ≡ true
            → reports_success (version_end o db).0 ≡ true
            → IsConcluded none db
        by_version (some problem) e k h' = absurd (
            clash (end_canceled S c owner t.id problem a.finished db).0 h'
              (end_canceled-quiet t.id problem a.finished db))
        by_version none e k h' =
            let (marked, committed) = reported_success db h' in
            record {
              marked = marked;
              copied = k;
              no_failure = refl;
              same_version = e;
              committed = committed;
            }

        by_copy :
            (b : Bool)
            → a.copy_success ≡ b
            → reports_success
                (if b
                  then version_end (verify_task_file_fingerprint a t f) db
                  else end_failure S c owner a.random t
                      (with_message a.copy_message a.copy_message)
                      a.finished
                      db).0
              ≡ true
            → IsConcluded none db
        by_copy true k h' = by_version (verify_task_file_fingerprint a t f) refl k h'
        by_copy false k h' =
            absurd
              (not_failed a.random t (with_message a.copy_message a.copy_message) a.finished db h')

    -- A success report of the last step shows what its branches have tested.
    record IsFinal (cancel gone : Bool) (db : Db) : Type 0 where
      final_conclusion : IsConcluded (copy_failure a) db
      final_running : a.shutting_down ≡ false
      final_lease : gone ≡ false
      final_request : cancel ≡ false

    finalized :
        (cancel gone : Bool) (db : Db)
        → reports_success (finalize S c owner a t f cancel gone db).0 ≡ true
        → IsFinal cancel gone db
    unfolding finalize
    finalized true gone db h = absurd (
        clash (end_canceled S c owner t.id (codes "task canceled by user") a.finished db).0 h
          (end_canceled-quiet t.id (codes "task canceled by user") a.finished db))
    finalized false gone db h = by_shutdown a.shutting_down gone refl h
      where
        by_shutdown :
            (b g : Bool)
            → a.shutting_down ≡ b
            → reports_success
                (if b
                  then (observed released ∷ [], (release_lease S a.finished t.id owner db).1)
                  else if g
                  then (observed lease_lost ∷ [], db)
                  else conclude S c owner a t f (copy_failure a) db).0
              ≡ true
            → IsFinal false g db
        by_shutdown true g k h' = cc
        by_shutdown false true k h' = cc
        by_shutdown false false k h' = record {
          final_conclusion = concluded (copy_failure a) db h';
          final_running = k;
          final_lease = refl;
          final_request = refl;
        }

  quiet_phase :
      (a : Attempt) (t : UploadTask) (db : Db)
      → reports_success (upload_of S c owner a t db).effects ≡ false
  unfolding upload_of
  quiet_phase a t db = quiet_upload t.id a.events _ refl

  -- A success report of an attempt is one of its last step.
  attempt_report :
      (a : Attempt) (t : UploadTask) (f : FileRecord) (db : Db)
      → reports_success (attempt S c owner a t f db).0 ≡ true
      → reports_success
          (finalize S c owner a t f
            (requested S c owner a (is_cancellation_requested S t.id (checked_db S c owner a t db)))
            (upload_of S c owner a t db).lease_lost
            (run S a.before_finish (checked_db S c owner a t db))).0
        ≡ true
  unfolding attempt
  attempt_report a t f db k =
      last_part (upload_of S c owner a t db).effects
        (finalize S c owner a t f
          (requested S c owner a (is_cancellation_requested S t.id (checked_db S c owner a t db)))
          (upload_of S c owner a t db).lease_lost
          (run S a.before_finish (checked_db S c owner a t db))).0
        (quiet_phase a t db) k

  -- A worker reports a success only if the task had a file record and paths that the policy admitted,
  -- rclone copied the file in time and without an error, nothing had asked it to stop, the
  -- transition committed, and, for a task with a version, the file at the uploaded path had the
  -- fingerprint of that version both before the upload and after it.
  pub success_report :
      (a : Attempt) (task : Claimed) (db : Db)
      → reports_success (process_claimed S c owner a task db).0 ≡ true
      → IsReported a task db
  unfolding process_claimed
  success_report a task db h = by_check (prepare a task) refl h
    where
      of_final :
          (t : UploadTask) (f : FileRecord)
          → prepare a task ≡ ready t f
          → IsFinal a t f
              (requested S c owner a
                (is_cancellation_requested S t.id (checked_db S c owner a t db)))
              (upload_of S c owner a t db).lease_lost
              (run S a.before_finish (checked_db S c owner a t db))
          → IsReported a task db
      of_final t f e k = record {
        row = t;
        file = f;
        marked = k.final_conclusion.marked;
        prepared = prepare-IsPrepared a task t f e;
        copied = k.final_conclusion.copied;
        in_time = ground (arith, k.final_conclusion.no_failure);
        no_error = ground (arith, k.final_conclusion.no_failure);
        kept_running = k.final_running;
        kept_lease = k.final_lease;
        not_requested = k.final_request;
        version_after = verify-Shows a t f k.final_conclusion.same_version;
        committed = k.final_conclusion.committed;
      }

      attempted :
          (t : UploadTask) (f : FileRecord)
          → prepare a task ≡ ready t f
          → reports_success (attempt S c owner a t f db).0 ≡ true
          → IsReported a task db
      attempted t f e k = of_final t f e (finalized a t f _ _ _ (attempt_report a t f db k))

      by_check :
          (r : Ready)
          → prepare a task ≡ r
          → reports_success
              (elim r as (λ _. List Effect × Db) [
                | failing message ↦ end_failure S c owner a.random task.0 message a.finished db
                | canceling message ↦ end_canceled S c owner task.0.id message a.finished db
                | ready t' f' ↦ attempt S c owner a t' f' db
              ]).0
            ≡ true
          → IsReported a task db
      by_check (failing m) e k = absurd (not_failed a.random task.0 m a.finished db k)
      by_check (canceling m) e k = absurd (not_canceled task.0.id m a.finished db k)
      by_check (ready t f) e k = attempted t f e k
