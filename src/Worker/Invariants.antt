-- ===== src/Worker/Invariants.antt =====
-- What a worker writes while it runs one task is calls under its own name, with calls of other
-- processes between them; so every invariant of such calls is one of `processClaimed`.
use rclone_sync_hub_go_backe.Prelude.{
  ℕ, Text, [], ◌∷◌, List, Bool, true, false, ◌≡◌, ◌≢◌, Option, none, some, All, Any, if◌then◌else◌,
  pos_part, ◌&&◌, Bool-cases, inl, inr, sym, ◌∙◌, refl,
}
use rclone_sync_hub_go_backe.Model.{UploadTask, FileRecord}
use rclone_sync_hub_go_backe.Database.Statement.{Sql}
use rclone_sync_hub_go_backe.TaskRepository.{Claimed}
use rclone_sync_hub_go_backe.TaskRepository.Operation.{
  Operation, renewing, reporting, succeeding, canceling, failing, releasing, creating, apply, run,
}
use rclone_sync_hub_go_backe.TaskRepository.Exclusive.{Foreign, IsHeld, apply-IsHeld}
use rclone_sync_hub_go_backe.TaskRepository.WellFormed.{
  Admissible, IsWellFormed, apply-IsWellFormed,
}
use rclone_sync_hub_go_backe.Worker.Config.{Config}
use rclone_sync_hub_go_backe.Worker.Heartbeat.{Verdict, renewed, retry, lost}
use rclone_sync_hub_go_backe.Worker.Effects.{
  Attempt, Progress, Effect, observed, lease_lost, Event, reported, ticked, others,
}
use rclone_sync_hub_go_backe.Worker.Finish.{end_success, end_canceled, end_failure}
use rclone_sync_hub_go_backe.Worker.Upload.{
  Phase, verdict_on, has_progress, due, on_progress, on_tick, on_event, upload,
}
use rclone_sync_hub_go_backe.Worker.Process.{
  Ready, failing as fails, canceling as cancels, ready, copy_failure, prepare, conclude, finalize,
  upload_of, checked_db, attempt, process_claimed, verify_task_file_fingerprint,
}

-- A call under the worker's name.
abbrev pub IsOwn : Text → Operation → Type 0
IsOwn owner (renewing now id w d) = w ≡ owner
IsOwn owner (reporting id w p s at) = w ≡ owner
IsOwn owner (succeeding id w f fp rn rp at s) = w ≡ owner
IsOwn owner (canceling id w at m) = w ≡ owner
IsOwn owner (failing now id w m at n) = w ≡ owner
IsOwn owner (releasing now id w) = w ≡ owner
IsOwn owner _ = ⊥

verdict_on-db : {D : Type 0} (v : Verdict) (s : Phase D) → (verdict_on s v).db ≡ s.db
verdict_on-db (renewed d) s = refl
verdict_on-db retry s = refl
verdict_on-db lost s = refl

-- A condition on the calls of other processes during the upload.
abbrev pub OnOthers : (Operation → Type 0) → Event → Type 0
OnOthers P (others o) = P o
OnOthers P _ = Unit

module _ (S : Sql) (c : Config) (owner : Text) (a : Attempt) (P : Operation → Type 0)
    (I : S.Db → Type 0) (own : (o : Operation) → IsOwn owner o → P o)
    (keeps : (o : Operation) → P o → (db : S.Db) → I db → I (apply S o db)) where
  open S use {Db}

  run-Keeps : (os : List Operation) → All P os → (db : Db) → I db → I (run S os db)
  unfolding run
  run-Keeps [] p db h = h
  run-Keeps (o ∷ os) p db h = run-Keeps os p.1 (apply S o db) (keeps o p.0 db h)

  end_success-Keeps :
      (task : Claimed) (started finished : ℕ) (db : Db)
      → I db
      → I (end_success S c owner task started finished db).1
  unfolding end_success apply
  end_success-Keeps task started finished db h =
      keeps (succeeding _ owner _ _ _ _ finished _)
        (own (succeeding _ owner _ _ _ _ finished _) refl) db h

  end_canceled-Keeps :
      (id : ℕ) (m : Text) (now : ℕ) (db : Db) → I db → I (end_canceled S c owner id m now db).1
  unfolding end_canceled apply
  end_canceled-Keeps id m now db h =
      keeps (canceling id owner now m) (own (canceling id owner now m) refl) db h

  end_failure-Keeps :
      (r : ℕ → ℕ) (t : UploadTask) (m : Text) (now : ℕ) (db : Db)
      → I db
      → I (end_failure S c owner r t m now db).1
  unfolding end_failure apply
  end_failure-Keeps r t m now db h =
      keeps (failing now t.id owner _ _ _) (own (failing now t.id owner _ _ _) refl) db h

  module _ (id : ℕ) where
    on_progress-Keeps :
        (p : Progress) (now : ℕ) (s : Phase Db) → I s.db → I (on_progress S c owner id p now s).db
    unfolding on_progress apply
    on_progress-Keeps p now s h =
        if_db _
          (has_progress p && due s.last_progress_at now (pos_part c.progress_persist_interval))
          (keeps (reporting id owner p.percent p.speed now)
            (own (reporting id owner p.percent p.speed now) refl) s.db h)
      where
        if_db : (t : Phase Db) (b : Bool) → I t.db → I (if b then t else s).db
        if_db t true k = k
        if_db t false k = h

    on_tick-Keeps : (from to : ℕ) (s : Phase Db) → I s.db → I (on_tick S c owner id from to s).db
    unfolding on_tick apply
    on_tick-Keeps from to s h = elim (Bool-cases s.lease_lost) [
      | inl e ↦ rw e h
      | inr e ↦
          rw (e, verdict_on-db)
            (keeps (renewing from id owner _) (own (renewing from id owner _) refl) s.db h)
    ]

    on_event-Keeps :
        (e : Event) → OnOthers P e → (s : Phase Db) → I s.db → I (on_event S c owner id e s).db
    unfolding on_event
    on_event-Keeps (reported p now) q s h = on_progress-Keeps p now s h
    on_event-Keeps (ticked from to) q s h = on_tick-Keeps from to s h
    on_event-Keeps (others o) q s h = keeps o q s.db h

    upload-Keeps :
        (es : List Event)
        → All (OnOthers P) es
        → (s : Phase Db) → I s.db
        → I (upload S c owner id es s).db
    unfolding upload
    upload-Keeps [] q s h = h
    upload-Keeps (e ∷ es) q s h =
        upload-Keeps es q.1 (on_event S c owner id e s) (on_event-Keeps e q.0 s h)

  conclude-Keeps :
      (t : UploadTask) (f : FileRecord) (o : Option Text) (db : Db)
      → I db
      → I (conclude S c owner a t f o db).1
  unfolding conclude
  conclude-Keeps t f (some failure) db h = end_failure-Keeps _ t _ _ db h
  conclude-Keeps t f none db h = elim (Bool-cases a.copy_success) [
    | inl e ↦ simp e (verified (verify_task_file_fingerprint a t f))
    | inr e ↦ simp e (end_failure-Keeps _ t _ _ db h)
  ]
    where
      verified :
          (o : Option Text)
          → I
              (elim o as (λ _. List Effect × Db) [
                | some problem ↦ end_canceled S c owner t.id problem a.finished db
                | none ↦ end_success S c owner (t, some f) a.started a.finished db
              ]).1
      verified (some problem) = end_canceled-Keeps t.id problem _ db h
      verified none = end_success-Keeps (t, some f) _ _ db h

  finalize-Keeps :
      (t : UploadTask) (f : FileRecord) (cancel gone : Bool) (db : Db)
      → I db
      → I (finalize S c owner a t f cancel gone db).1
  unfolding finalize apply
  finalize-Keeps t f true gone db h = end_canceled-Keeps t.id _ _ db h
  finalize-Keeps t f false gone db h = elim (Bool-cases a.shutting_down) [
    | inl e ↦
        simp e (
          keeps (releasing a.finished t.id owner) (own (releasing a.finished t.id owner) refl) db h)
    | inr e ↦ simp e (discarded gone)
  ]
    where
      discarded :
          (b : Bool)
          → I
              (if b
                then (observed lease_lost ∷ [], db)
                else conclude S c owner a t f (copy_failure a) db).1
      discarded true = h
      discarded false = conclude-Keeps t f (copy_failure a) db h

  module _ (during : All (OnOthers P) a.events) (check : All P a.before_check)
      (finish : All P a.before_finish) where
    attempt-Keeps :
        (t : UploadTask) (f : FileRecord) (db : Db) → I db → I (attempt S c owner a t f db).1
    unfolding attempt checked_db upload_of
    attempt-Keeps t f db h = finalize-Keeps t f _ _ _ (
        run-Keeps a.before_finish finish _
          (run-Keeps a.before_check check _ (upload-Keeps t.id a.events during _ h)))

    -- An invariant of the worker's own calls and of the calls between them is one of the whole run.
    pub process_claimed-Keeps :
        (task : Claimed) (db : Db) → I db → I (process_claimed S c owner a task db).1
    unfolding process_claimed
    process_claimed-Keeps task db h = decided (prepare a task)
      where
        decided :
            (r : Ready)
            → I
                (elim r as (λ _. List Effect × Db) [
                  | fails message ↦ end_failure S c owner a.random task.0 message a.finished db
                  | cancels message ↦ end_canceled S c owner task.0.id message a.finished db
                  | ready t' f' ↦ attempt S c owner a t' f' db
                ]).1
        decided (fails m) = end_failure-Keeps _ task.0 m _ db h
        decided (cancels m) = end_canceled-Keeps task.0.id m _ db h
        decided (ready t f) = attempt-Keeps t f db h

module _ (S : Sql) (c : Config) (owner : Text) (a : Attempt) where
  -- A worker cannot disturb another worker's lease: if the calls between its own leave that lease
  -- alone, a task that runs under it before processClaimed still runs under it after, whatever task
  -- the worker was given.
  pub process_claimed-IsHeld :
      (id : ℕ) (holder : Text) (expiry : ℕ) (task : Claimed) (db : S.Db)
      → owner ≢ holder
      → All (OnOthers (Foreign holder expiry)) a.events
      → All (Foreign holder expiry) a.before_check
      → All (Foreign holder expiry) a.before_finish
      → Any (IsHeld id holder expiry) (S.tasks db)
      → Any (IsHeld id holder expiry) (S.tasks (process_claimed S c owner a task db).1)
  process_claimed-IsHeld id holder expiry task db ne during check finish h =
      process_claimed-Keeps S c owner a (Foreign holder expiry)
        (λ d. Any (IsHeld id holder expiry) (S.tasks d)) (λ o k. own_foreign o k)
        (λ o k d. apply-IsHeld S id holder expiry o d k) during check finish task db h
    where
      own_foreign : (o : Operation) → IsOwn owner o → Foreign holder expiry o
      own_foreign (renewing now i w d) k = λ e. ne (sym k ∙ e)
      own_foreign (reporting i w p s at) k = tt
      own_foreign (succeeding i w f fp rn rp at s) k = λ e. ne (sym k ∙ e)
      own_foreign (canceling i w at m) k = λ e. ne (sym k ∙ e)
      own_foreign (failing now i w m at n) k = λ e. ne (sym k ∙ e)
      own_foreign (releasing now i w) k = λ e. ne (sym k ∙ e)
      own_foreign _ k = absurd k

  -- processClaimed keeps every task well formed, if the tasks that other calls create meanwhile are.
  pub process_claimed-IsWellFormed :
      (task : Claimed) (db : S.Db)
      → All (OnOthers Admissible) a.events
      → All Admissible a.before_check
      → All Admissible a.before_finish
      → All IsWellFormed (S.tasks db)
      → All IsWellFormed (S.tasks (process_claimed S c owner a task db).1)
  process_claimed-IsWellFormed task db during check finish h =
      process_claimed-Keeps S c owner a Admissible (λ d. All IsWellFormed (S.tasks d))
        (λ o k. own_admissible o k) (λ o k d. apply-IsWellFormed S o d k) during check finish task
        db h
    where
      own_admissible : (o : Operation) → IsOwn owner o → Admissible o
      own_admissible (creating given size) k = absurd k
      own_admissible _ k = tt
