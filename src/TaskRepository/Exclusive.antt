-- ===== src/TaskRepository/Exclusive.antt =====
-- The lease of a task before it expires, and the calls of others.
use rclone_sync_hub_go_backe.Prelude.{
  ℕ, ◌<◌, Text, [], ◌∷◌, List, ◌≡◌, ◌≢◌, some, All, Any, arith, text_eq_iff, inl, inr,
}
use rclone_sync_hub_go_backe.Model.{UploadTask, running}
use rclone_sync_hub_go_backe.Database.Statement.{Sql}
use rclone_sync_hub_go_backe.TaskRepository.Operation.{
  Operation, claiming, renewing, succeeding, canceling, failing, releasing, apply, run,
}
use rclone_sync_hub_go_backe.TaskRepository.RowStep.{
  RowStep, finalize_queued, finalize_abandoned, exhaust, take, keep_alive, advance, complete,
  give_up, settle, release_canceled, requeue, ask_cancel, restart, hold, stop, abandon, RowSteps,
  here, next, Deletes, delete_one, delete_listed, clean, Evolves, empty, row, gone, new,
}
use rclone_sync_hub_go_backe.TaskRepository.Transitions.{apply-Evolves}

-- The task `id` runs under a lease of `owner` until `expiry`.
pub record IsHeld (id : ℕ) (owner : Text) (expiry : ℕ) (t : UploadTask) : Type 0 where
  pub same_id : t.id ≡ id
  pub is_running : t.status ≡ running
  pub is_owned : t.lease_owner ≡ owner
  pub expires : t.lease_expires_at ≡ some expiry

-- A claim before the expiry, whoever makes it, or another worker's call about its lease. The calls
-- of clients (cancellation, reset, pause, deletion, creation) are foreign without a condition.
abbrev pub Foreign : Text → ℕ → Operation → Type 0
Foreign owner expiry (claiming now w d m) = now < expiry
Foreign owner expiry (renewing now id w d) = w ≢ owner
Foreign owner expiry (succeeding id w f fp rn rp at s) = w ≢ owner
Foreign owner expiry (canceling id w at m) = w ≢ owner
Foreign owner expiry (failing now id w m at n) = w ≢ owner
Foreign owner expiry (releasing now id w) = w ≢ owner
Foreign owner expiry _ = Unit

RowStep-IsHeld :
    {id : ℕ} {owner : Text} {expiry : ℕ} {o : Operation} {t u : UploadTask}
    → RowStep o t u
    → Foreign owner expiry o
    → IsHeld id owner expiry t
    → IsHeld id owner expiry u
RowStep-IsHeld (finalize_queued t g) f h = ground arith
RowStep-IsHeld (finalize_abandoned t g) f h = ground arith
RowStep-IsHeld (exhaust t g c) f h = ground arith
RowStep-IsHeld (take t g) f h = ground arith
RowStep-IsHeld {owner} (keep_alive {w} t g) f h = ground (arith, text_eq_iff t.lease_owner w)
RowStep-IsHeld (advance t g) f h = ground arith
RowStep-IsHeld {owner} (complete {w} t g) f h = ground (arith, text_eq_iff t.lease_owner w)
RowStep-IsHeld {owner} (give_up {w} t g) f h = ground (arith, text_eq_iff t.lease_owner w)
RowStep-IsHeld {owner} (settle {w} t g) f h = ground (arith, text_eq_iff t.lease_owner w)
RowStep-IsHeld {owner} (release_canceled {w} t g) f h = ground (arith, text_eq_iff t.lease_owner w)
RowStep-IsHeld {owner} (requeue {w} t g) f h = ground (arith, text_eq_iff t.lease_owner w)
RowStep-IsHeld (ask_cancel t i g k) f h = ground arith
RowStep-IsHeld (restart t g) f h = ground arith
RowStep-IsHeld (hold t g) f h = ground arith
RowStep-IsHeld (stop t r g) f h = ground arith
RowStep-IsHeld (abandon t r g) f h = ground arith

RowSteps-IsHeld :
    {id : ℕ} {owner : Text} {expiry : ℕ} {o : Operation} {t u : UploadTask}
    → RowSteps o t u
    → Foreign owner expiry o
    → IsHeld id owner expiry t
    → IsHeld id owner expiry u
RowSteps-IsHeld here f h = h
RowSteps-IsHeld (next r s) f h = RowStep-IsHeld s f (RowSteps-IsHeld r f h)

Deletes-held :
    {id : ℕ} {owner : Text} {expiry : ℕ} {o : Operation} {t : UploadTask}
    → Deletes o t
    → IsHeld id owner expiry t
    → ⊥
Deletes-held (delete_one t g) h = ground arith
Deletes-held (delete_listed t g k) h = ground arith
Deletes-held (clean t g) h = ground arith

Evolves-IsHeld :
    (id : ℕ) (owner : Text) (expiry : ℕ) {o : Operation} {ts us : List UploadTask}
    → Evolves o ts us
    → Foreign owner expiry o
    → Any (IsHeld id owner expiry) ts
    → Any (IsHeld id owner expiry) us
Evolves-IsHeld i w x empty f h = h
Evolves-IsHeld i w x (row r e) f (inl h) = inl (RowSteps-IsHeld r f h)
Evolves-IsHeld i w x (row r e) f (inr h) = inr (Evolves-IsHeld i w x e f h)
Evolves-IsHeld i w x (gone d e) f (inl h) = absurd (Deletes-held d h)
Evolves-IsHeld i w x (gone d e) f (inr h) = Evolves-IsHeld i w x e f h
Evolves-IsHeld i w x (new n e) f h = inr (Evolves-IsHeld i w x e f h)

module _ (S : Sql) where
  open S use {Db, tasks}

  pub apply-IsHeld :
      (id : ℕ) (owner : Text) (expiry : ℕ) (o : Operation) (db : Db)
      → Foreign owner expiry o
      → Any (IsHeld id owner expiry) (tasks db)
      → Any (IsHeld id owner expiry) (tasks (apply S o db))
  apply-IsHeld id owner expiry o db f h = Evolves-IsHeld id owner expiry (apply-Evolves S db o) f h

  -- A task that runs under a lease still runs under that lease after any calls of other workers
  -- and of clients, and any claims made before the lease expires.
  pub run-IsHeld :
      (id : ℕ) (owner : Text) (expiry : ℕ) (os : List Operation) (db : Db)
      → All (Foreign owner expiry) os
      → Any (IsHeld id owner expiry) (tasks db)
      → Any (IsHeld id owner expiry) (tasks (run S os db))
  unfolding run
  run-IsHeld id owner expiry [] db f h = h
  run-IsHeld id owner expiry (o ∷ os) db f h =
      run-IsHeld id owner expiry os (apply S o db) f.1 (apply-IsHeld id owner expiry o db f.0 h)
