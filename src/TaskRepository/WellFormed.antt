-- ===== src/TaskRepository/WellFormed.antt =====
-- What holds of every row of `upload_tasks` between two calls.
use rclone_sync_hub_go_backe.Prelude.{
  ℕ, [], ◌∷◌, List, ◌≡◌, true, false, is_some, none, All, All-Member, arith,
}
use rclone_sync_hub_go_backe.Model.{UploadTask, is, pending, running, success, failed, canceled}
use rclone_sync_hub_go_backe.Database.Statement.{Sql}
use rclone_sync_hub_go_backe.TaskRepository.Operation.{Operation, creating, apply, run}
use rclone_sync_hub_go_backe.TaskRepository.RowStep.{
  RowStep, finalize_queued, finalize_abandoned, exhaust, take, keep_alive, advance, complete,
  give_up, settle, release_canceled, requeue, ask_cancel, restart, hold, stop, abandon, RowSteps,
  here, next, Adds, add, Evolves, empty, row, gone, new,
}
use rclone_sync_hub_go_backe.TaskRepository.Transitions.{apply-Evolves}

-- A lease and a cancellation request stand on a running task alone, a retry time on a pending one,
-- an end time on every task at its end and on no task in work, and a success is at 100 percent.
pub record IsWellFormed (t : UploadTask) : Type 0 where
  pub running_leased : t.status ≡ running → is_some t.lease_expires_at ≡ true
  pub leased_running : is_some t.lease_expires_at ≡ true → t.status ≡ running
  pub idle_unowned : is t.status running ≡ false → t.lease_owner ≡ []
  pub canceling_running : is_some t.cancel_requested_at ≡ true → t.status ≡ running
  pub retry_pending : is_some t.next_retry_at ≡ true → t.status ≡ pending
  pub running_unfinished : t.status ≡ running → t.finished_at ≡ none
  pub pending_unfinished : t.status ≡ pending → t.finished_at ≡ none
  pub success_finished : t.status ≡ success → is_some t.finished_at ≡ true
  pub failed_finished : t.status ≡ failed → is_some t.finished_at ≡ true
  pub canceled_finished : t.status ≡ canceled → is_some t.canceled_at ≡ true
  pub success_complete : t.status ≡ success → t.progress ≡ 10000

-- Every move of the state machine keeps it.
pub RowStep-IsWellFormed :
    {o : Operation} {t u : UploadTask} → RowStep o t u → IsWellFormed t → IsWellFormed u
RowStep-IsWellFormed (finalize_queued t g) h = ground arith
RowStep-IsWellFormed (finalize_abandoned t g) h = ground arith
RowStep-IsWellFormed (exhaust t g c) h = ground arith
RowStep-IsWellFormed (take t g) h = ground arith
RowStep-IsWellFormed (keep_alive t g) h = ground arith
RowStep-IsWellFormed (advance t g) h = ground arith
RowStep-IsWellFormed (complete t g) h = ground arith
RowStep-IsWellFormed (give_up t g) h = ground arith
RowStep-IsWellFormed (settle t g) h = ground arith
RowStep-IsWellFormed (release_canceled t g) h = ground arith
RowStep-IsWellFormed (requeue t g) h = ground arith
RowStep-IsWellFormed (ask_cancel t i g k) h = ground arith
RowStep-IsWellFormed (restart t g) h = ground arith
RowStep-IsWellFormed (hold t g) h = ground arith
RowStep-IsWellFormed (stop t r g) h = ground arith
RowStep-IsWellFormed (abandon t r g) h = ground arith

RowSteps-IsWellFormed :
    {o : Operation} {t u : UploadTask} → RowSteps o t u → IsWellFormed t → IsWellFormed u
RowSteps-IsWellFormed here h = h
RowSteps-IsWellFormed (next r s) h = RowStep-IsWellFormed s (RowSteps-IsWellFormed r h)

-- The tasks that a call creates are well formed as given; no other call has a condition.
abbrev pub Admissible : Operation → Type 0
Admissible (creating given size) = All IsWellFormed given
Admissible _ = Unit

Adds-IsWellFormed : {o : Operation} {u : UploadTask} → Adds o u → Admissible o → IsWellFormed u
Adds-IsWellFormed (add {given} c id m) h = renamed c id (All-Member IsWellFormed given h m)
  where
    renamed : (t : UploadTask) (j : ℕ) → IsWellFormed t → IsWellFormed (record t { id = j })
    renamed t j k = ground arith

Evolves-IsWellFormed :
    {o : Operation} {ts us : List UploadTask}
    → Evolves o ts us
    → Admissible o
    → All IsWellFormed ts
    → All IsWellFormed us
Evolves-IsWellFormed empty a h = tt
Evolves-IsWellFormed (row r e) a h = (RowSteps-IsWellFormed r h.0, Evolves-IsWellFormed e a h.1)
Evolves-IsWellFormed (gone d e) a h = Evolves-IsWellFormed e a h.1
Evolves-IsWellFormed (new n e) a h = (Adds-IsWellFormed n a, Evolves-IsWellFormed e a h)

module _ (S : Sql) where
  open S use {Db, tasks}

  pub apply-IsWellFormed :
      (o : Operation) (db : Db)
      → Admissible o
      → All IsWellFormed (tasks db)
      → All IsWellFormed (tasks (apply S o db))
  apply-IsWellFormed o db a h = Evolves-IsWellFormed (apply-Evolves S db o) a h

  -- From a table of well-formed tasks, after any calls in any order and with any outcomes, every
  -- task is well formed, if the tasks that calls create are.
  pub run-IsWellFormed :
      (os : List Operation) (db : Db)
      → All Admissible os
      → All IsWellFormed (tasks db)
      → All IsWellFormed (tasks (run S os db))
  unfolding run
  run-IsWellFormed [] db a h = h
  run-IsWellFormed (o ∷ os) db a h =
      run-IsWellFormed os (apply S o db) a.1 (apply-IsWellFormed o db a.0 h)
