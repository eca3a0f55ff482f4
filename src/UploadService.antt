-- ===== src/UploadService.antt =====
-- internal/service/upload_service.go: the requests of clients about tasks, over the database `S` and
-- the signals of the queue. Listings, statistics and logs, which change no state, are not modelled.
pub mod Requests
pub mod Batches
pub mod Outcomes
use rclone_sync_hub_go_backe.Prelude.{
  ℕ, Text, codes, Bool, true, false, ◌==◌, Option, none, some, List, [], ◌∷◌, ◌++◌, has_id,
  if◌then◌else◌,
}
use rclone_sync_hub_go_backe.Model.{
  UploadTask, Status, pending, running, success, failed, paused, canceled, is,
}
use rclone_sync_hub_go_backe.Database.Outcome.{
  Err, Result, ok, err, driver, duplicate, not_found, conflict,
}
use rclone_sync_hub_go_backe.Database.Statement.{Sql}
use rclone_sync_hub_go_backe.TaskRepository
use rclone_sync_hub_go_backe.TaskRepository.{
  reset_for_retry, pause_if_not_running, request_cancel, delete_many, Rejections, rejection,
}
use rclone_sync_hub_go_backe.TaskRepository.Rows.{by_id}
use rclone_sync_hub_go_backe.TaskRepository.Operation.{Operation, run}
use rclone_sync_hub_go_backe.Worker.Signals.{Signals, submit, cancel}

-- internal/apperror/error.go: an error for the client with its kind and message, or any other.
pub data Kind : Type 0 where
  validation clash missing : Kind

pub data Fault : Type 0 where
  told : Kind → Text → Fault
  untold : Err → Fault
  context_done : Fault

pub data Reply (A : Type 0) : Type 0 where
  accepted : A → Reply A
  rejected : Fault → Reply A

-- When a request runs: `time.Now()`, whether its context is done when it calls the queue, and the
-- calls of others between its read and its write.
pub record Moment : Type 0 where
  pub now : ℕ
  pub done : Bool
  pub meanwhile : List Operation

-- TaskBatchResult; the map `Failed` is a function.
pub record BatchResult : Type 0 where
  pub ok_ids : List ℕ
  pub failures : ℕ → Option Text

abbrev pub message_of : Fault → Text
message_of (told k message) = message
message_of (untold e) = codes "operation failed"
message_of context_done = codes "operation failed"

abbrev pub put_message : ℕ → Text → (ℕ → Option Text) → ℕ → Option Text
put_message id m failures j = if j == id then some m else failures j

abbrev pub answer : ℕ → Reply (Unit {0}) → BatchResult → BatchResult
answer id (accepted u) r = record r { ok_ids = r.ok_ids ++ id ∷ [] }
answer id (rejected f) r = record r { failures = put_message id (message_of f) r.failures }

-- runTaskBatch
unfoldable pub run_batch :
    {St : Type 0} → (ℕ → St → Reply (Unit {0}) × St) → List ℕ → BatchResult → St → BatchResult × St
run_batch action [] r s = (r, s)
run_batch action (id ∷ ids) r s = let x = action id s in run_batch action ids (answer id x.0 r) x.1

abbrev pub no_answers : BatchResult
no_answers = record { ok_ids = []; failures = λ id. none }

-- BatchDeleteTasks: the ids without repetition, in their order.
unfoldable pub unique_after : List ℕ → List ℕ → List ℕ
unique_after seen [] = []
unique_after seen (id ∷ ids) =
    let known = unique_after seen ids in
    let fresh = unique_after (id ∷ seen) ids in if has_id id seen then known else id ∷ fresh

abbrev pub unique_ids : List ℕ → List ℕ
unique_ids ids = unique_after [] ids

-- taskDeleteError
abbrev pub delete_reply : Option Err → Reply (Unit {0})
delete_reply none = accepted tt
delete_reply (some not_found) = rejected (told missing (codes "task not found"))
delete_reply (some conflict) =
    rejected (told clash (codes "running task must be canceled before deletion"))
delete_reply (some e) = rejected (untold e)

abbrev pub deletion_answer : Result Rejections → ℕ → Reply (Unit {0})
deletion_answer (err e) id = rejected (untold e)
deletion_answer (ok rejections) id = delete_reply (rejection id rejections)

abbrev pub error_in : {A : Type 0} → Result A → Option Err
error_in (ok a) = none
error_in (err e) = some e

module _ (S : Sql) where
  open S use {Db, first}

  -- The database and the signals of the queue.
  pub record ServiceState : Type 0 where
    pub db : Db
    pub signals : Signals

  -- GetTask, with taskLookupError.
  unfoldable pub get_task : ℕ → Db → Reply UploadTask
  get_task id db = elim (first (by_id id) db) [
    | err e ↦ rejected (untold e)
    | ok none ↦ rejected (told missing (codes "task not found"))
    | ok (some t) ↦ accepted t
  ]

  abbrev pub signaled : Db → Bool × Signals → Reply (Unit {0}) × ServiceState
  signaled db x =
      (if x.0 then accepted tt else rejected context_done, record { db = db; signals = x.1 })

  abbrev pub stopped_with : Fault → Db → Signals → Reply (Unit {0}) × ServiceState
  stopped_with f db q = (rejected f, record { db = db; signals = q })

  unfoldable pub after_reset : Moment → Signals → Result Bool × Db → Reply (Unit {0}) × ServiceState
  after_reset w q (err e, db) = stopped_with (untold e) db q
  after_reset w q (ok false, db) =
      stopped_with (told clash (codes "task cannot be retried in its current state")) db q
  after_reset w q (ok true, db) = signaled db (submit w.done q)

  unfoldable pub submit_found : Moment → ℕ → Status → Db → Signals → Reply (Unit {0}) × ServiceState
  submit_found w id pending db q = signaled db (submit w.done q)
  submit_found w id running db q =
      stopped_with (told clash (codes "running task cannot be retried")) db q
  submit_found w id success db q =
      stopped_with (told clash (codes "successful task cannot be retried")) db q
  submit_found w id _ db q = after_reset w q (reset_for_retry S id w.now db)

  unfoldable pub submit_read :
      Moment → ℕ → ServiceState → Reply UploadTask → Reply (Unit {0}) × ServiceState
  submit_read w id s (rejected f) = stopped_with f s.db s.signals
  submit_read w id s (accepted t) = submit_found w id t.status (run S w.meanwhile s.db) s.signals

  -- SubmitTask
  unfoldable pub submit_task : Moment → ℕ → ServiceState → Reply (Unit {0}) × ServiceState
  submit_task w id s = submit_read w id s (get_task id s.db)

  unfoldable pub after_pause : Signals → Result Bool × Db → Reply (Unit {0}) × ServiceState
  after_pause q (err e, db) = stopped_with (untold e) db q
  after_pause q (ok false, db) =
      stopped_with (told clash (codes "task cannot be paused in its current state")) db q
  after_pause q (ok true, db) = (accepted tt, record { db = db; signals = q })

  unfoldable pub pause_found : Moment → ℕ → Bool → Db → Signals → Reply (Unit {0}) × ServiceState
  pause_found w id true db q =
      stopped_with (told clash (codes "running task cannot be paused; cancel it instead")) db q
  pause_found w id false db q = after_pause q (pause_if_not_running S id w.now db)

  unfoldable pub pause_read :
      Moment → ℕ → ServiceState → Reply UploadTask → Reply (Unit {0}) × ServiceState
  pause_read w id s (rejected f) = stopped_with f s.db s.signals
  pause_read w id s (accepted t) =
      pause_found w id (is t.status running) (run S w.meanwhile s.db) s.signals

  -- PauseTask
  unfoldable pub pause_task : Moment → ℕ → ServiceState → Reply (Unit {0}) × ServiceState
  pause_task w id s = pause_read w id s (get_task id s.db)

  unfoldable pub after_request :
      Moment → ℕ → Signals → Result Status × Db → Reply (Unit {0}) × ServiceState
  after_request w id q (err e, db) = stopped_with (untold e) db q
  after_request w id q (ok canceled, db) = (accepted tt, record { db = db; signals = q })
  after_request w id q (ok success, db) =
      stopped_with (told clash (codes "successful task cannot be canceled")) db q
  after_request w id q (ok _, db) = signaled db (cancel w.done id q)

  unfoldable pub cancel_found : Moment → ℕ → Bool → Db → Signals → Reply (Unit {0}) × ServiceState
  cancel_found w id true db q =
      stopped_with (told clash (codes "successful task cannot be canceled")) db q
  cancel_found w id false db q = after_request w id q (request_cancel S id w.now db)

  unfoldable pub cancel_read :
      Moment → ℕ → ServiceState → Reply UploadTask → Reply (Unit {0}) × ServiceState
  cancel_read w id s (rejected f) = stopped_with f s.db s.signals
  cancel_read w id s (accepted t) =
      cancel_found w id (is t.status success) (run S w.meanwhile s.db) s.signals

  -- CancelTask
  unfoldable pub cancel_task : Moment → ℕ → ServiceState → Reply (Unit {0}) × ServiceState
  cancel_task w id s = cancel_read w id s (get_task id s.db)

  -- DeleteTask
  unfoldable pub delete_task : ℕ → ServiceState → Reply (Unit {0}) × ServiceState
  delete_task id s =
      let x = TaskRepository.delete_task S id s.db in
      (delete_reply (error_in x.0), record s { db = x.1 })

  -- The batches; each task has its moment.
  unfoldable pub batch_submit_tasks :
      (ℕ → Moment) → List ℕ → ServiceState → BatchResult × ServiceState
  batch_submit_tasks at ids = run_batch (λ id. submit_task (at id) id) ids no_answers

  unfoldable pub batch_pause_tasks :
      (ℕ → Moment) → List ℕ → ServiceState → BatchResult × ServiceState
  batch_pause_tasks at ids = run_batch (λ id. pause_task (at id) id) ids no_answers

  unfoldable pub batch_cancel_tasks :
      (ℕ → Moment) → List ℕ → ServiceState → BatchResult × ServiceState
  batch_cancel_tasks at ids = run_batch (λ id. cancel_task (at id) id) ids no_answers

  unfoldable pub batch_delete_tasks : List ℕ → ServiceState → BatchResult × ServiceState
  batch_delete_tasks ids s =
      let x = delete_many S (unique_ids ids) s.db in
      run_batch (λ id t. (deletion_answer x.0 id, t)) (unique_ids ids) no_answers
        (record s { db = x.1 })
