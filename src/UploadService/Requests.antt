-- ===== src/UploadService/Requests.antt =====
-- One request of a client about tasks, and what no request can do: take a lease from a worker or
-- leave a task in a state that is not well formed.
use rclone_sync_hub_go_backe.Prelude.{ℕ, Text, Bool, true, false, List, [], ◌∷◌, All, Any}
use rclone_sync_hub_go_backe.Model.{
  UploadTask, Status, pending, running, success, failed, paused, canceled, is,
}
use rclone_sync_hub_go_backe.Database.Outcome.{Result, ok, err}
use rclone_sync_hub_go_backe.Database.Statement.{Sql}
use rclone_sync_hub_go_backe.TaskRepository.{reset_for_retry, pause_if_not_running, request_cancel}
use rclone_sync_hub_go_backe.TaskRepository.Operation.{
  Operation, requesting_cancel, resetting, pausing, deleting, deleting_many, apply, run,
}
use rclone_sync_hub_go_backe.TaskRepository.Exclusive.{IsHeld, Foreign, apply-IsHeld}
use rclone_sync_hub_go_backe.TaskRepository.WellFormed.{
  IsWellFormed, Admissible, apply-IsWellFormed,
}
use rclone_sync_hub_go_backe.Worker.Signals.{Signals}
use rclone_sync_hub_go_backe.UploadService.{
  Reply, accepted, rejected, Moment, BatchResult, run_batch, no_answers, unique_ids, ServiceState,
  get_task, after_reset, submit_found, submit_read, submit_task, after_pause, pause_found,
  pause_read, pause_task, after_request, cancel_found, cancel_read, cancel_task, delete_task,
  batch_submit_tasks, batch_pause_tasks, batch_cancel_tasks, batch_delete_tasks,
}

pub data Request : Type 0 where
  submitting_task : Moment → ℕ → Request
  pausing_task : Moment → ℕ → Request
  canceling_task : Moment → ℕ → Request
  deleting_task : ℕ → Request
  submitting_batch : (ℕ → Moment) → List ℕ → Request
  pausing_batch : (ℕ → Moment) → List ℕ → Request
  canceling_batch : (ℕ → Moment) → List ℕ → Request
  deleting_batch : List ℕ → Request

module _ (S : Sql) where
  unfoldable pub serve : Request → ServiceState S → ServiceState S
  serve (submitting_task w id) s = (submit_task S w id s).1
  serve (pausing_task w id) s = (pause_task S w id s).1
  serve (canceling_task w id) s = (cancel_task S w id s).1
  serve (deleting_task id) s = (delete_task S id s).1
  serve (submitting_batch at ids) s = (batch_submit_tasks S at ids s).1
  serve (pausing_batch at ids) s = (batch_pause_tasks S at ids s).1
  serve (canceling_batch at ids) s = (batch_cancel_tasks S at ids s).1
  serve (deleting_batch ids) s = (batch_delete_tasks S ids s).1

  unfoldable pub serve_all : List Request → ServiceState S → ServiceState S
  serve_all [] s = s
  serve_all (r ∷ rs) s = serve_all rs (serve r s)

-- The calls of others that a request meets.
abbrev pub Meets : (Operation → Type 0) → Request → Type 0
Meets P (submitting_task w id) = All P w.meanwhile
Meets P (pausing_task w id) = All P w.meanwhile
Meets P (canceling_task w id) = All P w.meanwhile
Meets P (deleting_task id) = Unit
Meets P (submitting_batch at ids) = (id : ℕ) → All P (at id).meanwhile
Meets P (pausing_batch at ids) = (id : ℕ) → All P (at id).meanwhile
Meets P (canceling_batch at ids) = (id : ℕ) → All P (at id).meanwhile
Meets P (deleting_batch ids) = Unit

-- A property of the database that every call under `P` keeps, those of clients among them.
module _ (S : Sql) (N : S.Db → Type 0) (P : Operation → Type 0)
    (keeps : (o : Operation) (db : S.Db) → P o → N db → N (apply S o db))
    (reset_P : (id at : ℕ) → P (resetting id at)) (pause_P : (id at : ℕ) → P (pausing id at))
    (cancel_P : (id at : ℕ) → P (requesting_cancel id at)) (delete_P : (id : ℕ) → P (deleting id))
    (delete_many_P : (ids : List ℕ) → P (deleting_many ids)) where
  open S use {Db}

  run_keeps : (os : List Operation) (db : Db) → All P os → N db → N (run S os db)
  unfolding run
  run_keeps [] db p h = h
  run_keeps (o ∷ os) db p h = run_keeps os (apply S o db) p.1 (keeps o db p.0 h)

  after_reset_keeps :
      (w : Moment) (q : Signals) (x : Result Bool × Db) → N x.1 → N (after_reset S w q x).1.db
  unfolding after_reset
  after_reset_keeps w q (err e, db) h = h
  after_reset_keeps w q (ok false, db) h = h
  after_reset_keeps w q (ok true, db) h = h

  reset_keeps :
      (w : Moment) (id : ℕ) (q : Signals) (db : Db)
      → N db
      → N (after_reset S w q (reset_for_retry S id w.now db)).1.db
  unfolding apply
  reset_keeps w id q db h =
      after_reset_keeps w q (reset_for_retry S id w.now db)
        (keeps (resetting id w.now) db (reset_P id w.now) h)

  submit_found_keeps :
      (w : Moment) (id : ℕ) (s : Status) (db : Db) (q : Signals)
      → N db
      → N (submit_found S w id s db q).1.db
  unfolding submit_found
  submit_found_keeps w id pending db q h = h
  submit_found_keeps w id running db q h = h
  submit_found_keeps w id success db q h = h
  submit_found_keeps w id failed db q h = reset_keeps w id q db h
  submit_found_keeps w id paused db q h = reset_keeps w id q db h
  submit_found_keeps w id canceled db q h = reset_keeps w id q db h

  submit_read_keeps :
      (w : Moment) (id : ℕ) (s : ServiceState S) (r : Reply UploadTask)
      → All P w.meanwhile
      → N s.db
      → N (submit_read S w id s r).1.db
  unfolding submit_read
  submit_read_keeps w id s (rejected f) p h = h
  submit_read_keeps w id s (accepted t) p h =
      submit_found_keeps w id t.status (run S w.meanwhile s.db) s.signals
        (run_keeps w.meanwhile s.db p h)

  submit_task_keeps :
      (w : Moment) (id : ℕ) (s : ServiceState S)
      → All P w.meanwhile
      → N s.db
      → N (submit_task S w id s).1.db
  unfolding submit_task
  submit_task_keeps w id s p h = submit_read_keeps w id s (get_task S id s.db) p h

  after_pause_keeps : (q : Signals) (x : Result Bool × Db) → N x.1 → N (after_pause S q x).1.db
  unfolding after_pause
  after_pause_keeps q (err e, db) h = h
  after_pause_keeps q (ok false, db) h = h
  after_pause_keeps q (ok true, db) h = h

  pause_found_keeps :
      (w : Moment) (id : ℕ) (b : Bool) (db : Db) (q : Signals)
      → N db
      → N (pause_found S w id b db q).1.db
  unfolding pause_found apply
  pause_found_keeps w id true db q h = h
  pause_found_keeps w id false db q h =
      after_pause_keeps q (pause_if_not_running S id w.now db)
        (keeps (pausing id w.now) db (pause_P id w.now) h)

  pause_read_keeps :
      (w : Moment) (id : ℕ) (s : ServiceState S) (r : Reply UploadTask)
      → All P w.meanwhile
      → N s.db
      → N (pause_read S w id s r).1.db
  unfolding pause_read
  pause_read_keeps w id s (rejected f) p h = h
  pause_read_keeps w id s (accepted t) p h =
      pause_found_keeps w id (is t.status running) (run S w.meanwhile s.db) s.signals
        (run_keeps w.meanwhile s.db p h)

  pause_task_keeps :
      (w : Moment) (id : ℕ) (s : ServiceState S)
      → All P w.meanwhile
      → N s.db
      → N (pause_task S w id s).1.db
  unfolding pause_task
  pause_task_keeps w id s p h = pause_read_keeps w id s (get_task S id s.db) p h

  after_request_keeps :
      (w : Moment) (id : ℕ) (q : Signals) (x : Result Status × Db)
      → N x.1
      → N (after_request S w id q x).1.db
  unfolding after_request
  after_request_keeps w id q (err e, db) h = h
  after_request_keeps w id q (ok canceled, db) h = h
  after_request_keeps w id q (ok success, db) h = h
  after_request_keeps w id q (ok pending, db) h = h
  after_request_keeps w id q (ok running, db) h = h
  after_request_keeps w id q (ok failed, db) h = h
  after_request_keeps w id q (ok paused, db) h = h

  cancel_found_keeps :
      (w : Moment) (id : ℕ) (b : Bool) (db : Db) (q : Signals)
      → N db
      → N (cancel_found S w id b db q).1.db
  unfolding cancel_found apply
  cancel_found_keeps w id true db q h = h
  cancel_found_keeps w id false db q h =
      after_request_keeps w id q (request_cancel S id w.now db)
        (keeps (requesting_cancel id w.now) db (cancel_P id w.now) h)

  cancel_read_keeps :
      (w : Moment) (id : ℕ) (s : ServiceState S) (r : Reply UploadTask)
      → All P w.meanwhile
      → N s.db
      → N (cancel_read S w id s r).1.db
  unfolding cancel_read
  cancel_read_keeps w id s (rejected f) p h = h
  cancel_read_keeps w id s (accepted t) p h =
      cancel_found_keeps w id (is t.status success) (run S w.meanwhile s.db) s.signals
        (run_keeps w.meanwhile s.db p h)

  cancel_task_keeps :
      (w : Moment) (id : ℕ) (s : ServiceState S)
      → All P w.meanwhile
      → N s.db
      → N (cancel_task S w id s).1.db
  unfolding cancel_task
  cancel_task_keeps w id s p h = cancel_read_keeps w id s (get_task S id s.db) p h

  run_batch_keeps :
      (action : ℕ → ServiceState S → Reply (Unit {0}) × ServiceState S) (ids : List ℕ)
      (r : BatchResult) (s : ServiceState S)
      → ((id : ℕ) (t : ServiceState S) → N t.db → N (action id t).1.db)
      → N s.db
      → N (run_batch action ids r s).1.db
  unfolding run_batch
  run_batch_keeps action [] r s k h = h
  run_batch_keeps action (id ∷ ids) r s k h =
      run_batch_keeps action ids _ (action id s).1 k (k id s h)

  serve_keeps : (r : Request) (s : ServiceState S) → Meets P r → N s.db → N (serve S r s).db
  unfolding serve delete_task apply batch_submit_tasks batch_pause_tasks batch_cancel_tasks
      batch_delete_tasks
  serve_keeps (submitting_task w id) s p h = submit_task_keeps w id s p h
  serve_keeps (pausing_task w id) s p h = pause_task_keeps w id s p h
  serve_keeps (canceling_task w id) s p h = cancel_task_keeps w id s p h
  serve_keeps (deleting_task id) s p h = keeps (deleting id) s.db (delete_P id) h
  serve_keeps (submitting_batch at ids) s p h =
      run_batch_keeps (λ id. submit_task S (at id) id) ids no_answers s
        (λ id t k. submit_task_keeps (at id) id t (p id) k) h
  serve_keeps (pausing_batch at ids) s p h =
      run_batch_keeps (λ id. pause_task S (at id) id) ids no_answers s
        (λ id t k. pause_task_keeps (at id) id t (p id) k) h
  serve_keeps (canceling_batch at ids) s p h =
      run_batch_keeps (λ id. cancel_task S (at id) id) ids no_answers s
        (λ id t k. cancel_task_keeps (at id) id t (p id) k) h
  serve_keeps (deleting_batch ids) s p h =
      run_batch_keeps _ (unique_ids ids) no_answers _ (λ id t k. k)
        (keeps (deleting_many (unique_ids ids)) s.db (delete_many_P (unique_ids ids)) h)

  serve_all_keeps :
      (rs : List Request) (s : ServiceState S) → All (Meets P) rs → N s.db → N (serve_all S rs s).db
  unfolding serve_all
  serve_all_keeps [] s p h = h
  serve_all_keeps (r ∷ rs) s p h = serve_all_keeps rs (serve S r s) p.1 (serve_keeps r s p.0 h)

-- No requests of clients, batches included, take a task from the worker that runs it under a lease,
-- if the calls that they meet are of other workers and clients, and the claims among those come
-- before the lease expires.
pub serve_all-IsHeld :
    (S : Sql) (id : ℕ) (owner : Text) (expiry : ℕ) (rs : List Request) (s : ServiceState S)
    → All (Meets (Foreign owner expiry)) rs
    → Any (IsHeld id owner expiry) (S.tasks s.db)
    → Any (IsHeld id owner expiry) (S.tasks (serve_all S rs s).db)
serve_all-IsHeld S id owner expiry rs s p h =
    serve_all_keeps S (λ db. Any (IsHeld id owner expiry) (S.tasks db)) (Foreign owner expiry)
      (λ o db f k. apply-IsHeld S id owner expiry o db f k) (λ i at. tt) (λ i at. tt) (λ i at. tt)
      (λ i. tt) (λ is. tt) rs s p h

-- Requests of clients, batches included, keep every task well formed, if the calls that they meet
-- create well-formed tasks.
pub serve_all-IsWellFormed :
    (S : Sql) (rs : List Request) (s : ServiceState S)
    → All (Meets Admissible) rs
    → All IsWellFormed (S.tasks s.db)
    → All IsWellFormed (S.tasks (serve_all S rs s).db)
serve_all-IsWellFormed S rs s p h =
    serve_all_keeps S (λ db. All IsWellFormed (S.tasks db)) Admissible
      (λ o db f k. apply-IsWellFormed S o db f k) (λ i at. tt) (λ i at. tt) (λ i at. tt) (λ i. tt)
      (λ is. tt) rs s p h
