-- ===== src/Examples/Requests.antt =====
-- The theorems of UploadService, and of the deletions and cancellations behind it, on a table with
-- a waiting and a running task.
use rclone_sync_hub_go_backe.Prelude.{
  ℕ, [], ◌∷◌, List, ◌≡◌, ◌≢◌, true, false, refl, All, Any, none, inl, inr, arith, has_id, some_of,
  Bool-cases,
}
use rclone_sync_hub_go_backe.Model.{failed}
use rclone_sync_hub_go_backe.Database.Outcome.{ok}
use rclone_sync_hub_go_backe.Database.Transaction.{Final, transact}
use rclone_sync_hub_go_backe.Database.InMemory.{Memory, in_memory}
use rclone_sync_hub_go_backe.TaskRepository.{
  mark_canceling, deletable_ids, reject_running, all_missing, delete_many, request_cancel,
  reset_for_retry, claim_next,
}
use rclone_sync_hub_go_backe.TaskRepository.Rows.{by_id}
use rclone_sync_hub_go_backe.TaskRepository.Operation.{claiming, releasing, run}
use rclone_sync_hub_go_backe.TaskRepository.Exclusive.{IsHeld}
use rclone_sync_hub_go_backe.TaskRepository.WellFormed.{IsWellFormed}
use rclone_sync_hub_go_backe.TaskRepository.Deleting.{IsDeletion, NoDeletion, delete_many_lem}
use rclone_sync_hub_go_backe.TaskRepository.Retrying.{
  IsCanceling, NotCanceling, request_cancel_lem, reset_for_retry-claim_next,
}
use rclone_sync_hub_go_backe.Worker.Signals.{submit, cancel}
use rclone_sync_hub_go_backe.UploadService.{
  unique_after, get_task, cancel_read, cancel_found, after_request, Moment, ServiceState, accepted,
  no_answers, run_batch, submit_task, cancel_task, batch_delete_tasks,
}
use rclone_sync_hub_go_backe.UploadService.Requests.{
  Request, submitting_task, canceling_task, deleting_batch, pausing_batch, serve_all,
  serve_all-IsHeld, serve_all-IsWellFormed,
}
use rclone_sync_hub_go_backe.UploadService.Batches.{
  replies, accepted_ids, last_refusal, state_after, run_batch_lem,
}
use rclone_sync_hub_go_backe.UploadService.Outcomes.{
  Ending, cancel_task-Ending, batch_delete_tasks-gone,
}
use rclone_sync_hub_go_backe.Examples.{second_worker, first_worker, queued, store}
use rclone_sync_hub_go_backe.Examples.Tasks.{
  is_other, leased_task-IsHeld, queued-IsWellFormed, leased_task-IsWellFormed,
}

abbrev service : ServiceState in_memory
service = record {
  db = store;
  signals = record { woken = 0; capacity = 3; active = 2 ∷ []; stopped = [] };
}

-- Between a request's read and its write another worker claims and releases.
abbrev moment : Moment
moment = record {
  now = 160;
  done = false;
  meanwhile = claiming 150 second_worker 90 3 ∷ releasing 155 2 second_worker ∷ [];
}

abbrev requests : List Request
requests =
    submitting_task moment 1
    ∷ canceling_task moment 2
    ∷ pausing_batch (λ id. moment) (1 ∷ 2 ∷ [])
    ∷ deleting_batch (1 ∷ 2 ∷ 1 ∷ [])
    ∷ []

serve_all-IsHeld_example :
    Any (IsHeld 2 first_worker 200) (in_memory.tasks (serve_all in_memory requests service).db)
serve_all-IsHeld_example =
    serve_all-IsHeld in_memory 2 first_worker 200 requests service
      (
        (omega arith, (is_other, tt)),
        ((omega arith, (is_other, tt)), ((λ id. (omega arith, (is_other, tt))), (tt, tt))),
      )
      (inr (inl leased_task-IsHeld))

serve_all-IsWellFormed_example :
    All IsWellFormed (in_memory.tasks (serve_all in_memory requests service).db)
serve_all-IsWellFormed_example =
    serve_all-IsWellFormed in_memory requests service
      ((tt, (tt, tt)), ((tt, (tt, tt)), ((λ id. (tt, (tt, tt))), (tt, tt))))
      (queued-IsWellFormed, (leased_task-IsWellFormed, tt))

run_batch_example :
    (run_batch (submit_task in_memory moment) (1 ∷ 2 ∷ 3 ∷ 2 ∷ []) no_answers service).0.ok_ids
      ≡ accepted_ids (replies (submit_task in_memory moment) (1 ∷ 2 ∷ 3 ∷ 2 ∷ []) service)
    × ((j : ℕ)
        → (run_batch
              (submit_task in_memory moment)
              (1 ∷ 2 ∷ 3 ∷ 2 ∷ [])
              no_answers
              service).0.failures
            j
          ≡ last_refusal j (replies (submit_task in_memory moment) (1 ∷ 2 ∷ 3 ∷ 2 ∷ []) service))
    × ((run_batch (submit_task in_memory moment) (1 ∷ 2 ∷ 3 ∷ 2 ∷ []) no_answers service).1
        ≡ state_after (submit_task in_memory moment) (1 ∷ 2 ∷ 3 ∷ 2 ∷ []) service)
run_batch_example = run_batch_lem (submit_task in_memory moment) (1 ∷ 2 ∷ 3 ∷ 2 ∷ []) service

abbrev calm : Moment
calm = record { now = 160; done = false; meanwhile = [] }

cancel_task-accepted : (cancel_task in_memory calm 2 service).0 ≡ accepted tt
unfolding cancel_task get_task cancel_read cancel_found after_request request_cancel mark_canceling
    cancel submit run transact Bool-cases
cancel_task-accepted = refl

cancel_task-Ending_example :
    All (Ending 2) (in_memory.tasks (cancel_task in_memory calm 2 service).1.db)
cancel_task-Ending_example = cancel_task-Ending in_memory calm 2 service cancel_task-accepted

batch_delete_accepted :
    has_id 1 (batch_delete_tasks in_memory (1 ∷ 2 ∷ 1 ∷ []) service).0.ok_ids ≡ true
unfolding batch_delete_tasks run_batch unique_after delete_many transact deletable_ids Bool-cases
    reject_running all_missing
batch_delete_accepted = refl

batch_delete_tasks-gone_example :
    (has_id 1 (1 ∷ 2 ∷ 1 ∷ []) ≡ true)
    × (some_of (by_id 1) (in_memory.tasks store) ≡ true)
    × (some_of
          (by_id 1)
          (in_memory.tasks (batch_delete_tasks in_memory (1 ∷ 2 ∷ 1 ∷ []) service).1.db)
        ≡ false)
batch_delete_tasks-gone_example =
    batch_delete_tasks-gone in_memory (1 ∷ 2 ∷ 1 ∷ []) service 1 batch_delete_accepted

delete_many_example :
    Final
      (IsDeletion in_memory store (1 ∷ 2 ∷ []))
      NoDeletion
      store
      (delete_many in_memory (1 ∷ 2 ∷ []) store)
delete_many_example = delete_many_lem in_memory store 1 (2 ∷ [])

request_cancel_example :
    Final
      (IsCanceling in_memory store 2 160)
      (NotCanceling in_memory store 2 160)
      store
      (request_cancel in_memory 2 160 store)
request_cancel_example = request_cancel_lem in_memory store 2 160

abbrev failed_store : Memory
failed_store = record store { rows = record queued { status = failed; retry_count = 3 } ∷ [] }

reset_accepted : (reset_for_retry in_memory 1 160 failed_store).0 ≡ ok true
unfolding reset_for_retry Bool-cases
reset_accepted = refl

reset_for_retry-claim_next_example :
    (claim_next in_memory 170 second_worker 90 3 (reset_for_retry in_memory 1 160 failed_store).1).0
    ≢ ok none
reset_for_retry-claim_next_example =
    reset_for_retry-claim_next in_memory failed_store 1 160 170 second_worker 90 3 reset_accepted
      (λ d u. refl)
