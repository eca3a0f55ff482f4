-- ===== src/Examples/Tasks.antt =====
-- The theorems of TaskRepository on a table with a waiting and a running task.
use rclone_sync_hub_go_backe.Prelude.{
  ◌⊎◌, codes, text_eq, text_eq_iff, [], ◌∷◌, List, ◌≡◌, ◌≢◌, true, refl, All, Any, inl, inr, some,
  arith,
}
use rclone_sync_hub_go_backe.Database.Statement.{ok}
use rclone_sync_hub_go_backe.Database.Transaction.{Final}
use rclone_sync_hub_go_backe.Database.InMemory.{Memory, in_memory}
use rclone_sync_hub_go_backe.TaskRepository.{Claimed, claim_next, finish_success, fail_or_retry}
use rclone_sync_hub_go_backe.TaskRepository.Operation.{
  Operation, claiming, succeeding, releasing, requesting_cancel, resetting, deleting, creating,
  apply, run,
}
use rclone_sync_hub_go_backe.TaskRepository.RowStep.{Evolves}
use rclone_sync_hub_go_backe.TaskRepository.Transitions.{apply-Evolves}
use rclone_sync_hub_go_backe.TaskRepository.WellFormed.{IsWellFormed, run-IsWellFormed}
use rclone_sync_hub_go_backe.TaskRepository.Exclusive.{IsHeld, run-IsHeld}
use rclone_sync_hub_go_backe.TaskRepository.Claims.{
  IsClaim, NoClaim, claim_next_lem, claim_next-unswept,
}
use rclone_sync_hub_go_backe.TaskRepository.Finishing.{
  IsSuccess, NoSuccess, finish_success_lem, IsFailure, NoFailure, fail_or_retry_lem,
}
use rclone_sync_hub_go_backe.Examples.{
  first_worker, second_worker, queued, leased_task, file, store,
}

pub is_other : second_worker ≢ first_worker
unfolding text_eq
is_other e = absurd (clash ((text_eq_iff second_worker first_worker).1 e))
  where
    clash : text_eq second_worker first_worker ≡ true → ⊥
    clash h = cc

pub leased_task-IsHeld : IsHeld 2 first_worker 200 leased_task
leased_task-IsHeld = record { same_id = refl; is_running = refl; is_owned = refl; expires = refl }

pub queued-IsWellFormed : IsWellFormed queued
queued-IsWellFormed = ground arith

pub leased_task-IsWellFormed : IsWellFormed leased_task
leased_task-IsWellFormed = ground arith

-- Calls of the second worker and of clients, while the first worker's lease is good.
abbrev calls : List Operation
calls =
    claiming 150 second_worker 90 3
    ∷ requesting_cancel 2 160
    ∷ succeeding 2 second_worker 7 (codes "v1") (codes "box") (codes "up/a.txt") 170 20
    ∷ resetting 2 180
    ∷ deleting 2
    ∷ releasing 190 2 second_worker
    ∷ []

run-IsHeld_example : Any (IsHeld 2 first_worker 200) (in_memory.tasks (run in_memory calls store))
run-IsHeld_example =
    run-IsHeld in_memory 2 first_worker 200 calls store
      (omega arith, (tt, (is_other, (tt, (tt, (is_other, tt)))))) (inr (inl leased_task-IsHeld))

run-IsWellFormed_example :
    All IsWellFormed (in_memory.tasks (run in_memory (creating (queued ∷ []) 500 ∷ calls) store))
run-IsWellFormed_example =
    run-IsWellFormed in_memory (creating (queued ∷ []) 500 ∷ calls) store
      ((queued-IsWellFormed, tt), (tt, (tt, (tt, (tt, (tt, (tt, tt)))))))
      (queued-IsWellFormed, (leased_task-IsWellFormed, tt))

apply-Evolves_example :
    Evolves
      (claiming 150 second_worker 90 3)
      (queued ∷ leased_task ∷ [])
      (in_memory.tasks (apply in_memory (claiming 150 second_worker 90 3) store))
apply-Evolves_example = apply-Evolves in_memory store (claiming 150 second_worker 90 3)

claim_next_example :
    ((c : Claimed) × ((claim_next in_memory 150 second_worker 90 3 store).0 ≡ ok (some c))
      × IsClaim in_memory 150 second_worker 90 3 store c.0
          (claim_next in_memory 150 second_worker 90 3 store).1)
    ⊎ (((claim_next in_memory 150 second_worker 90 3 store).1 ≡ store)
        × NoClaim in_memory 150 second_worker 90 3 store
            (claim_next in_memory 150 second_worker 90 3 store).0)
claim_next_example = claim_next_lem in_memory 150 second_worker 90 3 store

finish_success_example :
    Final
      (IsSuccess in_memory store 2 first_worker 7
        (codes "v1")
        (codes "box")
        (codes "up/a.txt")
        170
        70)
      (NoSuccess in_memory store 2 first_worker 7
        (codes "v1")
        (codes "box")
        (codes "up/a.txt")
        170
        70)
      store
      (finish_success in_memory 2 first_worker 7
        (codes "v1")
        (codes "box")
        (codes "up/a.txt")
        170
        70
        store)
finish_success_example =
    finish_success_lem in_memory store 2 first_worker 7 (codes "v1") (codes "box")
      (codes "up/a.txt") 170 70

fail_or_retry_example :
    Final
      (IsFailure in_memory store 170 2 first_worker (codes "no") 300 3)
      (NoFailure in_memory store 170 2 first_worker (codes "no") 300 3)
      store
      (fail_or_retry in_memory 170 2 first_worker (codes "no") 300 3 store)
fail_or_retry_example = fail_or_retry_lem in_memory store 170 2 first_worker (codes "no") 300 3

-- An expired lease after the last attempt, and nothing to claim.
abbrev exhausted_only : Memory
exhausted_only = record {
  rows = leased_task ∷ [];
  records = file ∷ [];
  watched = [];
  configured = [];
  routed = [];
  indexed = [];
  ran = [];
  keyed = refl;
}

claim_next-unswept_example :
    (claim_next in_memory 250 second_worker 90 1 exhausted_only).1 ≡ exhausted_only
claim_next-unswept_example = claim_next-unswept in_memory 250 second_worker 90 1 exhausted_only refl
