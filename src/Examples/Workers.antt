-- ===== src/Examples/Workers.antt =====
-- The theorems of Worker on the run of a task of the first worker.
use rclone_sync_hub_go_backe.Prelude.{
  ℕ, ◌+◌, ◌-◌, ◌*◌, ◌^◌, ◌≤◌, ◌<◌, min, codes, text_eq, [], ◌∷◌, List, ◌≡◌, true, false, refl, All,
  Any, inl, inr, some, none, pos, Bool-cases, arith,
}
use rclone_sync_hub_go_backe.Database.Statement.{ok, err, driver}
use rclone_sync_hub_go_backe.Database.Transaction.{transact}
use rclone_sync_hub_go_backe.Database.InMemory.{Memory, in_memory}
use rclone_sync_hub_go_backe.TaskRepository.{
  Claimed, is_cancellation_requested, finish_success, mark_file,
}
use rclone_sync_hub_go_backe.TaskRepository.Operation.{claiming, resetting, run}
use rclone_sync_hub_go_backe.TaskRepository.Exclusive.{IsHeld}
use rclone_sync_hub_go_backe.TaskRepository.WellFormed.{IsWellFormed}
use rclone_sync_hub_go_backe.Worker.Config.{Config, base_delay, retry_delay}
use rclone_sync_hub_go_backe.Worker.Backoff.{base_delay-min, retry_delay_bounds}
use rclone_sync_hub_go_backe.Worker.Heartbeat.{
  Beat, heartbeat, beat, attempt_timeout, renewal_retry_would_exceed_lease,
}
use rclone_sync_hub_go_backe.Worker.Lease.{last_return, heartbeat-deadline}
use rclone_sync_hub_go_backe.Worker.Effects.{Attempt, reported, ticked, others, stat_of}
use rclone_sync_hub_go_backe.Worker.Process.{
  process_claimed, prepare, validate_claimed_task, check_policy, check_version, attempt, upload_of,
  checked_db, finalize, conclude, verify_task_file_fingerprint,
}
use rclone_sync_hub_go_backe.Worker.Upload.{upload}
use rclone_sync_hub_go_backe.Worker.Finish.{end_success}
use rclone_sync_hub_go_backe.Worker.Invariants.{
  process_claimed-IsHeld, process_claimed-IsWellFormed,
}
use rclone_sync_hub_go_backe.Worker.Quiet.{reports_success}
use rclone_sync_hub_go_backe.Worker.Reports.{IsReported, success_report}
use rclone_sync_hub_go_backe.Examples.{first_worker, second_worker, leased_task, file, store}
use rclone_sync_hub_go_backe.Examples.Tasks.{
  is_other, leased_task-IsHeld, queued-IsWellFormed, leased_task-IsWellFormed,
}

abbrev config : Config
config = record {
  max_concurrent = pos 3;
  max_retry = pos 3;
  poll_interval = pos 1000000000;
  lease_duration = pos 90000000000;
  heartbeat_interval = pos 30000000000;
  task_timeout = pos 3600000000000;
  retry_base_delay = pos 30000000000;
  retry_max_delay = pos 1800000000000;
  progress_persist_interval = pos 2000000000;
  instance_id = codes "i";
}

-- The file stays at its version; rclone reports once and the lease is renewed once.
abbrev good_run : Attempt
good_run = record {
  started = 110;
  policy = none;
  fingerprint_of = λ size modified. codes "v1";
  stat_before = λ p. stat_of 5 9;
  events =
      reported (record { percent = 5000; bytes_done = 3; bytes_total = 5; speed = 1; message = [] })
        120
      ∷ others (claiming 130 second_worker 90 3)
      ∷ ticked 140 150
      ∷ [];
  deadline_exceeded = false;
  copy_error = none;
  copy_success = true;
  copy_message = [];
  before_check = [];
  before_finish = resetting 2 160 ∷ [];
  shutting_down = false;
  stat_after = λ p. stat_of 5 9;
  finished = 170;
  random = λ n. 0;
}

abbrev claimed : Claimed
claimed = (leased_task, some file)

-- The same without the writes of other processes, on a table with that task alone.
abbrev quiet_run : Attempt
quiet_run = record good_run { events = []; before_finish = [] }

abbrev one_task : Memory
one_task = record {
  rows = leased_task ∷ [];
  records = file ∷ [];
  watched = [];
  configured = [];
  routed = [];
  indexed = [];
  ran = [];
  keyed = refl;
}

reported_success :
    reports_success (process_claimed in_memory config first_worker quiet_run claimed one_task).0
    ≡ true
unfolding process_claimed prepare validate_claimed_task text_eq check_policy check_version attempt
    upload_of upload checked_db run finalize conclude is_cancellation_requested
    verify_task_file_fingerprint end_success finish_success mark_file transact Bool-cases
reported_success = refl

success_report_example : IsReported in_memory config first_worker quiet_run claimed one_task
success_report_example =
    success_report in_memory config first_worker quiet_run claimed one_task reported_success

process_claimed-IsHeld_example :
    Any
      (IsHeld 2 first_worker 200)
      (in_memory.tasks (process_claimed in_memory config second_worker good_run claimed store).1)
process_claimed-IsHeld_example =
    process_claimed-IsHeld in_memory config second_worker good_run 2 first_worker 200 claimed store
      is_other (tt, (omega arith, (tt, tt))) tt (tt, tt) (inr (inl leased_task-IsHeld))

process_claimed-IsWellFormed_example :
    All IsWellFormed
      (in_memory.tasks (process_claimed in_memory config first_worker good_run claimed store).1)
process_claimed-IsWellFormed_example =
    process_claimed-IsWellFormed in_memory config first_worker good_run claimed store
      (tt, (tt, (tt, tt))) tt (tt, tt) (queued-IsWellFormed, (leased_task-IsWellFormed, tt))

-- A renewal, then a failed one.
abbrev beats : List Beat
beats =
    record { attempt_started = 10; returned = 12; renewal = ok true }
    ∷ record { attempt_started = 20; returned = 22; renewal = err driver }
    ∷ []

heartbeat-deadline_example :
    (e : ℕ) × ((heartbeat 10 40 (some 40) beats).0 ≡ some e)
    × (last_return 0 beats + 10 + attempt_timeout 10 < e)
unfolding heartbeat beat renewal_retry_would_exceed_lease
heartbeat-deadline_example =
    heartbeat-deadline 10 40 beats 0 40 (omega arith)
      (omega arith, omega arith, omega arith, (omega arith, omega arith, omega arith, tt))
      (omega arith) refl

base_delay-min_example : base_delay config 3 ≡ pos (min (30000000000 * 2 ^ (3 - 1)) 1800000000000)
base_delay-min_example = base_delay-min config 30000000000 1800000000000 3 refl refl (omega arith)

retry_delay_bounds_example :
    (delay : ℕ) × (retry_delay (λ n. n - 1) config 3 ≡ pos delay)
    × (min (30000000000 * 2 ^ (3 - 1)) 1800000000000 ≤ delay)
    × (delay * 5 ≤ min (30000000000 * 2 ^ (3 - 1)) 1800000000000 * 6)
retry_delay_bounds_example =
    retry_delay_bounds (λ n. n - 1) config 30000000000 1800000000000 3 below refl refl (omega arith)
  where
    below : (n : ℕ) → 0 < n → n - 1 < n
    below n h = omega arith
