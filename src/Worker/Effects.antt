-- ===== src/Worker/Effects.antt =====
-- internal/worker/queue.go: what a worker does besides its writes to `upload_tasks`, and what it
-- learns from outside while it runs one task.
use rclone_sync_hub_go_backe.Prelude.{ℕ, Text, Bool, Option, List}
use rclone_sync_hub_go_backe.Model.{Status}
use rclone_sync_hub_go_backe.TaskRepository.Operation.{Operation}

-- rclone.Progress; a percentage counts hundredths.
pub record Progress : Type 0 where
  pub percent : ℕ
  pub bytes_done : ℕ
  pub bytes_total : ℕ
  pub speed : ℕ
  pub message : Text

-- The labels of ObserveWorkerResult.
pub data Outcome : Type 0 where
  ended : Status → Outcome
  released lease_lost : Outcome

-- Rows of the upload log, callbacks, folder statistics, the wake-up and the metrics.
pub data Effect : Type 0 where
  progress_logged : Progress → Effect
  success_logged : Effect
  cancel_logged : Text → Effect
  attempt_logged : (attempt : ℕ) → Status → Text → Effect
  progress_published : Progress → Effect
  status_published : Status → Text → Effect
  success_recorded : (watch_folder_id file_size at : ℕ) → Effect
  failure_recorded : (watch_folder_id at : ℕ) → Effect
  woken : Effect
  retry_counted : Effect
  observed : Outcome → Effect

-- `os.Stat`: an error, or the size and the modification time.
pub data Stat : Type 0 where
  stat_failed : Text → Stat
  stat_of : (size modified : ℕ) → Stat

-- The two checks of a ResourcePolicy: a refusal, or the path to use.
pub data Checked : Type 0 where
  refused : Text → Checked
  allowed : Text → Checked

pub record Policy : Type 0 where
  pub validate_local_file : Text → Checked
  pub validate_remote : Text → Text → Checked

-- While an upload runs, rclone reports, the heartbeat ticks, and other processes write.
pub data Event : Type 0 where
  reported : Progress → (now : ℕ) → Event
  ticked : (attempt_started returned : ℕ) → Event
  others : Operation → Event

-- What one run of processClaimed meets. `fingerprint_of` is the SHA-256 of a size and a time, in
-- hexadecimal.
pub record Attempt : Type 0 where
  pub started : ℕ
  pub policy : Option Policy
  pub fingerprint_of : ℕ → ℕ → Text
  pub stat_before : Text → Stat
  pub events : List Event
  pub deadline_exceeded : Bool
  pub copy_error : Option Text
  pub copy_success : Bool
  pub copy_message : Text
  pub before_check : List Operation
  pub before_finish : List Operation
  pub shutting_down : Bool
  pub stat_after : Text → Stat
  pub finished : ℕ
  pub random : ℕ → ℕ
