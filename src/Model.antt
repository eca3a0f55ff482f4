-- ===== src/Model.antt =====
-- internal/model/task.go and internal/model/file_record.go: the rows of the tables `upload_tasks` and
-- `file_records`. Times are nanoseconds; a `*time.Time` is an option. The columns `log`,
-- `created_at` and `updated_at`, which no operation here reads, are left out.
pub mod Folders
use rclone_sync_hub_go_backe.Prelude.{ℕ, Text, Bool, true, ◌==◌, ◌≡◌, ◌↔◌, Option, arith}

-- The six strings `TaskStatus…` of the column `status`.
pub data Status : Type 0 where
  pending running success failed paused canceled : Status

abbrev pub rank : Status → ℕ
rank pending = 0
rank running = 1
rank success = 2
rank failed = 3
rank paused = 4
rank canceled = 5

-- `status = ?`
abbrev pub is : Status → Status → Bool
is a b = rank a == rank b

pub is_iff : (a b : Status) → (is a b ≡ true) ↔ (a ≡ b)
is_iff a b = (is→eq a b, λ e. rw e (is-refl b))
  where
    is→eq : (x y : Status) → is x y ≡ true → x ≡ y
    is→eq x y h = ground arith

    is-refl : (x : Status) → is x x ≡ true
    is-refl x = ground arith

pub record UploadTask : Type 0 where
  pub id : ℕ
  pub file_record_id : ℕ
  pub watch_folder_id : ℕ
  pub watch_folder_name : Text
  pub file_name : Text
  pub local_path : Text
  pub remote_name : Text
  pub remote_path : Text
  pub status : Status
  pub progress : ℕ  -- decimal(5,2): hundredths of a percent
  pub speed : ℕ
  pub retry_count : ℕ
  pub priority : ℕ
  pub error_msg : Text
  pub duration_seconds : ℕ
  pub started_at : Option ℕ
  pub finished_at : Option ℕ
  pub last_status_at : Option ℕ
  pub last_progress_at : Option ℕ
  pub next_retry_at : Option ℕ
  pub lease_owner : Text
  pub lease_expires_at : Option ℕ
  pub heartbeat_at : Option ℕ
  pub cancel_requested_at : Option ℕ
  pub canceled_at : Option ℕ
  pub file_size : ℕ
  pub file_fingerprint : Text
  pub idempotency_key : Option Text
  pub accumulated_failures : ℕ

pub record FileRecord : Type 0 where
  pub id : ℕ
  pub watch_folder_id : ℕ
  pub local_path : Text
  pub relative_path : Text
  pub remote_name : Text
  pub remote_path : Text
  pub file_size : ℕ
  pub file_mod_time : ℕ
  pub fingerprint : Text
  pub last_seen_at : Option ℕ
  pub missing_at : Option ℕ
  pub uploaded_at : Option ℕ
