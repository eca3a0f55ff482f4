-- ===== src/TaskRepository/Rows.antt =====
-- internal/repository/task_repository.go: the conditions and the assignments of its statements, as
-- functions of one row. `NULL <= ?` is not true in SQL, so a test of a nullable time names the null.
use rclone_sync_hub_go_backe.Prelude.{
  ℕ, ◌+◌, ◌-◌, Text, codes, text_eq, Bool, true, false, not, ◌&&◌, ◌||◌, ◌==◌, ltb, leb, Option,
  none, some, is_some, is_none, if◌then◌else◌, List, [], ◌∷◌,
}
use rclone_sync_hub_go_backe.Model.{
  UploadTask, Status, pending, running, success, failed, paused, canceled, is,
}

-- `x IS NULL OR x <= now`
abbrev pub null_or_past : Option ℕ → ℕ → Bool
null_or_past none now = true
null_or_past (some at) now = leb at now

-- ClaimNext, the first update: a queued task with a pending cancellation.
abbrev pub queued_cancellation : UploadTask → Bool
queued_cancellation t =
    (is t.status pending || is t.status paused || is t.status failed)
    && is_some t.cancel_requested_at

abbrev pub cancel_queued : ℕ → UploadTask → UploadTask
cancel_queued now t = record t {
  status = canceled;
  error_msg = codes "task cancellation finalized before claim";
  finished_at = some now;
  canceled_at = some now;
  last_status_at = some now;
  next_retry_at = none;
  cancel_requested_at = none;
}

-- ClaimNext, the second update: a running task with a cancellation, whose lease is inactive.
abbrev pub abandoned_cancellation : ℕ → UploadTask → Bool
abandoned_cancellation now t =
    is t.status running && is_some t.cancel_requested_at && null_or_past t.lease_expires_at now

abbrev pub cancel_abandoned : ℕ → UploadTask → UploadTask
cancel_abandoned now t = record t {
  status = canceled;
  error_msg = codes "task canceled while worker lease was inactive";
  finished_at = some now;
  canceled_at = some now;
  last_status_at = some now;
  lease_owner = codes "";
  lease_expires_at = none;
  heartbeat_at = none;
  cancel_requested_at = none;
}

-- ClaimNext, the third update: an inactive lease after the last attempt.
abbrev pub exhausted : ℕ → ℕ → UploadTask → Bool
exhausted now max_attempts t =
    is t.status running && null_or_past t.lease_expires_at now && leb max_attempts t.retry_count

abbrev pub fail_exhausted : ℕ → UploadTask → UploadTask
fail_exhausted now t = record t {
  status = failed;
  error_msg = codes "worker lease expired after maximum attempts";
  finished_at = some now;
  last_status_at = some now;
  lease_owner = codes "";
  lease_expires_at = none;
  heartbeat_at = none;
}

-- ClaimNext, the locking select and its order.
abbrev pub claimable : ℕ → ℕ → UploadTask → Bool
claimable now max_attempts t =
    is_none t.cancel_requested_at
    && ltb t.retry_count max_attempts
    && (is t.status pending && null_or_past t.next_retry_at now
        || is t.status running && null_or_past t.lease_expires_at now)

abbrev pub claim_order : UploadTask → UploadTask → Bool
claim_order t u = ltb u.priority t.priority || (t.priority == u.priority && ltb t.id u.id)

-- ClaimNext, the last update.
abbrev pub claim : ℕ → Text → ℕ → UploadTask → UploadTask
claim now owner lease_expires_at t = record t {
  status = running;
  started_at = some now;
  finished_at = none;
  last_status_at = some now;
  next_retry_at = none;
  lease_owner = owner;
  lease_expires_at = some lease_expires_at;
  heartbeat_at = some now;
  retry_count = t.retry_count + 1;
}

abbrev pub by_id : ℕ → UploadTask → Bool
by_id id t = t.id == id

-- `id = ? AND status = 'running' AND lease_owner = ?`
abbrev pub leased : ℕ → Text → UploadTask → Bool
leased id owner t = t.id == id && is t.status running && text_eq t.lease_owner owner

abbrev pub leased_not_canceling : ℕ → Text → UploadTask → Bool
leased_not_canceling id owner t = leased id owner t && is_none t.cancel_requested_at

abbrev pub leased_canceling : ℕ → Text → UploadTask → Bool
leased_canceling id owner t = leased id owner t && is_some t.cancel_requested_at

abbrev pub renew : ℕ → ℕ → UploadTask → UploadTask
renew now lease_duration t = record t {
  lease_expires_at = some (now + lease_duration);
  heartbeat_at = some now;
}

abbrev pub report : ℕ → ℕ → ℕ → UploadTask → UploadTask
report percent speed at t = record t {
  progress = percent;
  speed = speed;
  last_progress_at = some at;
}

abbrev pub succeed : ℕ → ℕ → UploadTask → UploadTask
succeed finished_at duration_seconds t = record t {
  status = success;
  progress = 10000;
  speed = 0;
  error_msg = codes "";
  finished_at = some finished_at;
  last_status_at = some finished_at;
  duration_seconds = duration_seconds;
  lease_owner = codes "";
  lease_expires_at = none;
  heartbeat_at = none;
  cancel_requested_at = none;
  next_retry_at = none;
}

abbrev pub cancel_leased : ℕ → Text → UploadTask → UploadTask
cancel_leased finished_at message t = record t {
  status = canceled;
  error_msg = message;
  finished_at = some finished_at;
  canceled_at = some finished_at;
  last_status_at = some finished_at;
  lease_owner = codes "";
  lease_expires_at = none;
  heartbeat_at = none;
  cancel_requested_at = none;
  next_retry_at = none;
}

-- FailOrRetry: the status that the locked row gets.
abbrev pub after_failure : ℕ → UploadTask → Status
after_failure max_attempts t =
    if is_some t.cancel_requested_at
    then canceled
    else if ltb t.retry_count max_attempts
    then pending
    else failed

-- FailOrRetry: the assignments, with the two more of a canceled task.
abbrev pub settle_failure : ℕ → Text → ℕ → Status → UploadTask → UploadTask
settle_failure now message next_retry_at status t = record t {
  status = status;
  error_msg = message;
  finished_at = if is status pending then none else some now;
  last_status_at = some now;
  next_retry_at = if is status pending then some next_retry_at else none;
  lease_owner = codes "";
  lease_expires_at = none;
  heartbeat_at = none;
  accumulated_failures = t.accumulated_failures + 1;
  canceled_at = if is status canceled then some now else t.canceled_at;
  cancel_requested_at = if is status canceled then none else t.cancel_requested_at;
}

-- ReleaseLease: a canceled task ends, any other is queued again without the attempt.
abbrev pub release : UploadTask → UploadTask
release t = record t {
  status = pending;
  lease_owner = codes "";
  lease_expires_at = none;
  heartbeat_at = none;
  next_retry_at = none;
  retry_count = if ltb 0 t.retry_count then t.retry_count - 1 else 0;
}

-- RequestCancel: a running task gets the flag, any other that is not at its end is canceled.
abbrev pub request_cancel_row : ℕ → Status → UploadTask → UploadTask
request_cancel_row at running t = record t {
  cancel_requested_at = some at;
  last_status_at = some at;
}
request_cancel_row at _ t = record t {
  cancel_requested_at = none;
  last_status_at = some at;
  status = canceled;
  canceled_at = some at;
  finished_at = some at;
  next_retry_at = none;
}

abbrev pub resettable : ℕ → UploadTask → Bool
resettable id t = t.id == id && (is t.status failed || is t.status canceled || is t.status paused)

abbrev pub reset : ℕ → UploadTask → UploadTask
reset at t = record t {
  status = pending;
  progress = 0;
  speed = 0;
  retry_count = 0;
  error_msg = codes "";
  started_at = none;
  finished_at = none;
  canceled_at = none;
  cancel_requested_at = none;
  lease_owner = codes "";
  lease_expires_at = none;
  heartbeat_at = none;
  next_retry_at = none;
  last_status_at = some at;
}

abbrev pub pausable : ℕ → UploadTask → Bool
pausable id t = t.id == id && not (is t.status running || is t.status success)

abbrev pub pause : ℕ → UploadTask → UploadTask
pause at t = record t { status = paused; last_status_at = some at; next_retry_at = none }

-- Delete: the condition of the conditional DELETE.
abbrev pub deletable : ℕ → UploadTask → Bool
deletable id t = t.id == id && not (is t.status running)

-- A folder or a route is changed or deleted: `watch_folder_id IN ?`, the tasks of the folders that
-- run and those that wait, and what becomes of them.
abbrev pub in_folders : List ℕ → UploadTask → Bool
in_folders [] t = false
in_folders (id ∷ ids) t = t.watch_folder_id == id || in_folders ids t

-- ListOpenByWatchFolder
abbrev pub open_in : ℕ → UploadTask → Bool
open_in id t =
    t.watch_folder_id == id
    && (is t.status pending || is t.status running || is t.status failed || is t.status paused)

abbrev pub running_in : List ℕ → UploadTask → Bool
running_in ids t = in_folders ids t && is t.status running

abbrev pub waiting_in : List ℕ → UploadTask → Bool
waiting_in ids t =
    in_folders ids t && (is t.status pending || is t.status paused || is t.status failed)

abbrev pub stop_running : ℕ → UploadTask → UploadTask
stop_running now t = record t { cancel_requested_at = some now; last_status_at = some now }

abbrev pub cancel_waiting : ℕ → Text → UploadTask → UploadTask
cancel_waiting now message t = record t {
  status = canceled;
  error_msg = message;
  finished_at = some now;
  canceled_at = some now;
  last_status_at = some now;
  next_retry_at = none;
  cancel_requested_at = none;
}

-- `x IS NOT NULL AND x < ?`
abbrev pub before : Option ℕ → ℕ → Bool
before none cutoff = false
before (some at) cutoff = ltb at cutoff

-- Maintenance: a task at its end since before the cutoff.
abbrev pub outdated : ℕ → UploadTask → Bool
outdated cutoff t =
    (is t.status success || is t.status failed || is t.status canceled)
    && before t.finished_at cutoff
