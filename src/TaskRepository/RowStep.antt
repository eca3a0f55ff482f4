-- ===== src/TaskRepository/RowStep.antt =====
-- The state machine of one task: what a call may do to one row of `upload_tasks`.
use rclone_sync_hub_go_backe.Prelude.{
  ℕ, ◌+◌, Text, codes, Bool, true, false, is_none, ◌≡◌, List, [], ◌∷◌, Member,
}
use rclone_sync_hub_go_backe.Model.{UploadTask, success, canceled, running, is}
use rclone_sync_hub_go_backe.Model.Folders.{WatchFolder, RemoteRoute}
use rclone_sync_hub_go_backe.FolderRepository.{Marshaled}
use rclone_sync_hub_go_backe.TaskRepository.{effective_attempts, release_message, in_ids}
use rclone_sync_hub_go_backe.TaskRepository.Rows.{
  queued_cancellation, cancel_queued, abandoned_cancellation, cancel_abandoned, exhausted,
  fail_exhausted, claimable, claim, leased, leased_not_canceling, leased_canceling, renew, report,
  succeed, cancel_leased, after_failure, settle_failure, release, request_cancel_row, resettable,
  reset, pausable, pause, deletable, running_in, stop_running, waiting_in, cancel_waiting, outdated,
}
use rclone_sync_hub_go_backe.TaskRepository.Operation.{
  Operation, claiming, renewing, reporting, succeeding, canceling, failing, releasing,
  requesting_cancel, resetting, pausing, deleting, deleting_many, creating, updating_folder,
  deleting_folder, updating_route, cleaning,
}

-- The folders whose tasks a call ends, and the message with which it does.
pub data Redirects : Operation → ℕ → List ℕ → Text → Type 0 where
  destination_of_folder :
      {now : ℕ} {f : WatchFolder} {steps : Marshaled} {idle : Bool}
      → Redirects
          (updating_folder now f steps idle true)
          now
          (f.id ∷ [])
          (codes "watch folder upload destination changed")
  deletion_of_folder :
      {now id : ℕ} → Redirects (deleting_folder now id) now (id ∷ []) (codes "watch folder deleted")
  destination_of_route :
      {now : ℕ} {r : RemoteRoute} {ids : List ℕ}
      → Redirects (updating_route now r true) now ids (codes "remote route changed")

-- One move of a row, each with the guard under which the call makes it.
pub data RowStep : Operation → UploadTask → UploadTask → Type 0 where
  finalize_queued :
      {now : ℕ} {w : Text} {d m : ℕ} (t : UploadTask)
      → queued_cancellation t ≡ true
      → RowStep (claiming now w d m) t (cancel_queued now t)
  finalize_abandoned :
      {now : ℕ} {w : Text} {d m : ℕ} (t : UploadTask)
      → abandoned_cancellation now t ≡ true
      → RowStep (claiming now w d m) t (cancel_abandoned now t)
  exhaust :
      {now : ℕ} {w : Text} {d m : ℕ} (t : UploadTask)
      → exhausted now (effective_attempts m) t ≡ true
      → is_none t.cancel_requested_at ≡ true
      → RowStep (claiming now w d m) t (fail_exhausted now t)
  take :
      {now : ℕ} {w : Text} {d m : ℕ} (t : UploadTask)
      → claimable now (effective_attempts m) t ≡ true
      → RowStep (claiming now w d m) t (claim now w (now + d) t)
  keep_alive :
      {now id : ℕ} {w : Text} {d : ℕ} (t : UploadTask)
      → leased_not_canceling id w t ≡ true
      → RowStep (renewing now id w d) t (renew now d t)
  advance :
      {id : ℕ} {w : Text} {p s at : ℕ} (t : UploadTask)
      → leased id w t ≡ true
      → RowStep (reporting id w p s at) t (report p s at t)
  complete :
      {id : ℕ} {w : Text} {f : ℕ} {fp rn rp : Text} {at s : ℕ} (t : UploadTask)
      → leased_not_canceling id w t ≡ true
      → RowStep (succeeding id w f fp rn rp at s) t (succeed at s t)
  give_up :
      {id : ℕ} {w : Text} {at : ℕ} {msg : Text} (t : UploadTask)
      → leased id w t ≡ true
      → RowStep (canceling id w at msg) t (cancel_leased at msg t)
  settle :
      {now id : ℕ} {w msg : Text} {at n : ℕ} (t : UploadTask)
      → leased id w t ≡ true
      → RowStep (failing now id w msg at n) t (settle_failure now msg at (after_failure n t) t)
  release_canceled :
      {now id : ℕ} {w : Text} (t : UploadTask)
      → leased_canceling id w t ≡ true
      → RowStep (releasing now id w) t (cancel_leased now release_message t)
  requeue :
      {now id : ℕ} {w : Text} (t : UploadTask)
      → leased_not_canceling id w t ≡ true
      → RowStep (releasing now id w) t (release t)
  ask_cancel :
      {id at : ℕ} (t : UploadTask)
      → t.id ≡ id
      → is t.status success ≡ false
      → is t.status canceled ≡ false
      → RowStep (requesting_cancel id at) t (request_cancel_row at t.status t)
  restart :
      {id at : ℕ} (t : UploadTask)
      → resettable id t ≡ true
      → RowStep (resetting id at) t (reset at t)
  hold :
      {id at : ℕ} (t : UploadTask) → pausable id t ≡ true → RowStep (pausing id at) t (pause at t)
  stop :
      {o : Operation} {now : ℕ} {ids : List ℕ} {msg : Text} (t : UploadTask)
      → Redirects o now ids msg
      → running_in ids t ≡ true
      → RowStep o t (stop_running now t)
  abandon :
      {o : Operation} {now : ℕ} {ids : List ℕ} {msg : Text} (t : UploadTask)
      → Redirects o now ids msg
      → waiting_in ids t ≡ true
      → RowStep o t (cancel_waiting now msg t)

-- Any number of moves of one call.
pub data RowSteps (o : Operation) (t : UploadTask) : UploadTask → Type 0 where
  here : RowSteps o t t
  next : {u v : UploadTask} → RowSteps o t u → RowStep o u v → RowSteps o t v

-- The rows that a call may delete.
pub data Deletes : Operation → UploadTask → Type 0 where
  delete_one : {id : ℕ} (t : UploadTask) → deletable id t ≡ true → Deletes (deleting id) t
  delete_listed :
      {ids : List ℕ} (t : UploadTask)
      → in_ids ids t ≡ true
      → is t.status running ≡ false
      → Deletes (deleting_many ids) t
  clean :
      {cutoff size : ℕ} (t : UploadTask)
      → outdated cutoff t ≡ true
      → Deletes (cleaning cutoff size) t

-- The rows that a call may add.
pub data Adds : Operation → UploadTask → Type 0 where
  add :
      {given : List UploadTask} {size : ℕ} (c : UploadTask) (id : ℕ)
      → Member c given
      → Adds (creating given size) (record c { id = id })

-- What a call makes of the table: each row moves, goes, or is new.
pub data Evolves (o : Operation) : List UploadTask → List UploadTask → Type 0 where
  empty : Evolves o [] []
  row :
      {t u : UploadTask} {ts us : List UploadTask}
      → RowSteps o t u
      → Evolves o ts us
      → Evolves o (t ∷ ts) (u ∷ us)
  gone :
      {t : UploadTask} {ts us : List UploadTask}
      → Deletes o t
      → Evolves o ts us
      → Evolves o (t ∷ ts) us
  new :
      {u : UploadTask} {ts us : List UploadTask}
      → Adds o u
      → Evolves o ts us
      → Evolves o ts (u ∷ us)
