-- ===== src/Worker/Finish.antt =====
-- internal/worker/queue.go: `finishSuccess`, `finishCanceled` and `finishFailure`. Each returns what
-- it does besides its transition, and the database. A transition that fails has no other effect.
use rclone_sync_hub_go_backe.Prelude.{
  ℕ, zero, suc, ◌+◌, ◌/◌, ◌-◌, Text, codes, text_eq, [], ◌∷◌, ◌++◌, List, Bool, true, false, ◌&&◌,
  ltb, leb, length, none, some, if◌then◌else◌, pos_part,
}
use rclone_sync_hub_go_backe.Model.{UploadTask, Status, success, canceled, failed, pending, is}
use rclone_sync_hub_go_backe.Database.Statement.{Sql, Result, ok, err}
use rclone_sync_hub_go_backe.TaskRepository.{
  Claimed, finish_success, finish_canceled, fail_or_retry,
}
use rclone_sync_hub_go_backe.Worker.Config.{Config, second, max_attempts, retry_delay}
use rclone_sync_hub_go_backe.Worker.Effects.{
  Effect, success_logged, cancel_logged, attempt_logged, status_published, success_recorded,
  failure_recorded, woken, retry_counted, observed, ended,
}

abbrev pub take : ℕ → Text → Text
take zero xs = []
take (suc n) [] = []
take (suc n) (x ∷ xs) = x ∷ take n xs

-- `value[:max]` where it is longer.
unfoldable pub truncate : Text → ℕ → Text
truncate value max = if leb (length value) max then value else take max value

-- The fingerprint that the file record must still have; empty means any.
abbrev pub expected_fingerprint : Claimed → Text
expected_fingerprint (t, none) = t.file_fingerprint
expected_fingerprint (t, some f) =
    if text_eq t.file_fingerprint [] then f.fingerprint else t.file_fingerprint

abbrev pub uploaded_size : Claimed → ℕ
uploaded_size (t, none) = t.file_size
uploaded_size (t, some f) = if leb t.file_size 0 then f.file_size else t.file_size

abbrev pub success_effects : Claimed → ℕ → Result (Bool × Bool) → List Effect
success_effects c finished (err e) = []
success_effects c finished (ok (false, marked)) = []
success_effects c finished (ok (true, marked)) =
    success_logged
    ∷ ((if ltb 0 c.0.watch_folder_id
          then success_recorded c.0.watch_folder_id (uploaded_size c) finished ∷ []
          else [])
        ++ (status_published success (codes "upload succeeded") ∷ observed (ended success) ∷ []))

abbrev pub cancel_effects : Text → Result Bool → List Effect
cancel_effects message (err e) = []
cancel_effects message (ok false) = []
cancel_effects message (ok true) =
    cancel_logged message ∷ status_published canceled message ∷ observed (ended canceled) ∷ []

abbrev pub failure_effects : UploadTask → ℕ → Text → Result Status → List Effect
failure_effects t now message (err e) = []
failure_effects t now message (ok s) =
    attempt_logged t.retry_count s message
    ∷ (status_published s message
        ∷ ((if is s failed && ltb 0 t.watch_folder_id
              then failure_recorded t.watch_folder_id now ∷ []
              else [])
            ++ ((if is s pending then retry_counted ∷ woken ∷ [] else [])
                ++ (observed (ended s) ∷ []))))

module _ (S : Sql) (c : Config) (owner : Text) where
  open S use {Db}

  unfoldable pub end_success : Claimed → (started finished : ℕ) → Db → List Effect × Db
  end_success task started finished db =
      let (result, db') =
        finish_success S task.0.id owner task.0.file_record_id (expected_fingerprint task)
          task.0.remote_name task.0.remote_path finished ((finished - started) / second) db in
      (success_effects task finished result, db')

  unfoldable pub end_canceled : ℕ → Text → ℕ → Db → List Effect × Db
  end_canceled id message now db =
      let (result, db') = finish_canceled S id owner now message db in
      (cancel_effects message result, db')

  unfoldable pub end_failure : (ℕ → ℕ) → UploadTask → Text → ℕ → Db → List Effect × Db
  end_failure random t failure now db =
      let message = truncate failure 8192 in
      let (result, db') =
        fail_or_retry S now t.id owner message (now + pos_part (retry_delay random c t.retry_count))
          (max_attempts c) db in
      (failure_effects t now message result, db')
