-- ===== src/TaskRepository/Answers.antt =====
-- internal/repository: what its operations make of the answer of a statement.
use rclone_sync_hub_go_backe.Prelude.{ℕ, ltb, Bool, Option, none, some}
use rclone_sync_hub_go_backe.Database.Outcome.{Result, ok, err, not_found}

-- A row or `gorm.ErrRecordNotFound`.
abbrev pub required {ℓ} : {A : Type ℓ} → Option A → Result A
required none = err not_found
required (some a) = ok a

-- `res.RowsAffected > 0, res.Error`, and `res.Error` alone.
abbrev pub touched : {D : Type 0} → Result ℕ × D → Result Bool × D
touched (ok n, d) = (ok (ltb 0 n), d)
touched (err e, d) = (err e, d)

abbrev pub error_of : {D : Type 0} → Result ℕ × D → Result (Unit {0}) × D
error_of (ok n, d) = (ok tt, d)
error_of (err e, d) = (err e, d)
