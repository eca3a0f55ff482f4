-- ===== src/Worker/Heartbeat.antt =====
-- internal/worker/queue.go: `heartbeat`, the loop that renews a lease while the upload runs. A beat
-- is one tick of its ticker: when the renewal began, when it had returned, and what it returned.
use rclone_sync_hub_go_backe.Prelude.{
  ℕ, ◌+◌, Bool, true, false, not, ltb, Option, none, some, List, [], ◌∷◌, if◌then◌else◌, min,
}
use rclone_sync_hub_go_backe.Database.Statement.{Result, ok, err}

pub record Beat : Type 0 where
  pub attempt_started : ℕ
  pub returned : ℕ
  pub renewal : Result Bool

-- `leaseDeadline.IsZero()` is `none`.
unfoldable pub renewal_retry_would_exceed_lease : ℕ → Option ℕ → ℕ → ℕ → Bool
renewal_retry_would_exceed_lease now none retry_interval attempt_timeout = true
renewal_retry_would_exceed_lease now (some deadline) retry_interval attempt_timeout =
    not (ltb (now + (retry_interval + attempt_timeout)) deadline)

-- One tick: the new deadline, or the loss of the lease, which cancels the upload.
pub data Verdict : Type 0 where
  renewed : ℕ → Verdict
  retry : Verdict
  lost : Verdict

abbrev pub attempt_timeout : ℕ → ℕ
attempt_timeout interval = min interval 5000000000

module _ (interval lease_duration : ℕ) where
  unfoldable pub beat : Option ℕ → Beat → Verdict
  unfolding renewal_retry_would_exceed_lease
  beat deadline b = elim b.renewal [
    | err e ↦
        if renewal_retry_would_exceed_lease b.returned deadline interval (attempt_timeout interval)
        then lost
        else retry
    | ok active ↦ if active then renewed (b.attempt_started + lease_duration) else lost
  ]

  -- The loop over the beats until the upload ends; the deadline, or none once the lease is lost.
  unfoldable pub heartbeat : Option ℕ → List Beat → Option ℕ × Bool
  heartbeat deadline [] = (deadline, false)
  heartbeat deadline (b ∷ bs) = elim (beat deadline b) [
    | renewed d ↦ heartbeat (some d) bs
    | retry ↦ heartbeat deadline bs
    | lost ↦ (deadline, true)
  ]
