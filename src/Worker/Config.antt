-- ===== src/Worker/Config.antt =====
-- internal/worker/queue.go: `Config`, its normalisation by `NewQueue`, and the delay of a retry.
-- A `time.Duration` is a signed 64-bit number of nanoseconds.
use rclone_sync_hub_go_backe.Prelude.{
  ℕ, zero, suc, ◌+◌, ◌-◌, ◌*◌, ◌/◌, Text, text_eq, [], ◌||◌, ltb, if◌then◌else◌, ℤ, pos, negsuc,
  leb_ℤ, ltb_ℤ, double, quotient, i64, pos_part,
}

pub record Config : Type 0 where
  pub max_concurrent : ℤ
  pub max_retry : ℤ
  pub poll_interval : ℤ
  pub lease_duration : ℤ
  pub heartbeat_interval : ℤ
  pub task_timeout : ℤ
  pub retry_base_delay : ℤ
  pub retry_max_delay : ℤ
  pub progress_persist_interval : ℤ
  pub instance_id : Text

abbrev pub second : ℕ
second = 1000000000

abbrev pub positive_or : ℕ → ℤ → ℤ
positive_or default d = if leb_ℤ d (pos 0) then pos default else d

abbrev pub heartbeat_or : ℤ → ℤ → ℤ
heartbeat_or lease d = if leb_ℤ d (pos 0) || leb_ℤ lease (double d) then quotient lease 3 else d

-- The defaults of NewQueue; `generated` is the instance id that it makes up.
unfoldable pub new_queue : Text → Config → Config
new_queue generated c =
    let lease = positive_or (90 * second) c.lease_duration in
    let base = positive_or (30 * second) c.retry_base_delay in
    record {
      max_concurrent = positive_or 3 c.max_concurrent;
      max_retry = if ltb_ℤ c.max_retry (pos 0) then pos 0 else c.max_retry;
      poll_interval = positive_or second c.poll_interval;
      lease_duration = lease;
      heartbeat_interval = heartbeat_or lease c.heartbeat_interval;
      task_timeout = positive_or (4 * 3600 * second) c.task_timeout;
      retry_base_delay = base;
      retry_max_delay =
          if ltb_ℤ c.retry_max_delay base then pos (1800 * second) else c.retry_max_delay;
      progress_persist_interval = positive_or (2 * second) c.progress_persist_interval;
      instance_id = if text_eq c.instance_id [] then generated else c.instance_id;
    }

-- `maxAttempts: cfg.MaxRetry + 1`
unfoldable pub max_attempts : Config → ℕ
max_attempts c = pos_part c.max_retry + 1

-- The loop of retryDelay, with the rounds that are left.
unfoldable pub backoff : ℤ → ℕ → ℤ → ℤ
backoff max zero delay = delay
backoff max (suc rounds) delay =
    let rest = backoff max rounds (double delay) in
    if ltb_ℤ delay max then (if ltb_ℤ (quotient max 2) delay then max else rest) else delay

-- The delay before the jitter; `attempt < 1` counts as 1.
unfoldable pub base_delay : Config → ℕ → ℤ
unfolding backoff
base_delay c attempt =
    let delay = backoff c.retry_max_delay (attempt - 1) c.retry_base_delay in
    if ltb_ℤ c.retry_max_delay delay then c.retry_max_delay else delay

-- `jitter` is what `rand.Int63n(jitterLimit + 1)` returns, for a limit above 0.
unfoldable pub add_jitter : (ℕ → ℕ) → ℤ → ℤ
add_jitter random (pos delay) =
    if ltb 0 (delay / 5) then i64 (pos (delay + random (delay / 5 + 1))) else pos delay
add_jitter random (negsuc n) = negsuc n

unfoldable pub retry_delay : (ℕ → ℕ) → Config → ℕ → ℤ
retry_delay random c attempt = add_jitter random (base_delay c attempt)
