-- ===== src/Worker/Signals.antt =====
-- internal/worker/queue.go: what Submit and Cancel leave for the goroutines of the queue.
use rclone_sync_hub_go_backe.Prelude.{
  ℕ, ◌+◌, ltb, Bool, true, false, has_id, List, ◌∷◌, if◌then◌else◌,
}

-- The signals that wait in the channel `wake` and its capacity, which is MaxConcurrent; `active` are the
-- tasks that run in this process, of which `stopped` have a canceled context.
pub record Signals : Type 0 where
  pub woken : ℕ
  pub capacity : ℕ
  pub active : List ℕ
  pub stopped : List ℕ

-- Submit: false is the error of a context that is done.
unfoldable pub submit : (done : Bool) → Signals → Bool × Signals
submit true q = (false, q)
submit false q =
    (true, record q { woken = if ltb q.woken q.capacity then q.woken + 1 else q.woken })

-- Cancel
unfoldable pub cancel : (done : Bool) → ℕ → Signals → Bool × Signals
cancel true id q = (false, q)
cancel false id q =
    submit false (if has_id id q.active then record q { stopped = id ∷ q.stopped } else q)
