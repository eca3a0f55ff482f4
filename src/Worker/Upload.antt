-- ===== src/Worker/Upload.antt =====
-- internal/worker/queue.go: the upload phase of `processClaimed`. The progress callback and the
-- heartbeat run while rclone copies, in any order, with the writes of other processes between.
use rclone_sync_hub_go_backe.Prelude.{
  ℕ, ◌-◌, Text, [], ◌∷◌, ◌++◌, List, Bool, true, ◌&&◌, ◌||◌, ltb, leb, Option, none, some,
  if◌then◌else◌, pos_part,
}
use rclone_sync_hub_go_backe.Database.Statement.{Sql, Result, ok, err}
use rclone_sync_hub_go_backe.TaskRepository.{update_progress, renew_lease}
use rclone_sync_hub_go_backe.TaskRepository.Operation.{apply}
use rclone_sync_hub_go_backe.Worker.Config.{Config}
use rclone_sync_hub_go_backe.Worker.Heartbeat.{Verdict, renewed, retry, lost, beat}
use rclone_sync_hub_go_backe.Worker.Finish.{truncate}
use rclone_sync_hub_go_backe.Worker.Effects.{
  Progress, Event, reported, ticked, others, Effect, progress_logged, progress_published,
}

pub record Phase (D : Type 0) : Type 0 where
  pub db : D
  pub last_progress_at : Option ℕ
  pub lease_deadline : Option ℕ
  pub lease_lost : Bool
  pub effects : List Effect

abbrev pub has_progress : Progress → Bool
has_progress p = ltb 0 p.percent || ltb 0 p.bytes_done || ltb 0 p.bytes_total || ltb 0 p.speed

-- The zero time lies far more than an interval back.
abbrev pub due : Option ℕ → ℕ → ℕ → Bool
due none now interval = true
due (some last) now interval = leb interval (now - last)

abbrev pub progress_effects : Progress → Result (Unit {0}) → List Effect
progress_effects p (err e) = []
progress_effects p (ok u) =
    progress_logged (record p { message = truncate p.message 2048 }) ∷ progress_published p ∷ []

abbrev pub verdict_on : {D : Type 0} → Phase D → Verdict → Phase D
verdict_on s (renewed d) = record s { lease_deadline = some d }
verdict_on s retry = s
verdict_on s lost = record s { lease_lost = true }

module _ (S : Sql) (c : Config) (owner : Text) (id : ℕ) where
  open S use {Db}

  -- The callback that `Copy` is given.
  unfoldable pub on_progress : Progress → ℕ → Phase Db → Phase Db
  on_progress p now s =
      if has_progress p && due s.last_progress_at now (pos_part c.progress_persist_interval)
      then (let (result, db') = update_progress S id owner p.percent p.speed now s.db in
          record s {
            db = db';
            last_progress_at = some now;
            effects = s.effects ++ progress_effects p result;
          })
      else s

  -- A tick of the heartbeat, which has returned once the lease is lost.
  unfoldable pub on_tick : ℕ → ℕ → Phase Db → Phase Db
  on_tick attempt_started returned s =
      if s.lease_lost
      then s
      else (let (result, db') =
            renew_lease S attempt_started id owner (pos_part c.lease_duration) s.db in
          verdict_on (record s { db = db' })
            (beat (pos_part c.heartbeat_interval) (pos_part c.lease_duration) s.lease_deadline
              (record {
                attempt_started = attempt_started;
                returned = returned;
                renewal = result;
              })))

  unfoldable pub on_event : Event → Phase Db → Phase Db
  on_event (reported p now) s = on_progress p now s
  on_event (ticked started returned) s = on_tick started returned s
  on_event (others o) s = record s { db = apply S o s.db }

  unfoldable pub upload : List Event → Phase Db → Phase Db
  upload [] s = s
  upload (e ∷ es) s = upload es (on_event e s)
