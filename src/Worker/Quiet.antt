-- ===== src/Worker/Quiet.antt =====
-- Effects of a worker with no report of a success among them.
use rclone_sync_hub_go_backe.Prelude.{
  ℕ, Text, [], ◌∷◌, ◌++◌, List, Bool, true, false, ◌≡◌, some_of, ◌||◌, arith, refl,
}
use rclone_sync_hub_go_backe.Model.{UploadTask, Status, success, is}
use rclone_sync_hub_go_backe.Database.Statement.{Result, ok, err}
use rclone_sync_hub_go_backe.Worker.Effects.{Effect, Progress, status_published}
use rclone_sync_hub_go_backe.Worker.Heartbeat.{Verdict, renewed, retry, lost}
use rclone_sync_hub_go_backe.Worker.Finish.{cancel_effects, failure_effects}
use rclone_sync_hub_go_backe.Worker.Upload.{Phase, verdict_on, progress_effects}

-- `onStatus` with the status success.
abbrev pub is_success_report : Effect → Bool
is_success_report (status_published s m) = is s success
is_success_report _ = false

abbrev pub reports_success : List Effect → Bool
reports_success es = some_of is_success_report es

pub reports-append :
    (xs ys : List Effect) → reports_success (xs ++ ys) ≡ (reports_success xs || reports_success ys)
reports-append [] ys = refl
reports-append (x ∷ xs) ys = ground (arith, reports-append xs ys)

pub quiet-append :
    (xs ys : List Effect)
    → reports_success xs ≡ false
    → reports_success ys ≡ false
    → reports_success (xs ++ ys) ≡ false
quiet-append xs ys h k = ground (arith, reports-append xs ys)

pub clash : (es : List Effect) → reports_success es ≡ true → reports_success es ≡ false → ⊥
clash es h k = cc

-- A report after a quiet part is in the rest.
pub last_part :
    (xs ys : List Effect)
    → reports_success xs ≡ false
    → reports_success (xs ++ ys) ≡ true
    → reports_success ys ≡ true
last_part xs ys h k = ground (arith, reports-append xs ys)

pub cancel_quiet : (m : Text) (r : Result Bool) → reports_success (cancel_effects m r) ≡ false
cancel_quiet m (err e) = refl
cancel_quiet m (ok false) = refl
cancel_quiet m (ok true) = refl

pub failure_quiet :
    (t : UploadTask) (now : ℕ) (m : Text) (r : Result Status)
    → ((s : Status) → r ≡ ok s → is s success ≡ false)
    → reports_success (failure_effects t now m r) ≡ false
failure_quiet t now m (err e) h = refl
failure_quiet t now m (ok s) h = ground (arith, h s refl)

pub progress_quiet :
    (p : Progress) (r : Result (Unit {0})) → reports_success (progress_effects p r) ≡ false
progress_quiet p (err e) = refl
progress_quiet p (ok u) = refl

pub verdict_on-effects :
    {D : Type 0} (v : Verdict) (s : Phase D) → (verdict_on s v).effects ≡ s.effects
verdict_on-effects (renewed d) s = refl
verdict_on-effects retry s = refl
verdict_on-effects lost s = refl
