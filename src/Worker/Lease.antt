-- ===== src/Worker/Lease.antt =====
-- The heartbeat and the expiry of its lease.
use rclone_sync_hub_go_backe.Prelude.{
  ℕ, ◌+◌, ◌≤◌, ◌<◌, ◌≡◌, Bool, true, false, Option, some, List, [], ◌∷◌, arith, refl,
}
use rclone_sync_hub_go_backe.Worker.Heartbeat.{
  Beat, Verdict, renewed, retry, lost, beat, heartbeat, attempt_timeout,
}

-- A tick comes at most one interval after the end of the one before, and an attempt ends by its
-- timeout.
abbrev pub OnTime : ℕ → ℕ → List Beat → Type 0
OnTime interval last [] = Unit
OnTime interval last (b ∷ bs) =
    (b.attempt_started ≤ last + interval)
    × (b.attempt_started ≤ b.returned)
    × (b.returned ≤ b.attempt_started + attempt_timeout interval)
    × OnTime interval b.returned bs

-- The time at which the last beat had returned.
abbrev pub last_return : ℕ → List Beat → ℕ
last_return last [] = last
last_return last (b ∷ bs) = last_return b.returned bs

-- After a beat that has not lost the lease, the next attempt ends before the deadline.
beat_margin :
    (i l last d : ℕ) (b : Beat)
    → i + attempt_timeout i + attempt_timeout i < l
    → b.attempt_started ≤ last + i
    → b.returned ≤ b.attempt_started + attempt_timeout i
    → (beat i l (some d) b ≡ retry → b.returned + i + attempt_timeout i < d)
      × ((d' : ℕ) → beat i l (some d) b ≡ renewed d' → b.returned + i + attempt_timeout i < d')
unfolding beat
beat_margin i l last d b hl s r = (λ e. ground arith, λ d' e. ground arith)

-- If the lease is longer than an interval and two attempts, ticks are on time, and the first
-- attempt ends before the deadline, then as long as the heartbeat has not given the lease up there
-- is a deadline, and the next attempt ends before it.
pub heartbeat-deadline :
    (interval lease_duration : ℕ) (bs : List Beat) (last d : ℕ)
    → interval + attempt_timeout interval + attempt_timeout interval < lease_duration
    → OnTime interval last bs
    → last + interval + attempt_timeout interval < d
    → (heartbeat interval lease_duration (some d) bs).1 ≡ false
    → (e : ℕ) × ((heartbeat interval lease_duration (some d) bs).0 ≡ some e)
      × (last_return last bs + interval + attempt_timeout interval < e)
unfolding heartbeat
heartbeat-deadline i l [] last d hl t h k = (d, refl, h)
heartbeat-deadline i l (b ∷ bs) last d hl t h k =
    cases (beat i l (some d) b) (λ d'. heartbeat-deadline i l bs b.returned d' hl t.3)
      (beat_margin i l last d b hl t.0 t.2).0 (beat_margin i l last d b hl t.0 t.2).1 k
  where
    rest_of : Verdict → Option ℕ × Bool
    rest_of v = elim v [
      | renewed d' ↦ heartbeat i l (some d') bs
      | retry ↦ heartbeat i l (some d) bs
      | lost ↦ (some d, true)
    ]

    Margin : Option ℕ × Bool → Type 0
    Margin x = (e : ℕ) × (x.0 ≡ some e) × (last_return b.returned bs + i + attempt_timeout i < e)

    cases :
        (v : Verdict)
        → ((d' : ℕ)
            → b.returned + i + attempt_timeout i < d'
            → (heartbeat i l (some d') bs).1 ≡ false
            → Margin (heartbeat i l (some d') bs))
        → (v ≡ retry → b.returned + i + attempt_timeout i < d)
        → ((d' : ℕ) → v ≡ renewed d' → b.returned + i + attempt_timeout i < d')
        → (rest_of v).1 ≡ false
        → Margin (rest_of v)
    cases (renewed d') ih kept moved k = ih d' (moved d' refl) k
    cases retry ih kept moved k = ih d (kept refl) k
    cases lost ih kept moved k = cc
