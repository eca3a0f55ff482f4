-- ===== src/TaskRepository/Retrying.antt =====
-- The reset of a task for a retry, and its cancellation.
use rclone_sync_hub_go_backe.Prelude.{
  ℕ, ltb, Text, Bool, true, false, ◌||◌, ◌≡◌, ◌≢◌, refl, sym, subst, ap, ◌∙◌, Option, none, some,
  List, [], ◌∷◌, map, some_of, some_of-Member, Member, All, Bool-cases, ==_iff, inl, inr, arith,
  is_some, ◌⊎◌, if◌then◌else◌,
}
use rclone_sync_hub_go_backe.Model.{UploadTask, Status, is, success, canceled, running}
use rclone_sync_hub_go_backe.Database.Outcome.{Result, ok, err, Ran, patch}
use rclone_sync_hub_go_backe.Database.Statement.{Sql}
use rclone_sync_hub_go_backe.Database.Transaction.{
  single, Ends, Ends-bind-read, Ends-bind-write, Final, Final-transact,
}
use rclone_sync_hub_go_backe.TaskRepository.{
  effective_attempts, touched, required, reset_for_retry, claim_next, Claimed, mark_canceling,
  request_cancel,
}
use rclone_sync_hub_go_backe.TaskRepository.Rows.{
  resettable, reset, claimable, by_id, request_cancel_row,
}
use rclone_sync_hub_go_backe.TaskRepository.Claims.{
  sweep, IsClaim, NoClaim, claim_next_lem, required-ok,
}
use rclone_sync_hub_go_backe.TaskRepository.Moves.{updated_rows}
use rclone_sync_hub_go_backe.TaskRepository.Refines.{Picked-first}

map-Member :
    (f : UploadTask → UploadTask) (ts : List UploadTask) (t : UploadTask)
    → Member t ts
    → Member (f t) (map f ts)
map-Member f [] t m = absurd m
map-Member f (u ∷ ts) t (inl e) = inl (ap f e)
map-Member f (u ∷ ts) t (inr m) = inr (map-Member f ts t m)

-- The sweep leaves a task that was reset alone, and it is claimable.
reset-claimable :
    (at now m : ℕ) (t : UploadTask)
    → claimable now (effective_attempts m) (sweep now (effective_attempts m) (reset at t)) ≡ true
reset-claimable at now m t = ground arith

module _ (S : Sql) (db : S.Db) where
  open S use {Db, tasks, locked, updates, updates_law}

  -- A reset that answers yes has reset a row.
  was_reset :
      (id at : ℕ)
      → (reset_for_retry S id at db).0 ≡ ok true
      → (t : UploadTask) × Member (reset at t) (tasks (reset_for_retry S id at db).1)
  unfolding reset_for_retry
  was_reset id at h =
      by_answer (updates (resettable id) (reset at) db) (updates_law (resettable id) (reset at) db)
        h
    where
      by_answer :
          (r : Result (ℕ × Db))
          → Ran
              (λ n d.
                (tasks d ≡ map (patch (resettable id) (reset at)) (tasks db))
                × (S.files d ≡ S.files db)
                × (ltb 0 n ≡ some_of (resettable id) (tasks db)))
              r
          → (touched (single (λ _. r) db)).0 ≡ ok true
          → (t : UploadTask) × Member (reset at t) (tasks (touched (single (λ _. r) db)).1)
      by_answer (err e) q k = absurd (clash k)
        where
          clash : Result.err e ≡ ok true → ⊥
          clash z = cc
      by_answer (ok (n, d)) q k =
          let (t, m, e) = some_of-Member (resettable id) (tasks db) (sym q.2 ∙ yes (ltb 0 n) k) in
          (
            t,
            subst (Member (reset at t)) (sym q.0) (
                subst (λ v. Member v (map (patch (resettable id) (reset at)) (tasks db)))
                  (patched t e) (map-Member (patch (resettable id) (reset at)) (tasks db) t m)),
          )
        where
          yes : (b : Bool) → Result.ok b ≡ ok true → b ≡ true
          yes b z = cc

          patched :
              (t : UploadTask)
              → resettable id t ≡ true
              → patch (resettable id) (reset at) t ≡ reset at t
          patched t e = rw e refl

  -- After a reset that answered yes, a claim with any number of attempts cannot come back with no
  -- task, if no row is locked by another transaction: it hands a task out, or the database fails.
  pub reset_for_retry-claim_next :
      (id at now : ℕ) (owner : Text) (d m : ℕ)
      → (reset_for_retry S id at db).0 ≡ ok true
      → ((d' : Db) (u : UploadTask) → locked d' u ≡ false)
      → (claim_next S now owner d m (reset_for_retry S id at db).1).0 ≢ ok none
  reset_for_retry-claim_next id at now owner d m h free e =
      let later = (reset_for_retry S id at db).1 in
      by_claim (claim_next_lem S now owner d m later) (was_reset id at h)
    where
      later : Db
      later = (reset_for_retry S id at db).1

      by_claim :
          ((c : Claimed) × ((claim_next S now owner d m later).0 ≡ ok (some c))
              × IsClaim S now owner d m later c.0 (claim_next S now owner d m later).1)
            ⊎ (((claim_next S now owner d m later).1 ≡ later)
                × NoClaim S now owner d m later (claim_next S now owner d m later).0)
          → (t : UploadTask) × Member (reset at t) (tasks later)
          → ⊥
      by_claim (inl x) r = clash (claim_next S now owner d m later).0 e x.1
        where
          clash : (r : Result (Option Claimed)) → r ≡ ok none → r ≡ ok (some x.0) → ⊥
          clash r a b = cc
      by_claim (inr x) (t, k) =
          let none_free = subst (NoClaim S now owner d m later) e x.1 in
          clash
            (none_free.2 (sweep now (effective_attempts m) (reset at t))
              (map-Member (sweep now (effective_attempts m)) (tasks later) (reset at t) k)
              (reset-claimable at now m t))
            (free none_free.0 (sweep now (effective_attempts m) (reset at t)))
        where
          clash : {b : Bool} → b ≡ true → b ≡ false → ⊥
          clash p q = cc

  module _ (id at : ℕ) where
    -- A task whose cancellation was answered with `s`.
    pub record IsStopped (s : Status) (t : UploadTask) : Type 0 where
      pub has_status : t.id ≡ id → t.status ≡ s
      pub asked : t.id ≡ id → s ≡ running → is_some t.cancel_requested_at ≡ true

    pub record IsCanceling (s : Status) (db' : Db) : Type 0 where
      pub stopped : All (IsStopped s) (tasks db')
      pub answered : (is s canceled || is s running) ≡ true

    -- Without a change: the task was at its end, or an error.
    abbrev pub NotCanceling : Result Status → Type 0
    NotCanceling (ok s) = All (IsStopped s) (tasks db) × ((is s success || is s canceled) ≡ true)
    NotCanceling (err e) = Unit

    every_row :
        (P : UploadTask → Type 0) (ts : List UploadTask)
        → ((u : UploadTask) → Member u ts → P u)
        → All P ts
    every_row P [] h = tt
    every_row P (t ∷ ts) h = (h t (inl refl), every_row P ts (λ u m. h u (inr m)))

    every_patched :
        (P : UploadTask → Type 0) (p : UploadTask → Bool) (f : UploadTask → UploadTask)
        (ts : List UploadTask)
        → ((u : UploadTask) → Member u ts → P (patch p f u))
        → All P (map (patch p f) ts)
    every_patched P p f [] h = tt
    every_patched P p f (t ∷ ts) h = (h t (inl refl), every_patched P p f ts (λ u m. h u (inr m)))

    end_status :
        (t : UploadTask)
        → (is t.status success || is t.status canceled) ≡ true
        → t.status ≡ running
        → ⊥
    end_status t h e = ground arith

    canceled_row :
        (t : UploadTask)
        → (is t.status success || is t.status canceled) ≡ false
        → t.id ≡ id
        → IsStopped
            (if is t.status running then running else canceled)
            (patch (by_id id) (request_cancel_row at t.status) t)
    canceled_row t h i = ground arith

    other_row :
        (s r : Status) (u : UploadTask)
        → (by_id id u ≡ false)
        → IsStopped s (patch (by_id id) (request_cancel_row at r) u)
    other_row s r u h =
        rw h (record { has_status = λ e. absurd (clash e); asked = λ e k. absurd (clash e) })
      where
        clash : u.id ≡ id → ⊥
        clash e = ground arith

    mark_canceling-Post :
        (t : UploadTask)
        → Member t (tasks db)
        → t.id ≡ id
        → Ends IsCanceling NotCanceling (mark_canceling S id at t db)
    unfolding mark_canceling
    mark_canceling-Post t m i = elim (Bool-cases (is t.status success || is t.status canceled)) [
      | inl e ↦ rw e (
        every_row (IsStopped t.status) (tasks db) (λ u n. record {
          has_status =
              λ k. ap (λ (v : UploadTask). v.status) (S.primary_key db u t n m (k ∙ sym i));
          asked = λ k r. absurd (end_status t e r);
        }),
        e,
      )
      | inr e ↦ rw e (
          Ends-bind-write IsCanceling NotCanceling
            (updates (by_id id) (request_cancel_row at t.status)) _ db (λ x. tt)
            λ n d k. record {
              stopped =
                  subst (All (IsStopped (if is t.status running then running else canceled)))
                    (sym (updated_rows S (by_id id) (request_cancel_row at t.status) db n d k))
                    (every_patched (IsStopped (if is t.status running then running else canceled))
                      (by_id id) (request_cancel_row at t.status) (tasks db)
                      (λ u l. row_of u l e (Bool-cases (by_id id u))));
              answered = ground arith;
            })
    ]
      where
        row_of :
            (u : UploadTask)
            → Member u (tasks db)
            → (is t.status success || is t.status canceled) ≡ false
            → (by_id id u ≡ true) ⊎ (by_id id u ≡ false)
            → IsStopped
                (if is t.status running then running else canceled)
                (patch (by_id id) (request_cancel_row at t.status) u)
        row_of u l e (inr k) =
            other_row (if is t.status running then running else canceled) t.status u k
        row_of u l e (inl k) =
            subst
              (λ v.
                IsStopped (if is t.status running then running else canceled)
                  (patch (by_id id) (request_cancel_row at t.status) v))
              (S.primary_key db t u m l (i ∙ sym ((==_iff u.id id).0 k))) (canceled_row t e i)

    -- Either RequestCancel commits and returns canceled or running: each row with the id has that
    -- status, and a cancellation request if it runs. Or it leaves the database as it was, and
    -- returns an error, or success or canceled, the status that each row with the id has.
    pub request_cancel_lem : Final IsCanceling NotCanceling db (request_cancel S id at db)
    unfolding request_cancel
    request_cancel_lem =
        Final-transact IsCanceling NotCanceling S.begin S.commit _ db (λ e. tt)
          (Ends-bind-read IsCanceling NotCanceling (S.first (by_id id)) _ db (λ e. tt)
            λ found ef.
              Ends-bind-read IsCanceling NotCanceling (λ _. required found) _ db (λ e. tt)
                λ t et.
                  let p =
                    Picked-first S (by_id id) db (some t) (ef ∙ ap ok (required-ok found t et)) in
                  mark_canceling-Post t p.0 ((==_iff t.id id).0 p.1))
