-- ===== src/UploadService/Outcomes.antt =====
-- What an accepted request has done.
use rclone_sync_hub_go_backe.Prelude.{
  ℕ, Bool, true, false, ◌&&◌, ◌||◌, ◌==◌, ◌≡◌, refl, sym, subst, ap, ◌∙◌, has_id, Option, none,
  some, List, [], ◌∷◌, is_some, some_of, All, Bool-cases, ==_iff, inl, inr, arith,
}
use rclone_sync_hub_go_backe.Model.{
  UploadTask, Status, is, pending, running, success, failed, paused, canceled,
}
use rclone_sync_hub_go_backe.Database.Outcome.{
  Err, Result, ok, err, driver, duplicate, not_found, conflict,
}
use rclone_sync_hub_go_backe.Database.Statement.{Sql}
use rclone_sync_hub_go_backe.Database.Transaction.{Final}
use rclone_sync_hub_go_backe.TaskRepository.{Rejections, rejection, request_cancel, delete_many}
use rclone_sync_hub_go_backe.TaskRepository.Rows.{by_id}
use rclone_sync_hub_go_backe.TaskRepository.Operation.{run}
use rclone_sync_hub_go_backe.TaskRepository.Deleting.{
  Settled, IsDeletion, NoDeletion, delete_many_lem,
}
use rclone_sync_hub_go_backe.TaskRepository.Retrying.{
  IsStopped, IsCanceling, NotCanceling, request_cancel_lem,
}
use rclone_sync_hub_go_backe.Worker.Signals.{Signals}
use rclone_sync_hub_go_backe.UploadService.{
  Fault, Reply, accepted, rejected, Moment, ServiceState, get_task, after_request, cancel_found,
  cancel_read, cancel_task, delete_reply, deletion_answer, unique_ids, batch_delete_tasks,
}
use rclone_sync_hub_go_backe.UploadService.Batches.{
  replies, state_after, accepted_ids, run_batch_lem, unique_ids-has_id,
}

-- A task with the id is canceled, or runs with a cancellation request.
abbrev pub Ending : ℕ → UploadTask → Type 0
Ending id t =
    t.id ≡ id
    → (is t.status canceled || is t.status running && is_some t.cancel_requested_at) ≡ true

stopped_row :
    (id at : ℕ) (s : Status) (S : Sql) (db : S.Db) (t : UploadTask)
    → (is s canceled || is s running) ≡ true
    → IsStopped S db id at s t
    → Ending id t
stopped_row id at s S db t a h e = by_status s a (h.has_status e) (h.asked e)
  where
    by_status :
        (s : Status)
        → (is s canceled || is s running) ≡ true
        → t.status ≡ s
        → (s ≡ running → is_some t.cancel_requested_at ≡ true)
        → (is t.status canceled || is t.status running && is_some t.cancel_requested_at) ≡ true
    by_status canceled a k r = rw k refl
    by_status running a k r = rw k (r refl)
    by_status pending a k r = cc
    by_status success a k r = cc
    by_status failed a k r = cc
    by_status paused a k r = cc

stopped_rows :
    (id at : ℕ) (s : Status) (S : Sql) (db : S.Db) (ts : List UploadTask)
    → (is s canceled || is s running) ≡ true
    → All (IsStopped S db id at s) ts
    → All (Ending id) ts
stopped_rows id at s S db [] a h = tt
stopped_rows id at s S db (t ∷ ts) a h =
    (stopped_row id at s S db t a h.0, stopped_rows id at s S db ts a h.1)

module _ (S : Sql) where
  open S use {Db, tasks}

  module _ (id at : ℕ) (db : Db) where
    abbrev Answered : Result Status × Db → Type 0
    Answered x = Final (IsCanceling S db id at) (NotCanceling S db id at) db x

    Ending-of :
        (s : Status) (d : Db)
        → Answered (ok s, d)
        → (is s canceled || is s running) ≡ true
        → All (Ending id) (tasks d)
    Ending-of s d (inl (e, h)) a =
        subst (λ d'. All (Ending id) (tasks d')) (sym e)
          (stopped_rows id at s S db (tasks db) a h.0)
    Ending-of s d (inr (s', e, h)) a = stopped_rows id at s S db (tasks d) a (
        subst (λ r. All (IsStopped S db id at r) (tasks d)) (sym (injective (ok s) s s' refl e))
          h.stopped)
      where
        injective : (r : Result Status) (a b : Status) → r ≡ ok a → r ≡ ok b → a ≡ b
        injective r a b x y = cc

    status_of :
        (s : Status) (d : Db)
        → Answered (ok s, d)
        → (is s success || (is s canceled || is s running)) ≡ true
    status_of s d (inl (e, h)) = weaker h.1
      where
        weaker :
            (is s success || is s canceled) ≡ true
            → (is s success || (is s canceled || is s running)) ≡ true
        weaker a = ground arith
    status_of s d (inr (s', e, h)) =
        subst (λ r. (is r success || (is r canceled || is r running)) ≡ true)
          (injective (ok s) s' s e refl) (weaker h.answered)
      where
        injective : (r : Result Status) (a b : Status) → r ≡ ok a → r ≡ ok b → a ≡ b
        injective r a b x y = cc

        weaker :
            (is s' canceled || is s' running) ≡ true
            → (is s' success || (is s' canceled || is s' running)) ≡ true
        weaker a = ground arith

  impossible : {A : Type 0} → false ≡ true → A
  impossible h = absurd (clash h)
    where
      clash : false ≡ true → ⊥
      clash k = cc

  after_request-Ending :
      (w : Moment) (id : ℕ) (q : Signals) (db : Db) (x : Result Status × Db)
      → Answered id w.now db x
      → (after_request S w id q x).0 ≡ accepted tt
      → All (Ending id) (tasks (after_request S w id q x).1.db)
  unfolding after_request
  after_request-Ending w id q db (err e, d) h k = absurd (clash k)
    where
      clash : Reply.rejected (Fault.untold e) ≡ accepted tt → ⊥
      clash z = cc
  after_request-Ending w id q db (ok canceled, d) h k = Ending-of id w.now db canceled d h refl
  after_request-Ending w id q db (ok running, d) h k = Ending-of id w.now db running d h refl
  after_request-Ending w id q db (ok success, d) h k = absurd (clash k)
    where
      clash : {f : Fault} → Reply.rejected f ≡ accepted tt → ⊥
      clash z = cc
  after_request-Ending w id q db (ok pending, d) h k =
      impossible (status_of id w.now db pending d h)
  after_request-Ending w id q db (ok failed, d) h k = impossible (status_of id w.now db failed d h)
  after_request-Ending w id q db (ok paused, d) h k = impossible (status_of id w.now db paused d h)

  cancel_found-Ending :
      (w : Moment) (id : ℕ) (b : Bool) (db : Db) (q : Signals)
      → (cancel_found S w id b db q).0 ≡ accepted tt
      → All (Ending id) (tasks (cancel_found S w id b db q).1.db)
  unfolding cancel_found
  cancel_found-Ending w id true db q h = absurd (clash h)
    where
      clash : {f : Fault} → Reply.rejected f ≡ accepted tt → ⊥
      clash z = cc
  cancel_found-Ending w id false db q h =
      after_request-Ending w id q db (request_cancel S id w.now db)
        (request_cancel_lem S db id w.now) h

  cancel_read-Ending :
      (w : Moment) (id : ℕ) (s : ServiceState S) (r : Reply UploadTask)
      → (cancel_read S w id s r).0 ≡ accepted tt
      → All (Ending id) (tasks (cancel_read S w id s r).1.db)
  unfolding cancel_read
  cancel_read-Ending w id s (rejected f) h = absurd (clash h)
    where
      clash : {f : Fault} → Reply.rejected f ≡ accepted tt → ⊥
      clash z = cc
  cancel_read-Ending w id s (accepted t) h =
      cancel_found-Ending w id (is t.status success) (run S w.meanwhile s.db) s.signals h

  -- Whatever other calls come between its read and its write, an accepted cancellation leaves the
  -- task canceled, or running with a cancellation request.
  pub cancel_task-Ending :
      (w : Moment) (id : ℕ) (s : ServiceState S)
      → (cancel_task S w id s).0 ≡ accepted tt
      → All (Ending id) (tasks (cancel_task S w id s).1.db)
  unfolding cancel_task
  cancel_task-Ending w id s h = cancel_read-Ending w id s (get_task S id s.db) h

  -- What is deleted.
  accepted_deletion : (id : ℕ) (o : Option Err) → delete_reply o ≡ accepted tt → o ≡ none
  accepted_deletion id none h = refl
  accepted_deletion id (some not_found) h = cc
  accepted_deletion id (some conflict) h = cc
  accepted_deletion id (some driver) h = cc
  accepted_deletion id (some duplicate) h = cc

  -- The tasks that the batch reports as deleted were requested, and accepted.
  accepted_constant :
      {St : Type 0} (f : ℕ → Reply (Unit {0})) (ids : List ℕ) (s : St) (id : ℕ)
      → has_id id (accepted_ids (replies (λ i t. (f i, t)) ids s)) ≡ true
      → (has_id id ids ≡ true) × (f id ≡ accepted tt)
  accepted_constant f [] s id h = impossible h
  accepted_constant f (i ∷ ids) s id h = by_reply (f i) refl (accepted_constant f ids s id) h
    where
      by_reply :
          (r : Reply (Unit {0}))
          → f i ≡ r
          → (has_id id (accepted_ids (replies (λ i t. (f i, t)) ids s)) ≡ true
              → (has_id id ids ≡ true) × (f id ≡ accepted tt))
          → has_id id (accepted_ids ((i, r) ∷ replies (λ i t. (f i, t)) ids s)) ≡ true
          → (has_id id (i ∷ ids) ≡ true) × (f id ≡ accepted tt)
      by_reply (rejected x) e ih k = (either_way (ih k).0, (ih k).1)
        where
          either_way : has_id id ids ≡ true → (i == id || has_id id ids) ≡ true
          either_way a = ground arith
      by_reply (accepted u) e ih k = elim (Bool-cases (i == id)) [
        | inl same ↦ (rw same refl, subst (λ j. f j ≡ accepted tt) ((==_iff i id).0 same) e)
        | inr other ↦ let later = ih (remaining other k) in (rw other later.0, later.1)
      ]
        where
          remaining :
              (i == id) ≡ false
              → (i == id || has_id id (accepted_ids (replies (λ i t. (f i, t)) ids s))) ≡ true
              → has_id id (accepted_ids (replies (λ i t. (f i, t)) ids s)) ≡ true
          remaining a b = ground arith

  deleted_if_accepted :
      (id : ℕ) (ids : List ℕ) (db : Db) (x : Result Rejections × Db)
      → Final (IsDeletion S db ids) NoDeletion db x
      → has_id id ids ≡ true
      → deletion_answer x.0 id ≡ accepted tt
      → (some_of (by_id id) (tasks db) ≡ true) × (some_of (by_id id) (tasks x.1) ≡ false)
  deleted_if_accepted id ids db (err e, d) h m k = absurd (clash k)
    where
      clash : Reply.rejected (Fault.untold e) ≡ accepted tt → ⊥
      clash z = cc
  deleted_if_accepted id ids db (ok r, d) (inl h) m k = absurd h.1
  deleted_if_accepted id ids db (ok r, d) (inr (r', e, h)) m k =
      subst (Settled id (tasks db) (tasks d))
        (ap (rejection id) (one_answer (ok r) r' r e refl)
          ∙ accepted_deletion id (rejection id r) k)
        (h.answers id m)
    where
      one_answer : (q : Result Rejections) (a b : Rejections) → q ≡ ok a → q ≡ ok b → a ≡ b
      one_answer q a b x y = cc

  deleted_all :
      (id : ℕ) (ids : List ℕ) (db : Db)
      → has_id id ids ≡ true
      → deletion_answer (delete_many S ids db).0 id ≡ accepted tt
      → (some_of (by_id id) (tasks db) ≡ true)
        × (some_of (by_id id) (tasks (delete_many S ids db).1) ≡ false)
  deleted_all id [] db m k = impossible m
  deleted_all id (i ∷ ids) db m k =
      deleted_if_accepted id (i ∷ ids) db (delete_many S (i ∷ ids) db) (delete_many_lem S db i ids)
        m k

  -- Each task that BatchDeleteTasks reports as deleted was requested and was there, and is gone.
  pub batch_delete_tasks-gone :
      (ids : List ℕ) (s : ServiceState S) (id : ℕ)
      → has_id id (batch_delete_tasks S ids s).0.ok_ids ≡ true
      → (has_id id ids ≡ true)
        × (some_of (by_id id) (tasks s.db) ≡ true)
        × (some_of (by_id id) (tasks (batch_delete_tasks S ids s).1.db) ≡ false)
  unfolding batch_delete_tasks
  batch_delete_tasks-gone ids s id h =
      let x = delete_many S (unique_ids ids) s.db in
      let start : ServiceState S = record s { db = x.1 } in
      let l = run_batch_lem (λ i t. (deletion_answer x.0 i, t)) (unique_ids ids) start in
      let a =
        accepted_constant (deletion_answer x.0) (unique_ids ids) start id
          (subst (λ is. has_id id is ≡ true) l.0 h) in
      let g = deleted_all id (unique_ids ids) s.db a.0 a.1 in
      (
        sym (unique_ids-has_id ids id) ∙ a.0,
        g.0,
        subst (λ (t : ServiceState S). some_of (by_id id) (tasks t.db) ≡ false)
            (sym (l.2 ∙ untouched (deletion_answer x.0) (unique_ids ids) start)) g.1,
      )
    where
      untouched :
          {St : Type 0} (f : ℕ → Reply (Unit {0})) (ids : List ℕ) (t : St)
          → state_after (λ i u. (f i, u)) ids t ≡ t
      untouched f [] t = refl
      untouched f (i ∷ ids) t = untouched f ids t
