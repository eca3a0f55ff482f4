-- ===== src/TaskRepository/Transitions.antt =====
-- Each call on the database is a move of the task state machine on every row of the table: the
-- calls of one statement, and the theorem for all calls and for sequences of them.
use rclone_sync_hub_go_backe.Prelude.{
  ℕ, zero, suc, Text, ◌≡◌, true, false, refl, sym, subst, Bool, not, ◌&&◌, ◌||◌, Option, none, some,
  List, [], ◌∷◌, Member, ==_iff, leb, inl, inr, arith, All, select, Bool-cases, if◌then◌else◌,
}
use rclone_sync_hub_go_backe.Model.{UploadTask, is, running, success, canceled, Status}
use rclone_sync_hub_go_backe.Database.Statement.{Sql, Err, Result, ok, err, Ran, Ran-map, Read}
use rclone_sync_hub_go_backe.Database.Transaction.{
  Ends, Ends-bind-write, Ends-bind-read, Final, Final-transact, Final-single, single, read, write,
  pure, ◌>>=◌, ◌>>◌,
}
use rclone_sync_hub_go_backe.TaskRepository.{
  required, touched, error_of, renew_lease, update_progress, mark_file, finish_success,
  finish_canceled, fail_or_retry, release_uncanceled, release_lease, mark_canceling, request_cancel,
  reset_for_retry, pause_if_not_running, verify_delete, delete_task, delete_listed, delete_many,
  create_many, in_ids, deletable_ids, release_message,
}
use rclone_sync_hub_go_backe.TaskRepository.Rows.{
  by_id, leased, leased_not_canceling, leased_canceling, renew, report, succeed, cancel_leased,
  after_failure, settle_failure, release, request_cancel_row, resettable, reset, pausable, pause,
  deletable,
}
use rclone_sync_hub_go_backe.TaskRepository.Operation.{
  Operation, claiming, renewing, reporting, succeeding, canceling, failing, releasing,
  requesting_cancel, resetting, pausing, deleting, deleting_many, creating, updating_folder,
  deleting_folder, updating_route, cleaning, apply,
}
use rclone_sync_hub_go_backe.TaskRepository.RowStep.{
  RowStep, keep_alive, advance, complete, give_up, settle, release_canceled, requeue, ask_cancel,
  restart, hold, Deletes, delete_one, delete_listed as listed, Adds, add, Evolves,
}
use rclone_sync_hub_go_backe.TaskRepository.Redirections.{
  update_folder-Evolves, delete_folder-Evolves, update_route-Evolves, cleaning-Evolves,
}
use rclone_sync_hub_go_backe.TaskRepository.Moves.{
  Moves, Moves-refl, Anything, update-Reached, Evolves-Final, Evolves-single, single-Reached,
  Evolves-Moves, Evolves-refl, Evolves-append, Evolves-select,
}
use rclone_sync_hub_go_backe.TaskRepository.Refines.{same_row, Picked-first, claim_next-Evolves}

touched-state : {D : Type 0} (x : Result ℕ × D) → (touched x).1 ≡ x.1
touched-state (ok n, d) = refl
touched-state (err e, d) = refl

error_of-state : {D : Type 0} (x : Result ℕ × D) → (error_of x).1 ≡ x.1
error_of-state (ok n, d) = refl
error_of-state (err e, d) = refl

and_left : (a b : Bool) → (a && b) ≡ true → a ≡ true
and_left a b h = ground arith

in_ids-id : (ids : List ℕ) (t u : UploadTask) → t.id ≡ u.id → in_ids ids t ≡ in_ids ids u
in_ids-id [] t u e = refl
in_ids-id (id ∷ ids) t u e = ground (arith, in_ids-id ids t u)

-- The rows that DeleteMany found and may delete are requested ones.
deletable_requested :
    (ids : List ℕ) (t : UploadTask) (rows : List UploadTask)
    → in_ids (deletable_ids (select (in_ids ids) rows)) t ≡ true
    → in_ids ids t ≡ true
unfolding deletable_ids
deletable_requested ids t [] h = cc
deletable_requested ids t (u ∷ rows) h =
    ground (arith, in_ids-id ids t u, deletable_requested ids t rows)

module _ (S : Sql) (db : S.Db) where
  open S use {
    Db, tasks, find_law, updates, update_files, update_files_law, delete, delete_law, create,
    create_law, first, find, begin, commit,
  }

  -- A call that is one update of the rows that meet its guard.
  single_update :
      (o : Operation) (p : UploadTask → Bool) (f : UploadTask → UploadTask)
      → ((u : UploadTask) → p u ≡ true → RowStep o u (f u))
      → Evolves o (tasks db) (tasks (touched (single (updates p f) db)).1)
  single_update o p f h =
      rw (touched-state (single (updates p f) db)) (Evolves-single S o db p f (λ u m k. h u k))

  update_progress-Evolves :
      (id : ℕ) (w : Text) (p s at : ℕ)
      → Evolves (reporting id w p s at) (tasks db) (tasks (update_progress S id w p s at db).1)
  unfolding update_progress
  update_progress-Evolves id w p s at =
      rw (error_of-state (single (updates (leased id w) (report p s at)) db)) (
        Evolves-single S (reporting id w p s at) db (leased id w) (report p s at)
          (λ u m k. advance u k))

  module _ (o : Operation) where
    abbrev Near : {A : Type 0} → A → Db → Type 0
    Near a d = Moves o (tasks db) (tasks d)

    near_start : Moves o (tasks db) (tasks db)
    near_start = Moves-refl o (tasks db)

  mark_file-Near :
      (o : Operation) (fp : Text) (f : ℕ) (rn rp : Text) (at n : ℕ) (d : Db)
      → Near o n d
      → Ends (Near o) Anything (mark_file S fp f rn rp at n d)
  unfolding mark_file
  mark_file-Near o fp f rn rp at zero d h = tt
  mark_file-Near o fp f rn rp at (suc n) d h =
      Ends-bind-write (Near o) Anything (update_files _ _) _ d (λ e. tt)
        λ k d' e.
          subst (Moves o (tasks db))
            (sym (subst (Ran (λ n d''. _ × _ × _)) e (update_files_law _ _ d)).0) h

  finish_success-Evolves :
      (id : ℕ) (w : Text) (f : ℕ) (fp rn rp : Text) (at s : ℕ)
      → Evolves
          (succeeding id w f fp rn rp at s)
          (tasks db)
          (tasks (finish_success S id w f fp rn rp at s db).1)
  unfolding finish_success
  finish_success-Evolves id w f fp rn rp at s =
      let o = succeeding id w f fp rn rp at s in
      Evolves-Final S o db _ (
        Final-transact (Near o) Anything begin commit _ db (λ e. tt)
          (Ends-bind-write (Near o) Anything (updates (leased_not_canceling id w) (succeed at s)) _
            db (λ e. tt)
            λ n d e. mark_file-Near o fp f rn rp at n d (
              update-Reached S o (tasks db) _ (succeed at s) db n d e (near_start o)
                (λ u m k. complete u k))))

  fail_or_retry-Evolves :
      (now id : ℕ) (w msg : Text) (at n : ℕ)
      → Evolves
          (failing now id w msg at n)
          (tasks db)
          (tasks (fail_or_retry S now id w msg at n db).1)
  unfolding fail_or_retry
  fail_or_retry-Evolves now id w msg at n =
      let o = failing now id w msg at n in
      Evolves-Final S o db _ (
        Final-transact (Near o) Anything begin commit _ db (λ e. tt)
          (Ends-bind-read (Near o) Anything (first (leased id w)) _ db (λ e. tt)
            λ found e. locked_row found e))
    where
      settled :
          (t u : UploadTask)
          → leased id w t ≡ true
          → t ≡ u
          → RowStep (failing now id w msg at n) u (settle_failure now msg at (after_failure n t) u)
      settled t u k e =
          subst
            (λ v.
              RowStep (failing now id w msg at n) v
                (settle_failure now msg at (after_failure n t) v))
            e (settle t k)

      by_leased_id : (t : UploadTask) → leased id w t ≡ true → t.id ≡ id
      by_leased_id t k = ground arith

      locked_row :
          (found : Option UploadTask)
          → first (leased id w) db ≡ ok found
          → Ends {R = Status} (Near (failing now id w msg at n)) Anything (
              (read (λ _. required found) >>= λ t.
              write (updates (by_id id) (settle_failure now msg at (after_failure n t)))
              >> pure (after_failure n t))
                db)
      locked_row none e = tt
      locked_row (some t) e =
          Ends-bind-write (Near (failing now id w msg at n)) Anything
            (updates (by_id id) (settle_failure now msg at (after_failure n t))) _ db (λ x. tt)
            λ k d e'.
              update-Reached S (failing now id w msg at n) (tasks db) (by_id id)
                (settle_failure now msg at (after_failure n t)) db k d e'
                (near_start (failing now id w msg at n))
                λ u m h.
                  let p = Picked-first S (leased id w) db (some t) e in
                  settled t u p.1 (same_row S db t u p.0 m (rw (by_leased_id t p.1) h))

  request_cancel-Evolves :
      (id at : ℕ)
      → Evolves (requesting_cancel id at) (tasks db) (tasks (request_cancel S id at db).1)
  unfolding request_cancel mark_canceling
  request_cancel-Evolves id at =
      let o = requesting_cancel id at in
      Evolves-Final S o db _ (
        Final-transact (Near o) Anything begin commit _ db (λ e. tt)
          (Ends-bind-read (Near o) Anything (first (by_id id)) _ db (λ e. tt)
            λ found e. locked_row found e))
    where
      asked :
          (t u : UploadTask)
          → t.id ≡ id
          → (is t.status success || is t.status canceled) ≡ false
          → t ≡ u
          → RowStep (requesting_cancel id at) u (request_cancel_row at t.status u)
      asked t u i k e =
          subst (λ v. RowStep (requesting_cancel id at) v (request_cancel_row at t.status v)) e
            (ask_cancel t i (ground arith) (ground arith))

      locked_row :
          (found : Option UploadTask)
          → first (by_id id) db ≡ ok found
          → Ends
              (Near (requesting_cancel id at))
              Anything
              ((read (λ _. required found) >>= mark_canceling S id at) db)
      locked_row none e = tt
      locked_row (some t) e = elim (Bool-cases (is t.status success || is t.status canceled)) [
        | inl k ↦ rw k tt
        | inr k ↦ rw k (
            Ends-bind-write (Near (requesting_cancel id at)) Anything
              (updates (by_id id) (request_cancel_row at t.status)) _ db (λ x. tt)
              λ n d e'.
                update-Reached S (requesting_cancel id at) (tasks db) (by_id id)
                  (request_cancel_row at t.status) db n d e' (near_start (requesting_cancel id at))
                  λ u m h.
                    let p = Picked-first S (by_id id) db (some t) e in
                    let i : t.id ≡ id = (==_iff t.id id).0 p.1 in
                    asked t u i k (same_row S db t u p.0 m (rw i h)))
      ]

  release_lease-Evolves :
      (now id : ℕ) (w : Text)
      → Evolves (releasing now id w) (tasks db) (tasks (release_lease S now id w db).1)
  unfolding release_lease release_uncanceled
  release_lease-Evolves now id w = rw (error_of-state (release_uncanceled S id w first_update)) (
      second first_update (
        single-Reached S (releasing now id w) (tasks db) db (leased_canceling id w)
          (cancel_leased now release_message) (near_start (releasing now id w))
          (λ u m k. release_canceled u k)))
    where
      first_update : Result ℕ × Db
      first_update = single (updates (leased_canceling id w) (cancel_leased now release_message)) db

      second :
          (x : Result ℕ × Db)
          → Near (releasing now id w) x.0 x.1
          → Evolves (releasing now id w) (tasks db) (tasks (release_uncanceled S id w x).1)
      second (err e, d) h = Evolves-Moves h
      second (ok (suc n), d) h = Evolves-Moves h
      second (ok zero, d) h = Evolves-Moves (
          single-Reached S (releasing now id w) (tasks db) d (leased_not_canceling id w) release h
            (λ u m k. requeue u k))

  verify_delete-state : (id : ℕ) (x : Result ℕ × Db) → (verify_delete S id x).1 ≡ x.1
  unfolding verify_delete
  verify_delete-state id (err e, d) = refl
  verify_delete-state id (ok (suc n), d) = refl
  verify_delete-state id (ok zero, d) = ground arith

  -- What a DELETE leaves, of the rows that a call may delete.
  delete-Evolves :
      (o : Operation) (p : UploadTask → Bool)
      → ((t : UploadTask) → p t ≡ true → Deletes o t)
      → Ran (λ n d. Evolves o (tasks db) (tasks d)) (delete p db)
  delete-Evolves o p h =
      Ran-map _ (λ n d. Evolves o (tasks db) (tasks d)) (delete p db)
        (λ n d k. subst (Evolves o (tasks db)) (sym k.0) (Evolves-select p (tasks db) h))
        (delete_law p db)

  left :
      (o : Operation) {R : Type 0} {x : Result R × Db}
      → Final (λ n d. Evolves o (tasks db) (tasks d)) Anything db x
      → Evolves o (tasks db) (tasks x.1)
  left o (inl h) = rw h.0 (Evolves-refl o (tasks db))
  left o (inr h) = h.2

  delete_task-Evolves : (id : ℕ) → Evolves (deleting id) (tasks db) (tasks (delete_task S id db).1)
  unfolding delete_task
  delete_task-Evolves id =
      rw (error_of-state (verify_delete S id (single (delete (deletable id)) db))) (
        rw (verify_delete-state id (single (delete (deletable id)) db)) (
          left (deleting id) (
            Final-single (λ n d. Evolves (deleting id) (tasks db) (tasks d)) Anything
              (delete (deletable id)) db (λ e. tt)
              (delete-Evolves (deleting id) (deletable id) (λ t k. delete_one t k)))))

  delete_listed-Evolves :
      (ids : List ℕ) (failures : List (ℕ × Err)) (chosen : List ℕ)
      → ((t : UploadTask) → in_ids chosen t ≡ true → in_ids ids t ≡ true)
      → Ends
          (λ r d. Evolves (deleting_many ids) (tasks db) (tasks d))
          Anything
          (delete_listed S failures chosen db)
  unfolding delete_listed
  delete_listed-Evolves ids failures [] h = Evolves-refl (deleting_many ids) (tasks db)
  delete_listed-Evolves ids failures (id ∷ rest) h =
      Ends-bind-write (λ r d. Evolves (deleting_many ids) (tasks db) (tasks d)) Anything
        (delete (λ t. in_ids (id ∷ rest) t && not (is t.status running))) _ db (λ e. tt)
        λ n d e. subst (Ran (λ n d. Evolves (deleting_many ids) (tasks db) (tasks d))) e (
          delete-Evolves (deleting_many ids) _
            (λ t k. listed t (h t (and_left _ _ k)) (not_running t k)))
    where
      not_running :
          (t : UploadTask)
          → (in_ids (id ∷ rest) t && not (is t.status running)) ≡ true
          → is t.status running ≡ false
      not_running t k = ground arith

  delete_many-Evolves :
      (ids : List ℕ) → Evolves (deleting_many ids) (tasks db) (tasks (delete_many S ids db).1)
  unfolding delete_many
  delete_many-Evolves [] = Evolves-refl (deleting_many []) (tasks db)
  delete_many-Evolves (id ∷ ids) = left (deleting_many (id ∷ ids)) (
      Final-transact (λ r d. Evolves (deleting_many (id ∷ ids)) (tasks db) (tasks d)) Anything begin
        commit _ db (λ e. tt)
        (Ends-bind-read (λ r d. Evolves (deleting_many (id ∷ ids)) (tasks db) (tasks d)) Anything
          (find (in_ids (id ∷ ids))) _ db (λ e. tt)
          λ found e. delete_listed-Evolves (id ∷ ids) _ (deletable_ids found) λ t k.
            deletable_requested (id ∷ ids) t (tasks db) (
              subst (λ l. in_ids (deletable_ids l) t ≡ true)
                (subst (Read (λ l. l ≡ select (in_ids (id ∷ ids)) (tasks db))) e
                  (find_law (in_ids (id ∷ ids)) db))
                k)))

  create_many-Evolves :
      (given : List UploadTask) (size : ℕ)
      → Evolves (creating given size) (tasks db) (tasks (create_many S given size db).1)
  unfolding create_many
  create_many-Evolves [] size = Evolves-refl (creating [] size) (tasks db)
  create_many-Evolves (c ∷ cs) size = left (creating (c ∷ cs) size) (
      Final-single (λ n d. Evolves (creating (c ∷ cs) size) (tasks db) (tasks d)) Anything
        (create (c ∷ cs) batch) db (λ e. tt)
        (Ran-map _ (λ n d. Evolves (creating (c ∷ cs) size) (tasks db) (tasks d))
          (create (c ∷ cs) batch db)
          (λ n d k.
            subst (Evolves (creating (c ∷ cs) size) (tasks db)) (sym k.1)
              (Evolves-append (tasks db) k.0 (added k.0 k.4)))
          (create_law (c ∷ cs) batch db)))
    where
      batch : ℕ
      batch = if leb size 0 then 500 else size

      added :
          (rows : List UploadTask)
          → All (λ t. (a : UploadTask) × Member a (c ∷ cs) × (t ≡ record a { id = t.id })) rows
          → All (Adds (creating (c ∷ cs) size)) rows
      added [] h = tt
      added (t ∷ rows) h =
          (subst (Adds (creating (c ∷ cs) size)) (sym h.0.2) (add h.0.0 t.id h.0.1), added rows h.1)

  -- Whatever the call and its outcome, errors of the database included, each row of the table has
  -- made moves of the task state machine under the call's guards, or was one that the call may
  -- delete, and each other row is one that the call may add.
  pub apply-Evolves : (o : Operation) → Evolves o (tasks db) (tasks (apply S o db))
  unfolding apply renew_lease finish_canceled reset_for_retry pause_if_not_running
  apply-Evolves (claiming now w d m) = claim_next-Evolves S now w d m db
  apply-Evolves (renewing now id w d) =
      single_update (renewing now id w d) (leased_not_canceling id w) (renew now d)
        (λ u k. keep_alive u k)
  apply-Evolves (reporting id w p s at) = update_progress-Evolves id w p s at
  apply-Evolves (succeeding id w f fp rn rp at s) = finish_success-Evolves id w f fp rn rp at s
  apply-Evolves (canceling id w at m) =
      single_update (canceling id w at m) (leased id w) (cancel_leased at m) (λ u k. give_up u k)
  apply-Evolves (failing now id w m at n) = fail_or_retry-Evolves now id w m at n
  apply-Evolves (releasing now id w) = release_lease-Evolves now id w
  apply-Evolves (requesting_cancel id at) = request_cancel-Evolves id at
  apply-Evolves (resetting id at) =
      single_update (resetting id at) (resettable id) (reset at) (λ u k. restart u k)
  apply-Evolves (pausing id at) =
      single_update (pausing id at) (pausable id) (pause at) (λ u k. hold u k)
  apply-Evolves (deleting id) = delete_task-Evolves id
  apply-Evolves (deleting_many ids) = delete_many-Evolves ids
  apply-Evolves (creating given size) = create_many-Evolves given size
  apply-Evolves (updating_folder now f steps idle changed) =
      update_folder-Evolves S db now f steps idle changed
  apply-Evolves (deleting_folder now id) = delete_folder-Evolves S db now id
  apply-Evolves (updating_route now r changed) = update_route-Evolves S db now r changed
  apply-Evolves (cleaning cutoff size) = cleaning-Evolves S db cutoff size
