-- ===== src/TaskRepository/Finishing.antt =====
-- What FinishSuccess and FailOrRetry promise: all of a transition or nothing of it.
use rclone_sync_hub_go_backe.Prelude.{
  ℕ, zero, suc, Text, Bool, ◌≡◌, true, false, refl, sym, subst, ap, ◌∙◌, inl, inr, some, map,
  Member, some_of, ltb, lt→ltb, Rowwise, Rowwise-map, Option, none, Bool-cases, arith,
}
use rclone_sync_hub_go_backe.Model.{UploadTask, Status, success, is}
use rclone_sync_hub_go_backe.Database.Statement.{Sql, Result, ok, err, Ran, patch}
use rclone_sync_hub_go_backe.Database.Transaction.{
  Ends, Ends-bind-write, Ends-bind-read, Final, Final-transact,
}
use rclone_sync_hub_go_backe.TaskRepository.{
  required, mark_file, finish_success, fail_or_retry, uploaded_version, mark_uploaded,
}
use rclone_sync_hub_go_backe.TaskRepository.Rows.{
  by_id, leased, leased_not_canceling, succeed, after_failure, settle_failure,
}
use rclone_sync_hub_go_backe.TaskRepository.Moves.{updated_rows}
use rclone_sync_hub_go_backe.TaskRepository.Refines.{Picked-first}
use rclone_sync_hub_go_backe.TaskRepository.Claims.{required-ok}
use rclone_sync_hub_go_backe.TaskRepository.Written.{
  Succeeds, succeed-Succeeds, Marks, mark_uploaded-Marks, IsDecided, after_failure-IsDecided,
  Settles, settle_failure-Settles,
}

ok-injective {ℓ} : {A : Type ℓ} {a b : A} → ok a ≡ ok b → a ≡ b
ok-injective e = cc

module _ (S : Sql) (db : S.Db) where
  open S use {
    Db, tasks, files, updates, updates_law, update_files, update_files_law, first, begin, commit,
  }

  module _ (id : ℕ) (w : Text) (f : ℕ) (fp rn rp : Text) (at s : ℕ) where
    -- A task was leased to the caller with no cancellation. Each such row is at its success, each
    -- record that still has the version and the destination that were uploaded is marked with the
    -- time, and no other row of the two tables has changed.
    pub record IsSuccess (r : Bool × Bool) (db' : Db) : Type 0 where
      pub transitioned : r.0 ≡ true
      pub was_leased : some_of (leased_not_canceling id w) (tasks db) ≡ true
      pub rows : Rowwise (Succeeds id w at s) (tasks db) (tasks db')
      pub records : Rowwise (Marks f fp rn rp at) (files db) (files db')
      pub marked : r.1 ≡ some_of (uploaded_version f fp rn rp) (files db)

    -- No task was leased so, or an error.
    abbrev pub NoSuccess : Result (Bool × Bool) → Type 0
    NoSuccess (ok r) =
        (r ≡ (false, false)) × (some_of (leased_not_canceling id w) (tasks db) ≡ false)
    NoSuccess (err e) = Unit

    mark_file-Post :
        (n : ℕ) (d : Db)
        → tasks d ≡ map (patch (leased_not_canceling id w) (succeed at s)) (tasks db)
        → files d ≡ files db
        → ltb 0 n ≡ some_of (leased_not_canceling id w) (tasks db)
        → Ends IsSuccess NoSuccess (mark_file S fp f rn rp at n d)
    unfolding mark_file
    mark_file-Post zero d et ef en = (refl, sym en)
    mark_file-Post (suc n) d et ef en =
        Ends-bind-write IsSuccess NoSuccess
          (update_files (uploaded_version f fp rn rp) (mark_uploaded at)) _ d (λ e. tt)
          λ k d' e.
            let law =
              subst
                (Ran (λ j x.
                  (tasks x ≡ tasks d)
                  × (files x
                      ≡ map (patch (uploaded_version f fp rn rp) (mark_uploaded at)) (files d))
                  × (ltb 0 j ≡ some_of (uploaded_version f fp rn rp) (files d))))
                e (update_files_law (uploaded_version f fp rn rp) (mark_uploaded at) d) in
            record {
              transitioned = refl;
              was_leased = sym en ∙ lt→ltb 0 (suc n) (omega arith);
              rows = subst (Rowwise (Succeeds id w at s) (tasks db)) (sym (law.0 ∙ et)) (
                  Rowwise-map (Succeeds id w at s) _ (tasks db)
                    (λ t. succeed-Succeeds id w at s t));
              records =
                  subst (Rowwise (Marks f fp rn rp at) (files db))
                    (sym (
                      law.1 ∙ ap (map (patch (uploaded_version f fp rn rp) (mark_uploaded at))) ef))
                    (Rowwise-map (Marks f fp rn rp at) _ (files db)
                      (λ r. mark_uploaded-Marks f fp rn rp at r));
              marked = law.2 ∙ ap (some_of (uploaded_version f fp rn rp)) ef;
            }

    -- Either FinishSuccess commits: a row was leased to the caller with no cancellation request, each
    -- such row is at its success, complete and without a lease, each file record that has the id, the
    -- version, if one is given, and the destination that were uploaded gets the time of the upload, no
    -- other row changes, and the two answers tell that the transition was made and whether a record
    -- was marked. Or it leaves the database as it was, and returns an error, or twice no
    -- because no row was leased so.
    pub finish_success_lem : Final IsSuccess NoSuccess db (finish_success S id w f fp rn rp at s db)
    unfolding finish_success
    finish_success_lem =
        Final-transact IsSuccess NoSuccess begin commit _ db (λ e. tt)
          (Ends-bind-write IsSuccess NoSuccess (updates (leased_not_canceling id w) (succeed at s))
            _ db (λ e. tt)
            λ n d e.
              let law =
                subst
                  (Ran (λ j x.
                    (tasks x ≡ map (patch (leased_not_canceling id w) (succeed at s)) (tasks db))
                    × (files x ≡ files db)
                    × (ltb 0 j ≡ some_of (leased_not_canceling id w) (tasks db))))
                  e (updates_law (leased_not_canceling id w) (succeed at s) db) in
              mark_file-Post n d law.0 law.1 law.2)

  module _ (now id : ℕ) (w msg : Text) (at n : ℕ) where
    -- The status that a leased task got, by its cancellation flag and its attempts, and its row.
    pub record IsFailure (s : Status) (db' : Db) : Type 0 where
      pub old : UploadTask
      pub was_there : Member old (tasks db)
      pub was_leased : leased id w old ≡ true
      pub decided : IsDecided n old s
      pub rows : Rowwise (Settles id now at msg s) (tasks db) (tasks db')

    abbrev pub NoFailure : Result Status → Type 0
    NoFailure (ok s) = ⊥
    NoFailure (err e) = Unit

    -- Either FailOrRetry commits and returns a status: a row was leased to the caller, the status is
    -- canceled if its cancellation was requested, else pending if it has attempts left and failed if
    -- it has none, and each row with the given id has that status, no lease, one more failure and,
    -- exactly if it is pending, the given time of its next attempt; no other row changes. Or it returns an error and leaves the database as it was.
    pub fail_or_retry_lem : Final IsFailure NoFailure db (fail_or_retry S now id w msg at n db)
    unfolding fail_or_retry
    fail_or_retry_lem =
        Final-transact IsFailure NoFailure begin commit _ db (λ e. tt)
          (Ends-bind-read IsFailure NoFailure (first (leased id w)) _ db (λ e. tt)
            λ found ef.
              Ends-bind-read IsFailure NoFailure (λ _. required found) _ db (λ e. tt)
                λ t et.
                  Ends-bind-write IsFailure NoFailure
                    (updates (by_id id) (settle_failure now msg at (after_failure n t))) _ db
                    (λ e. tt)
                    λ k d e.
                      let p =
                        Picked-first S (leased id w) db (some t)
                          (ef ∙ ap ok (required-ok found t et)) in
                      record {
                        old = t;
                        was_there = p.0;
                        was_leased = p.1;
                        decided = after_failure-IsDecided n t;
                        rows =
                            subst (Rowwise (Settles id now at msg (after_failure n t)) (tasks db))
                              (sym (updated_rows S _ _ db k d e))
                              (Rowwise-map (Settles id now at msg (after_failure n t)) _ (tasks db)
                                (λ r. settle_failure-Settles id now at msg (after_failure n t) r));
                      })

    not_success : (old : UploadTask) (r : Status) → IsDecided n old r → is r success ≡ false
    not_success old r h = by_request old.cancel_requested_at refl
      where
        by_request : (o : Option ℕ) → old.cancel_requested_at ≡ o → is r success ≡ false
        by_request (some x) e = rw (h.requested (λ z. clash z)) refl
          where
            clash : old.cancel_requested_at ≡ none → ⊥
            clash z = cc
        by_request none e = elim (Bool-cases (ltb old.retry_count n)) [
          | inl k ↦ rw (h.retried e (ground arith)) refl
          | inr k ↦ rw (h.given_up e (ground arith)) refl
        ]

    -- A failed attempt never ends in success.
    pub fail_or_retry-status :
        (s : Status) → (fail_or_retry S now id w msg at n db).0 ≡ ok s → is s success ≡ false
    fail_or_retry-status s e = cases (fail_or_retry S now id w msg at n db) fail_or_retry_lem e
      where
        cases :
            (x : Result Status × Db)
            → Final IsFailure NoFailure db x
            → x.0 ≡ ok s
            → is s success ≡ false
        cases (r, d) (inl (e', h)) k = none_returned r h k
          where
            none_returned : (q : Result Status) → NoFailure q → q ≡ ok s → is s success ≡ false
            none_returned (ok x) h k = absurd h
            none_returned (err x) h k = cc
        cases (r, d) (inr (s', e', h)) k =
            let same : s' ≡ s = ok-injective (sym e' ∙ k) in
            subst (λ r. is r success ≡ false) same (not_success h.old s' h.decided)
