-- ===== src/TaskRepository/Refines.antt =====
-- Each call on the database is a move of the task state machine on every row of the table: the
-- transactions of several statements.
use rclone_sync_hub_go_backe.Prelude.{
  ℕ, ◌+◌, Text, ◌≡◌, true, sym, subst, Bool, Option, none, some, List, Member, ==_iff, ltb, map, [],
  ◌∷◌, inl, inr, false, Bool-cases, arith, is_none,
}
use rclone_sync_hub_go_backe.Model.{UploadTask}
use rclone_sync_hub_go_backe.Database.Statement.{Sql, ok, Read, Picked, patch}
use rclone_sync_hub_go_backe.Database.Transaction.{
  Ends, Ends-bind-write, Ends-bind-read, Final-transact,
}
use rclone_sync_hub_go_backe.TaskRepository.{
  required, effective_attempts, reload, take_claim, claim_body, claim_next,
}
use rclone_sync_hub_go_backe.TaskRepository.Rows.{
  queued_cancellation, cancel_queued, abandoned_cancellation, cancel_abandoned, exhausted,
  fail_exhausted, claimable, claim, claim_order, by_id,
}
use rclone_sync_hub_go_backe.TaskRepository.Operation.{claiming}
use rclone_sync_hub_go_backe.TaskRepository.RowStep.{
  RowStep, finalize_queued, finalize_abandoned, exhaust, take, Evolves,
}
use rclone_sync_hub_go_backe.TaskRepository.Moves.{
  Moves-refl, Anything, Reached, update-Reached, Evolves-Final, updated_rows,
}

-- After an update that makes its own condition false no row meets it.
Member-patch :
    (p : UploadTask → Bool) (f : UploadTask → UploadTask)
    → ((t : UploadTask) → p (f t) ≡ false)
    → (ts : List UploadTask) (u : UploadTask) → Member u (map (patch p f) ts)
    → p u ≡ false
Member-patch p f h [] u m = absurd m
Member-patch p f h (t ∷ ts) u (inl e) = elim (Bool-cases (p t)) [
  | inl k ↦ subst (λ v. p v ≡ false) (sym e) (rw k (h t))
  | inr k ↦ subst (λ v. p v ≡ false) (sym e) (rw k k)
]
Member-patch p f h (t ∷ ts) u (inr m) = Member-patch p f h ts u m

module _ (S : Sql) where
  open S use {
    Db, tasks, updates, first, first_law, first_unlocked, first_unlocked_law, locked, preload,
    primary_key, begin, commit,
  }

  -- The rows that have the id of a row of the table are that row.
  pub same_row :
      (db : Db) (t u : UploadTask)
      → Member t (tasks db)
      → Member u (tasks db)
      → by_id t.id u ≡ true
      → t ≡ u
  same_row db t u mt mu h = primary_key db t u mt mu (sym ((==_iff u.id t.id).0 h))

  -- What a select that did not fail has picked.
  pub Picked-first :
      (p : UploadTask → Bool) (db : Db) (o : Option UploadTask)
      → first p db ≡ ok o
      → Picked p (λ t u. ltb t.id u.id) (λ u. Bool.false) (tasks db) o
  Picked-first p db o e = subst (Read (Picked p _ _ (tasks db))) e (first_law p db)

  pub Picked-unlocked :
      (p : UploadTask → Bool) (before : UploadTask → UploadTask → Bool) (db : Db)
      (o : Option UploadTask)
      → first_unlocked p before db ≡ ok o
      → Picked p before (locked db) (tasks db) o
  Picked-unlocked p before db o e =
      subst (Read (Picked p before (locked db) (tasks db))) e (first_unlocked_law p before db)

  module _ (now : ℕ) (owner : Text) (d m : ℕ) (start : List UploadTask) where
    abbrev Claims : Db → Type 0
    Claims = Reached S (claiming now owner d m) start

    abbrev Kept : {A : Type 0} → A → Db → Type 0
    Kept a db = Claims db

    reload-Claims : (id : ℕ) (db : Db) → Claims db → Ends Kept Anything (reload S id db)
    reload-Claims id db h =
        Ends-bind-read Kept Anything (first (by_id id)) _ db (λ e. tt)
          λ found _.
            Ends-bind-read Kept Anything (λ _. required found) _ db (λ e. tt)
              λ t _. Ends-bind-read Kept Anything (preload t) _ db (λ e. tt) (λ f _. h)

    take_claim-Claims :
        (o : Option UploadTask) (db : Db)
        → Claims db
        → Picked (claimable now (effective_attempts m)) claim_order (locked db) (tasks db) o
        → Ends Kept Anything (take_claim S now owner (now + d) o db)
    unfolding take_claim
    take_claim-Claims none db h p = tt
    take_claim-Claims (some t) db h p =
        Ends-bind-write Kept Anything (updates (by_id t.id) (claim now owner (now + d))) _ db
          (λ e. tt)
          λ n db' e. reload-Claims t.id db' (
            update-Reached S (claiming now owner d m) start (by_id t.id) (claim now owner (now + d))
              db n db' e h
              (λ u mu k. take u (
                subst (λ v. claimable now (effective_attempts m) v ≡ true)
                  (same_row db t u p.0 mu k) p.1)))

    claim_body-Claims :
        (db : Db)
        → Claims db
        → Ends Kept Anything (claim_body S now owner d (effective_attempts m) db)
    unfolding claim_body
    claim_body-Claims db h =
        Ends-bind-write Kept Anything (updates queued_cancellation (cancel_queued now)) _ db
          (λ e. tt)
          λ n db1 e1.
            Ends-bind-write Kept Anything
              (updates (abandoned_cancellation now) (cancel_abandoned now)) _ db1 (λ e. tt)
              λ n2 db2 e2.
                Ends-bind-write Kept Anything
                  (updates (exhausted now (effective_attempts m)) (fail_exhausted now)) _ db2
                  (λ e. tt)
                  λ n3 db3 e3.
                    Ends-bind-read Kept Anything
                      (first_unlocked (claimable now (effective_attempts m)) claim_order) _ db3
                      (λ e. tt)
                      λ o e4.
                        take_claim-Claims o db3
                          (after e3
                            (after e2 (after e1 h (λ u mu k. finalize_queued u k))
                              (λ u mu k. finalize_abandoned u k))
                            (λ u mu k. exhaust u k (uncanceled db1 n2 db2 e2 u mu k)))
                          (Picked-unlocked _ _ db3 o e4)
      where
        -- The second update has left no cancellation on a row that the third one fails.
        uncanceled :
            (a : Db) (n : ℕ) (b : Db)
            → updates (abandoned_cancellation now) (cancel_abandoned now) a ≡ ok (n, b)
            → (u : UploadTask) → Member u (tasks b)
            → exhausted now (effective_attempts m) u ≡ true
            → is_none u.cancel_requested_at ≡ true
        uncanceled a n b e u mu k =
            let none_left : abandoned_cancellation now u ≡ false =
              Member-patch (abandoned_cancellation now) (cancel_abandoned now) (λ t. ground arith)
                (tasks a) u (subst (Member u) (updated_rows S _ _ a n b e) mu) in
            ground arith

        after :
            {p : UploadTask → Bool} {f : UploadTask → UploadTask} {a b : Db} {n : ℕ}
            → updates p f a ≡ ok (n, b)
            → Claims a
            → ((u : UploadTask)
                → Member u (tasks a)
                → p u ≡ true
                → RowStep (claiming now owner d m) u (f u))
            → Claims b
        after {p} {f} {a} {b} {n} e k s =
            update-Reached S (claiming now owner d m) start p f a n b e k s

  pub claim_next-Evolves :
      (now : ℕ) (owner : Text) (d m : ℕ) (db : Db)
      → Evolves (claiming now owner d m) (tasks db) (tasks (claim_next S now owner d m db).1)
  unfolding claim_next
  claim_next-Evolves now owner d m db = Evolves-Final S (claiming now owner d m) db _ (
      Final-transact (Kept now owner d m (tasks db)) Anything begin commit
        (claim_body S now owner d (effective_attempts m)) db (λ e. tt)
        (claim_body-Claims now owner d m (tasks db) db (Moves-refl _ (tasks db))))
