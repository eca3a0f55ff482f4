-- ===== src/TaskRepository/Claims.antt =====
-- What ClaimNext promises: which task it hands out, in which state, and what it leaves.
use rclone_sync_hub_go_backe.Prelude.{
  some_of, some_of-none, false, ℕ, ◌+◌, Text, ◌≡◌, true, refl, sym, ap, ◌∙◌, ◌⊎◌, subst, Option,
  none, some, List, [], ◌∷◌, map, Bool-cases, All, Member, inl, inr, arith,
}
use rclone_sync_hub_go_backe.Model.{UploadTask}
use rclone_sync_hub_go_backe.Database.Statement.{Sql, Result, ok, err, Picked, patch}
use rclone_sync_hub_go_backe.Database.Transaction.{
  Ends, Ends-bind-write, Ends-bind-read, Final, Final-transact,
}
use rclone_sync_hub_go_backe.TaskRepository.{
  Claimed, required, effective_attempts, take_claim, claim_body, claim_next,
}
use rclone_sync_hub_go_backe.TaskRepository.Rows.{
  queued_cancellation, cancel_queued, abandoned_cancellation, cancel_abandoned, exhausted,
  fail_exhausted, claimable, claim, claim_order, by_id,
}
use rclone_sync_hub_go_backe.TaskRepository.Moves.{updated_rows}
use rclone_sync_hub_go_backe.TaskRepository.Written.{
  IsClaimed, claim-IsClaimed, IsDue, claimable-IsDue, Precedes, claim_order-Precedes, IsSwept,
  IsSwept-tests,
}
use rclone_sync_hub_go_backe.TaskRepository.Refines.{same_row, Picked-first, Picked-unlocked}

-- The three updates before the select, on one row.
abbrev pub sweep : ℕ → ℕ → UploadTask → UploadTask
sweep now n t = patch (exhausted now n) (fail_exhausted now) (
    patch (abandoned_cancellation now) (cancel_abandoned now)
      (patch queued_cancellation (cancel_queued now) t))

-- Each of the three updates leaves no row that it or one before it is for.
queued-swept :
    (now : ℕ) (t : UploadTask)
    → queued_cancellation (patch queued_cancellation (cancel_queued now) t) ≡ false
queued-swept now t = elim (Bool-cases (queued_cancellation t)) [
  | inl e ↦ rw e refl
  | inr e ↦ rw e e
]

abandoned-swept :
    (now : ℕ) (t : UploadTask)
    → queued_cancellation t ≡ false
    → (queued_cancellation (patch (abandoned_cancellation now) (cancel_abandoned now) t) ≡ false)
      × (abandoned_cancellation now (patch (abandoned_cancellation now) (cancel_abandoned now) t)
          ≡ false)
abandoned-swept now t q = elim (Bool-cases (abandoned_cancellation now t)) [
  | inl e ↦ rw e (refl, refl)
  | inr e ↦ rw e (q, e)
]

exhausted-swept :
    (now n : ℕ) (t : UploadTask)
    → queued_cancellation t ≡ false
    → abandoned_cancellation now t ≡ false
    → (queued_cancellation (patch (exhausted now n) (fail_exhausted now) t) ≡ false)
      × (abandoned_cancellation now (patch (exhausted now n) (fail_exhausted now) t) ≡ false)
      × (exhausted now n (patch (exhausted now n) (fail_exhausted now) t) ≡ false)
exhausted-swept now n t q a = elim (Bool-cases (exhausted now n t)) [
  | inl e ↦ rw e (ground arith, refl, refl)
  | inr e ↦ rw e (q, a, e)
]

sweep-IsSwept : (now n : ℕ) (t : UploadTask) → IsSwept now n (sweep now n t)
sweep-IsSwept now n t =
    let q = queued-swept now t in
    let a = abandoned-swept now (patch queued_cancellation (cancel_queued now) t) q in
    let x =
      exhausted-swept now n
        (patch (abandoned_cancellation now) (cancel_abandoned now)
          (patch queued_cancellation (cancel_queued now) t))
        a.0 a.1 in
    IsSwept-tests now n (sweep now n t) x.0 x.1 x.2

All-map :
    (P : UploadTask → Type 0) (f : UploadTask → UploadTask) (ts : List UploadTask)
    → ((t : UploadTask) → P (f t))
    → All P (map f ts)
All-map P f [] h = tt
All-map P f (t ∷ ts) h = (h t, All-map P f ts h)

map-map₃ :
    (f g h : UploadTask → UploadTask) (ts : List UploadTask)
    → map f (map g (map h ts)) ≡ map (λ t. f (g (h t))) ts
map-map₃ f g h [] = refl
map-map₃ f g h (t ∷ ts) = ap (λ us. f (g (h t)) ∷ us) (map-map₃ f g h ts)

pub required-ok {ℓ} : {A : Type ℓ} (o : Option A) (a : A) → required o ≡ ok a → o ≡ some a
required-ok none a h = cc
required-ok (some b) a h = cc

-- A row of the table after a patch is the patch of one before.
Member-map :
    (f : UploadTask → UploadTask) (ts : List UploadTask) (u : UploadTask)
    → Member u (map f ts)
    → (t : UploadTask) × Member t ts × (u ≡ f t)
Member-map f [] u m = absurd m
Member-map f (t ∷ ts) u (inl e) = (t, inl refl, e)
Member-map f (t ∷ ts) u (inr m) = let (v, k, e) = Member-map f ts u m in (v, inr k, e)

module _ (S : Sql) (now : ℕ) (owner : Text) (d m : ℕ) (db : S.Db) where
  open S use {Db, tasks, updates, first, first_unlocked, locked, preload, begin, commit}

  abbrev limit : ℕ
  limit = effective_attempts m

  abbrev swept : List UploadTask
  swept = map (sweep now limit) (tasks db)

  -- A claimed task is `old`, a row of the swept table that is due and comes first, by its priority
  -- and then its id, among the claimable ones that no other transaction has locked when the swept
  -- table is read. It runs for the owner with one more attempt, and the new table is the swept one
  -- with that row claimed.
  pub record IsClaim (t : UploadTask) (db' : Db) : Type 0 where
    pub old : UploadTask
    pub was_there : Member old swept
    pub was_claimable : claimable now limit old ≡ true
    pub was_due : IsDue now limit old
    pub is_claimed : IsClaimed now owner d old t
    pub is_stored : Member t (tasks db')
    pub tidy : All (IsSwept now limit) swept
    pub seen : Db
    pub seen_rows : tasks seen ≡ swept
    pub is_foremost :
        (u : UploadTask)
        → Member u swept
        → claimable now limit u ≡ true
        → locked seen u ≡ false
        → Precedes old u
    pub rows : tasks db' ≡ map (patch (by_id old.id) (claim now owner (now + d))) swept

  abbrev ClaimPost : Option Claimed → Db → Type 0
  ClaimPost none db' = ⊥
  ClaimPost (some (t, f)) db' = IsClaim t db'

  -- What ClaimNext answers without a commit: no task, where every claimable row of the swept table
  -- was locked by others, or an error.
  abbrev pub NoClaim : Result (Option Claimed) → Type 0
  NoClaim (ok none) =
      (seen : Db) × (tasks seen ≡ swept)
      × ((u : UploadTask) → Member u swept → claimable now limit u ≡ true → locked seen u ≡ true)
  NoClaim (ok (some c)) = ⊥
  NoClaim (err e) = Unit

  -- The reloaded row is the claimed one: its id is the key.
  claimed_row :
      (old : UploadTask) (db3 db' : Db) (t : UploadTask)
      → Picked (claimable now limit) claim_order (locked db3) (tasks db3) (some old)
      → tasks db3 ≡ swept
      → tasks db' ≡ map (patch (by_id old.id) (claim now owner (now + d))) (tasks db3)
      → Member t (tasks db')
      → by_id old.id t ≡ true
      → IsClaim t db'
  claimed_row old db3 db' t p e3 e' mt k =
      let (v, mv, ev) =
        Member-map (patch (by_id old.id) (claim now owner (now + d))) (tasks db3) t
          (subst (Member t) e' mt) in
      let same : by_id old.id v ≡ true = patched_id v t ev k in
      record {
        old = old;
        was_there = subst (Member old) e3 p.0;
        was_claimable = p.1;
        was_due = claimable-IsDue now limit old p.1;
        is_claimed =
            claim-IsClaimed now owner d old t
              (the_claim v t ev same (same_row S db3 old v p.0 mv same));
        is_stored = mt;
        tidy =
            All-map (IsSwept now limit) (sweep now limit) (tasks db)
              (λ u. sweep-IsSwept now limit u);
        seen = db3;
        seen_rows = e3;
        is_foremost =
            λ u m c l. claim_order-Precedes u old (p.2 u (subst (Member u) (sym e3) m) c l);
        rows = e' ∙ ap (map (patch (by_id old.id) (claim now owner (now + d)))) e3;
      }
    where
      patched_id :
          (v u : UploadTask)
          → u ≡ patch (by_id old.id) (claim now owner (now + d)) v
          → by_id old.id u ≡ true
          → by_id old.id v ≡ true
      patched_id v u e h = ground arith

      the_claim :
          (v u : UploadTask)
          → u ≡ patch (by_id old.id) (claim now owner (now + d)) v
          → by_id old.id v ≡ true
          → old ≡ v
          → u ≡ claim now owner (now + d) old
      the_claim v u e h o = rw o (e ∙ rw h refl)

  take_claim-Post :
      (o : Option UploadTask) (db3 : Db)
      → Picked (claimable now limit) claim_order (locked db3) (tasks db3) o
      → tasks db3 ≡ swept
      → Ends ClaimPost NoClaim (take_claim S now owner (now + d) o db3)
  unfolding take_claim
  take_claim-Post none db3 p e3 = (
    db3,
    e3,
    subst
        (λ rows.
          (u : UploadTask) → Member u rows → claimable now limit u ≡ true → locked db3 u ≡ true)
        e3 p,
  )
  take_claim-Post (some old) db3 p e3 =
      Ends-bind-write ClaimPost NoClaim (updates (by_id old.id) (claim now owner (now + d))) _ db3
        (λ e. tt)
        λ n db' e.
          Ends-bind-read ClaimPost NoClaim (first (by_id old.id)) _ db' (λ x. tt)
            λ found ef.
              Ends-bind-read ClaimPost NoClaim (λ _. required found) _ db' (λ x. tt)
                λ t et.
                  Ends-bind-read ClaimPost NoClaim (preload t) _ db' (λ x. tt)
                    λ f _.
                      let q =
                        Picked-first S (by_id old.id) db' (some t)
                          (ef ∙ ap ok (required-ok found t et)) in
                      claimed_row old db3 db' t p e3 (updated_rows S _ _ db3 n db' e) q.0 q.1

  claim_body-Post : Ends ClaimPost NoClaim (claim_body S now owner d limit db)
  unfolding claim_body
  claim_body-Post =
      Ends-bind-write ClaimPost NoClaim (updates queued_cancellation (cancel_queued now)) _ db
        (λ e. tt)
        λ n db1 e1.
          Ends-bind-write ClaimPost NoClaim
            (updates (abandoned_cancellation now) (cancel_abandoned now)) _ db1 (λ e. tt)
            λ n2 db2 e2.
              Ends-bind-write ClaimPost NoClaim (updates (exhausted now limit) (fail_exhausted now))
                _ db2 (λ e. tt)
                λ n3 db3 e3.
                  Ends-bind-read ClaimPost NoClaim
                    (first_unlocked (claimable now limit) claim_order) _ db3 (λ e. tt)
                    λ o e4. take_claim-Post o db3 (Picked-unlocked S _ _ db3 o e4) (
                      updated_rows S _ _ db2 n3 db3 e3
                      ∙ ap (map _) (
                          updated_rows S _ _ db1 n2 db2 e2
                          ∙ ap (map _) (updated_rows S _ _ db n db1 e1))
                      ∙ map-map₃ _ _ _ (tasks db))

  -- Either ClaimNext commits and returns a task: in the swept table, where no cancellation and no
  -- exhausted task is left to end, its row was due, of the highest priority and then the lowest id
  -- among the claimable rows that were not locked; it is returned as it is stored, running for the
  -- owner under a lease of the given length with one more attempt, and the new table is the swept
  -- one with that row claimed. Or ClaimNext leaves the database as it was, the sweep included, and
  -- returns an error, or no task where every claimable row of the swept table was locked.
  pub claim_next_lem :
      ((c : Claimed) × ((claim_next S now owner d m db).0 ≡ ok (some c))
        × IsClaim c.0 (claim_next S now owner d m db).1)
      ⊎ (((claim_next S now owner d m db).1 ≡ db) × NoClaim (claim_next S now owner d m db).0)
  unfolding claim_next
  claim_next_lem = cases (claim_next S now owner d m db) (
      Final-transact ClaimPost NoClaim begin commit (claim_body S now owner d limit) db (λ e. tt)
        claim_body-Post)
    where
      cases :
          (x : Result (Option Claimed) × Db)
          → Final ClaimPost NoClaim db x
          → ((c : Claimed) × (x.0 ≡ ok (some c)) × IsClaim c.0 x.1) ⊎ ((x.1 ≡ db) × NoClaim x.0)
      cases x (inl h) = inr h
      cases x (inr (none, e, h)) = absurd h
      cases x (inr (some c, e, h)) = inl (c, e, h)

  -- If no row of the swept table is claimable, ClaimNext leaves the database as it was: the tasks
  -- that the sweep cancels or fails are not canceled and not failed.
  pub claim_next-unswept :
      some_of (claimable now limit) swept ≡ false → (claim_next S now owner d m db).1 ≡ db
  claim_next-unswept h = cases claim_next_lem
    where
      clash : (u : UploadTask) → claimable now limit u ≡ true → claimable now limit u ≡ false → ⊥
      clash u k e = cc

      cases :
          ((c : Claimed) × ((claim_next S now owner d m db).0 ≡ ok (some c))
              × IsClaim c.0 (claim_next S now owner d m db).1)
            ⊎ (((claim_next S now owner d m db).1 ≡ db) × NoClaim (claim_next S now owner d m db).0)
          → (claim_next S now owner d m db).1 ≡ db
      cases (inl x) = absurd (
          clash x.2.old x.2.was_claimable
            (some_of-none (claimable now limit) swept x.2.old h x.2.was_there))
      cases (inr x) = x.0
