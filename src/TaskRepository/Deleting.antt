-- ===== src/TaskRepository/Deleting.antt =====
-- What DeleteMany promises for each requested task.
use rclone_sync_hub_go_backe.Prelude.{
  has_id, ◌⊎◌, ℕ, Bool, true, false, not, ◌&&◌, ◌||◌, ◌==◌, ◌≡◌, refl, sym, subst, ap, ◌∙◌, Option,
  none, some, List, [], ◌∷◌, select, some_of, some_of-Member, Member, Bool-cases, ==_iff, inl, inr,
  arith, if◌then◌else◌,
}
use rclone_sync_hub_go_backe.Model.{UploadTask, is, running}
use rclone_sync_hub_go_backe.Database.Outcome.{Err, Result, ok, err, not_found, conflict, Ran, Read}
use rclone_sync_hub_go_backe.Database.Statement.{Sql}
use rclone_sync_hub_go_backe.Database.Transaction.{
  Ends, Ends-bind-read, Ends-bind-write, Final, Final-transact,
}
use rclone_sync_hub_go_backe.TaskRepository.{
  Rejections, rejection, put, remove, all_missing, reject_running, deletable_ids, in_ids,
  delete_listed, delete_many,
}
use rclone_sync_hub_go_backe.TaskRepository.Rows.{by_id}

rejection-put :
    (id j : ℕ) (e : Err) (m : Rejections)
    → rejection id (put j e m) ≡ (if j == id then some e else rejection id m)
rejection-put id j e [] = refl
rejection-put id j e ((i, d) ∷ m) = ground (arith, rejection-put id j e m)

rejection-remove :
    (id j : ℕ) (m : Rejections)
    → rejection id (remove j m) ≡ (if j == id then none else rejection id m)
rejection-remove id j [] = ground arith
rejection-remove id j ((i, d) ∷ m) = ground (arith, rejection-remove id j m)

rejection-all_missing :
    (id : ℕ) (ids : List ℕ) → has_id id ids ≡ true → rejection id (all_missing ids) ≡ some not_found
unfolding all_missing
rejection-all_missing id [] h = cc
rejection-all_missing id (i ∷ ids) h =
    rejection-put id i not_found (all_missing ids) ∙ (elim (Bool-cases (i == id)) [
      | inl e ↦ rw e refl
      | inr e ↦ rw e (rejection-all_missing id ids (ground arith))
    ])

-- One row found.
abbrev noted : Rejections → UploadTask → Rejections
noted m t = if is t.status running then put t.id conflict m else remove t.id m

noted-other :
    (id : ℕ) (m : Rejections) (t : UploadTask)
    → (t.id == id) ≡ false
    → rejection id (noted m t) ≡ rejection id m
noted-other id m t h = elim (Bool-cases (is t.status running)) [
  | inl e ↦
      rw e
        (rejection-put id t.id conflict m ∙ ap (λ b. if b then some conflict else rejection id m) h)
  | inr e ↦ rw e (rejection-remove id t.id m ∙ ap (λ b. if b then none else rejection id m) h)
]

-- The rejection that the state of a task calls for.
abbrev verdict : Bool → Option Err
verdict b = if b then some conflict else none

noted-same :
    (id : ℕ) (m : Rejections) (t : UploadTask)
    → (t.id == id) ≡ true
    → rejection id (noted m t) ≡ verdict (is t.status running)
noted-same id m t h = elim (Bool-cases (is t.status running)) [
  | inl e ↦
      rw e
        (rejection-put id t.id conflict m ∙ ap (λ b. if b then some conflict else rejection id m) h)
  | inr e ↦ rw e (rejection-remove id t.id m ∙ ap (λ b. if b then none else rejection id m) h)
]

reject_running-other :
    (id : ℕ) (m : Rejections) (ts : List UploadTask)
    → some_of (by_id id) ts ≡ false
    → rejection id (reject_running m ts) ≡ rejection id m
unfolding reject_running
reject_running-other id m [] h = refl
reject_running-other id m (t ∷ ts) h =
    reject_running-other id (noted m t) ts (ground arith) ∙ noted-other id m t (ground arith)

reject_running-found :
    (id : ℕ) (b : Bool) (m : Rejections) (ts : List UploadTask)
    → ((u : UploadTask) → Member u ts → u.id ≡ id → is u.status running ≡ b)
    → some_of (by_id id) ts ≡ true
    → rejection id (reject_running m ts) ≡ verdict b
unfolding reject_running
reject_running-found id b m [] s h = cc
reject_running-found id b m (t ∷ ts) s h = elim (Bool-cases (some_of (by_id id) ts)) [
  | inl e ↦ reject_running-found id b (noted m t) ts (λ u k. s u (inr k)) e
  | inr e ↦
      let here : (t.id == id) ≡ true = this_one e h in
      reject_running-other id (noted m t) ts e
      ∙ noted-same id m t here
      ∙ ap verdict (s t (inl refl) ((==_iff t.id id).0 here))
]
  where
    this_one :
        some_of (by_id id) ts ≡ false
        → (t.id == id || some_of (by_id id) ts) ≡ true
        → (t.id == id) ≡ true
    this_one a c = ground arith

requested :
    (ids : List ℕ) (t : UploadTask) (id : ℕ)
    → t.id ≡ id
    → has_id id ids ≡ true
    → in_ids ids t ≡ true
requested [] t id e h = cc
requested (i ∷ ids) t id e h = ground (arith, requested ids t id)

-- The select finds a requested task where the table has it.
found_there :
    (ids : List ℕ) (id : ℕ) (ts : List UploadTask)
    → has_id id ids ≡ true
    → some_of (by_id id) (select (in_ids ids) ts) ≡ some_of (by_id id) ts
found_there ids id [] h = refl
found_there ids id (t ∷ ts) h = elim (Bool-cases (in_ids ids t)) [
  | inl e ↦ rw e (ap (λ b. t.id == id || b) (found_there ids id ts h))
  | inr e ↦ rw e (absent (found_there ids id ts h) (elsewhere e))
]
  where
    elsewhere : in_ids ids t ≡ false → (t.id == id) ≡ false
    elsewhere e = elim (Bool-cases (t.id == id)) [
      | inl k ↦ absurd (clash (requested ids t id ((==_iff t.id id).0 k) h))
      | inr k ↦ k
    ]
      where
        clash : in_ids ids t ≡ true → ⊥
        clash k = cc

    absent :
        some_of (by_id id) (select (in_ids ids) ts) ≡ some_of (by_id id) ts
        → (t.id == id) ≡ false
        → some_of (by_id id) (select (in_ids ids) ts) ≡ (t.id == id || some_of (by_id id) ts)
    absent a k = ground arith

-- What is found is in the table and was asked for.
Member-select :
    (p : UploadTask → Bool) (ts : List UploadTask) (t : UploadTask)
    → Member t (select p ts)
    → Member t ts
Member-select p [] t m = absurd m
Member-select p (u ∷ ts) t m = by_test (Bool-cases (p u)) (Member-select p ts t)
  where
    by_test :
        (p u ≡ true) ⊎ (p u ≡ false) → (Member t (select p ts) → Member t ts) → Member t (u ∷ ts)
    by_test (inl e) k =
        split (subst (λ b. Member t (if b then u ∷ select p ts else select p ts)) e m)
      where
        split : Member t (u ∷ select p ts) → Member t (u ∷ ts)
        split (inl x) = inl x
        split (inr x) = inr (k x)
    by_test (inr e) k =
        inr (k (subst (λ b. Member t (if b then u ∷ select p ts else select p ts)) e m))

select-Member :
    (p : UploadTask → Bool) (ts : List UploadTask) (t : UploadTask)
    → Member t ts
    → p t ≡ true
    → Member t (select p ts)
select-Member p [] t m e = absurd m
select-Member p (u ∷ ts) t (inl x) e = rw (subst (λ v. p v ≡ true) x e) (inl x)
select-Member p (u ∷ ts) t (inr m) e = elim (Bool-cases (p u)) [
  | inl k ↦ rw k (inr (select-Member p ts t m e))
  | inr k ↦ rw k (select-Member p ts t m e)
]

-- A task that was found and does not run is deleted.
listed_if_idle :
    (t : UploadTask) (ts : List UploadTask)
    → Member t ts
    → is t.status running ≡ false
    → in_ids (deletable_ids ts) t ≡ true
unfolding deletable_ids
listed_if_idle t [] m e = absurd m
listed_if_idle t (u ∷ ts) (inl x) e =
    rw (subst (λ (v : UploadTask). is v.status running ≡ false) x e)
      (same (ap (λ (v : UploadTask). v.id) x))
  where
    same : t.id ≡ u.id → (t.id == u.id || in_ids (deletable_ids ts) t) ≡ true
    same h = ground arith
listed_if_idle t (u ∷ ts) (inr m) e = elim (Bool-cases (is u.status running)) [
  | inl k ↦ rw k (listed_if_idle t ts m e)
  | inr k ↦ rw k (either_way (listed_if_idle t ts m e))
]
  where
    either_way :
        in_ids (deletable_ids ts) t ≡ true → (t.id == u.id || in_ids (deletable_ids ts) t) ≡ true
    either_way h = ground arith

removed :
    (p : UploadTask → Bool) (id : ℕ) (ts : List UploadTask)
    → ((u : UploadTask) → Member u ts → u.id ≡ id → p u ≡ true)
    → some_of (by_id id) (select (λ u. not (p u)) ts) ≡ false
removed p id [] h = refl
removed p id (t ∷ ts) h = elim (Bool-cases (p t)) [
  | inl e ↦ rw e (removed p id ts (λ u m. h u (inr m)))
  | inr e ↦ rw e (other_row (removed p id ts (λ u m. h u (inr m))) (λ k. h t (inl refl) k) e)
]
  where
    other_row :
        some_of (by_id id) (select (λ u. not (p u)) ts) ≡ false
        → (t.id ≡ id → p t ≡ true)
        → p t ≡ false
        → (t.id == id || some_of (by_id id) (select (λ u. not (p u)) ts)) ≡ false
    other_row a b c = ground arith

-- Without a commit there is an error.
abbrev pub NoDeletion : Result Rejections → Type 0
NoDeletion (ok m) = ⊥
NoDeletion (err e) = Unit

-- What the answer for a requested task says: it is deleted, was not there, or runs and is still
-- there.
abbrev pub Settled : ℕ → List UploadTask → List UploadTask → Option Err → Type 0
Settled id before after none =
    (some_of (by_id id) before ≡ true) × (some_of (by_id id) after ≡ false)
Settled id before after (some not_found) = some_of (by_id id) before ≡ false
Settled id before after (some conflict) =
    (t : UploadTask) × Member t before × Member t after × (t.id ≡ id) × (is t.status running ≡ true)
Settled id before after (some _) = ⊥

module _ (S : Sql) (db : S.Db) where
  open S use {Db, tasks, primary_key, find, find_law, delete, delete_law, begin, commit}

  -- The rows that the DELETE takes.
  abbrev taken : List UploadTask → UploadTask → Bool
  taken found t = in_ids (deletable_ids found) t && not (is t.status running)

  module _ (ids : List ℕ) where
    abbrev found : List UploadTask
    found = select (in_ids ids) (tasks db)

    settled :
        (id : ℕ) (after : List UploadTask)
        → has_id id ids ≡ true
        → after ≡ select (λ t. not (taken found t)) (tasks db)
        → Settled id (tasks db) after (rejection id (reject_running (all_missing ids) found))
    settled id after h e = elim (Bool-cases (some_of (by_id id) (tasks db))) [
      | inl there ↦ present (some_of-Member (by_id id) (tasks db) there) there
      | inr gone ↦
          subst (Settled id (tasks db) after)
            (sym (
              reject_running-other id (all_missing ids) found
                (found_there ids id (tasks db) h ∙ gone)
              ∙ rejection-all_missing id ids h))
            gone
    ]
      where
        present :
            (t : UploadTask) × Member t (tasks db) × (by_id id t ≡ true)
            → some_of (by_id id) (tasks db) ≡ true
            → Settled id (tasks db) after (rejection id (reject_running (all_missing ids) found))
        present (t, m, k) there =
            subst (Settled id (tasks db) after)
              (sym (
                reject_running-found id (is t.status running) (all_missing ids) found
                  (λ u n i.
                    ap (λ (v : UploadTask). is v.status running)
                      (primary_key db u t (Member-select (in_ids ids) (tasks db) u n) m
                        (i ∙ sym ((==_iff t.id id).0 k))))
                  (found_there ids id (tasks db) h ∙ there)))
              (by_state (Bool-cases (is t.status running)))
          where
            same_id : t.id ≡ id
            same_id = (==_iff t.id id).0 k

            stays : is t.status running ≡ true → not (taken found t) ≡ true
            stays r = ground arith

            goes :
                (u : UploadTask)
                → in_ids (deletable_ids found) t ≡ true
                → is t.status running ≡ false
                → t ≡ u
                → taken found u ≡ true
            goes u a b x = subst (λ v. taken found v ≡ true) x (both a b)
              where
                both :
                    in_ids (deletable_ids found) t ≡ true
                    → is t.status running ≡ false
                    → taken found t ≡ true
                both a b = ground arith

            by_state :
                (is t.status running ≡ true) ⊎ (is t.status running ≡ false)
                → Settled id (tasks db) after (verdict (is t.status running))
            by_state (inl r) = rw r (
              t,
              m,
              subst (Member t) (sym e) (select-Member _ (tasks db) t m (stays r)),
              same_id,
              r,
            )
            by_state (inr r) = rw r (
              there,
              subst (λ ts. some_of (by_id id) ts ≡ false) (sym e)
                  (removed (taken found) id (tasks db) λ u n i.
                    goes u
                      (listed_if_idle t found
                        (select-Member (in_ids ids) (tasks db) t m (requested ids t id same_id h))
                        r)
                      r (primary_key db t u m n (same_id ∙ sym i))),
            )

    -- Every answer is right, and the table has lost the rows that are not rejected alone.
    pub record IsDeletion (m : Rejections) (db' : Db) : Type 0 where
      pub answers :
          (id : ℕ) → has_id id ids ≡ true → Settled id (tasks db) (tasks db') (rejection id m)
      pub rows : tasks db' ≡ select (λ t. not (taken found t)) (tasks db)

    none_taken :
        (ts : List UploadTask)
        → ts ≡ select (λ t. not (in_ids [] t && not (is t.status running))) ts
    none_taken [] = refl
    none_taken (t ∷ ts) = ap (λ us. t ∷ us) (none_taken ts)

    delete_listed-Post :
        (chosen : List ℕ)
        → deletable_ids found ≡ chosen
        → Ends IsDeletion NoDeletion
            (delete_listed S (reject_running (all_missing ids) found) chosen db)
    unfolding delete_listed
    delete_listed-Post [] e =
        let rows =
          none_taken (tasks db)
          ∙ ap
              (λ (c : List ℕ).
                select (λ t. not (in_ids c t && not (is t.status running))) (tasks db))
              (sym e) in
        record { answers = λ id h. settled id (tasks db) h rows; rows = rows }
    delete_listed-Post (i ∷ rest) e =
        Ends-bind-write IsDeletion NoDeletion
          (delete (λ t. in_ids (i ∷ rest) t && not (is t.status running))) _ db (λ x. tt)
          λ n d k.
            let law =
              subst
                (Ran (λ n d'.
                  (tasks d'
                    ≡ select (λ t. not (in_ids (i ∷ rest) t && not (is t.status running)))
                        (tasks db))
                  × _
                  × _))
                k (delete_law (λ t. in_ids (i ∷ rest) t && not (is t.status running)) db) in
            let rows =
              law.0
              ∙ ap
                  (λ (c : List ℕ).
                    select (λ t. not (in_ids c t && not (is t.status running))) (tasks db))
                  (sym e) in
            record { answers = λ id h. settled id (tasks d) h rows; rows = rows }

  -- Either DeleteMany commits: of the requested tasks, one without a rejection was there and is
  -- gone, one that is rejected as missing was not there, and one that is rejected for a conflict
  -- runs and is still there; no other row goes. Or it returns an error and leaves the database as
  -- it was.
  pub delete_many_lem :
      (id : ℕ) (ids : List ℕ)
      → Final (IsDeletion (id ∷ ids)) NoDeletion db (delete_many S (id ∷ ids) db)
  unfolding delete_many
  delete_many_lem id ids =
      Final-transact (IsDeletion (id ∷ ids)) NoDeletion begin commit _ db (λ e. tt)
        (Ends-bind-read (IsDeletion (id ∷ ids)) NoDeletion (find (in_ids (id ∷ ids))) _ db (λ e. tt)
          λ f e.
            let same =
              subst (Read (λ l. l ≡ select (in_ids (id ∷ ids)) (tasks db))) e
                (find_law (in_ids (id ∷ ids)) db) in
            subst
              (λ l.
                Ends (IsDeletion (id ∷ ids)) NoDeletion (
                  delete_listed S (reject_running (all_missing (id ∷ ids)) l) (deletable_ids l) db))
              (sym same) (delete_listed-Post (id ∷ ids) (deletable_ids (found (id ∷ ids))) refl))
