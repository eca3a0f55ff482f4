-- ===== src/TaskRepository/Moves.antt =====
-- Pointwise moves of a table, and the rules that build them from the statements of a transaction.
use rclone_sync_hub_go_backe.Prelude.{
  ℕ, not, select, ◌≡◌, true, refl, sym, inl, inr, subst, Bool, List, [], ◌∷◌, map, Member, All,
  Bool-cases, ◌++◌,
}
use rclone_sync_hub_go_backe.Model.{UploadTask}
use rclone_sync_hub_go_backe.Database.Statement.{Sql, Result, ok, patch, Ran, Ran-map}
use rclone_sync_hub_go_backe.Database.Transaction.{Final, Final-single, single}
use rclone_sync_hub_go_backe.TaskRepository.Operation.{Operation}
use rclone_sync_hub_go_backe.TaskRepository.RowStep.{
  RowStep, RowSteps, here, next, Adds, Deletes, Evolves, empty, row, gone, new,
}

pub data Moves (o : Operation) : List UploadTask → List UploadTask → Type 0 where
  none : Moves o [] []
  move :
      {t u : UploadTask} {ts us : List UploadTask}
      → RowSteps o t u
      → Moves o ts us
      → Moves o (t ∷ ts) (u ∷ us)

pub Moves-refl : (o : Operation) (ts : List UploadTask) → Moves o ts ts
Moves-refl o [] = none
Moves-refl o (t ∷ ts) = move here (Moves-refl o ts)

pub Evolves-Moves : {o : Operation} {ts us : List UploadTask} → Moves o ts us → Evolves o ts us
Evolves-Moves none = empty
Evolves-Moves (move r m) = row r (Evolves-Moves m)

pub Evolves-refl : (o : Operation) (ts : List UploadTask) → Evolves o ts ts
Evolves-refl o ts = Evolves-Moves (Moves-refl o ts)

patch-steps :
    {o : Operation} {t : UploadTask} (u : UploadTask) (p : UploadTask → Bool)
    (f : UploadTask → UploadTask)
    → RowSteps o t u
    → (p u ≡ true → RowStep o u (f u))
    → RowSteps o t (patch p f u)
patch-steps u p f r h = elim (Bool-cases (p u)) [ inl e ↦ rw e (next r (h e)) | inr e ↦ rw e r ]

pub Moves-update :
    {o : Operation} {ts us : List UploadTask} (p : UploadTask → Bool) (f : UploadTask → UploadTask)
    → Moves o ts us
    → ((u : UploadTask) → Member u us → p u ≡ true → RowStep o u (f u))
    → Moves o ts (map (patch p f) us)
Moves-update p f none h = none
Moves-update p f (move {u = u} r m) h =
    move (patch-steps u p f r (h u (inl refl))) (Moves-update p f m (λ v k. h v (inr k)))

pub Evolves-append :
    {o : Operation} (ts added : List UploadTask) → All (Adds o) added → Evolves o ts (ts ++ added)
Evolves-append [] [] h = empty
Evolves-append [] (a ∷ added) h = new h.0 (Evolves-append [] added h.1)
Evolves-append (t ∷ ts) added h = row here (Evolves-append ts added h)

abbrev pub Anything : {A : Type 0} → A → Type 0
Anything a = Unit

pub updated_rows :
    (S : Sql) (p : UploadTask → Bool) (f : UploadTask → UploadTask) (db : S.Db) (n : ℕ) (db' : S.Db)
    → S.updates p f db ≡ ok (n, db')
    → S.tasks db' ≡ map (patch p f) (S.tasks db)
updated_rows S p f db n db' e = subst (Ran (λ k d. S.tasks d ≡ map (patch p f) (S.tasks db))) e (
    Ran-map _ (λ k d. S.tasks d ≡ map (patch p f) (S.tasks db)) (S.updates p f db) (λ k d h. h.0)
      (S.updates_law p f db))

-- Every statement keeps the table within reach of the one that the call found.
module _ (S : Sql) (o : Operation) (start : List UploadTask) where
  open S use {Db, tasks, updates, updates_law}

  abbrev pub Reached : Db → Type 0
  Reached db = Moves o start (tasks db)

  pub updates-Reached :
      (p : UploadTask → Bool) (f : UploadTask → UploadTask) (db : Db)
      → Reached db
      → ((u : UploadTask) → Member u (tasks db) → p u ≡ true → RowStep o u (f u))
      → Ran (λ n d. Reached d) (updates p f db)
  updates-Reached p f db m h =
      Ran-map _ (λ n d. Reached d) (updates p f db)
        (λ n d k. subst (Moves o start) (sym k.0) (Moves-update p f m h)) (updates_law p f db)

  pub update-Reached :
      (p : UploadTask → Bool) (f : UploadTask → UploadTask) (db : Db) (n : ℕ) (db' : Db)
      → updates p f db ≡ ok (n, db')
      → Reached db
      → ((u : UploadTask) → Member u (tasks db) → p u ≡ true → RowStep o u (f u))
      → Reached db'
  update-Reached p f db n db' e m h = subst (Ran (λ n d. Reached d)) e (updates-Reached p f db m h)

-- A call that wrote in one transaction, or in one statement, has left a table within reach.
module _ (S : Sql) (o : Operation) where
  open S use {Db, tasks, updates}

  pub Moves-Final :
      {R : Type 0} (start : List UploadTask) (db : Db) (x : Result R × Db)
      → Moves o start (tasks db)
      → Final (λ r d. Moves o start (tasks d)) Anything db x
      → Moves o start (tasks x.1)
  Moves-Final start db x m (inl h) = rw h.0 m
  Moves-Final start db x m (inr h) = h.2

  pub Evolves-Final :
      {R : Type 0} (db : Db) (x : Result R × Db)
      → Final (λ r d. Moves o (tasks db) (tasks d)) Anything db x
      → Evolves o (tasks db) (tasks x.1)
  Evolves-Final db x h = Evolves-Moves (Moves-Final (tasks db) db x (Moves-refl o (tasks db)) h)

  pub single-Reached :
      (start : List UploadTask) (db : Db) (p : UploadTask → Bool) (f : UploadTask → UploadTask)
      → Moves o start (tasks db)
      → ((u : UploadTask) → Member u (tasks db) → p u ≡ true → RowStep o u (f u))
      → Moves o start (tasks (single (updates p f) db).1)
  single-Reached start db p f m h = Moves-Final start db (single (updates p f) db) m (
      Final-single (λ n d. Moves o start (tasks d)) Anything (updates p f) db (λ e. tt)
        (updates-Reached S o start p f db m h))

  pub Evolves-single :
      (db : Db) (p : UploadTask → Bool) (f : UploadTask → UploadTask)
      → ((u : UploadTask) → Member u (tasks db) → p u ≡ true → RowStep o u (f u))
      → Evolves o (tasks db) (tasks (single (updates p f) db).1)
  Evolves-single db p f h =
      Evolves-Moves (single-Reached (tasks db) db p f (Moves-refl o (tasks db)) h)

-- What a DELETE leaves.
pub Evolves-select :
    {o : Operation} (p : UploadTask → Bool) (ts : List UploadTask)
    → ((t : UploadTask) → p t ≡ true → Deletes o t)
    → Evolves o ts (select (λ t. not (p t)) ts)
Evolves-select p [] h = empty
Evolves-select p (t ∷ ts) h = elim (Bool-cases (p t)) [
  | inl e ↦ rw e (gone (h t e) (Evolves-select p ts h))
  | inr e ↦ rw e (row here (Evolves-select p ts h))
]
