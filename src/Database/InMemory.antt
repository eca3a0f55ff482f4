-- ===== src/Database/InMemory.antt =====
-- A database in memory that meets the laws of `Sql`: rows with distinct ids, statements that fail
-- where an id would occur twice, no failure otherwise, and no locks.
use rclone_sync_hub_go_backe.Prelude.{
  some_of-none, ℕ, ◌≤◌, ◌<◌, ◌+◌, ◌≡◌, refl, sym, ap, Text, text_eq, Bool, true, false, not, ◌&&◌,
  ◌==◌, ltb, Option, none, some, List, [], ◌∷◌, ◌++◌, map, length, select, some_of, Member, All,
  if◌then◌else◌, Bool-cases, arith, inl, inr, ◌⊎◌, ◌∙◌,
}
use rclone_sync_hub_go_backe.Model.{UploadTask, FileRecord}
use rclone_sync_hub_go_backe.Model.Folders.{
  WatchFolder, FolderPipeline, RemoteRoute, RemoteFileRecord, ScanRun,
}
use rclone_sync_hub_go_backe.Database.Table.{Drops}
use rclone_sync_hub_go_backe.Database.Rows.{
  matching, matching-some_of, drop_some, dropped_count, drop_some-Drops, dropped_count-limit,
  stored_table,
}
use rclone_sync_hub_go_backe.Database.Statement.{
  Result, ok, err, driver, Sql, Ran, Read, Picked, patch,
}

abbrev fresh : ℕ → List UploadTask → Bool
fresh id [] = true
fresh id (t ∷ ts) = not (t.id == id) && fresh id ts

abbrev distinct : List UploadTask → Bool
distinct [] = true
distinct (t ∷ ts) = fresh t.id ts && distinct ts

pub record Memory : Type 0 where
  pub rows : List UploadTask
  pub records : List FileRecord
  pub watched : List WatchFolder
  pub configured : List FolderPipeline
  pub routed : List RemoteRoute
  pub indexed : List RemoteFileRecord
  pub ran : List ScanRun
  pub keyed : distinct rows ≡ true

fresh-Member :
    (id : ℕ) (ts : List UploadTask) (u : UploadTask)
    → fresh id ts ≡ true
    → Member u ts
    → u.id ≡ id
    → ⊥
fresh-Member id [] u h m e = absurd m
fresh-Member id (t ∷ ts) u h (inl k) e =
    let same : u.id ≡ t.id = ap (λ (v : UploadTask). v.id) k in ground arith
fresh-Member id (t ∷ ts) u h (inr m) e = fresh-Member id ts u (ground arith) m e

pub distinct-key :
    (ts : List UploadTask) (t u : UploadTask)
    → distinct ts ≡ true
    → Member t ts
    → Member u ts
    → t.id ≡ u.id
    → t ≡ u
distinct-key [] t u h mt mu e = absurd mt
distinct-key (x ∷ ts) t u h (inl a) (inl b) e = a ∙ sym b
distinct-key (x ∷ ts) t u h (inl a) (inr b) e =
    absurd (fresh-Member x.id ts u (ground arith) b (sym e ∙ ap (λ (v : UploadTask). v.id) a))
distinct-key (x ∷ ts) t u h (inr a) (inl b) e =
    absurd (fresh-Member x.id ts t (ground arith) a (e ∙ ap (λ (v : UploadTask). v.id) b))
distinct-key (x ∷ ts) t u h (inr a) (inr b) e = distinct-key ts t u (ground arith) a b e

-- The table of tasks is stored if its ids are distinct.
abbrev pub with_tasks : Memory → (ts : List UploadTask) → distinct ts ≡ true → Memory
with_tasks m ts h = record {
  rows = ts;
  records = m.records;
  watched = m.watched;
  configured = m.configured;
  routed = m.routed;
  indexed = m.indexed;
  ran = m.ran;
  keyed = h;
}

abbrev store :
    (ts : List UploadTask)
    → Memory
    → ℕ
    → (distinct ts ≡ true) ⊎ (distinct ts ≡ false)
    → Result (ℕ × Memory)
store ts m n (inl h) = ok (n, with_tasks m ts h)
store ts m n (inr h) = err driver

pub store-Ran :
    (ts : List UploadTask) (m : Memory) (n : ℕ) (c : (distinct ts ≡ true) ⊎ (distinct ts ≡ false))
    (Q : ℕ → Memory → Type 0)
    → ((h : distinct ts ≡ true) → Q n (with_tasks m ts h))
    → Ran Q (store ts m n c)
store-Ran ts m n (inl h) Q q = q h
store-Ran ts m n (inr h) Q q = tt

abbrev store_table : List UploadTask → Memory → ℕ → Result (ℕ × Memory)
store_table ts m n = store ts m n (Bool-cases (distinct ts))

-- The first of the rows that meets the condition and has none of `all` before it. A select in an
-- order without such a row fails.
abbrev beaten :
    (UploadTask → Bool) → (UploadTask → UploadTask → Bool) → List UploadTask → UploadTask → Bool
beaten p before all t = some_of (λ u. p u && before u t) all

abbrev foremost :
    (UploadTask → Bool)
    → (UploadTask → UploadTask → Bool)
    → List UploadTask
    → List UploadTask
    → Result (Option UploadTask)
foremost p before all [] = if some_of p all then err driver else ok none
foremost p before all (t ∷ ts) =
    let rest = foremost p before all ts in
    if p t && not (beaten p before all t) then ok (some t) else rest

pub foremost-Picked :
    (p : UploadTask → Bool) (before : UploadTask → UploadTask → Bool) (all ts : List UploadTask)
    → ((u : UploadTask) → Member u ts → Member u all)
    → Read (Picked p before (λ u. false) all) (foremost p before all ts)
foremost-Picked p before all [] h = elim (Bool-cases (some_of p all)) [
  | inl e ↦ rw e tt
  | inr e ↦ rw e (λ u m k. absurd (clash u k (some_of-none p all u e m)))
]
  where
    clash : (u : UploadTask) → p u ≡ true → p u ≡ false → ⊥
    clash u a b = cc
foremost-Picked p before all (t ∷ ts) h = elim (Bool-cases (p t && not (beaten p before all t))) [
  | inl e ↦
      rw e (h t (inl refl), met t e, (λ u m k l. unbeaten u k (some_of-none _ all u (top t e) m)))
  | inr e ↦ rw e (foremost-Picked p before all ts (λ u m. h u (inr m)))
]
  where
    met : (x : UploadTask) → (p x && not (beaten p before all x)) ≡ true → p x ≡ true
    met x e = ground arith

    top :
        (x : UploadTask)
        → (p x && not (beaten p before all x)) ≡ true
        → beaten p before all x ≡ false
    top x e = ground arith

    unbeaten : (u : UploadTask) → p u ≡ true → (p u && before u t) ≡ false → before u t ≡ false
    unbeaten u k e = ground arith

-- The file record of a task.
abbrev record_of : ℕ → List FileRecord → Option FileRecord
record_of id [] = none
record_of id (f ∷ fs) = if f.id == id then some f else record_of id fs

-- INSERT with DO NOTHING: a row whose idempotency key is taken is passed over.
abbrev same_key : Option Text → Option Text → Bool
same_key (some a) (some b) = text_eq a b
same_key _ _ = false

abbrev next_id : List UploadTask → ℕ
next_id [] = 1
next_id (t ∷ ts) = let rest = next_id ts in if ltb t.id rest then rest else t.id + 1

abbrev inserted : List UploadTask → List UploadTask → List UploadTask
inserted rows [] = []
inserted rows (c ∷ cs) =
    if some_of (λ t. same_key t.idempotency_key c.idempotency_key) rows
    then inserted rows cs
    else (let t = record c { id = next_id rows } in t ∷ inserted (rows ++ t ∷ []) cs)

pub inserted-given :
    (given rows cs : List UploadTask)
    → ((c : UploadTask) → Member c cs → Member c given)
    → All (λ t. (c : UploadTask) × Member c given × (t ≡ record c { id = t.id })) (inserted rows cs)
inserted-given given rows [] h = tt
inserted-given given rows (c ∷ cs) h =
    elim (Bool-cases (some_of (λ t. same_key t.idempotency_key c.idempotency_key) rows)) [
      | inl e ↦ rw e (inserted-given given rows cs (λ x m. h x (inr m)))
      | inr e ↦ rw e (
        (c, h c (inl refl), refl),
        inserted-given given (rows ++ record c { id = next_id rows } ∷ []) cs (λ x m. h x (inr m)),
      )
    ]

abbrev pub memory_updates :
    (UploadTask → Bool) → (UploadTask → UploadTask) → Memory → Result (ℕ × Memory)
memory_updates p f m = store_table (map (patch p f) m.rows) m (matching p m.rows)

pub memory_updates_law :
    (p : UploadTask → Bool) (f : UploadTask → UploadTask) (m : Memory)
    → Ran
        (λ n m'.
          (m'.rows ≡ map (patch p f) m.rows)
          × (m'.records ≡ m.records)
          × (ltb 0 n ≡ some_of p m.rows))
        (memory_updates p f m)
memory_updates_law p f m =
    store-Ran (map (patch p f) m.rows) m (matching p m.rows)
      (Bool-cases (distinct (map (patch p f) m.rows)))
      (λ n m'.
        (m'.rows ≡ map (patch p f) m.rows)
        × (m'.records ≡ m.records)
        × (ltb 0 n ≡ some_of p m.rows))
      (λ h. (refl, refl, matching-some_of p m.rows))

abbrev pub memory_delete : (UploadTask → Bool) → Memory → Result (ℕ × Memory)
memory_delete p m = store_table (select (λ t. not (p t)) m.rows) m (matching p m.rows)

pub memory_delete_law :
    (p : UploadTask → Bool) (m : Memory)
    → Ran
        (λ n m'.
          (m'.rows ≡ select (λ t. not (p t)) m.rows)
          × (m'.records ≡ m.records)
          × (ltb 0 n ≡ some_of p m.rows))
        (memory_delete p m)
memory_delete_law p m =
    store-Ran (select (λ t. not (p t)) m.rows) m (matching p m.rows)
      (Bool-cases (distinct (select (λ t. not (p t)) m.rows)))
      (λ n m'.
        (m'.rows ≡ select (λ t. not (p t)) m.rows)
        × (m'.records ≡ m.records)
        × (ltb 0 n ≡ some_of p m.rows))
      (λ h. (refl, refl, matching-some_of p m.rows))

abbrev pub memory_create : List UploadTask → ℕ → Memory → Result (ℕ × Memory)
memory_create given size m =
    store_table (m.rows ++ inserted m.rows given) m (length (inserted m.rows given))

abbrev pub Created : List UploadTask → Memory → ℕ → Memory → Type 0
Created given m n m' =
    (added : List UploadTask) × (m'.rows ≡ m.rows ++ added)
    × (m'.records ≡ m.records)
    × (n ≡ length added)
    × All (λ t. (c : UploadTask) × Member c given × (t ≡ record c { id = t.id })) added

pub memory_create_law :
    (given : List UploadTask) (size : ℕ) (m : Memory)
    → Ran (Created given m) (memory_create given size m)
memory_create_law given size m =
    store-Ran (m.rows ++ inserted m.rows given) m (length (inserted m.rows given))
      (Bool-cases (distinct (m.rows ++ inserted m.rows given))) (Created given m)
      (λ h. (inserted m.rows given, refl, refl, refl, inserted-given given m.rows given (λ c k. k)))

abbrev pub memory_delete_some : (UploadTask → Bool) → ℕ → Memory → Result (ℕ × Memory)
memory_delete_some p limit m =
    store_table (drop_some p limit m.rows) m (dropped_count p limit m.rows)

abbrev pub in_memory : Sql
in_memory = record {
  Db = Memory;
  tasks = λ m. m.rows;
  files = λ m. m.records;
  begin = λ m. ok tt;
  commit = λ m. ok tt;
  updates = memory_updates;
  update_files =
      λ p f m. ok (matching p m.records, record m { records = map (patch p f) m.records });
  delete = memory_delete;
  create = memory_create;
  first = λ p m. foremost p (λ t u. ltb t.id u.id) m.rows m.rows;
  find = λ p m. ok (select p m.rows);
  locked = λ m u. false;
  first_unlocked = λ p before m. foremost p before m.rows m.rows;
  preload = λ t m. ok (record_of t.file_record_id m.records);
  primary_key = λ m t u mt mu e. distinct-key m.rows t u m.keyed mt mu e;
  updates_law = memory_updates_law;
  update_files_law = λ p f m. (refl, refl, matching-some_of p m.records);
  delete_law = memory_delete_law;
  create_law = memory_create_law;
  first_law = λ p m. foremost-Picked p (λ t u. ltb t.id u.id) m.rows m.rows (λ u k. k);
  find_law = λ p m. refl;
  first_unlocked_law = λ p before m. foremost-Picked p before m.rows m.rows (λ u k. k);
  folder_rows = λ m. m.watched;
  pipeline_rows = λ m. m.configured;
  route_rows = λ m. m.routed;
  remote_file_rows = λ m. m.indexed;
  delete_some = memory_delete_some;
  delete_some_law = λ p limit m.
      store-Ran (drop_some p limit m.rows) m (dropped_count p limit m.rows)
        (Bool-cases (distinct (drop_some p limit m.rows)))
        (λ n m'. Drops p m.rows m'.rows n × (n ≤ limit) × (n < limit → some_of p m'.rows ≡ false))
        (λ h. (
          drop_some-Drops p limit m.rows,
          (dropped_count-limit p limit m.rows).0,
          (dropped_count-limit p limit m.rows).1,
        ));
  folders =
      stored_table (λ m. m.watched) (λ rs m. record m { watched = rs }) _ (λ rs m. refl)
        (λ rs m. (refl, refl, refl));
  pipelines =
      stored_table (λ m. m.configured) (λ rs m. record m { configured = rs }) _ (λ rs m. refl)
        (λ rs m. (refl, refl, refl, refl));
  routes =
      stored_table (λ m. m.routed) (λ rs m. record m { routed = rs }) _ (λ rs m. refl)
        (λ rs m. (refl, refl, refl));
  remote_files =
      stored_table (λ m. m.indexed) (λ rs m. record m { indexed = rs }) _ (λ rs m. refl)
        (λ rs m. (refl, refl, refl, refl));
  run_rows = λ m. m.ran;
  runs =
      stored_table (λ m. m.ran) (λ rs m. record m { ran = rs }) _ (λ rs m. refl)
        (λ rs m. (refl, refl, refl, refl));
  snapshots =
      stored_table (λ m. m.records) (λ rs m. record m { records = rs }) _ (λ rs m. refl)
        (λ rs m. (refl, refl, refl));
  updates_rest = λ p f m.
      store-Ran (map (patch p f) m.rows) m (matching p m.rows)
        (Bool-cases (distinct (map (patch p f) m.rows)))
        (λ n m'. (m'.watched ≡ m.watched) × (m'.routed ≡ m.routed)) (λ h. (refl, refl));
  update_files_rest = λ p f m. (refl, refl);
}
