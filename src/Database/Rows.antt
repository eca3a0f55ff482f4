-- ===== src/Database/Rows.antt =====
-- Lists as tables: the rows that a statement affects, those that a DELETE with LIMIT takes, and a
-- table of a state in memory.
use rclone_sync_hub_go_backe.Prelude.{
  ℕ, zero, suc, ◌≤◌, ◌<◌, ◌≡◌, refl, Bool, false, not, ltb, Option, none, some, List, [], ◌∷◌, ◌++◌,
  map, length, select, some_of, if◌then◌else◌, Bool-cases, arith, inl, inr,
}
use rclone_sync_hub_go_backe.Database.Outcome.{ok, patch}
use rclone_sync_hub_go_backe.Database.Table.{Table, Drops, all_gone, kept, dropped, Found}

-- The number of affected rows.
abbrev pub matching {ℓ} : {A : Type ℓ} → (A → Bool) → List A → ℕ
matching p ts = length (select p ts)

pub matching-some_of {ℓ} :
    {A : Type ℓ} (p : A → Bool) (ts : List A) → ltb 0 (matching p ts) ≡ some_of p ts
matching-some_of p [] = refl
matching-some_of p (t ∷ ts) = ground (arith, matching-some_of p ts)

-- DELETE with LIMIT: the first rows that meet the condition.
abbrev pub drop_some : {Row : Type 0} → (Row → Bool) → ℕ → List Row → List Row
drop_some p limit [] = []
drop_some p zero (t ∷ ts) = t ∷ ts
drop_some p (suc limit) (t ∷ ts) =
    if p t then drop_some p limit ts else t ∷ drop_some p (suc limit) ts

abbrev pub dropped_count : {Row : Type 0} → (Row → Bool) → ℕ → List Row → ℕ
dropped_count p limit [] = 0
dropped_count p zero (t ∷ ts) = 0
dropped_count p (suc limit) (t ∷ ts) =
    if p t then suc (dropped_count p limit ts) else dropped_count p (suc limit) ts

drop_none : {Row : Type 0} (p : Row → Bool) (ts : List Row) → Drops p ts ts zero
drop_none p [] = all_gone
drop_none p (t ∷ ts) = kept (drop_none p ts)

pub drop_some-Drops :
    {Row : Type 0} (p : Row → Bool) (limit : ℕ) (ts : List Row)
    → Drops p ts (drop_some p limit ts) (dropped_count p limit ts)
drop_some-Drops p zero [] = all_gone
drop_some-Drops p (suc limit) [] = all_gone
drop_some-Drops p zero (t ∷ ts) = drop_none p (t ∷ ts)
drop_some-Drops p (suc limit) (t ∷ ts) = elim (Bool-cases (p t)) [
  | inl e ↦ rw e (dropped e (drop_some-Drops p limit ts))
  | inr e ↦ rw e (kept (drop_some-Drops p (suc limit) ts))
]

pub dropped_count-limit :
    {Row : Type 0} (p : Row → Bool) (limit : ℕ) (ts : List Row)
    → (dropped_count p limit ts ≤ limit)
      × (dropped_count p limit ts < limit → some_of p (drop_some p limit ts) ≡ false)
dropped_count-limit p zero [] = (omega arith, λ h. refl)
dropped_count-limit p (suc limit) [] = (omega arith, λ h. refl)
dropped_count-limit p zero (t ∷ ts) = (omega arith, λ h. absurd (omega arith))
dropped_count-limit p (suc limit) (t ∷ ts) =
    ground (arith, dropped_count-limit p limit ts, dropped_count-limit p (suc limit) ts)

-- A table of other rows, read and written through a view of the state.
abbrev pub found_in : {Row : Type 0} → (Row → Bool) → List Row → Option Row
found_in p [] = none
found_in p (r ∷ rs) = if p r then some r else found_in p rs

pub found_in-Found : {Row : Type 0} (p : Row → Bool) (rs : List Row) → Found p rs (found_in p rs)
found_in-Found p [] = refl
found_in-Found p (r ∷ rs) = elim (Bool-cases (p r)) [
  | inl e ↦ rw e (inl refl, e)
  | inr e ↦ rw e (later e (found_in p rs) (found_in-Found p rs))
]
  where
    later : p r ≡ false → (o : Option _) → Found p rs o → Found p (r ∷ rs) o
    later e none h = ground arith
    later e (some x) h = (inr h.0, h.1)

module _ {Row : Type 0} {Db : Type 0} (view : Db → List Row) (put : List Row → Db → Db)
    (Keeps : Db → Db → Type 0) where
  abbrev pub stored_table :
      ((rs : List Row) (m : Db) → view (put rs m) ≡ rs)
      → ((rs : List Row) (m : Db) → Keeps m (put rs m))
      → Table view Keeps
  stored_table law keeps = record {
    update = λ p f m. ok (matching p (view m), put (map (patch p f) (view m)) m);
    remove = λ p m. ok (matching p (view m), put (select (λ r. not (p r)) (view m)) m);
    insert =
        λ given m. ok (suc (length (view m)), put (view m ++ given (suc (length (view m))) ∷ []) m);
    upsert = λ p f given m. ok (
      suc (length (view m)),
      put
          (if some_of p (view m)
            then map (patch p f) (view m)
            else view m ++ given (suc (length (view m))) ∷ [])
          m,
    );
    first = λ p m. ok (found_in p (view m));
    find = λ p m. ok (select p (view m));
    update_law = λ p f m. (law _ m, keeps _ m, matching-some_of p (view m));
    remove_law = λ p m. (law _ m, keeps _ m, matching-some_of p (view m));
    insert_law = λ given m. (law _ m, keeps _ m);
    upsert_law = λ p f given m. (law _ m, keeps _ m);
    first_law = λ p m. found_in-Found p (view m);
    find_law = λ p m. refl;
  }
