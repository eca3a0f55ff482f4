-- ===== src/Database/Table.antt =====
-- A table and its statements, as GORM runs them. `Keeps` tells what else of the database its
-- statements leave alone.
use rclone_sync_hub_go_backe.Prelude.{
  ℕ, zero, suc, ltb, Bool, true, false, ◌≡◌, Option, none, some, List, [], ◌∷◌, ◌++◌, map, not,
  select, some_of, Member, if◌then◌else◌,
}
use rclone_sync_hub_go_backe.Database.Outcome.{Result, Ran, Read, patch}

-- A `First` by primary key returns a row that meets the condition, or none if there is none.
abbrev pub Found : {Row : Type 0} → (Row → Bool) → List Row → Option Row → Type 0
Found p rows none = some_of p rows ≡ false
Found p rows (some r) = Member r rows × (p r ≡ true)

-- `n` rows that meet a condition are gone.
pub data Drops {Row : Type 0} (p : Row → Bool) : List Row → List Row → ℕ → Type 0 where
  all_gone : Drops p [] [] zero
  kept : {r : Row} {rs ss : List Row} {n : ℕ} → Drops p rs ss n → Drops p (r ∷ rs) (r ∷ ss) n
  dropped :
      {r : Row} {rs ss : List Row} {n : ℕ}
      → p r ≡ true
      → Drops p rs ss n
      → Drops p (r ∷ rs) ss (suc n)

pub record Table {Db Row : Type 0} (rows : Db → List Row) (Keeps : Db → Db → Type 0) : Type 0 where
  -- `Where(p).Updates(f)` and `Where(p).Delete` with their `RowsAffected`.
  pub update : (Row → Bool) → (Row → Row) → Db → Result (ℕ × Db)
  pub remove : (Row → Bool) → Db → Result (ℕ × Db)
  -- `Create` of a row under the id that it gets, and with an ON DUPLICATE KEY UPDATE.
  pub insert : (ℕ → Row) → Db → Result (ℕ × Db)
  pub upsert : (Row → Bool) → (Row → Row) → (ℕ → Row) → Db → Result (ℕ × Db)
  pub first : (Row → Bool) → Db → Result (Option Row)
  pub find : (Row → Bool) → Db → Result (List Row)
  pub update_law :
      (p : Row → Bool) (f : Row → Row) (db : Db)
      → Ran
          (λ n db'.
            (rows db' ≡ map (patch p f) (rows db)) × Keeps db db' × (ltb 0 n ≡ some_of p (rows db)))
          (update p f db)
  pub remove_law :
      (p : Row → Bool) (db : Db)
      → Ran
          (λ n db'.
            (rows db' ≡ select (λ r. not (p r)) (rows db))
            × Keeps db db'
            × (ltb 0 n ≡ some_of p (rows db)))
          (remove p db)
  pub insert_law :
      (given : ℕ → Row) (db : Db)
      → Ran (λ id db'. (rows db' ≡ rows db ++ given id ∷ []) × Keeps db db') (insert given db)
  pub upsert_law :
      (p : Row → Bool) (f : Row → Row) (given : ℕ → Row) (db : Db)
      → Ran
          (λ id db'.
            (rows db' ≡ (
              if some_of p (rows db) then map (patch p f) (rows db) else rows db ++ given id ∷ []))
            × Keeps db db')
          (upsert p f given db)
  pub first_law : (p : Row → Bool) (db : Db) → Read (Found p (rows db)) (first p db)
  pub find_law : (p : Row → Bool) (db : Db) → Read (λ found. found ≡ select p (rows db)) (find p db)
