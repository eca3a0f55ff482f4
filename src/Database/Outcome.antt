-- ===== src/Database/Outcome.antt =====
-- What a statement of the database returns: a value with the state that it leaves, or an error.
use rclone_sync_hub_go_backe.Prelude.{Bool, if◌then◌else◌}

-- `driver` is any failure of the database itself but `duplicate`, the MySQL error 1062 of a key that
-- is taken. The other two are `ErrNotFound` (and `gorm.ErrRecordNotFound`, which it renames) and
-- `ErrConflict` of internal/repository/errors.go.
pub data Err : Type 0 where
  driver duplicate not_found conflict : Err

-- classifyConstraintError
abbrev pub classified : Err → Err
classified duplicate = conflict
classified e = e

pub data Result {ℓ} (A : Type ℓ) : Type ℓ where
  ok : A → Result A
  err : Err → Result A

-- `Q` holds of what a statement that did not fail returns.
abbrev pub Ran : {A D : Type 0} → (A → D → Type 0) → Result (A × D) → Type 0
Ran Q (ok (a, d)) = Q a d
Ran Q (err e) = Unit

abbrev pub Read : {A : Type 0} → (A → Type 0) → Result A → Type 0
Read Q (ok a) = Q a
Read Q (err e) = Unit

pub Ran-map :
    {A D : Type 0} (Q Q' : A → D → Type 0) (r : Result (A × D))
    → ((a : A) (d : D) → Q a d → Q' a d)
    → Ran Q r
    → Ran Q' r
Ran-map Q Q' (ok (a, d)) f h = f a d h
Ran-map Q Q' (err e) f h = tt

pub Read-map :
    {A : Type 0} (Q Q' : A → Type 0) (r : Result A) → ((a : A) → Q a → Q' a) → Read Q r → Read Q' r
Read-map Q Q' (ok a) f h = f a h
Read-map Q Q' (err e) f h = tt

-- What `Where(p).Updates(f)` makes of a row.
abbrev pub patch {ℓ} : {A : Type ℓ} → (A → Bool) → (A → A) → A → A
patch p f t = if p t then f t else t
