-- ===== src/FileRecordRepository/Refreshed.antt =====
-- A table of file records before and after writes of a scan, row by row, and its batches.
use rclone_sync_hub_go_backe.Prelude.{
  ℕ, zero, suc, ◌≡◌, refl, Bool, true, false, ltb, length, has_id, none, List, [], ◌∷◌, ◌++◌, map,
  All, Member, Bool-cases, inl, inr, arith,
}
use rclone_sync_hub_go_backe.Model.{FileRecord}
use rclone_sync_hub_go_backe.Database.Outcome.{Result, Ran, patch}
use rclone_sync_hub_go_backe.Database.Statement.{Sql}
use rclone_sync_hub_go_backe.Database.Transaction.{Step, next, rollback, write}
use rclone_sync_hub_go_backe.Database.Keeping.{Stays, after, write-Stays}
use rclone_sync_hub_go_backe.FileRecordRepository.{batches, extend_batch, each}

abbrev pub IsFresh : FileRecord → Type 0
IsFresh f = f.uploaded_at ≡ none

-- Each row of before is at its place, related to what it was, and each new row counts as not uploaded.
pub data Refreshed (K : FileRecord → FileRecord → Type 0)
    : List FileRecord → List FileRecord → Type 0 where
  added : {fs : List FileRecord} → All IsFresh fs → Refreshed K [] fs
  row :
      {r r' : FileRecord} {rs ss : List FileRecord}
      → K r r'
      → Refreshed K rs ss
      → Refreshed K (r ∷ rs) (r' ∷ ss)

pub All-map :
    (h : FileRecord → FileRecord) (fs : List FileRecord)
    → ((f : FileRecord) → IsFresh f → IsFresh (h f))
    → All IsFresh fs
    → All IsFresh (map h fs)
All-map h [] k a = tt
All-map h (f ∷ fs) k a = (k f a.0, All-map h fs k a.1)

pub Refreshed-map :
    (K K' : FileRecord → FileRecord → Type 0) (h : FileRecord → FileRecord)
    {rs ss : List FileRecord}
    → ((r r' : FileRecord) → K r r' → K' r (h r'))
    → ((f : FileRecord) → IsFresh f → IsFresh (h f))
    → Refreshed K rs ss
    → Refreshed K' rs (map h ss)
Refreshed-map K K' h k l (added a) = added (All-map h _ l a)
Refreshed-map K K' h k l (row x e) = row (k _ _ x) (Refreshed-map K K' h k l e)

pub Refreshed-weaken :
    (K K' : FileRecord → FileRecord → Type 0) {rs ss : List FileRecord}
    → ((r r' : FileRecord) → K r r' → K' r r')
    → Refreshed K rs ss
    → Refreshed K' rs ss
Refreshed-weaken K K' k (added a) = added a
Refreshed-weaken K K' k (row x e) = row (k _ _ x) (Refreshed-weaken K K' k e)

pub All-append :
    (fs : List FileRecord) (f : FileRecord)
    → All IsFresh fs
    → IsFresh f
    → All IsFresh (fs ++ f ∷ [])
All-append [] f a h = (h, tt)
All-append (g ∷ fs) f a h = (a.0, All-append fs f a.1 h)

pub Refreshed-append :
    (K : FileRecord → FileRecord → Type 0) {rs ss : List FileRecord} (f : FileRecord)
    → IsFresh f
    → Refreshed K rs ss
    → Refreshed K rs (ss ++ f ∷ [])
Refreshed-append K f h (added a) = added (All-append _ f a h)
Refreshed-append K f h (row x e) = row x (Refreshed-append K f h e)

-- What an UPDATE does to a row.
pub patch-IsFresh :
    (p : FileRecord → Bool) (h : FileRecord → FileRecord) (f : FileRecord)
    → (IsFresh f → IsFresh (h f))
    → IsFresh f
    → IsFresh (patch p h f)
patch-IsFresh p h f k a = elim (Bool-cases (p f)) [ inl e ↦ rw e (k a) | inr e ↦ rw e a ]

pub patch_cases :
    (P : FileRecord → Type 0) (p : FileRecord → Bool) (h : FileRecord → FileRecord) (f : FileRecord)
    → (p f ≡ true → P (h f))
    → (p f ≡ false → P f)
    → P (patch p h f)
patch_cases P p h f k l = elim (Bool-cases (p f)) [ inl e ↦ rw e (k e) | inr e ↦ rw e (l e) ]

pub not-both : (b : Bool) → b ≡ true → b ≡ false → ⊥
not-both b h k = cc

pub none_of_empty : (id : ℕ) (ids : List ℕ) → ltb 0 (length ids) ≡ false → has_id id ids ≡ true → ⊥
none_of_empty id [] e h = not-both false h refl
none_of_empty id (i ∷ is) e h = absurd (omega (arith, length_pos (length is) e))
  where
    length_pos : (n : ℕ) → ltb 0 (suc n) ≡ false → ⊥
    length_pos n k = ground arith

pub Stays-weaken :
    {D A : Type 0} (M N : D → Type 0) (s : Step D (Unit {0}) A)
    → ((d : D) → M d → N d)
    → Stays M s
    → Stays N s
Stays-weaken M N (next a d) k h = k d h
Stays-weaken M N (rollback r) k h = tt

-- The batches hold the rows.
abbrev pub AllLists : {A : Type 0} → (A → Type 0) → List (List A) → Type 0
AllLists P [] = Unit
AllLists P (b ∷ bs) = All P b × AllLists P bs

pub extend_batch-All :
    {A : Type 0} (P : A → Type 0) (a : A) (bs : List (List A))
    → P a
    → AllLists P bs
    → AllLists P (extend_batch a bs)
extend_batch-All P a [] h k = ((h, tt), tt)
extend_batch-All P a (b ∷ bs) h k = ((h, k.0), k.1)

pub batches-All :
    {A : Type 0} (P : A → Type 0) (room left : ℕ) (xs : List A)
    → All P xs
    → AllLists P (batches room left xs)
unfolding batches
batches-All P room zero [] h = (tt, tt)
batches-All P room (suc left) [] h = (tt, tt)
batches-All P room zero (a ∷ xs) h =
    (tt, extend_batch-All P a _ h.0 (batches-All P room room xs h.1))
batches-All P room (suc left) (a ∷ xs) h =
    extend_batch-All P a _ h.0 (batches-All P room left xs h.1)

pub All-Members :
    (P : FileRecord → Type 0) (fs : List FileRecord) → All P fs → All (λ g. P g × Member g fs) fs
All-Members P [] a = tt
All-Members P (f ∷ fs) a = ((a.0, inl refl), later fs (All-Members P fs a.1))
  where
    later :
        (gs : List FileRecord)
        → All (λ g. P g × Member g fs) gs
        → All (λ g. P g × Member g (f ∷ fs)) gs
    later [] b = tt
    later (g ∷ gs) b = ((b.0.0, inr b.0.1), later gs b.1)

pub All-trivial : (fs : List FileRecord) → All (λ f. Unit {0}) fs
All-trivial [] = tt
All-trivial (f ∷ fs) = (tt, All-trivial fs)

-- Rows of INSERT, one after the other.
module _ (S : Sql) (N : S.Db → Type 0) (insert : FileRecord → S.Db → Result (ℕ × S.Db))
    (G : FileRecord → Type 0)
    (step : (f : FileRecord) (d : S.Db) → G f → N d → Ran {A = ℕ} (λ n d'. N d') (insert f d)) where
  pub each-Stays : (fs : List FileRecord) (d : S.Db) → All G fs → N d → Stays N (each S insert fs d)
  unfolding each
  each-Stays [] d g h = h
  each-Stays (f ∷ fs) d g h =
      after N (write (insert f)) (λ n. each S insert fs) d
        (write-Stays N (insert f) d (step f d g.0 h)) (λ n d' h'. each-Stays fs d' g.1 h')
