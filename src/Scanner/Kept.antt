-- ===== src/Scanner/Kept.antt =====
-- What the statements of a scan keep of a stored file record.
use rclone_sync_hub_go_backe.Prelude.{
  ℕ, ◌≡◌, ◌≢◌, refl, sym, ◌∙◌, ap, subst, text_eq, text_eq_iff, [], ◌∷◌, List, Bool, true, false,
  ◌||◌, ◌==◌, has_id, some_of, none, some, Member, inl, inr, ◌⊎◌, Bool-cases, arith,
}
use rclone_sync_hub_go_backe.Model.{FileRecord}
use rclone_sync_hub_go_backe.Database.Statement.{Sql}
use rclone_sync_hub_go_backe.FolderRepository.{forget_upload}
use rclone_sync_hub_go_backe.FileRecordRepository.{same_record, assign_snapshot}
use rclone_sync_hub_go_backe.FileRecordRepository.Refreshed.{Refreshed, added, row}
use rclone_sync_hub_go_backe.FileRecordRepository.Refreshing.{IsAssignable}
use rclone_sync_hub_go_backe.Scanner.Versions.{SameVersion, IsOf}

-- A record keeps its id, its path and its mark as missing. It counts as uploaded only if it did
-- before, and then it has the version and the destination of before, unless it had no version.
pub record Kept (rows : List FileRecord) (r r' : FileRecord) : Type 0 where
  pub member : Member r rows
  pub same_id : r'.id ≡ r.id
  pub same_path : r'.local_path ≡ r.local_path
  pub still_missing : (at : ℕ) → r.missing_at ≡ some at → r'.missing_at ≡ some at
  pub justified :
      (r'.uploaded_at ≡ none)
      ⊎ ((r'.uploaded_at ≡ r.uploaded_at) × ((r.fingerprint ≡ []) ⊎ SameVersion r r'))

-- The primary key and the unique index of the paths.
abbrev pub IsKeyed : List FileRecord → Type 0
IsKeyed rows =
    (r f : FileRecord)
    → Member r rows
    → Member f rows
    → (r.id ≡ f.id) ⊎ (r.local_path ≡ f.local_path)
    → r ≡ f

pub Refreshed-start :
    (rows rs : List FileRecord)
    → ((r : FileRecord) → Member r rs → Member r rows)
    → Refreshed (Kept rows) rs rs
Refreshed-start rows [] h = added tt
Refreshed-start rows (r ∷ rs) h =
    row
      (record {
        member = h r (inl refl);
        same_id = refl;
        same_path = refl;
        still_missing = λ at e. e;
        justified = inr (refl, inr (refl, refl, refl));
      })
      (Refreshed-start rows rs (λ f m. h f (inr m)))

-- A stored record is among the rows under its id.
found_by_id :
    (rows : List FileRecord) (g f : FileRecord) {rs ss : List FileRecord}
    → g.id ≡ f.id
    → g.id ≢ 0
    → Member f rs
    → Refreshed (Kept rows) rs ss
    → some_of (same_record g) ss ≡ true
found_by_id rows g f e n m (added a) = absurd m
found_by_id rows g f e n (inr m) (row {r} {r'} {rs} {ss} k x) =
    later (same_record g r') (some_of (same_record g) ss) (found_by_id rows g f e n m x)
  where
    later : (a b : Bool) → b ≡ true → (a || b) ≡ true
    later a b h = ground arith
found_by_id rows g f e n (inl m) (row {r} {r'} {rs} {ss} k x) =
    here (k.same_id ∙ ap (λ (h : FileRecord). h.id) (sym m) ∙ sym e)
  where
    here : r'.id ≡ g.id → (same_record g r' || some_of (same_record g) ss) ≡ true
    here i = ground arith

module _ (rows : List FileRecord) (keyed : IsKeyed rows) where
  -- The row that a snapshot of a stored record meets is that record's.
  met :
      (f g r r' : FileRecord)
      → Member f rows
      → g.id ≡ f.id
      → g.local_path ≡ f.local_path
      → Kept rows r r'
      → same_record g r' ≡ true
      → r ≡ f
  met f g r r' m i p k e = keyed r f k.member m (either (Bool-cases (r'.id == g.id)))
    where
      by_id : (r'.id == g.id) ≡ true → r.id ≡ f.id
      by_id h = omega (arith, id_of h, k.same_id, i)
        where
          id_of : (r'.id == g.id) ≡ true → r'.id ≡ g.id
          id_of a = ground arith

      path_of : (r'.id == g.id) ≡ false → text_eq r'.local_path g.local_path ≡ true
      path_of h = ground arith

      either :
          ((r'.id == g.id) ≡ true) ⊎ ((r'.id == g.id) ≡ false)
          → (r.id ≡ f.id) ⊎ (r.local_path ≡ f.local_path)
      either (inl h) = inl (by_id h)
      either (inr h) =
          inr (sym k.same_path ∙ (text_eq_iff r'.local_path g.local_path).0 (path_of h) ∙ p)

  assigned_Kept :
      (clear : List ℕ) (g r r' : FileRecord)
      → IsOf clear r g
      → Kept rows r r'
      → (has_id g.id clear ≡ true → r'.id ≡ g.id → r'.uploaded_at ≡ none)
      → Kept rows r (assign_snapshot g r')
  assigned_Kept clear g r r' o k c = record {
    member = k.member;
    same_id = k.same_id;
    same_path = k.same_path;
    still_missing = λ at e. o.same_missing ∙ e;
    justified = by o.cleared k.justified;
  }
    where
      by :
          (has_id g.id clear ≡ true) ⊎ ((r.fingerprint ≡ []) ⊎ SameVersion r g)
          → (r'.uploaded_at ≡ none)
            ⊎ ((r'.uploaded_at ≡ r.uploaded_at) × ((r.fingerprint ≡ []) ⊎ SameVersion r r'))
          → (r'.uploaded_at ≡ none)
            ⊎ ((r'.uploaded_at ≡ r.uploaded_at) × ((r.fingerprint ≡ []) ⊎ SameVersion r g))
      by (inl h) j = inl (c h (k.same_id ∙ sym o.same_id))
      by (inr v) (inl h) = inl h
      by (inr v) (inr h) = inr (h.0, v)

  module _ (S : Sql) (clear : List ℕ) where
    pub forget_Kept : (r r' : FileRecord) → Kept rows r r' → Kept rows r (forget_upload r')
    forget_Kept r r' k = record {
      member = k.member;
      same_id = k.same_id;
      same_path = k.same_path;
      still_missing = k.still_missing;
      justified = inl refl;
    }

    pub assignable :
        (f g : FileRecord)
        → Member f rows
        → IsOf clear f g
        → g.id ≢ 0
        → IsAssignable S rows clear (Kept rows) forget_Kept g
    assignable f g m o n = record {
      assigns = λ r r' k e c.
          assigned_Kept clear g r r'
            (subst (λ x. IsOf clear x g) (sym (met f g r r' m o.same_id o.same_path k e)) o) k c;
      is_there = λ ss x. found_by_id rows g f o.same_id n m x;
    }
