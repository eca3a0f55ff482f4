-- ===== src/Scanner/Versions.antt =====
-- What the snapshots that a walk writes keep of the records that it read.
use rclone_sync_hub_go_backe.Prelude.{
  ℕ, ◌≡◌, refl, sym, ap, ◌∙◌, subst, text_eq, text_eq_iff, [], ◌∷◌, ◌++◌, List, Bool, true, false,
  has_id, if◌then◌else◌, Option, none, some, All, Member, inl, inr, ◌⊎◌, Bool-cases, arith,
}
use mathlib.Core.List.{append_assoc, append-nil}
use rclone_sync_hub_go_backe.Model.{UploadTask, FileRecord}
use rclone_sync_hub_go_backe.Scanner.{Folder, Version}
use rclone_sync_hub_go_backe.Scanner.Visit.{
  Scan, find_record, propose, note_snapshot, snapshot, visit_version, needs_write, clears_upload,
  refreshed,
}
use rclone_sync_hub_go_backe.Scanner.Walk.{Tree, scan, start, legacy_paths_of}
use rclone_sync_hub_go_backe.Scanner.Keeping.{Part, part_of, walk-On}
use rclone_sync_hub_go_backe.Scanner.Sound.{choose_at}
use rclone_sync_hub_go_backe.Scanner.Proposals.{
  Member-append_left, Member-find_record, propose-cases,
}

abbrev pub SameVersion : FileRecord → FileRecord → Type 0
SameVersion f g =
    (f.fingerprint ≡ g.fingerprint)
    × (f.remote_name ≡ g.remote_name)
    × (f.remote_path ≡ g.remote_path)

-- The snapshot `g` is of the record `f`: with its version and its destination, or the upload of the
-- record is to be forgotten, or the record had no version.
pub record IsOf (clear : List ℕ) (f g : FileRecord) : Type 0 where
  pub same_id : g.id ≡ f.id
  pub same_path : g.local_path ≡ f.local_path
  pub same_missing : g.missing_at ≡ f.missing_at
  pub cleared : (has_id g.id clear ≡ true) ⊎ ((f.fingerprint ≡ []) ⊎ SameVersion f g)

abbrev pub HasOrigin : List FileRecord → List ℕ → FileRecord → Type 0
HasOrigin records clear g = (f : FileRecord) × Member f records × IsOf clear f g

not_cleared :
    (w : Folder) (v : Version) (f : FileRecord)
    → clears_upload w v f ≡ false
    → (f.fingerprint ≡ []) ⊎ SameVersion f (snapshot w v (some f))
unfolding snapshot
not_cleared w v f h = elim (Bool-cases (text_eq f.fingerprint [])) [
  | inl e ↦ inl ((text_eq_iff f.fingerprint []).0 e)
  | inr e ↦ inr (kept (needs_write w v f) (same e))
]
  where
    same :
        text_eq f.fingerprint [] ≡ false
        → (text_eq f.fingerprint v.fingerprint ≡ true)
          × (text_eq f.remote_name w.remote_name ≡ true)
          × (text_eq f.remote_path v.remote_path ≡ true)
    same e = ground arith

    kept :
        (b : Bool)
        → (text_eq f.fingerprint v.fingerprint ≡ true)
          × (text_eq f.remote_name w.remote_name ≡ true)
          × (text_eq f.remote_path v.remote_path ≡ true)
        → SameVersion f (
            if b
            then (if clears_upload w v f
                then record (refreshed w v f) { uploaded_at = none }
                else refreshed w v f)
            else f)
    kept false k = (refl, refl, refl)
    kept true k = rw h (
      (text_eq_iff f.fingerprint v.fingerprint).0 k.0,
      (text_eq_iff f.remote_name w.remote_name).0 k.1,
      (text_eq_iff f.remote_path v.remote_path).0 k.2,
    )

has_id-last : (id : ℕ) (ids : List ℕ) → has_id id (ids ++ id ∷ []) ≡ true
has_id-last id [] = ground arith
has_id-last id (i ∷ is) = ground (arith, has_id-last id is)

has_id-append : (id j : ℕ) (ids : List ℕ) → has_id id ids ≡ true → has_id id (ids ++ j ∷ []) ≡ true
has_id-append id j [] h = ground arith
has_id-append id j (i ∷ is) h = ground (arith, has_id-append id j is)

-- The ids to clear after a snapshot of `f` is noted.
abbrev clear_after : Folder → Version → FileRecord → List ℕ → List ℕ
clear_after w v f ids = if clears_upload w v f then ids ++ f.id ∷ [] else ids

clear_after-IsOf :
    (w : Folder) (v : Version) (f r g : FileRecord) (ids : List ℕ)
    → IsOf ids r g
    → IsOf (clear_after w v f ids) r g
clear_after-IsOf w v f r g ids h = elim (Bool-cases (clears_upload w v f)) [
  | inr e ↦ rw e h
  | inl e ↦ rw e (record {
    same_id = h.same_id;
    same_path = h.same_path;
    same_missing = h.same_missing;
    cleared = more h.cleared;
  })
]
  where
    more :
        (has_id g.id ids ≡ true) ⊎ ((r.fingerprint ≡ []) ⊎ SameVersion r g)
        → (has_id g.id (ids ++ f.id ∷ []) ≡ true) ⊎ ((r.fingerprint ≡ []) ⊎ SameVersion r g)
    more (inl k) = inl (has_id-append g.id f.id ids k)
    more (inr k) = inr k

pub snapshot_fields :
    (w : Folder) (v : Version) (f : FileRecord)
    → ((snapshot w v (some f)).id ≡ f.id)
      × ((snapshot w v (some f)).local_path ≡ f.local_path)
      × ((snapshot w v (some f)).missing_at ≡ f.missing_at)
unfolding snapshot
snapshot_fields w v f = ground arith

snapshot-IsOf :
    (w : Folder) (v : Version) (f : FileRecord) (ids : List ℕ)
    → IsOf (clear_after w v f ids) f (snapshot w v (some f))
snapshot-IsOf w v f ids = record {
  same_id = (snapshot_fields w v f).0;
  same_path = (snapshot_fields w v f).1;
  same_missing = (snapshot_fields w v f).2;
  cleared = elim (Bool-cases (clears_upload w v f)) [
    | inl e ↦ inl (
        rw e (
          subst (λ i. has_id i (ids ++ f.id ∷ []) ≡ true) (sym (snapshot_fields w v f).0)
            (has_id-last f.id ids)))
    | inr e ↦ inr (not_cleared w v f e)
  ];
}

pub All-mono :
    (P R : FileRecord → Type 0) (fs : List FileRecord)
    → ((f : FileRecord) → P f → R f)
    → All P fs
    → All R fs
All-mono P R [] k h = tt
All-mono P R (f ∷ fs) k h = (k f h.0, All-mono P R fs k h.1)

pub All-append_last :
    (P : FileRecord → Type 0) (fs : List FileRecord) (g : FileRecord)
    → All P fs
    → P g
    → All P (fs ++ g ∷ [])
All-append_last P [] g h k = (k, tt)
All-append_last P (f ∷ fs) g h k = (h.0, All-append_last P fs g h.1 k)

-- The records are the stored ones and the new snapshots, these are not uploaded, and each changed
-- snapshot is of a record.
pub record IsTraced (stored : List FileRecord) (p : Part) : Type 0 where
  pub known : p.records ≡ stored ++ p.new_snapshots
  pub fresh : All (λ f. (f.id ≡ 0) × (f.uploaded_at ≡ none)) p.new_snapshots
  pub traced : All (HasOrigin p.records p.clear_uploaded) p.changed_snapshots

propose-part :
    (w : Folder) (v : Version) (f : FileRecord) (s : Scan) (stored : List FileRecord)
    → IsTraced stored (part_of s)
    → IsTraced stored (part_of (propose w v f s))
propose-part w v f s stored h =
    propose-cases (λ x. IsTraced stored (part_of x)) w v f s h h
      (λ e. record { known = h.known; fresh = h.fresh; traced = h.traced })

note_snapshot-IsTraced :
    (w : Folder) (v : Version) (o : Option FileRecord) (s : Scan) (stored : List FileRecord)
    → ((f : FileRecord) → o ≡ some f → Member f s.records)
    → IsTraced stored (part_of s)
    → IsTraced stored (part_of (note_snapshot w v o s))
unfolding note_snapshot
note_snapshot-IsTraced w v none s stored m h = record {
  known = ap (λ fs. fs ++ snapshot w v none ∷ []) h.known ∙ append_assoc stored s.new_snapshots _;
  fresh =
      All-append_last _ s.new_snapshots (snapshot w v none) h.fresh
        (unfold snapshot in (refl, refl));
  traced =
      All-mono _ _ s.changed_snapshots (λ g x. (x.0, Member-append_left x.0 s.records _ x.1, x.2))
        h.traced;
}
note_snapshot-IsTraced w v (some f) s stored m h =
    choose_at (λ x. IsTraced stored (part_of x)) (needs_write w v f) _ _
      (λ e. record {
        known = h.known;
        fresh = h.fresh;
        traced =
            All-append_last _ s.changed_snapshots _
              (All-mono _ _ s.changed_snapshots
                (λ g x. (x.0, x.1, clear_after-IsOf w v f x.0 g s.clear_uploaded x.2)) h.traced)
              (f, m f refl, snapshot-IsOf w v f s.clear_uploaded);
      })
      (λ e. h)

pub visit_version-IsTraced :
    (w : Folder) (v : Version) (s : Scan) (stored : List FileRecord)
    → IsTraced stored (part_of s)
    → IsTraced stored (part_of (visit_version w v s))
unfolding visit_version
visit_version-IsTraced w v s stored h =
    let o = find_record v.path s.records in
    propose-part w v (snapshot w v o) (note_snapshot w v o s) stored
      (note_snapshot-IsTraced w v o s stored (λ f e. Member-find_record v.path s.records f e) h)

pub start-IsTraced :
    (records : List FileRecord) (open_tasks : List UploadTask)
    → IsTraced records (part_of (start records open_tasks))
start-IsTraced records open_tasks = record {
  known = sym (append-nil records);
  fresh = tt;
  traced = tt;
}

-- However a walk ends, each snapshot of a stored record that it changes has the id, the path and the
-- mark as missing of a record that it read, stored or new; and it has the version and the destination
-- of that record, or its upload is to be forgotten, or the record had no version. The new snapshots
-- have no id and count as not uploaded.
pub scan-IsTraced :
    (w : Folder) (t : Tree) (records : List FileRecord) (open_tasks : List UploadTask)
    → IsTraced records (part_of (scan w t records open_tasks).1)
unfolding scan
scan-IsTraced w t records open_tasks =
    walk-On (record w { legacy_paths = legacy_paths_of open_tasks }) (IsTraced records)
      (λ v u k.
        visit_version-IsTraced (record w { legacy_paths = legacy_paths_of open_tasks }) v u records
          k)
      t (start records open_tasks) (start-IsTraced records open_tasks)
