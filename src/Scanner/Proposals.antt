-- ===== src/Scanner/Proposals.antt =====
-- The upload tasks that a walk proposes, against the open tasks and the snapshots.
use rclone_sync_hub_go_backe.Prelude.{
  ap, text_eq_iff, ◌≡◌, ◌≢◌, refl, sym, ◌∙◌, subst, Text, text_eq, text_eq_refl, [], ◌∷◌, ◌++◌,
  List, Bool, true, false, if◌then◌else◌, Option, none, some, All, Member, inl, inr, ◌⊎◌,
  Bool-cases, arith,
}
use rclone_sync_hub_go_backe.Paths.{clean}
use rclone_sync_hub_go_backe.Model.{UploadTask, FileRecord}
use rclone_sync_hub_go_backe.TaskRepository.Written.{HasVersion}
use rclone_sync_hub_go_backe.Scanner.{Folder, Version}
use rclone_sync_hub_go_backe.Scanner.Visit.{
  Scan, listed, find_record, propose, note_snapshot, snapshot, visit_version, needs_write,
  clears_upload, refreshed, skipped, unchanged, proposed, version_key,
}
use rclone_sync_hub_go_backe.Scanner.Walk.{Tree, scan, start, open_keys_of, legacy_paths_of}
use rclone_sync_hub_go_backe.Scanner.Keeping.{walk-On}
use rclone_sync_hub_go_backe.Scanner.Sound.{choose, choose_at}

-- The record has the path.
abbrev pub IsAt : Text → FileRecord → Type 0
IsAt path f = (f.local_path ≡ path) ⊎ (clean f.local_path ≡ path)

-- The record is the one that a success of the task marks.
abbrev pub Marks : FileRecord → UploadTask → Type 0
Marks f t =
    HasVersion t.file_record_id t.file_fingerprint t.remote_name t.remote_path f
    × IsAt t.local_path f

-- The task has a record that is stored or that the scan writes.
abbrev pub IsMatched : List FileRecord → List FileRecord → UploadTask → Type 0
IsMatched records changed t = (f : FileRecord) × (Member f records ⊎ Member f changed) × Marks f t

-- A snapshot has the version that was found.
snapshot-HasVersion :
    (w : Folder) (v : Version) (o : Option FileRecord)
    → HasVersion (snapshot w v o).id v.fingerprint w.remote_name v.remote_path (snapshot w v o)
unfolding snapshot
snapshot-HasVersion w v none = record { this = refl; versioned = inr refl; there = (refl, refl) }
snapshot-HasVersion w v (some f) = elim (Bool-cases (needs_write w v f)) [
  | inl e ↦ rw e (by_clear (clears_upload w v f))
  | inr e ↦ rw e (record {
    this = refl;
    versioned = inr ((text_eq_iff f.fingerprint v.fingerprint).0 (ground arith));
    there = (
      (text_eq_iff f.remote_name w.remote_name).0 (ground arith),
      (text_eq_iff f.remote_path v.remote_path).0 (ground arith),
    );
  })
]
  where
    by_clear :
        (b : Bool)
        → HasVersion
            (if b then record (refreshed w v f) { uploaded_at = none } else refreshed w v f).id
            v.fingerprint
            w.remote_name
            v.remote_path
            (if b then record (refreshed w v f) { uploaded_at = none } else refreshed w v f)
    by_clear true = record { this = refl; versioned = inr refl; there = (refl, refl) }
    by_clear false = record { this = refl; versioned = inr refl; there = (refl, refl) }

snapshot-IsAt :
    (w : Folder) (v : Version) (o : Option FileRecord)
    → ((f : FileRecord) → o ≡ some f → text_eq (clean f.local_path) v.path ≡ true)
    → IsAt v.path (snapshot w v o)
unfolding snapshot
snapshot-IsAt w v none h = inl refl
snapshot-IsAt w v (some f) h =
    inr (ap clean (same_path) ∙ (text_eq_iff (clean f.local_path) v.path).0 (h f refl))
  where
    same_path : (snapshot w v (some f)).local_path ≡ f.local_path
    same_path = unfold snapshot in ground arith

pub All-append_one :
    (P : UploadTask → Type 0) (ts : List UploadTask) (u : UploadTask)
    → All P ts
    → P u
    → All P (ts ++ u ∷ [])
All-append_one P [] u h k = (k, tt)
All-append_one P (t ∷ ts) u h k = (h.0, All-append_one P ts u h.1 k)

All-weaken :
    (P R : UploadTask → Type 0) (ts : List UploadTask)
    → ((t : UploadTask) → P t → R t)
    → All P ts
    → All R ts
All-weaken P R [] f h = tt
All-weaken P R (t ∷ ts) f h = (f t h.0, All-weaken P R ts f h.1)

pub Member-append_left :
    (f : FileRecord) (xs ys : List FileRecord) → Member f xs → Member f (xs ++ ys)
Member-append_left f [] ys m = absurd m
Member-append_left f (x ∷ xs) ys (inl e) = inl e
Member-append_left f (x ∷ xs) ys (inr m) = inr (Member-append_left f xs ys m)

Member-append_last : (f : FileRecord) (xs : List FileRecord) → Member f (xs ++ f ∷ [])
Member-append_last f [] = inl refl
Member-append_last f (x ∷ xs) = inr (Member-append_last f xs)

pub Member-find_record :
    (path : Text) (fs : List FileRecord) (f : FileRecord)
    → find_record path fs ≡ some f
    → Member f fs
unfolding find_record
Member-find_record path [] f h = cc
Member-find_record path (g ∷ fs) f h =
    cases (find_record path fs) (λ x e. Member-find_record path fs f (e ∙ x)) refl h
  where
    here : (b : Bool) → (if b then some g else none) ≡ some f → f ≡ g
    here true k = cc
    here false k = cc

    cases :
        (o : Option FileRecord)
        → (o ≡ some f → find_record path fs ≡ o → Member f fs)
        → find_record path fs ≡ o
        → (elim o as (λ _. Option FileRecord) [
          | some x ↦ some x
          | none ↦ if text_eq (clean g.local_path) path then some g else none
        ])
          ≡ some f
        → Member f (g ∷ fs)
    cases (some x) ih e k = inr (ih k e)
    cases none ih e k = inl (here (text_eq (clean g.local_path) path) k)

pub find_record-path :
    (path : Text) (fs : List FileRecord) (f : FileRecord)
    → find_record path fs ≡ some f
    → text_eq (clean f.local_path) path ≡ true
unfolding find_record
find_record-path path [] f e = cc
find_record-path path (g ∷ fs) f e = at (find_record path fs) (λ k. find_record-path path fs f k) e
  where
    here :
        (b : Bool)
        → text_eq (clean g.local_path) path ≡ b
        → (if b then some g else none) ≡ some f
        → text_eq (clean f.local_path) path ≡ true
    here true k j = subst (λ r. text_eq (clean r.local_path) path ≡ true) (same j) k
      where
        same : some g ≡ some f → g ≡ f
        same i = cc
    here false k j = cc

    at :
        (o : Option FileRecord)
        → (o ≡ some f → text_eq (clean f.local_path) path ≡ true)
        → (elim o as (λ _. Option FileRecord) [
          | some h ↦ some h
          | none ↦ if text_eq (clean g.local_path) path then some g else none
        ])
          ≡ some f
        → text_eq (clean f.local_path) path ≡ true
    at (some h) k j = k j
    at none k j = here (text_eq (clean g.local_path) path) refl j

-- What a version may do to a scan.
pub propose-cases :
    (I : Scan → Type 0) (w : Folder) (v : Version) (f : FileRecord) (s : Scan)
    → I (skipped s)
    → I (unchanged s)
    → (listed (version_key w v) s.active_keys ≡ false → I (proposed w v f s))
    → I (propose w v f s)
unfolding propose
propose-cases I w v f s h u p =
    choose I _ _ _ h (choose I _ _ _ u (choose_at I _ _ _ (λ e. u) (λ e. choose I _ _ _ u (p e))))

pub note_snapshot-candidates :
    (w : Folder) (v : Version) (o : Option FileRecord) (s : Scan)
    → ((note_snapshot w v o s).candidates ≡ s.candidates)
      × ((note_snapshot w v o s).active_keys ≡ s.active_keys)
unfolding note_snapshot
note_snapshot-candidates w v none s = (refl, refl)
note_snapshot-candidates w v (some f) s = ground arith

-- The snapshots of before are there after the snapshot of a version is noted, and so is that one.
note_snapshot-Member :
    (w : Folder) (v : Version) (o : Option FileRecord) (s : Scan) (g : FileRecord)
    → Member g s.records ⊎ Member g s.changed_snapshots
    → Member g (note_snapshot w v o s).records ⊎ Member g (note_snapshot w v o s).changed_snapshots
unfolding note_snapshot
note_snapshot-Member w v none s g (inl m) = inl (Member-append_left g s.records _ m)
note_snapshot-Member w v none s g (inr m) = inr m
note_snapshot-Member w v (some f) s g m = choose I (needs_write w v f) _ _ (more m) m
  where
    I : Scan → Type 0
    I x = Member g x.records ⊎ Member g x.changed_snapshots

    more :
        Member g s.records ⊎ Member g s.changed_snapshots
        → Member g s.records ⊎ Member g (s.changed_snapshots ++ snapshot w v (some f) ∷ [])
    more (inl k) = inl k
    more (inr k) = inr (Member-append_left g s.changed_snapshots _ k)

note_snapshot-snapshot :
    (w : Folder) (v : Version) (o : Option FileRecord) (s : Scan)
    → ((f : FileRecord) → o ≡ some f → Member f s.records)
    → Member (snapshot w v o) (note_snapshot w v o s).records
      ⊎ Member (snapshot w v o) (note_snapshot w v o s).changed_snapshots
unfolding note_snapshot
note_snapshot-snapshot w v none s h = inl (Member-append_last (snapshot w v none) s.records)
note_snapshot-snapshot w v (some f) s h =
    choose_at I (needs_write w v f) _ _
      (λ e. inr (Member-append_last (snapshot w v (some f)) s.changed_snapshots))
      (λ e. inl (subst (λ g. Member g s.records) (sym (kept e)) (h f refl)))
  where
    I : Scan → Type 0
    I x =
        Member (snapshot w v (some f)) x.records
        ⊎ Member (snapshot w v (some f)) x.changed_snapshots

    kept : needs_write w v f ≡ false → snapshot w v (some f) ≡ f
    kept e = unfold snapshot in rw e refl

visit_version-IsMatched :
    (w : Folder) (v : Version) (s : Scan)
    → All (IsMatched s.records s.changed_snapshots) s.candidates
    → All
        (IsMatched (visit_version w v s).records (visit_version w v s).changed_snapshots)
        (visit_version w v s).candidates
unfolding visit_version
visit_version-IsMatched w v s h =
    let o = find_record v.path s.records in
    let n = note_snapshot w v o s in
    let older =
      subst (λ ts. All (IsMatched n.records n.changed_snapshots) ts)
        (sym (note_snapshot-candidates w v o s).0)
        (All-weaken (IsMatched s.records s.changed_snapshots)
          (IsMatched n.records n.changed_snapshots) s.candidates
          (λ t m. (m.0, note_snapshot-Member w v o s m.0 m.1, m.2)) h) in
    propose-cases (λ x. All (IsMatched x.records x.changed_snapshots) x.candidates) w v
      (snapshot w v o) n older older
      (λ e. All-append_one (IsMatched n.records n.changed_snapshots) n.candidates _ older (
        snapshot w v o,
        note_snapshot-snapshot w v o s (λ f e. Member-find_record v.path s.records f e),
        (
          snapshot-HasVersion w v o,
          snapshot-IsAt w v o (λ f e. find_record-path v.path s.records f e),
        ),
      ))

-- However a scan ends, each task that it proposes has the id, the version, the destination and the
-- path of a record, stored or about to be written.
pub scan-IsMatched :
    (w : Folder) (t : Tree) (records : List FileRecord) (open_tasks : List UploadTask)
    → All
        (IsMatched
          (scan w t records open_tasks).1.records
          (scan w t records open_tasks).1.changed_snapshots)
        (scan w t records open_tasks).1.candidates
unfolding scan
scan-IsMatched w t records open_tasks =
    let w' = record w { legacy_paths = legacy_paths_of open_tasks } in
    walk-On w' (λ p. All (IsMatched p.records p.changed_snapshots) p.candidates)
      (λ v u k. visit_version-IsMatched w' v u k) t (start records open_tasks) tt

-- No two tasks have the same key.
abbrev pub Distinct : List UploadTask → Type 0
Distinct [] = Unit
Distinct (t ∷ ts) = All (λ u. t.idempotency_key ≢ u.idempotency_key) ts × Distinct ts

Distinct-append_one :
    (ts : List UploadTask) (u : UploadTask)
    → Distinct ts
    → All (λ t. t.idempotency_key ≢ u.idempotency_key) ts
    → Distinct (ts ++ u ∷ [])
Distinct-append_one [] u h k = (tt, tt)
Distinct-append_one (t ∷ ts) u h k = (
  All-append_one (λ x. t.idempotency_key ≢ x.idempotency_key) ts u h.0 k.0,
  Distinct-append_one ts u h.1 k.1,
)

-- The task has a key of the list.
abbrev pub HasKey : List Text → UploadTask → Type 0
HasKey keys t = (k : Text) × (t.idempotency_key ≡ some k) × (listed k keys ≡ true)

-- The proposed tasks have distinct keys, which are not among those of the open tasks.
pub record IsNew (open_keys : List Text) (ts : List UploadTask) (active : List Text) : Type 0 where
  pub distinct : Distinct ts
  pub unopened :
      All (λ t. (k : Text) × (t.idempotency_key ≡ some k) × (listed k open_keys ≡ false)) ts
  pub known : All (HasKey active) ts
  pub kept : (k : Text) → listed k open_keys ≡ true → listed k active ≡ true

-- A key that is not active differs from each known one.
other_key :
    (active : List Text) (key : Text) (t : UploadTask)
    → listed key active ≡ false
    → HasKey active t
    → t.idempotency_key ≢ some key
other_key active key t h k e = clash k.0 (injective k.0 (sym k.1 ∙ e)) k.2
  where
    injective : (x : Text) → some x ≡ some key → x ≡ key
    injective x p = cc

    clash : (x : Text) → x ≡ key → listed x active ≡ true → ⊥
    clash x p q = absurd (both (subst (λ y. listed y active ≡ true) p q))
      where
        both : listed key active ≡ true → ⊥
        both r = cc

unopened_key :
    (open_keys active : List Text) (key : Text)
    → ((k : Text) → listed k open_keys ≡ true → listed k active ≡ true)
    → listed key active ≡ false
    → listed key open_keys ≡ false
unopened_key open_keys active key h e = elim (Bool-cases (listed key open_keys)) [
  | inl k ↦ absurd (both (h key k))
  | inr k ↦ k
]
  where
    both : listed key active ≡ true → ⊥
    both r = cc

proposed-IsNew :
    (open_keys active : List Text) (ts : List UploadTask) (key : Text) (u : UploadTask)
    → u.idempotency_key ≡ some key
    → listed key active ≡ false
    → IsNew open_keys ts active
    → IsNew open_keys (ts ++ u ∷ []) (key ∷ active)
proposed-IsNew open_keys active ts key u eu e h = record {
  distinct = Distinct-append_one ts u h.distinct (
      All-weaken (HasKey active) (λ t. t.idempotency_key ≢ u.idempotency_key) ts
        (λ t k p. other_key active key t e k (p ∙ eu)) h.known);
  unopened = All-append_one _ ts u h.unopened (key, eu, unopened_key open_keys active key h.kept e);
  known =
      All-append_one (HasKey (key ∷ active)) ts u
        (All-weaken (HasKey active) (HasKey (key ∷ active)) ts (λ t k. (k.0, k.1, longer k.0 k.2))
          h.known)
        (key, eu, first);
  kept = λ k l. longer k (h.kept k l);
}
  where
    longer : (k : Text) → listed k active ≡ true → listed k (key ∷ active) ≡ true
    longer k l = ground arith

    first : listed key (key ∷ active) ≡ true
    first = ground (arith, text_eq_refl key)

visit_version-IsNew :
    (open_keys : List Text) (w : Folder) (v : Version) (s : Scan)
    → IsNew open_keys s.candidates s.active_keys
    → IsNew open_keys (visit_version w v s).candidates (visit_version w v s).active_keys
unfolding visit_version
visit_version-IsNew open_keys w v s h =
    let o = find_record v.path s.records in
    let n = note_snapshot w v o s in
    let c = note_snapshot-candidates w v o s in
    let before =
      subst (λ ts. IsNew open_keys ts n.active_keys) (sym c.0)
        (subst (λ ks. IsNew open_keys s.candidates ks) (sym c.1) h) in
    propose-cases (λ x. IsNew open_keys x.candidates x.active_keys) w v (snapshot w v o) n before
      before
      (λ e. proposed-IsNew open_keys n.active_keys n.candidates (version_key w v) _ refl e before)

-- However a scan ends, no two of the tasks that it proposes have the same idempotency key, and none
-- has the key of a task that was open before: one version of a file is proposed at most once.
pub scan-IsNew :
    (w : Folder) (t : Tree) (records : List FileRecord) (open_tasks : List UploadTask)
    → IsNew
        (open_keys_of open_tasks)
        (scan w t records open_tasks).1.candidates
        (scan w t records open_tasks).1.active_keys
unfolding scan
scan-IsNew w t records open_tasks =
    let w' = record w { legacy_paths = legacy_paths_of open_tasks } in
    walk-On w' (λ p. IsNew (open_keys_of open_tasks) p.candidates p.active_keys)
      (λ v u k. visit_version-IsNew (open_keys_of open_tasks) w' v u k) t (start records open_tasks)
      (record { distinct = tt; unopened = tt; known = tt; kept = λ k l. l })
