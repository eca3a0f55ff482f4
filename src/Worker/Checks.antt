-- ===== src/Worker/Checks.antt =====
-- What the checks of a claimed task before and after its upload have established.
use rclone_sync_hub_go_backe.Prelude.{
  ℕ, Text, text_eq, text_eq_iff, [], ◌≡◌, ◌≢◌, refl, true, false, Option, none, some, Bool-cases,
  inl, inr, arith,
}
use rclone_sync_hub_go_backe.Model.{UploadTask, FileRecord}
use rclone_sync_hub_go_backe.TaskRepository.{Claimed}
use rclone_sync_hub_go_backe.Worker.Effects.{
  Attempt, Policy, Checked, refused, allowed, Stat, stat_failed, stat_of,
}
use rclone_sync_hub_go_backe.Worker.Process.{
  Ready, ready, failing, prepare, validate_claimed_task, check_policy, check_local, check_remote,
  check_version, compare_version, verify_task_file_fingerprint, compare_after,
}

-- The file was there, and its size and time of modification have the version as fingerprint.
abbrev pub Shows : Attempt → Stat → Text → Type 0
Shows a s v =
    (size : ℕ) × (modified : ℕ) × (s ≡ stat_of size modified) × (a.fingerprint_of size modified ≡ v)

-- The paths are those that the policy returned, or those of the task without a policy.
abbrev pub Admits : Option Policy → UploadTask → FileRecord → UploadTask → FileRecord → Type 0
Admits none t f row file = (row ≡ t) × (file ≡ f)
Admits (some p) t f row file =
    (p.validate_local_file f.local_path ≡ allowed file.local_path)
    × (p.validate_remote t.remote_name t.remote_path ≡ allowed row.remote_path)
    × (row ≡ record t { remote_path = row.remote_path })
    × (file ≡ record f { local_path = file.local_path })

-- A claimed task that passed the checks has a file record, a path and a remote; the policy admits
-- them; and the file has the version of the task, if the task has one.
pub record IsPrepared (a : Attempt) (task : Claimed) (row : UploadTask) (file : FileRecord)
    : Type 0 where
  pub claimed_file : FileRecord
  pub has_file : task.1 ≡ some claimed_file
  pub admitted : Admits a.policy task.0 claimed_file row file
  pub version_before :
      row.file_fingerprint ≢ [] → Shows a (a.stat_before file.local_path) row.file_fingerprint

ready-row : {t t' : UploadTask} {f f' : FileRecord} → ready t f ≡ ready t' f' → (t' ≡ t) × (f' ≡ f)
ready-row e = (cc, cc)

check_version-ready :
    (a : Attempt) (t : UploadTask) (f : FileRecord) (row : UploadTask) (file : FileRecord)
    → check_version a t f ≡ ready row file
    → (row ≡ t)
      × (file ≡ f)
      × (t.file_fingerprint ≢ [] → Shows a (a.stat_before f.local_path) t.file_fingerprint)
unfolding check_version
check_version-ready a t f row file h = elim (Bool-cases (text_eq t.file_fingerprint [])) [
  | inl e ↦ unversioned e (ground arith)
  | inr e ↦ compared (a.stat_before f.local_path) refl (ground arith)
]
  where
    unversioned :
        text_eq t.file_fingerprint [] ≡ true
        → ready t f ≡ ready row file
        → (row ≡ t)
          × (file ≡ f)
          × (t.file_fingerprint ≢ [] → Shows a (a.stat_before f.local_path) t.file_fingerprint)
    unversioned e k =
        let q = ready-row k in
        (q.0, q.1, (λ n. absurd (n ((text_eq_iff t.file_fingerprint []).0 e))))

    compared :
        (s : Stat)
        → a.stat_before f.local_path ≡ s
        → compare_version a t f s ≡ ready row file
        → (row ≡ t)
          × (file ≡ f)
          × (t.file_fingerprint ≢ [] → Shows a (a.stat_before f.local_path) t.file_fingerprint)
    compared (stat_failed m) e k = cc
    compared (stat_of size modified) e k =
        elim (Bool-cases (text_eq (a.fingerprint_of size modified) t.file_fingerprint)) [
          | inl z ↦ same z (ground arith)
          | inr z ↦ absurd (other z)
        ]
      where
        same :
            text_eq (a.fingerprint_of size modified) t.file_fingerprint ≡ true
            → ready t f ≡ ready row file
            → (row ≡ t)
              × (file ≡ f)
              × (t.file_fingerprint ≢ [] → Shows a (a.stat_before f.local_path) t.file_fingerprint)
        same z j =
            let q = ready-row j in
            (
              q.0,
              q.1,
              (λ n. (
                size,
                modified,
                e,
                (text_eq_iff (a.fingerprint_of size modified) t.file_fingerprint).0 z,
              )),
            )

        other : text_eq (a.fingerprint_of size modified) t.file_fingerprint ≡ false → ⊥
        other z = ground arith

check_policy-ready :
    (a : Attempt) (p : Option Policy) (t : UploadTask) (f : FileRecord) (row : UploadTask)
    (file : FileRecord)
    → check_policy a p t f ≡ ready row file
    → Admits p t f row file
      × (row.file_fingerprint ≢ [] → Shows a (a.stat_before file.local_path) row.file_fingerprint)
unfolding check_policy
check_policy-ready a none t f row file h =
    let q = check_version-ready a t f row file h in ((q.0, q.1), rw (q.0, q.1) q.2)
check_policy-ready a (some p) t f row file h = by_local (p.validate_local_file f.local_path) refl h
  where
    Goal : Type 0
    Goal =
        Admits (some p) t f row file
        × (row.file_fingerprint ≢ [] → Shows a (a.stat_before file.local_path) row.file_fingerprint)

    by_remote :
        (path : Text) (c : Checked)
        → p.validate_local_file f.local_path ≡ allowed path
        → p.validate_remote t.remote_name t.remote_path ≡ c
        → check_remote a t (record f { local_path = path }) c ≡ ready row file
        → Goal
    by_remote path (refused m) l r k = cc
    by_remote path (allowed to) l r k =
        let q =
          check_version-ready a (record t { remote_path = to }) (record f { local_path = path }) row
            file k in
        rw (q.0, q.1) ((l, r, refl, refl), q.2)

    by_local :
        (c : Checked)
        → p.validate_local_file f.local_path ≡ c
        → check_local a p t f c ≡ ready row file
        → Goal
    by_local (refused m) l k = cc
    by_local (allowed path) l k =
        by_remote path (p.validate_remote t.remote_name t.remote_path) l refl k

pub prepare-IsPrepared :
    (a : Attempt) (task : Claimed) (row : UploadTask) (file : FileRecord)
    → prepare a task ≡ ready row file
    → IsPrepared a task row file
unfolding prepare
prepare-IsPrepared a (t, none) row file h = cc
prepare-IsPrepared a (t, some f) row file h = by_defect (validate_claimed_task (t, some f)) h
  where
    by_defect :
        (o : Option Text)
        → (elim o as (λ _. Ready) [
          | some defect ↦ failing defect
          | none ↦ check_policy a a.policy t f
        ])
          ≡ ready row file
        → IsPrepared a (t, some f) row file
    by_defect (some d) k = cc
    by_defect none k =
        let q = check_policy-ready a a.policy t f row file k in
        record { claimed_file = f; has_file = refl; admitted = q.0; version_before = q.1 }

pub verify-Shows :
    (a : Attempt) (t : UploadTask) (f : FileRecord)
    → verify_task_file_fingerprint a t f ≡ none
    → t.file_fingerprint ≢ []
    → Shows a (a.stat_after f.local_path) t.file_fingerprint
unfolding verify_task_file_fingerprint
verify-Shows a t f h n = elim (Bool-cases (text_eq t.file_fingerprint [])) [
  | inl e ↦ absurd (n ((text_eq_iff t.file_fingerprint []).0 e))
  | inr e ↦ compared (a.stat_after f.local_path) refl (ground arith)
]
  where
    compared :
        (s : Stat)
        → a.stat_after f.local_path ≡ s
        → compare_after a t s ≡ none
        → Shows a (a.stat_after f.local_path) t.file_fingerprint
    compared (stat_failed m) e k = cc
    compared (stat_of size modified) e k = (
      size,
      modified,
      e,
      (text_eq_iff (a.fingerprint_of size modified) t.file_fingerprint).0 (ground arith),
    )
