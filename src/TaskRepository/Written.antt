-- ===== src/TaskRepository/Written.antt =====
-- What the statements that claim and end a task leave of each row, column by column.
use rclone_sync_hub_go_backe.Prelude.{
  ℕ, ◌+◌, ◌<◌, ◌≤◌, Text, text_eq, text_eq_iff, [], true, false, ◌&&◌, ◌||◌, ◌==◌, ==_iff, ◌≡◌, ◌≢◌,
  ◌⊎◌, inl, inr, refl, sym, subst, Option, none, some, is_none, Bool-cases, arith,
}
use rclone_sync_hub_go_backe.Model.{
  UploadTask, FileRecord, Status, pending, running, success, failed, paused, canceled, is, is_iff,
}
use rclone_sync_hub_go_backe.Database.Outcome.{patch}
use rclone_sync_hub_go_backe.TaskRepository.Rows.{
  null_or_past, queued_cancellation, abandoned_cancellation, exhausted, claim, claimable,
  claim_order, leased, leased_not_canceling, succeed, by_id, after_failure, settle_failure,
}
use rclone_sync_hub_go_backe.TaskRepository.{uploaded_version, mark_uploaded}

-- The columns that tell which upload a task is.
pub record SameUpload (t t' : UploadTask) : Type 0 where
  pub same_id : t'.id ≡ t.id
  pub same_record : t'.file_record_id ≡ t.file_record_id
  pub same_path : t'.local_path ≡ t.local_path
  pub same_remote : (t'.remote_name ≡ t.remote_name) × (t'.remote_path ≡ t.remote_path)
  pub same_version : t'.file_fingerprint ≡ t.file_fingerprint
  pub same_key : t'.idempotency_key ≡ t.idempotency_key

-- A task without a lease.
pub record IsFree (t : UploadTask) : Type 0 where
  pub unowned : t.lease_owner ≡ []
  pub unleased : t.lease_expires_at ≡ none
  pub silent : t.heartbeat_at ≡ none

-- The task runs for the owner, with one more attempt and a lease for the given time.
pub record IsClaimed (now : ℕ) (owner : Text) (lease : ℕ) (old t : UploadTask) : Type 0 where
  pub upload : SameUpload old t
  pub runs : t.status ≡ running
  pub owned : t.lease_owner ≡ owner
  pub leased_until : t.lease_expires_at ≡ some (now + lease)
  pub beaten : t.heartbeat_at ≡ some now
  pub started : (t.started_at ≡ some now) × (t.finished_at ≡ none)
  pub attempted : t.retry_count ≡ old.retry_count + 1
  pub unscheduled : t.next_retry_at ≡ none

pub claim-IsClaimed :
    (now : ℕ) (owner : Text) (lease : ℕ) (old t : UploadTask)
    → t ≡ claim now owner (now + lease) old
    → IsClaimed now owner lease old t
claim-IsClaimed now owner lease old t e = subst (IsClaimed now owner lease old) (sym e) (record {
  upload = record {
    same_id = refl;
    same_record = refl;
    same_path = refl;
    same_remote = (refl, refl);
    same_version = refl;
    same_key = refl;
  };
  runs = refl;
  owned = refl;
  leased_until = refl;
  beaten = refl;
  started = (refl, refl);
  attempted = refl;
  unscheduled = refl;
})

-- The time is null or has come.
abbrev pub HasCome : ℕ → Option ℕ → Type 0
HasCome now o = (o ≡ none) ⊎ ((at : ℕ) × (o ≡ some at) × (at ≤ now))

-- The task waits for an attempt, or its worker has lost it.
pub record IsDue (now limit : ℕ) (t : UploadTask) : Type 0 where
  pub unrequested : t.cancel_requested_at ≡ none
  pub attempts_left : t.retry_count < limit
  pub ready :
      ((t.status ≡ pending) × HasCome now t.next_retry_at)
      ⊎ ((t.status ≡ running) × HasCome now t.lease_expires_at)

-- The first task comes before the second, or is it: its priority is higher, or the same with no
-- higher id.
abbrev pub Precedes : UploadTask → UploadTask → Type 0
Precedes t u = (u.priority ≤ t.priority) × (u.priority ≡ t.priority → t.id ≤ u.id)

pub claim_order-Precedes : (u t : UploadTask) → claim_order u t ≡ false → Precedes t u
claim_order-Precedes u t h = ground arith

past→HasCome : (now : ℕ) (o : Option ℕ) → null_or_past o now ≡ true → HasCome now o
past→HasCome now none h = inl refl
past→HasCome now (some at) h = inr (at, refl, ground arith)

is_none→none : (o : Option ℕ) → is_none o ≡ true → o ≡ none
is_none→none none h = refl
is_none→none (some at) h = cc

pub claimable-IsDue :
    (now limit : ℕ) (t : UploadTask) → claimable now limit t ≡ true → IsDue now limit t
claimable-IsDue now limit t h = record {
  unrequested = is_none→none t.cancel_requested_at (ground arith);
  attempts_left = ground arith;
  ready = elim (Bool-cases (is t.status pending && null_or_past t.next_retry_at now)) [
    | inl e ↦ inl (
      (is_iff t.status pending).0 (ground arith),
      past→HasCome now t.next_retry_at (ground arith),
    )
    | inr e ↦ inr (
      (is_iff t.status running).0 (ground arith),
      past→HasCome now t.lease_expires_at (ground arith),
    )
  ];
}

-- No cancellation waits for the task, and no expired lease of a running task leaves it without an
-- attempt.
pub record IsSwept (now limit : ℕ) (t : UploadTask) : Type 0 where
  pub uncanceled :
      (t.status ≡ pending) ⊎ (t.status ≡ paused) ⊎ (t.status ≡ failed)
      → t.cancel_requested_at ≡ none
  pub unabandoned :
      t.status ≡ running
      → HasCome now t.lease_expires_at
      → (t.cancel_requested_at ≡ none) × (t.retry_count < limit)

HasCome→past : (now : ℕ) (o : Option ℕ) → HasCome now o → null_or_past o now ≡ true
HasCome→past now o (inl e) = rw e refl
HasCome→past now o (inr (at, e, l)) = rw e (ground arith)

pub IsSwept-tests :
    (now limit : ℕ) (t : UploadTask)
    → queued_cancellation t ≡ false
    → abandoned_cancellation now t ≡ false
    → exhausted now limit t ≡ false
    → IsSwept now limit t
IsSwept-tests now limit t q a x = record {
  uncanceled = λ s. is_none→none t.cancel_requested_at (waiting t.status s (queued s));
  unabandoned = λ r h. (
    is_none→none t.cancel_requested_at
        (canceling ((is_iff t.status running).1 r) (HasCome→past now t.lease_expires_at h)),
    attempts ((is_iff t.status running).1 r) (HasCome→past now t.lease_expires_at h),
  );
}
  where
    queued :
        (t.status ≡ pending) ⊎ (t.status ≡ paused) ⊎ (t.status ≡ failed)
        → (is t.status pending || is t.status paused || is t.status failed) ≡ true
    queued (inl e) = rw e refl
    queued (inr (inl e)) = rw e refl
    queued (inr (inr e)) = rw e refl

    waiting :
        (r : Status)
        → (t.status ≡ pending) ⊎ (t.status ≡ paused) ⊎ (t.status ≡ failed)
        → (is t.status pending || is t.status paused || is t.status failed) ≡ true
        → is_none t.cancel_requested_at ≡ true
    waiting r s h = ground arith

    canceling :
        is t.status running ≡ true
        → null_or_past t.lease_expires_at now ≡ true
        → is_none t.cancel_requested_at ≡ true
    canceling r h = ground arith

    attempts :
        is t.status running ≡ true
        → null_or_past t.lease_expires_at now ≡ true
        → t.retry_count < limit
    attempts r h = ground arith

-- The task runs under a lease of the owner.
pub record IsLeased (id : ℕ) (owner : Text) (t : UploadTask) : Type 0 where
  pub this : t.id ≡ id
  pub runs : t.status ≡ running
  pub owned : t.lease_owner ≡ owner

pub leased-IsLeased :
    (id : ℕ) (owner : Text) (t : UploadTask) → leased id owner t ≡ true → IsLeased id owner t
leased-IsLeased id owner t h = record {
  this = ground arith;
  runs = (is_iff t.status running).0 (ground arith);
  owned = (text_eq_iff t.lease_owner owner).0 (ground arith);
}

IsLeased-leased :
    (id : ℕ) (owner : Text) (t : UploadTask) → IsLeased id owner t → leased id owner t ≡ true
IsLeased-leased id owner t h =
    all ((==_iff t.id id).1 h.this) ((is_iff t.status running).1 h.runs)
      ((text_eq_iff t.lease_owner owner).1 h.owned)
  where
    all :
        (t.id == id) ≡ true
        → is t.status running ≡ true
        → text_eq t.lease_owner owner ≡ true
        → leased id owner t ≡ true
    all a b c = ground arith

-- The task is at its success.
pub record IsUploaded (finished_at duration : ℕ) (old t : UploadTask) : Type 0 where
  pub upload : SameUpload old t
  pub ended : t.status ≡ success
  pub complete : (t.progress ≡ 10000) × (t.error_msg ≡ [])
  pub timed : (t.finished_at ≡ some finished_at) × (t.duration_seconds ≡ duration)
  pub free : IsFree t
  pub unrequested : t.cancel_requested_at ≡ none
  pub unscheduled : t.next_retry_at ≡ none

-- A task that was leased without a cancellation request is at its success, any other is as it was.
abbrev pub Succeeds : ℕ → Text → ℕ → ℕ → UploadTask → UploadTask → Type 0
Succeeds id owner finished_at duration old t =
    (IsLeased id owner old
      × (old.cancel_requested_at ≡ none)
      × IsUploaded finished_at duration old t)
    ⊎ (¬ (IsLeased id owner old × (old.cancel_requested_at ≡ none)) × (t ≡ old))

pub succeed-Succeeds :
    (id : ℕ) (owner : Text) (at s : ℕ) (t : UploadTask)
    → Succeeds id owner at s t (patch (leased_not_canceling id owner) (succeed at s) t)
succeed-Succeeds id owner at s t = elim (Bool-cases (leased_not_canceling id owner t)) [
  | inl e ↦ inl (
    leased-IsLeased id owner t (ground arith),
    is_none→none t.cancel_requested_at (ground arith),
    rw e (record {
      upload = record {
        same_id = refl;
        same_record = refl;
        same_path = refl;
        same_remote = (refl, refl);
        same_version = refl;
        same_key = refl;
      };
      ended = refl;
      complete = (refl, refl);
      timed = (refl, refl);
      free = record { unowned = refl; unleased = refl; silent = refl };
      unrequested = refl;
      unscheduled = refl;
    }),
  )
  | inr e ↦ inr ((λ h. absurd (clash h (IsLeased-leased id owner t h.0) e)), rw e refl)
]
  where
    clash :
        IsLeased id owner t × (t.cancel_requested_at ≡ none)
        → leased id owner t ≡ true
        → leased_not_canceling id owner t ≡ false
        → ⊥
    clash h a b = both t.cancel_requested_at h.1 (ground arith)
      where
        both : (o : Option ℕ) → o ≡ none → is_none o ≡ false → ⊥
        both none p q = cc
        both (some at) p q = cc

-- The record has the version and the destination that were uploaded.
pub record HasVersion (id : ℕ) (version remote_name remote_path : Text) (f : FileRecord)
    : Type 0 where
  pub this : f.id ≡ id
  pub versioned : (version ≡ []) ⊎ (f.fingerprint ≡ version)
  pub there : (f.remote_name ≡ remote_name) × (f.remote_path ≡ remote_path)

-- A record with the uploaded version is marked, any other is as it was.
abbrev pub Marks : ℕ → Text → Text → Text → ℕ → FileRecord → FileRecord → Type 0
Marks id v rn rp at old f =
    (HasVersion id v rn rp old × (f ≡ record old { uploaded_at = some at }))
    ⊎ (¬ HasVersion id v rn rp old × (f ≡ old))

pub mark_uploaded-Marks :
    (id : ℕ) (v rn rp : Text) (at : ℕ) (f : FileRecord)
    → Marks id v rn rp at f (patch (uploaded_version id v rn rp) (mark_uploaded at) f)
mark_uploaded-Marks id v rn rp at f = elim (Bool-cases (uploaded_version id v rn rp f)) [
  | inl e ↦ inl (
    record {
      this = ground arith;
      versioned = elim (Bool-cases (text_eq v [])) [
        | inl k ↦ inl ((text_eq_iff v []).0 k)
        | inr k ↦ inr ((text_eq_iff f.fingerprint v).0 (ground arith))
      ];
      there = (
        (text_eq_iff f.remote_name rn).0 (ground arith),
        (text_eq_iff f.remote_path rp).0 (ground arith),
      );
    },
    rw e refl,
  )
  | inr e ↦ inr ((λ h. clash h e), rw e refl)
]
  where
    clash : HasVersion id v rn rp f → uploaded_version id v rn rp f ≡ false → ⊥
    clash h e =
        both ((==_iff f.id id).1 h.this) (version h.versioned)
          ((text_eq_iff f.remote_name rn).1 h.there.0) ((text_eq_iff f.remote_path rp).1 h.there.1)
          e
      where
        version : (v ≡ []) ⊎ (f.fingerprint ≡ v) → (text_eq v [] || text_eq f.fingerprint v) ≡ true
        version (inl k) = rw ((text_eq_iff v []).1 k) refl
        version (inr k) = elim (Bool-cases (text_eq v [])) [
          | inl z ↦ rw z refl
          | inr z ↦ rw z ((text_eq_iff f.fingerprint v).1 k)
        ]

        both :
            (f.id == id) ≡ true
            → (text_eq v [] || text_eq f.fingerprint v) ≡ true
            → text_eq f.remote_name rn ≡ true
            → text_eq f.remote_path rp ≡ true
            → uploaded_version id v rn rp f ≡ false
            → ⊥
        both a b c d z = ground arith

-- The status after a failure: a requested cancellation is carried out, a task with attempts left
-- waits for the next, and any other has failed.
pub record IsDecided (limit : ℕ) (old : UploadTask) (s : Status) : Type 0 where
  pub requested : old.cancel_requested_at ≢ none → s ≡ canceled
  pub retried : old.cancel_requested_at ≡ none → old.retry_count < limit → s ≡ pending
  pub given_up : old.cancel_requested_at ≡ none → limit ≤ old.retry_count → s ≡ failed

pub after_failure-IsDecided :
    (limit : ℕ) (t : UploadTask) → IsDecided limit t (after_failure limit t)
after_failure-IsDecided limit t = decided t.cancel_requested_at
  where
    decided :
        (o : Option ℕ)
        → IsDecided limit
            (record t { cancel_requested_at = o })
            (after_failure limit (record t { cancel_requested_at = o }))
    decided none = record {
      requested = λ h. absurd (h refl);
      retried = λ e h. ground arith;
      given_up = λ e h. ground arith;
    }
    decided (some at) = record {
      requested = λ h. refl;
      retried = λ e h. absurd (clash e);
      given_up = λ e h. absurd (clash e);
    }
      where
        clash : some at ≡ none → ⊥
        clash e = cc

-- A task after a failed attempt: it is free, its failures are counted, and it is scheduled exactly
-- if it waits for another attempt.
pub record IsSettled (now next_retry_at : ℕ) (message : Text) (s : Status) (old t : UploadTask)
    : Type 0 where
  pub upload : SameUpload old t
  pub ended : (t.status ≡ s) × (t.error_msg ≡ message)
  pub free : IsFree t
  pub attempts : t.retry_count ≡ old.retry_count
  pub counted : t.accumulated_failures ≡ old.accumulated_failures + 1
  pub waits : s ≡ pending → (t.next_retry_at ≡ some next_retry_at) × (t.finished_at ≡ none)
  pub stops : s ≢ pending → (t.next_retry_at ≡ none) × (t.finished_at ≡ some now)
  pub canceled_now : s ≡ canceled → (t.canceled_at ≡ some now) × (t.cancel_requested_at ≡ none)

abbrev pub Settles : ℕ → ℕ → ℕ → Text → Status → UploadTask → UploadTask → Type 0
Settles id now next_retry_at message s old t =
    ((old.id ≡ id) × IsSettled now next_retry_at message s old t) ⊎ ((old.id ≢ id) × (t ≡ old))

settle_failure-IsSettled :
    (now at : ℕ) (message : Text) (s : Status) (t : UploadTask)
    → IsSettled now at message s t (settle_failure now message at s t)
settle_failure-IsSettled now at message s t = record {
  upload = record {
    same_id = refl;
    same_record = refl;
    same_path = refl;
    same_remote = (refl, refl);
    same_version = refl;
    same_key = refl;
  };
  ended = (refl, refl);
  free = record { unowned = refl; unleased = refl; silent = refl };
  attempts = refl;
  counted = refl;
  waits = λ e. rw e (refl, refl);
  stops = λ n. stopped s n;
  canceled_now = λ e. rw e (refl, refl);
}
  where
    stopped :
        (r : Status)
        → r ≢ pending
        → ((settle_failure now message at r t).next_retry_at ≡ none)
          × ((settle_failure now message at r t).finished_at ≡ some now)
    stopped pending n = absurd (n refl)
    stopped running n = (refl, refl)
    stopped success n = (refl, refl)
    stopped failed n = (refl, refl)
    stopped paused n = (refl, refl)
    stopped canceled n = (refl, refl)

pub settle_failure-Settles :
    (id now at : ℕ) (message : Text) (s : Status) (t : UploadTask)
    → Settles id now at message s t (patch (by_id id) (settle_failure now message at s) t)
settle_failure-Settles id now at message s t = elim (Bool-cases (by_id id t)) [
  | inl e ↦ inl ((==_iff t.id id).0 e, rw e (settle_failure-IsSettled now at message s t))
  | inr e ↦ inr ((λ h. clash ((==_iff t.id id).1 h) e), rw e refl)
]
  where
    clash : (t.id == id) ≡ true → (t.id == id) ≡ false → ⊥
    clash a b = cc
