-- ===== src/RouteService/Counting.antt =====
-- The counts of the loops and of the reports in a batch of moves.
use rclone_sync_hub_go_backe.Prelude.{
  ℕ, suc, ◌+◌, ◌≤◌, ◌≡◌, refl, subst, Text, codes, Bool, true, false, Option, List, [], ◌∷◌, ◌++◌,
  length, length-append, All, arith,
}
use rclone_sync_hub_go_backe.Model.Folders.{RemoteRoute}
use rclone_sync_hub_go_backe.Security.Policy.{ResourcePolicy}
use rclone_sync_hub_go_backe.RouteService.{Located, at_path, nowhere, mutation_path, Remote}
use rclone_sync_hub_go_backe.RouteService.Batch.{
  Phase, validating, moving, Progress, Candidate, Batch, Ended, stopped, reached, onward, report,
  fail_with, move_to, reject, with_remote, set_refresh,
}
use rclone_sync_hub_go_backe.RouteService.Validation.{
  Examined, abort, unfit, fit, Novelty, repeated, in_place, taken, novel, Seen, validate_seen,
  validate_new, validate_at, validate,
}
use rclone_sync_hub_go_backe.RouteService.MoveFiles.{after_move, move_one, move_each}

-- Each report has processed at least as much as the one before it.
abbrev pub Rising : List Progress → Type 0
Rising [] = Unit
Rising (p ∷ []) = Unit
Rising (p ∷ q ∷ ps) = (p.processed ≤ q.processed) × Rising (q ∷ ps)

-- The reports so far are of this total, rise, and have processed no more than a number.
abbrev pub Reported : ℕ → ℕ → Progress → Type 0
Reported total n p = (p.total ≡ total) × (p.processed ≤ n)

All-append :
    {A : Type 0} (P : A → Type 0) (xs : List A) (a : A) → All P xs → P a → All P (xs ++ a ∷ [])
All-append P [] a h k = (k, tt)
All-append P (x ∷ xs) a h k = (h.0, All-append P xs a h.1 k)

Reported-weaken :
    (total n m : ℕ) (ps : List Progress)
    → n ≤ m
    → All (Reported total n) ps
    → All (Reported total m) ps
Reported-weaken total n m [] l h = tt
Reported-weaken total n m (p ∷ ps) l h =
    ((h.0.0, omega (arith, l, h.0.1)), Reported-weaken total n m ps l h.1)

Rising-append :
    (total n : ℕ) (ps : List Progress) (p : Progress)
    → p.processed ≡ n
    → All (Reported total n) ps
    → Rising ps
    → Rising (ps ++ p ∷ [])
Rising-append total n [] p e h r = tt
Rising-append total n (q ∷ []) p e h r = (omega (arith, e, h.0.1), tt)
Rising-append total n (q ∷ q' ∷ ps) p e h r = (r.0, Rising-append total n (q' ∷ ps) p e h.1 r.1)

module _ (R : Remote) (total : ℕ) where
  -- The batch has dealt with `n` files, and its reports are right.
  pub record IsCounted (n : ℕ) (b : Batch R) : Type 0 where
    pub counted : length b.result.moved + length b.result.failed ≡ n
    pub reported : All (Reported total n) b.reports
    pub rising : Rising b.reports

  pub report-IsCounted :
      (n : ℕ) (phase : Phase) (path : Text) (b : Batch R)
      → IsCounted n b
      → IsCounted n (report R total phase path b)
  report-IsCounted n phase path b h = record {
    counted = h.counted;
    reported =
        All-append (Reported total n) b.reports _ h.reported (refl, omega (arith, h.counted));
    rising = Rising-append total n b.reports _ h.counted h.reported h.rising;
  }

  fail_with-IsCounted :
      (n : ℕ) (source reason : Text) (b : Batch R)
      → IsCounted n b
      → IsCounted (suc n) (fail_with R source reason b)
  fail_with-IsCounted n source reason b h = record {
    counted = omega (arith, h.counted, length-append b.result.failed ((source, reason) ∷ []));
    reported = Reported-weaken total n (suc n) b.reports (omega arith) h.reported;
    rising = h.rising;
  }

  move_to-IsCounted :
      (n : ℕ) (source destination : Text) (b : Batch R)
      → IsCounted n b
      → IsCounted (suc n) (move_to R source destination b)
  move_to-IsCounted n source destination b h = record {
    counted = omega (arith, h.counted, length-append b.result.moved ((source, destination) ∷ []));
    reported = Reported-weaken total n (suc n) b.reports (omega arith) h.reported;
    rising = h.rising;
  }

  reject-IsCounted :
      (n : ℕ) (phase : Phase) (source reason : Text) (b : Batch R)
      → IsCounted n b
      → IsCounted (suc n) (reject R total phase source reason b)
  reject-IsCounted n phase source reason b h =
      report-IsCounted (suc n) phase source (fail_with R source reason b)
        (fail_with-IsCounted n source reason b h)

  -- Of `n` sources each is dealt with or a candidate.
  abbrev Sorted : ℕ → Ended R Seen → Type 0
  Sorted n (stopped f b) = b.result.moved ≡ []
  Sorted n (reached v b) =
      (k : ℕ) × IsCounted k b × (k + length v.found ≡ n) × (b.result.moved ≡ [])

  module _ (policy : Option ResourcePolicy) (route : RemoteRoute) (target : Text) where
    pub with_remote-IsCounted :
        (n : ℕ) (b : Batch R) (s : R.State) → IsCounted n b → IsCounted n (with_remote R b s)
    with_remote-IsCounted n b s h = record {
      counted = h.counted;
      reported = h.reported;
      rising = h.rising;
    }

    validate_seen-Sorted :
        (n k : ℕ) (ss ds : List Text) (cs : List Candidate) (b : Batch R) (source : Text)
        (x : Examined × R.State)
        → IsCounted k b
        → k + length cs ≡ n
        → b.result.moved ≡ []
        → Sorted (suc n) (validate_seen R policy route total target ss ds cs b source x)
    unfolding validate_seen
    validate_seen-Sorted n k ss ds cs b source (abort f, s) h e z = z
    validate_seen-Sorted n k ss ds cs b source (unfit reason, s) h e z = (
      suc k,
      reject-IsCounted k validating source reason (with_remote R b s)
          (with_remote-IsCounted k b s h),
      omega (arith, e),
      z,
    )
    validate_seen-Sorted n k ss ds cs b source (fit c, s) h e z =
        (k, with_remote-IsCounted k b s h, omega (arith, e, length-append cs (c ∷ [])), z)

    validate_new-Sorted :
        (n k : ℕ) (v : Seen) (b : Batch R) (source : Text) (y : Novelty)
        → IsCounted k b
        → k + length v.found ≡ n
        → b.result.moved ≡ []
        → Sorted (suc n) (validate_new R policy route total target v b source y)
    unfolding validate_new
    validate_new-Sorted n k v b source repeated h e z = z
    validate_new-Sorted n k v b source in_place h e z = (
      suc k,
      reject-IsCounted k validating source (codes "file is already in the target folder")
          (report R total validating source b) (report-IsCounted k validating source b h),
      omega (arith, e),
      z,
    )
    validate_new-Sorted n k v b source taken h e z = (
      suc k,
      reject-IsCounted k validating source
          (codes "another selected file has the same destination name")
          (report R total validating source b) (report-IsCounted k validating source b h),
      omega (arith, e),
      z,
    )
    validate_new-Sorted n k v b source novel h e z =
        validate_seen-Sorted n k _ _ v.found (report R total validating source b) source _
          (report-IsCounted k validating source b h) e z

    validate_at-Sorted :
        (n k : ℕ) (v : Seen) (b : Batch R) (l : Located)
        → IsCounted k b
        → k + length v.found ≡ n
        → b.result.moved ≡ []
        → Sorted (suc n) (validate_at R policy route total target v b l)
    unfolding validate_at
    validate_at-Sorted n k v b (nowhere f) h e z = z
    validate_at-Sorted n k v b (at_path source) h e z = validate_new-Sorted n k v b source _ h e z

    -- Of `n` sources each is dealt with or one of the candidates.
    abbrev pub Found : ℕ → Ended R (List Candidate) → Type 0
    Found n (stopped f b) = b.result.moved ≡ []
    Found n (reached cs b) = (k : ℕ) × IsCounted k b × (k + length cs ≡ n) × (b.result.moved ≡ [])

    onward-Found :
        (n m : ℕ) (x : Ended R Seen) (next : Seen → Batch R → Ended R (List Candidate))
        → Sorted n x
        → ((k : ℕ) (v : Seen) (b : Batch R)
            → IsCounted k b
            → k + length v.found ≡ n
            → b.result.moved ≡ []
            → Found m (next v b))
        → Found m (onward x next)
    onward-Found n m (stopped f b) next h later = h
    onward-Found n m (reached v b) next h later = later h.0 v b h.1 h.2 h.3

    pub validate-Found :
        (raw : List Text) (n k : ℕ) (v : Seen) (b : Batch R)
        → IsCounted k b
        → k + length v.found ≡ n
        → b.result.moved ≡ []
        → Found (length raw + n) (validate R policy route total target raw v b)
    unfolding validate
    validate-Found [] n k v b h e z = (k, h, omega (arith, e), z)
    validate-Found (r ∷ raw) n k v b h e z =
        onward-Found (suc n) (length (r ∷ raw) + n)
          (validate_at R policy route total target v b (mutation_path r false))
          (λ v' b'. validate R policy route total target raw v' b')
          (validate_at-Sorted n k v b (mutation_path r false) h e z)
          (λ j v' b' h' e' z'.
            subst (λ m. Found m (validate R policy route total target raw v' b')) (omega arith)
              (validate-Found raw (suc n) j v' b' h' e' z'))

    after_move-IsCounted :
        (n : ℕ) (c : Candidate) (moved : Bool) (b : Batch R)
        → IsCounted n b
        → IsCounted (suc n) (after_move R policy route total target c moved b)
    after_move-IsCounted n c true b h =
        report-IsCounted (suc n) moving c.source (move_to R c.source c.destination b)
          (move_to-IsCounted n c.source c.destination b h)
    after_move-IsCounted n c false b h =
        reject-IsCounted n moving c.source (codes "remote move failed") b h

    pub move_each-IsCounted :
        (cs : List Candidate) (n k : ℕ) (b : Batch R)
        → IsCounted k b
        → k + length cs ≡ n
        → IsCounted n (move_each R policy route total target cs b)
    unfolding move_each
    move_each-IsCounted [] n k b h e = subst (λ m. IsCounted m b) (omega (arith, e)) h
    move_each-IsCounted (c ∷ cs) n k b h e =
        move_each-IsCounted cs n (suc k) (move_one R policy route total target c b)
          (after_move-IsCounted k c _ _ (
            with_remote-IsCounted k (report R total moving c.source b) _
              (report-IsCounted k moving c.source b h)))
          (omega (arith, e))

  pub set_refresh-IsCounted :
      (n : ℕ) (scheduled : Bool) (b : Batch R)
      → IsCounted n b
      → IsCounted n (set_refresh R scheduled b)
  set_refresh-IsCounted n scheduled b h = record {
    counted = h.counted;
    reported = h.reported;
    rising = h.rising;
  }
