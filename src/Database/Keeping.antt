-- ===== src/Database/Keeping.antt =====
-- Transactions with no result that keep a property of the state at each of their statements.
use rclone_sync_hub_go_backe.Prelude.{Bool, true, false, sym, subst, ◌≡◌, inl, inr}
use rclone_sync_hub_go_backe.Database.Outcome.{Result, ok, err, Ran, Ran-map}
use rclone_sync_hub_go_backe.Database.Transaction.{
  Step, Tx, Ends, Ends-bind, Final, Final-transact, Final-single, transact, single, ◌>>=◌, read,
  write, write_classified, when,
}

module _ {D : Type 0} (N : D → Type 0) where
  -- A part of a transaction that goes on with the property.
  abbrev pub Stays : {A : Type 0} → Step D (Unit {0}) A → Type 0
  Stays s = Ends (λ a d. N d) (λ r. Unit {0}) s

  pub after :
      {A B : Type 0} (m : Tx D (Unit {0}) A) (f : A → Tx D (Unit {0}) B) (d : D)
      → Stays (m d)
      → ((a : A) (d' : D) → N d' → Stays (f a d'))
      → Stays ((m >>= f) d)
  after m f d = Ends-bind (λ a d'. N d') (λ a d'. N d') (λ r. Unit {0}) m f d

  pub read-Stays : {A : Type 0} (s : D → Result A) (d : D) → N d → Stays {A = A} (read s d)
  read-Stays {A} s d h = at (s d)
    where
      at : (r : Result A) → Stays {A = A} (read (λ _. r) d)
      at (ok a) = h
      at (err e) = tt

  pub write-Stays :
      {A : Type 0} (s : D → Result (A × D)) (d : D)
      → Ran {A = A} (λ a d'. N d') (s d)
      → Stays {A = A} (write s d)
  write-Stays {A} s d h = at (s d) h
    where
      at : (r : Result (A × D)) → Ran {A = A} (λ a d'. N d') r → Stays {A = A} (write (λ _. r) d)
      at (ok x) k = k
      at (err e) k = tt

  pub classified-Stays :
      {A : Type 0} (s : D → Result (A × D)) (d : D)
      → Ran {A = A} (λ a d'. N d') (s d)
      → Stays {A = A} (write_classified s d)
  classified-Stays {A} s d h = at (s d) h
    where
      at :
          (r : Result (A × D))
          → Ran {A = A} (λ a d'. N d') r
          → Stays {A = A} (write_classified (λ _. r) d)
      at (ok x) k = k
      at (err e) k = tt

  pub when-Stays :
      (b : Bool) (m : Tx D (Unit {0}) (Unit {0})) (d : D) → N d → Stays (m d) → Stays (when b m d)
  when-Stays true m d h k = k
  when-Stays false m d h k = h

-- A statement that leaves alone what the property is about.
pub unmoved :
    {D A V : Type 0} (view : D → V) (N : V → Type 0) (Q : A → D → Type 0) (r : Result (A × D))
    (d : D)
    → N (view d)
    → ((a : A) (d' : D) → Q a d' → view d' ≡ view d)
    → Ran Q r
    → Ran {A = A} (λ a d'. N (view d')) r
unmoved view N Q r d h k q =
    Ran-map Q (λ a d'. N (view d')) r (λ a d' x. subst N (sym (k a d' x)) h) q

-- The property after a transaction, and after a statement.
module _ {D : Type 0} (N : D → Type 0) where
  pub transact-keeps :
      (begin commit : D → Result (Unit {0})) (body : Tx D (Unit {0}) (Unit {0})) (d : D)
      → N d
      → Stays N (body d)
      → N (transact begin commit body d).1
  transact-keeps begin commit body d h k =
      at (transact begin commit body d)
        (Final-transact (λ r d'. N d') (λ r. Unit {0}) begin commit body d (λ e. tt) k)
    where
      at : (x : Result (Unit {0}) × D) → Final (λ r d'. N d') (λ r. Unit {0}) d x → N x.1
      at x (inl e) = subst N (sym e.0) h
      at x (inr e) = e.2

  pub single-keeps :
      {R : Type 0} (s : D → Result (R × D)) (d : D)
      → N d
      → Ran {A = R} (λ a d'. N d') (s d)
      → N (single s d).1
  single-keeps {R} s d h k =
      at (single s d) (Final-single (λ r d'. N d') (λ r. Unit {0}) s d (λ e. tt) k)
    where
      at : (x : Result R × D) → Final (λ r d'. N d') (λ r. Unit {0}) d x → N x.1
      at x (inl e) = subst N (sym e.0) h
      at x (inr e) = e.2
