-- ===== src/Database/Transaction.antt =====
-- Transactions: statements in sequence, an early return by `tx.Rollback()`, and a commit.
use rclone_sync_hub_go_backe.Prelude.{Bool, true, false, ◌≡◌, refl, ◌⊎◌, inl, inr}
use rclone_sync_hub_go_backe.Database.Outcome.{Err, Result, ok, err, classified, Ran}

-- A statement of a transaction that returns `R` goes on with a value, or ends it by a rollback.
pub data Step (D R A : Type 0) : Type 0 where
  next : A → D → Step D R A
  rollback : Result R → Step D R A

abbrev pub Tx : Type 0 → Type 0 → Type 0 → Type 0
Tx D R A = D → Step D R A

infixl 10 ◌>>=◌ ◌>>◌
abbrev pub ◌>>=◌ : {D R A B : Type 0} → Tx D R A → (A → Tx D R B) → Tx D R B
◌>>=◌ m f d = elim (m d) [ next a d' ↦ f a d' | rollback r ↦ rollback r ]

abbrev pub ◌>>◌ : {D R A B : Type 0} → Tx D R A → Tx D R B → Tx D R B
m >> k = m >>= λ _. k

abbrev pub pure : {D R A : Type 0} → A → Tx D R A
pure a d = next a d

abbrev pub leave : {D R A : Type 0} → Result R → Tx D R A
leave r d = rollback r

-- A write; its error rolls back and is returned.
abbrev pub write : {D R A : Type 0} → (D → Result (A × D)) → Tx D R A
write s d = elim (s d) [ ok x ↦ next x.0 x.1 | err e ↦ rollback (err e) ]

-- A write whose error classifyConstraintError renames.
abbrev pub write_classified : {D R A : Type 0} → (D → Result (A × D)) → Tx D R A
write_classified s d = elim (s d) [ ok x ↦ next x.0 x.1 | err e ↦ rollback (err (classified e)) ]

abbrev pub when : {D R : Type 0} → Bool → Tx D R (Unit {0}) → Tx D R (Unit {0})
when true m = m
when false m = pure tt

-- A read; its error rolls back and is returned.
abbrev pub read : {D R A : Type 0} → (D → Result A) → Tx D R A
read s d = elim (s d) [ ok a ↦ next a d | err e ↦ rollback (err e) ]

-- `Begin`, the body, and `Commit` where the body did not roll back.
abbrev pub close : {D R : Type 0} → (D → Result (Unit {0})) → D → Step D R R → Result R × D
close commit d (rollback r) = (r, d)
close commit d (next r d') = elim (commit d') [ ok _ ↦ (ok r, d') | err e ↦ (err e, d) ]

unfoldable pub transact :
    {D R : Type 0} → (D → Result (Unit {0})) → (D → Result (Unit {0})) → Tx D R R → D → Result R × D
transact begin commit body d = elim (begin d) [
  | err e ↦ (err e, d)
  | ok _ ↦ close commit d (body d)
]

-- A single write outside a transaction: an error leaves the state as it was.
abbrev pub single : {D A : Type 0} → (D → Result (A × D)) → D → Result A × D
single s d = elim (s d) [ ok x ↦ (ok x.0, x.1) | err e ↦ (err e, d) ]

-- `Q` holds where the transaction goes on, `Back` of what it returns when it rolls back.
abbrev pub Ends : {D R A : Type 0} → (A → D → Type 0) → (Result R → Type 0) → Step D R A → Type 0
Ends Q Back (next a d) = Q a d
Ends Q Back (rollback r) = Back r

-- `Q` holds of a committed result, or nothing is changed and `Back` holds.
abbrev pub Final :
    {D R : Type 0} → (R → D → Type 0) → (Result R → Type 0) → D → Result R × D → Type 0
Final {D} {R} Q Back d x = ((x.1 ≡ d) × Back x.0) ⊎ ((r : R) × (x.0 ≡ ok r) × Q r x.1)

-- The rest of a transaction, after a part that went on.
pub Ends-bind :
    {D R A B : Type 0} (P : A → D → Type 0) (Q : B → D → Type 0) (Back : Result R → Type 0)
    (m : Tx D R A) (f : A → Tx D R B) (d : D)
    → Ends P Back (m d)
    → ((a : A) (d' : D) → P a d' → Ends Q Back (f a d'))
    → Ends Q Back ((m >>= f) d)
Ends-bind P Q Back m f d h k = at (m d) h
  where
    at : (s : Step _ _ _) → Ends P Back s → Ends Q Back (((λ _. s) >>= f) d)
    at (next a d') h = k a d' h
    at (rollback r) h = h

-- The rest of a transaction, after a statement that did not fail.
module _ {D R A B : Type 0} (Q : B → D → Type 0) (Back : Result R → Type 0) where
  pub Ends-bind-write :
      (s : D → Result (A × D)) (f : A → Tx D R B) (d : D)
      → ((e : Err) → Back (err e))
      → ((a : A) (d' : D) → s d ≡ ok (a, d') → Ends Q Back (f a d'))
      → Ends Q Back ((write s >>= f) d)
  Ends-bind-write s f d b h = at (s d) refl
    where
      at : (r : Result (A × D)) → s d ≡ r → Ends Q Back ((write (λ _. r) >>= f) d)
      at (ok (a, d')) e = h a d' e
      at (err x) e = b x

  pub Ends-bind-read :
      (s : D → Result A) (f : A → Tx D R B) (d : D)
      → ((e : Err) → Back (err e))
      → ((a : A) → s d ≡ ok a → Ends Q Back (f a d))
      → Ends Q Back ((read s >>= f) d)
  Ends-bind-read s f d b h = at (s d) refl
    where
      at : (r : Result A) → s d ≡ r → Ends Q Back ((read (λ _. r) >>= f) d)
      at (ok a) e = h a e
      at (err x) e = b x

module _ {D R : Type 0} (Q : R → D → Type 0) (Back : Result R → Type 0) where
  pub Final-transact :
      (begin commit : D → Result (Unit {0})) (body : Tx D R R) (d : D)
      → ((e : Err) → Back (err e))
      → Ends Q Back (body d)
      → Final Q Back d (transact begin commit body d)
  unfolding transact
  Final-transact begin commit body d b h = at (begin d)
    where
      close_at :
          (c : (d' : D) → Result (Unit {0})) (s : Step D R R)
          → Ends Q Back s
          → Final Q Back d (close c d s)
      close_at c (rollback r) q = inl (refl, q)
      close_at c (next r d') q = commit_at (c d')
        where
          commit_at : (x : Result (Unit {0})) → Final Q Back d (close (λ _. x) d (next r d'))
          commit_at (ok u) = inr (r, refl, q)
          commit_at (err e) = inl (refl, b e)

      at : (x : Result (Unit {0})) → Final Q Back d (transact (λ _. x) commit body d)
      at (ok u) = close_at commit (body d) h
      at (err e) = inl (refl, b e)

  pub Final-single :
      (s : D → Result (R × D)) (d : D)
      → ((e : Err) → Back (err e))
      → Ran Q (s d)
      → Final Q Back d (single s d)
  Final-single s d b h = at (s d) h
    where
      at : (x : Result (R × D)) → Ran Q x → Final Q Back d (single (λ _. x) d)
      at (ok (r, d')) k = inr (r, refl, k)
      at (err e) k = inl (refl, b e)
