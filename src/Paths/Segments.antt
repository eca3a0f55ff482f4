-- ===== src/Paths/Segments.antt =====
-- Splitting undoes joining.
use rclone_sync_hub_go_backe.Prelude.{
  ℕ, Text, [], ◌∷◌, ◌++◌, List, false, ◌≡◌, refl, ◌==◌, All, ap, arith, Bool-cases, inl, inr,
}
use rclone_sync_hub_go_backe.Paths.{slash, extend, split, join, contains_byte}

-- A segment has no slash.
abbrev pub NoSlash : Text → Type 0
NoSlash s = contains_byte slash s ≡ false

pub split-slash_free : (x : Text) → NoSlash x → split x ≡ x ∷ []
unfolding split contains_byte
split-slash_free [] h = refl
split-slash_free (c ∷ x) h = ground (arith, split-slash_free x)

split-append_slash : (x s : Text) → NoSlash x → split (x ++ (slash ∷ s)) ≡ x ∷ split s
unfolding split contains_byte
split-append_slash [] s h = refl
split-append_slash (c ∷ x) s h = ground (arith, split-append_slash x s)

-- The segments of a path joined from segments without slashes are those segments.
pub split-join :
    (x : Text) (xs : List Text) → NoSlash x → All NoSlash xs → split (join (x ∷ xs)) ≡ x ∷ xs
unfolding join
split-join x [] h hs = split-slash_free x h
split-join x (y ∷ ys) h hs =
    rw (split-append_slash x (join (y ∷ ys)) h) (ap (λ l. x ∷ l) (split-join y ys hs.0 hs.1))

-- A path splits into segments without slashes.
pub split-NoSlash : (s : Text) → All NoSlash (split s)
unfolding split contains_byte
split-NoSlash [] = (refl, tt)
split-NoSlash (c ∷ s) = elim (Bool-cases (c == slash)) [
  | inl e ↦ rw e (refl, split-NoSlash s)
  | inr e ↦ rw e (extended c (split s) e (split-NoSlash s))
]
  where
    extended :
        (d : ℕ) (xs : List Text) → (d == slash) ≡ false → All NoSlash xs → All NoSlash (extend d xs)
    extended d [] e h = (ground arith, tt)
    extended d (x ∷ xs) e h = (ground arith, h.1)
