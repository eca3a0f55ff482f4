-- ===== src/PathPipeline/Directories.antt =====
-- The directories that a pipeline can produce.
use rclone_sync_hub_go_backe.Prelude.{
  ◌≤◌, Text, [], ◌∷◌, List, false, ◌≡◌, refl, All, arith, if◌then◌else◌, Bool-cases, inl, inr,
  length, ltb, some_of, subst, Option, none, some,
}
use rclone_sync_hub_go_backe.Paths.{split, clean, trim_space, to_slash, is_rooted}
use rclone_sync_hub_go_backe.Paths.Normal.{IsName, escapes, clean-names}
use rclone_sync_hub_go_backe.PathPipeline.{
  Regexp, Extract, Outcome, ok, fail, outside_route, long_directory, bad_segment, bad_segment_of,
  check_directory, normalize_output, run_steps, resolve, ◌>>=◌,
}

-- A directory below the remote route: names of at most 255 bytes, 512 bytes in all.
pub record IsBelowRoute (d : Text) : Type 0 where
  pub names : All IsName (split d)
  pub short_names : All (λ s. length s ≤ 255) (split d)
  pub short : length d ≤ 512

short_segments : (xs : List Text) → some_of bad_segment_of xs ≡ false → All (λ s. length s ≤ 255) xs
short_segments [] h = tt
short_segments (x ∷ xs) h = (ground arith, short_segments xs (ground arith))

check_directory-IsBelowRoute :
    (s d : Text) → is_rooted s ≡ false → check_directory (clean s) ≡ ok d → IsBelowRoute d
check_directory-IsBelowRoute s d r h =
    let same : clean s ≡ d = ground arith in
    let inside : escapes (clean s) ≡ false = ground arith in
    let sound : some_of bad_segment_of (split (clean s)) ≡ false = ground arith in
    record {
      names = subst (λ x. All IsName (split x)) same (clean-names s r inside);
      short_names =
          subst (λ x. All (λ y. length y ≤ 255) (split x)) same
            (short_segments (split (clean s)) sound);
      short = subst (λ x. length x ≤ 512) same (ground arith);
    }

-- Whatever the regular expressions extract, an accepted directory stays below the route.
pub normalize_output-IsBelowRoute : (raw d : Text) → normalize_output raw ≡ ok d → IsBelowRoute d
unfolding normalize_output
normalize_output-IsBelowRoute raw d h =
    check_directory-IsBelowRoute (trim_space (to_slash raw)) d (ground arith) (ground arith)

-- A directory that a pipeline resolves to consists of names of 1 to 255 bytes, none of them a dot
-- or two dots, and has at most 512 bytes, whatever the regular expressions extract.
pub resolve-IsBelowRoute :
    (r : Regexp) (xs : List Extract) (file_name d : Text)
    → resolve r xs file_name ≡ ok (some d)
    → IsBelowRoute d
unfolding resolve
resolve-IsBelowRoute r [] file_name d h = cc
resolve-IsBelowRoute r (x ∷ xs) file_name d h = by_value (run_steps r (x ∷ xs) file_name) h
  where
    by_output :
        (o : Outcome Text)
        → ((e : Text) → o ≡ ok e → IsBelowRoute e)
        → (o >>= λ e. ok (some e)) ≡ ok (some d)
        → IsBelowRoute d
    by_output (ok e) sound k = let same : e ≡ d = cc in subst IsBelowRoute same (sound e refl)
    by_output (fail f) sound k = cc

    by_value :
        (o : Option Text)
        → (elim o as (λ _. Outcome (Option Text)) [
          | none ↦ ok none
          | some value ↦ normalize_output value >>= λ e. ok (some e)
        ])
          ≡ ok (some d)
        → IsBelowRoute d
    by_value none k = cc
    by_value (some v) k =
        by_output (normalize_output v) (λ e q. normalize_output-IsBelowRoute v e q) k

-- The check of the segments without its tests for an empty segment, `.` and `..`.
abbrev pub check_lengths : Text → Outcome Text
check_lengths d =
    if escapes d
    then fail outside_route
    else if ltb 512 (length d)
    then fail long_directory
    else if some_of (λ s. ltb 255 (length s)) (split d)
    then fail bad_segment
    else ok d

names_bad :
    (xs : List Text)
    → All IsName xs
    → some_of bad_segment_of xs ≡ some_of (λ s. ltb 255 (length s)) xs
names_bad [] h = refl
names_bad (x ∷ xs) h = ground (arith, names_bad xs h.1)

-- On a cleaned relative path the loop over the segments can refuse nothing but a segment of more
-- than 255 bytes.
pub check_directory-check_lengths :
    (s : Text) → is_rooted s ≡ false → check_directory (clean s) ≡ check_lengths (clean s)
check_directory-check_lengths s r = elim (Bool-cases (escapes (clean s))) [
  | inl e ↦ rw e refl
  | inr e ↦ rw (e, names_bad (split (clean s)) (clean-names s r e)) refl
]
