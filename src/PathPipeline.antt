-- ===== src/PathPipeline.antt =====
-- internal/pathpipeline/pipeline.go: the pipeline that turns a file name into an upload directory.
-- The regular expressions of Go's package `regexp` are the parameter `Regexp`.
pub mod Directories
pub mod Compilation
use rclone_sync_hub_go_backe.Prelude.{
  ℕ, zero, suc, ◌+◌, Text, codes, text_eq, [], ◌∷◌, ◌++◌, List, Bool, true, false, not, ◌&&◌, ◌||◌,
  ltb, leb, length, some_of, if◌then◌else◌, Option, none, some, ◌≡◌, ◌⊎◌, ℤ, pos, negsuc, ltb_ℤ,
  pos_part,
}
use rclone_sync_hub_go_backe.Paths.{
  slash, contains_byte, has_prefix, to_slash, trim_space, clean, dot, dotdot, split, is_rooted,
}

-- `regexp.Compile` and `NumSubexp`: none for an invalid pattern; and `FindStringSubmatch`, empty for
-- no match.
pub record Regexp : Type 0 where
  pub subexpressions : Text → Option ℕ
  pub find_submatch : Text → Text → List Text
  -- The match has an entry for the whole and one for each group.
  pub submatch_law :
      (pattern input : Text) (n : ℕ)
      → subexpressions pattern ≡ some n
      → (find_submatch pattern input ≡ []) ⊎ (length (find_submatch pattern input) ≡ suc n)

-- UploadPathPipelineStep
pub record Step : Type 0 where
  pub kind : Text
  pub pattern : Text
  pub group : ℤ

pub data Failure : Type 0 where
  too_many_steps : Failure
  unsupported : (step : ℕ) → Failure
  no_pattern long_pattern invalid_pattern bad_group : Failure
  empty_directory unsafe_directory outside_route long_directory bad_segment : Failure
  panic : Failure  -- the call of a nil compiler

pub data Outcome {ℓ} (A : Type ℓ) : Type ℓ where
  ok : A → Outcome A
  fail : Failure → Outcome A

infixl 10 ◌>>=◌ ◌>>◌
abbrev pub ◌>>=◌ {ℓ κ} : {A : Type ℓ} {B : Type κ} → Outcome A → (A → Outcome B) → Outcome B
ok a >>= f = f a
fail e >>= f = fail e

abbrev pub ◌>>◌ {ℓ κ} : {A : Type ℓ} {B : Type κ} → Outcome A → Outcome B → Outcome B
m >> k = m >>= λ _. k

-- regexExtractStep
pub record Extract : Type 0 where
  pub source : Text
  pub index : ℕ

abbrev pub regex_extract : Text
regex_extract = codes "regex_extract"

abbrev pub get_elem? : List Text → ℕ → Option Text
get_elem? [] i = none
get_elem? (x ∷ xs) zero = some x
get_elem? (x ∷ xs) (suc i) = get_elem? xs i

-- The segments that normalizeOutput refuses.
abbrev pub bad_segment_of : Text → Bool
bad_segment_of s = text_eq s [] || text_eq s dot || text_eq s dotdot || ltb 255 (length s)

abbrev pub check_directory : Text → Outcome Text
check_directory d =
    if text_eq d dot || text_eq d dotdot || has_prefix (codes "../") d
    then fail outside_route
    else if ltb 512 (length d)
    then fail long_directory
    else if some_of bad_segment_of (split d)
    then fail bad_segment
    else ok d

unfoldable pub normalize_output : Text → Outcome Text
normalize_output raw =
    let value = trim_space (to_slash raw) in
    if text_eq value []
    then fail empty_directory
    else if contains_byte 0 value || is_rooted value
    then fail unsafe_directory
    else check_directory (clean value)

abbrev pub trimmed : Step → Step
trimmed s = record s { kind = trim_space s.kind; pattern = trim_space s.pattern }

module _ (r : Regexp) where
  open r use {subexpressions, find_submatch}

  abbrev pub check_group : Step → Option ℕ → Outcome Extract
  check_group s none = fail invalid_pattern
  check_group s (some n) =
      if ltb_ℤ s.group (pos 1) || ltb_ℤ (pos n) s.group
      then fail bad_group
      else ok (record { source = s.pattern; index = pos_part s.group })

  unfoldable pub compile_regex_extract : Step → Outcome Extract
  compile_regex_extract s =
      if text_eq s.pattern []
      then fail no_pattern
      else if ltb 4096 (length s.pattern)
      then fail long_pattern
      else check_group s (subexpressions s.pattern)

  -- One round of the loop of Normalize.
  unfoldable pub normalize_step : ℕ → Step → Outcome Step
  normalize_step index s =
      if text_eq (trim_space s.kind) regex_extract
      then (do compile_regex_extract (trimmed s); ok (trimmed s))
      else fail (unsupported (index + 1))

  unfoldable pub normalize_steps : ℕ → List Step → Outcome (List Step)
  normalize_steps index [] = ok []
  normalize_steps index (s ∷ ss) =
      let rest = normalize_steps (index + 1) ss in
      do s' ← normalize_step index s; ss' ← rest; ok (s' ∷ ss')

  unfoldable pub normalize : List Step → Outcome (List Step)
  normalize steps = if ltb 16 (length steps) then fail too_many_steps else normalize_steps 0 steps

  -- `stepCompilers[step.Type]` and its call; the compiler of an unknown type is nil.
  unfoldable pub compile_step : Step → Outcome Extract
  compile_step s = if text_eq s.kind regex_extract then compile_regex_extract s else fail panic

  unfoldable pub compile_steps : List Step → Outcome (List Extract)
  compile_steps [] = ok []
  compile_steps (s ∷ ss) =
      let rest = compile_steps ss in do x ← compile_step s; xs ← rest; ok (x ∷ xs)

  unfoldable pub compile : List Step → Outcome (List Extract)
  compile steps = do ss ← normalize steps; compile_steps ss

  -- `len(matches) <= s.group` is no match.
  unfoldable pub apply : Extract → Text → Option Text
  apply x input = get_elem? (find_submatch x.source input) x.index

  -- The loop of Resolve; none for a step without a match.
  unfoldable pub run_steps : List Extract → Text → Option Text
  run_steps [] value = some value
  run_steps (x ∷ xs) value = elim (apply x value) [ none ↦ none | some v ↦ run_steps xs v ]

  -- A directory, no match, or an error.
  unfoldable pub resolve : List Extract → Text → Outcome (Option Text)
  resolve [] file_name = ok none
  resolve (x ∷ xs) file_name = elim (run_steps (x ∷ xs) file_name) [
    | none ↦ ok none
    | some value ↦ normalize_output value >>= λ d. ok (some d)
  ]
