-- ===== src/Examples/Names.antt =====
-- The theorems of Security, PathPipeline and Paths on concrete names.
use rclone_sync_hub_go_backe.Prelude.{
  ℕ, suc, Text, codes, text_eq, [], ◌∷◌, List, true, ◌≡◌, refl, none, some, inr, length, pos, arith,
  if◌then◌else◌,
}
use rclone_sync_hub_go_backe.Paths.{clean, cleaned, join, trim_space, contains_any, contains_byte}
use rclone_sync_hub_go_backe.Worker.Effects.{allowed}
use rclone_sync_hub_go_backe.Security.Policy.{ResourcePolicy, FileSystem, Kind, validate_remote}
use rclone_sync_hub_go_backe.Security.Confinement.{
  IsConfined, validate_remote-IsConfined, double_slash,
}
use rclone_sync_hub_go_backe.PathPipeline.{
  Regexp, Step, Extract, ok, compile, normalize, normalize_steps, normalize_step,
  compile_regex_extract, run_steps, apply, normalize_output, resolve, regex_extract,
}
use rclone_sync_hub_go_backe.PathPipeline.Directories.{IsBelowRoute, resolve-IsBelowRoute}
use rclone_sync_hub_go_backe.PathPipeline.Compilation.{compile_total}

abbrev pub box_only : ResourcePolicy
box_only = record {
  enforce = true;
  local_roots = codes "/in" ∷ [];
  allowed_remotes = codes "box" ∷ [];
}

validate_remote-IsConfined_example : IsConfined (some box_only) (codes " box ") (codes "up/b")
unfolding validate_remote text_eq clean cleaned join trim_space contains_any
validate_remote-IsConfined_example =
    validate_remote-IsConfined (some box_only) (codes " box ") (codes "up/./a/../b/") (codes "up/b")
      refl

double_slash_example :
    validate_remote (some box_only) (codes "box") (codes "//etc") ≡ allowed (codes "/etc")
unfolding text_eq trim_space contains_any
double_slash_example =
    double_slash (some box_only) (codes "box") (codes "etc") refl refl refl
      (record { is_filled = refl; no_dot = refl; no_dotdot = refl; no_slash = refl }) refl

-- A file system with one directory and one file in it.
abbrev one_file : FileSystem
one_file = record {
  absolute = λ p. some p;
  eval_symlinks = λ p. some p;
  stat = λ p.
      if text_eq p (codes "/in/a")
      then some Kind.regular
      else if text_eq p (codes "/in")
      then some Kind.directory
      else none;
  relative = λ root p.
      if text_eq root (codes "/in")
      then (if text_eq (clean p) (codes "/in/a") then some (codes "a") else none)
      else none;
}

two_entries : (p input : Text) (n : ℕ) → some 1 ≡ some n → length (input ∷ input ∷ []) ≡ suc n
two_entries p input n h = ground arith

-- A regular expression that extracts the whole name.
abbrev whole : Regexp
whole = record {
  subexpressions = λ p. some 1;
  find_submatch = λ p input. input ∷ input ∷ [];
  submatch_law = λ p input n h. inr (two_entries p input n h);
}

abbrev raw_steps : List Step
raw_steps = record { kind = codes " regex_extract "; pattern = codes "(.*) "; group = pos 1 } ∷ []

abbrev steps : List Step
steps = record { kind = regex_extract; pattern = codes "(.*)"; group = pos 1 } ∷ []

compile_total_example : (xs : List Extract) × (compile whole raw_steps ≡ ok xs) × (length xs ≡ 1)
unfolding normalize normalize_steps normalize_step text_eq trim_space compile_regex_extract
compile_total_example = compile_total whole raw_steps steps refl

abbrev extract : Extract
extract = record { source = codes "(.*)"; index = 1 }

resolve-IsBelowRoute_example : IsBelowRoute (codes "2024/05")
unfolding resolve run_steps apply normalize_output text_eq trim_space contains_byte clean cleaned
    join
resolve-IsBelowRoute_example =
    resolve-IsBelowRoute whole (extract ∷ []) (codes " 2024/./05/") (codes "2024/05") refl
