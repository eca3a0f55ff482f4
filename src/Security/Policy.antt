-- ===== src/Security/Policy.antt =====
-- internal/security/policy.go: `ResourcePolicy`. The file system is `FileSystem`: what it answers is
-- a parameter. Each of its answers may be a failure.
use rclone_sync_hub_go_backe.Prelude.{
  Text, codes, text_eq, [], ◌∷◌, List, Bool, true, false, not, ◌&&◌, ◌||◌, ltb, length, some_of,
  select, if◌then◌else◌, Option, none, some,
}
use rclone_sync_hub_go_backe.Paths.{
  contains_byte, contains_any, has_prefix, trim_slash, to_slash, trim_space, clean, dot, dotdot,
}
use rclone_sync_hub_go_backe.Worker.Effects.{Checked, refused, allowed, Policy}

pub record ResourcePolicy : Type 0 where
  pub enforce : Bool
  pub local_roots : List Text
  pub allowed_remotes : List Text

pub data Kind : Type 0 where
  directory regular special : Kind

-- The operating system: `filepath.Abs`, `filepath.EvalSymlinks`, and what `os.Stat` finds.
pub record FileSystem : Type 0 where
  pub absolute : Text → Option Text
  pub eval_symlinks : Text → Option Text
  pub stat : Text → Option Kind
  -- `filepath.Rel(root, path)`
  pub relative : Text → Text → Option Text

abbrev pub eval_absolute : FileSystem → Option Text → Option Text
eval_absolute os none = none
eval_absolute os (some p) = os.eval_symlinks p

-- The absolute path without symbolic links.
abbrev pub resolve : FileSystem → Text → Option Text
resolve os path = eval_absolute os (os.absolute path)

abbrev pub member_of : Text → List Text → Bool
member_of s xs = some_of (text_eq s) xs

abbrev pub names_of : List Text → List Text
names_of [] = []
names_of (x ∷ xs) =
    let rest = names_of xs in if text_eq (trim_space x) [] then rest else trim_space x ∷ rest

-- `relative == "." || relative != ".." && !strings.HasPrefix(relative, "../")`
abbrev pub stays_below : Option Text → Bool
stays_below none = false
stays_below (some r) = text_eq r dot || (not (text_eq r dotdot) && not (has_prefix (codes "../") r))

unfoldable pub within_allowed_root : FileSystem → ResourcePolicy → Text → Bool
within_allowed_root os p candidate =
    some_of (λ root. stays_below (os.relative root candidate)) p.local_roots

-- NewResourcePolicy: the roots that can be used, or an error where one cannot and the policy is
-- enforced.
pub data Root : Type 0 where
  broken unusable : Root
  usable : Text → Root

abbrev pub directory_at : Text → Option Kind → Root
directory_at path (some Kind.directory) = usable (clean path)
directory_at path _ = unusable

abbrev pub resolved_root : FileSystem → Option Text → Root
resolved_root os none = unusable
resolved_root os (some path) = directory_at path (os.stat path)

abbrev pub absolute_root : FileSystem → Option Text → Root
absolute_root os none = broken
absolute_root os (some path) = resolved_root os (os.eval_symlinks path)

abbrev pub usable_root : FileSystem → Text → Root
usable_root os root = absolute_root os (os.absolute (clean root))

-- A root without an absolute path is an error; another that cannot be used is one if the policy is
-- enforced, and is passed over if not.
abbrev pub add_root : Bool → Root → Option (List Text) → Option (List Text)
add_root enforce broken rest = none
add_root enforce unusable rest = if enforce then none else rest
add_root enforce (usable root) none = none
add_root enforce (usable root) (some roots) = some (root ∷ roots)

unfoldable pub usable_roots : FileSystem → Bool → List Text → Option (List Text)
usable_roots os enforce [] = some []
usable_roots os enforce (root ∷ roots) =
    let rest = usable_roots os enforce roots in
    if text_eq (trim_space root) [] then rest else add_root enforce (usable_root os root) rest

abbrev pub is_empty {ℓ} : {A : Type ℓ} → List A → Bool
is_empty [] = true
is_empty (x ∷ xs) = false

abbrev pub admit : Bool → List Text → Option (List Text) → Option ResourcePolicy
admit enforce remotes none = none
admit enforce remotes (some roots) =
    if enforce && (is_empty roots || is_empty remotes)
    then none
    else some (record { enforce = enforce; local_roots = roots; allowed_remotes = remotes })

unfoldable pub new_resource_policy :
    FileSystem → Bool → List Text → List Text → Option ResourcePolicy
new_resource_policy os enforce roots remotes =
    admit enforce (names_of remotes) (usable_roots os enforce roots)

-- ResolveAllowedRemotes: names without repetition, in order; `seen` are those before.
unfoldable pub distinct_names : List Text → List Text → List Text
distinct_names seen [] = []
distinct_names seen (x ∷ xs) =
    let name = trim_space x in
    let skip = distinct_names seen xs in
    let keep = distinct_names (name ∷ seen) xs in
    if text_eq name [] || member_of name seen then skip else name ∷ keep

-- The allowed names, or the missing ones.
pub data Remotes : Type 0 where
  remotes : List Text → Remotes
  missing : List Text → Remotes

unfoldable pub resolve_allowed_remotes : List Text → List Text → Remotes
unfolding distinct_names
resolve_allowed_remotes [] discovered = remotes (distinct_names [] discovered)
resolve_allowed_remotes (x ∷ xs) discovered =
    let available = distinct_names [] discovered in
    let wanted = distinct_names [] (x ∷ xs) in
    let absent = select (λ n. not (member_of n available)) wanted in
    if is_empty absent then remotes wanted else missing absent

-- A nil policy enforces nothing.
abbrev pub enforced : Option ResourcePolicy → Bool
enforced none = false
enforced (some p) = p.enforce

abbrev pub remotes_of : Option ResourcePolicy → List Text
remotes_of none = []
remotes_of (some p) = p.allowed_remotes

abbrev pub normalized_remote : Text → Text
normalized_remote path = clean (trim_slash (to_slash path))

abbrev pub bad_remote_name : Text → Bool
bad_remote_name name =
    text_eq name [] || ltb 255 (length name) || contains_any (b':' ∷ 0 ∷ 13 ∷ 10 ∷ []) name

abbrev pub bad_remote_path : Text → Bool
bad_remote_path path =
    text_eq path [] || ltb 1024 (length path) || contains_any (0 ∷ 13 ∷ 10 ∷ []) path

abbrev pub traverses : Text → Bool
traverses path = text_eq path dot || text_eq path dotdot || has_prefix (codes "../") path

unfoldable pub validate_remote : Option ResourcePolicy → Text → Text → Checked
validate_remote p remote_name remote_path =
    let name = trim_space remote_name in
    if bad_remote_name name
    then refused (codes "invalid rclone remote name")
    else if enforced p && not (member_of name (remotes_of p))
    then refused (codes "rclone remote is not allowed")
    else if bad_remote_path remote_path
    then refused (codes "invalid remote path")
    else if traverses (normalized_remote remote_path)
    then refused (codes "remote path traversal is not allowed")
    else allowed (normalized_remote remote_path)

-- The kind that a caller requires: a directory, or a regular file.
abbrev pub has_kind : Bool → Kind → Bool
has_kind true Kind.directory = true
has_kind true _ = false
has_kind false Kind.regular = true
has_kind false _ = false

abbrev pub confined : FileSystem → Option ResourcePolicy → Text → Bool
confined os none resolved = true
confined os (some p) resolved = not p.enforce || within_allowed_root os p resolved

abbrev pub check_kind : FileSystem → Option ResourcePolicy → Bool → Text → Option Kind → Checked
check_kind os p want_directory resolved none = refused (codes "stat local path")
check_kind os p want_directory resolved (some kind) =
    if not (has_kind want_directory kind)
    then refused (codes "local path has the wrong kind")
    else if confined os p (clean resolved)
    then allowed (clean resolved)
    else refused (codes "local path is outside the allowed roots")

abbrev pub check_resolved : FileSystem → Option ResourcePolicy → Bool → Option Text → Checked
check_resolved os p want_directory none = refused (codes "resolve local path")
check_resolved os p want_directory (some resolved) =
    check_kind os p want_directory resolved (os.stat resolved)

unfoldable pub validate_local : FileSystem → Option ResourcePolicy → Bool → Text → Checked
validate_local os p want_directory input =
    if text_eq (trim_space input) [] || ltb 4096 (length input) || contains_byte 0 input
    then refused (codes "invalid local path")
    else check_resolved os p want_directory (resolve os (clean input))

abbrev pub validate_local_file : FileSystem → Option ResourcePolicy → Text → Checked
validate_local_file os p = validate_local os p false

abbrev pub validate_local_directory : FileSystem → Option ResourcePolicy → Text → Checked
validate_local_directory os p = validate_local os p true

abbrev pub allows_remote : Option ResourcePolicy → Text → Bool
allows_remote p name = not (enforced p) || member_of name (remotes_of p)

-- The two checks that a worker makes.
abbrev pub worker_policy : FileSystem → ResourcePolicy → Policy
worker_policy os p = record {
  validate_local_file = validate_local_file os (some p);
  validate_remote = validate_remote (some p);
}
