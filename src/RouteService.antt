-- ===== src/RouteService.antt =====
-- internal/service/remote_route_service.go: the paths of objects below a route, the remote, and the
-- routes that may be modified. RouteService.Batch has the report of a batch of moves,
-- RouteService.Validation its first loop, RouteService.MoveFiles the batch.
mod Batch
mod Validation
pub mod MoveFiles
mod Counting
pub mod Accounting
use rclone_sync_hub_go_backe.Prelude.{
  ℕ, ◌+◌, Text, codes, text_eq, Bool, true, false, not, ◌&&◌, ◌||◌, ◌==◌, ltb, length, Option, none,
  some, List, [], ◌∷◌, ◌++◌, some_of, if◌then◌else◌, ◌⊎◌, inl, inr, zero, suc,
}
use mathlib.Core.List.{reverse}
use rclone_sync_hub_go_backe.Model.Folders.{RemoteRoute, scanning, is_route}
use rclone_sync_hub_go_backe.Database.Outcome.{Result, ok, err, driver, not_found}
use rclone_sync_hub_go_backe.Database.Statement.{Sql}
use rclone_sync_hub_go_backe.Paths.{
  slash, dotdot, dot, to_slash, trim_space, split, clean, has_prefix,
}
use rclone_sync_hub_go_backe.Worker.Effects.{Checked, allowed, refused}
use rclone_sync_hub_go_backe.Security.Policy.{ResourcePolicy, validate_remote}
use rclone_sync_hub_go_backe.RouteRepository.{schedule_scan}
use rclone_sync_hub_go_backe.RouteRepository.Columns.{route_id}
use rclone_sync_hub_go_backe.UploadService.{Fault, told, untold, validation, clash, missing}

-- `strings.Trim(s, "/")`
unfoldable pub drop_slashes : Text → Text
drop_slashes [] = []
drop_slashes (c ∷ s) = let rest = drop_slashes s in if c == slash then rest else c ∷ s

unfoldable pub trim_slashes : Text → Text
trim_slashes s = reverse (drop_slashes (reverse (drop_slashes s)))

abbrev pub invalid : Text → Fault
invalid message = told validation message

-- A path below the root of a route; the root is the empty path.
pub data Located : Type 0 where
  at_path : Text → Located
  nowhere : Fault → Located

-- internal/service/file_index_service.go: normalizeIndexPath
unfoldable pub normalize_index_path : Text → Located
normalize_index_path value =
    let trimmed = trim_slashes (trim_space (to_slash value)) in
    if text_eq trimmed []
    then at_path []
    else if text_eq (clean trimmed) dot
    then at_path []
    else if text_eq (clean trimmed) dotdot || has_prefix (codes "../") (clean trimmed)
    then nowhere (invalid (codes "path traversal is not allowed"))
    else if ltb 768 (length (clean trimmed))
    then nowhere (invalid (codes "path is too long"))
    else at_path (clean trimmed)

abbrev pub below_root : Bool → Located → Located
below_root allow_root (nowhere f) = nowhere f
below_root allow_root (at_path p) =
    if text_eq p [] && not allow_root
    then nowhere (invalid (codes "path must identify an item below the route root"))
    else at_path p

-- normalizeRemoteMutationPath
abbrev pub mutation_path : Text → Bool → Located
mutation_path value allow_root = below_root allow_root (normalize_index_path value)

-- `path.Join` of two parts, and `path.Base` of a cleaned path.
abbrev pub join_paths : Text → Text → Text
join_paths [] [] = []
join_paths [] (c ∷ s) = clean (c ∷ s)
join_paths (c ∷ s) t = clean ((c ∷ s) ++ slash ∷ t)

abbrev pub last_of : List Text → Text
last_of [] = dot
last_of (x ∷ []) = x
last_of (x ∷ y ∷ ys) = last_of (y ∷ ys)

abbrev pub base_name : Text → Text
base_name p = last_of (split p)

abbrev pub located : Checked → Located
located (allowed p) = at_path p
located (refused m) =
    nowhere (invalid (codes "remote object path is invalid or outside the allowlist"))

-- routeObjectPath
unfoldable pub object_path : Option ResourcePolicy → RemoteRoute → Text → Located
object_path policy route relative = located (
    validate_remote policy route.remote_name
      (if text_eq relative [] then route.remote_path else join_paths route.remote_path relative))

abbrev pub destination_of : Text → Text → Text
destination_of target source =
    if text_eq target [] then base_name source else join_paths target (base_name source)

-- The answer of StatRemote: an error, nothing there, or an object that is a folder or not.
pub data Stat : Type 0 where
  stat_failed absent : Stat
  present : (is_dir : Bool) → Stat

-- rclone and the remote behind it, which others may change at any time.
pub record Remote : Type 1 where
  pub State : Type 0
  pub stat : Text → Text → State → Stat × State
  pub move : Text → Text → Text → State → Bool × State

-- Get and writableRoute
abbrev pub writable : Result (Option RemoteRoute) → RemoteRoute ⊎ Fault
writable (err e) = inr (untold e)
writable (ok none) = inr (told missing (codes "remote route not found"))
writable (ok (some r)) =
    if not r.enabled
    then inr (told clash (codes "remote route must be enabled before it can be modified"))
    else if is_route r.status scanning
    then inr
        (told clash (codes "remote route is currently scanning; retry after the scan finishes"))
    else inl r
