-- ===== src/Security/Confinement.antt =====
-- What the resource policy confines paths and remotes to.
use rclone_sync_hub_go_backe.Prelude.{
  Text, text_eq, [], ◌∷◌, ◌++◌, List, Bool, true, false, not, ◌≡◌, refl, subst, ◌&&◌, All, Member,
  arith, Option, some,
}
use rclone_sync_hub_go_backe.Paths.{slash, split, clean, trim_space, trim_slash, to_slash}
use rclone_sync_hub_go_backe.Paths.Normal.{clean-StaysBelow, StaysBelow, IsName, clean-rooted_name}
use rclone_sync_hub_go_backe.Worker.Effects.{allowed}
use rclone_sync_hub_go_backe.Security.Policy.{
  ResourcePolicy, FileSystem, Kind, member_of, stays_below, enforced, remotes_of, normalized_remote,
  bad_remote_name, bad_remote_path, traverses, validate_remote, resolve, has_kind,
}

-- What an accepted destination satisfies.
pub record IsConfined (p : Option ResourcePolicy) (remote_name path : Text) : Type 0 where
  pub below : All StaysBelow (split path)
  pub listed : enforced p ≡ true → member_of (trim_space remote_name) (remotes_of p) ≡ true
  pub named : bad_remote_name (trim_space remote_name) ≡ false

-- A destination is accepted only with a well-formed remote name, which is on the allowlist if the
-- policy is enforced, and with a path none of whose segments is a dot or two dots.
pub validate_remote-IsConfined :
    (p : Option ResourcePolicy) (remote_name remote_path path : Text)
    → validate_remote p remote_name remote_path ≡ allowed path
    → IsConfined p remote_name path
unfolding validate_remote
validate_remote-IsConfined p name raw path h = record {
  below =
      subst (λ q. All StaysBelow (split q)) (is_normalized)
        (clean-StaysBelow (trim_slash (to_slash raw)) no_escape);
  listed = λ e. ground arith;
  named = ground arith;
}
  where
    is_normalized : normalized_remote raw ≡ path
    is_normalized = ground arith

    no_escape : traverses (normalized_remote raw) ≡ false
    no_escape = ground arith

-- ValidateRemote accepts a path of two slashes and a name without backslashes, for a well-formed
-- and allowed remote name and a path that is not too long, and returns the rooted path of one
-- slash and that name.
pub double_slash :
    (p : Option ResourcePolicy) (remote_name x : Text)
    → bad_remote_name (trim_space remote_name) ≡ false
    → (enforced p && not (member_of (trim_space remote_name) (remotes_of p))) ≡ false
    → bad_remote_path (slash ∷ slash ∷ x) ≡ false
    → IsName x
    → to_slash x ≡ x
    → validate_remote p remote_name (slash ∷ slash ∷ x) ≡ allowed (slash ∷ x)
unfolding validate_remote text_eq
double_slash p name x n l b i e = rw (n, l, b, rooted_clean) refl
  where
    rooted_clean : normalized_remote (slash ∷ slash ∷ x) ≡ slash ∷ x
    rooted_clean = rw e (clean-rooted_name x i)

-- `filepath.Join` of two parts, the second of which is not empty: an empty part is ignored.
abbrev pub joined : Text → Text → Text
joined [] r = clean r
joined (c ∷ root) r = clean (c ∷ root ++ (slash ∷ r))

-- What `filepath.Rel` documents: the joined path is lexically equivalent to the target, which
-- `filepath.Clean` tells.
abbrev pub RelLaw : FileSystem → Type 0
RelLaw os = (root path r : Text) → os.relative root path ≡ some r → joined root r ≡ clean path

-- An allowed root and a relative path below it, which lead to the path.
pub record IsBelow (os : FileSystem) (roots : List Text) (path : Text) : Type 0 where
  pub root : Text
  pub rest : Text
  pub is_root : Member root roots
  pub joins : joined root rest ≡ clean path
  pub stays : stays_below (some rest) ≡ true

-- What an accepted local path satisfies: it is where the input resolves to, of the required kind,
-- and, under an enforced policy, at or below an allowed root.
pub record IsLocal (os : FileSystem) (p : ResourcePolicy) (want_directory : Bool)
    (input path : Text) : Type 0 where
  pub resolved : Text
  pub kind : Kind
  pub resolves : resolve os (clean input) ≡ some resolved
  pub is_clean : clean resolved ≡ path
  pub found : os.stat resolved ≡ some kind
  pub wanted : has_kind want_directory kind ≡ true
  pub below : p.enforce ≡ true → IsBelow os p.local_roots path
