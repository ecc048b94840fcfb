-- ===== src/Execute/Paths.antt =====
-- The paths of a run, in core.ts: `normalizeWorkspacePath`, `workspacePrefixedPath`,
-- `localPathToRemoteWorkspacePath`, `remoteWorkspacePathToLocalPath`, `normalizeHost` and
-- `isLikelyClusterId`. Node's `path` is a record of functions.
use databricks_vscode.Prelude.{
  ℕ, zero, suc, Bool, true, false, ◌&&◌, ◌||◌, Option, none, some, [], ◌∷◌, ◌++◌, Text, codes,
  starts_with, drop_prefix, lower_all, leb, is_digit, ◌==◌, if◌then◌else◌,
}
use databricks_vscode.Shell.{backslash}

-- `to_posix` is `split(path.sep).join(path.posix.sep)`, `join_parts` is `path.join` with the parts
-- of a path of the workspace.
pub record PathLibrary : Type 0 where
  pub normalize : Text → Text
  pub join : Text → Text → Text
  pub posix_relative : Text → Text → Text
  pub relative : Text → Text → Text
  pub is_absolute : Text → Bool
  pub to_posix : Text → Text
  pub join_parts : Text → Text → Text

abbrev pub forward : Text → Text
forward [] = []
forward (c ∷ s) = (if c == backslash then b'/' else c) ∷ forward s

abbrev pub without_workspace : (Text → Text) → Text → Text
without_workspace normalize p = elim (drop_prefix (codes "/Workspace") p) [
  | none ↦ p
  | some rest ↦ if starts_with rest (codes "/") then normalize rest else p
]

abbrev pub starts_with_scheme : Text → Bool
starts_with_scheme host =
    starts_with (lower_all host) (codes "http://")
    || starts_with (lower_all host) (codes "https://")

unfoldable pub normalize_host : Text → Text
normalize_host host = if starts_with_scheme host then host else codes "https://" ++ host

abbrev pub is_letter_or_digit : ℕ → Bool
is_letter_or_digit c = is_digit c || (leb b'a' c && leb c b'z') || (leb b'A' c && leb c b'Z')

abbrev pub all_alphanumeric : Text → Bool
all_alphanumeric [] = true
all_alphanumeric (c ∷ s) = is_letter_or_digit c && all_alphanumeric s

abbrev pub is_alphanumeric : Text → Bool
is_alphanumeric [] = false
is_alphanumeric s = all_alphanumeric s

-- `\d{n}-` and what follows it.
abbrev pub after_digits : ℕ → Text → Option Text
after_digits zero (c ∷ s) = if c == b'-' then some s else none
after_digits (suc n) (c ∷ s) = if is_digit c then after_digits n s else none
after_digits _ [] = none

abbrev pub after_two : Option Text → Bool
after_two none = false
after_two (some s) = elim (after_digits 6 s) [ none ↦ false | some rest ↦ is_alphanumeric rest ]

unfoldable pub is_likely_cluster_id : Text → Bool
is_likely_cluster_id value = after_two (after_digits 4 value)

module _ (path : PathLibrary) where
  unfoldable pub normalize_workspace_path : Text → Text
  normalize_workspace_path p = without_workspace path.normalize (path.normalize (forward p))

  unfoldable pub workspace_prefixed_path : Text → Text
  unfolding normalize_workspace_path
  workspace_prefixed_path p = path.join (codes "/Workspace") (normalize_workspace_path p)

  -- `none` is the error that the file is not within the bundle root.
  unfoldable pub local_path_to_remote_workspace_path : (file root remote_root : Text) → Option Text
  unfolding workspace_prefixed_path
  local_path_to_remote_workspace_path file root remote_root =
      let relative = path.relative root file in
      if starts_with relative (codes "..") || path.is_absolute relative
      then none
      else some (path.join (workspace_prefixed_path remote_root) (path.to_posix relative))

  unfoldable pub remote_workspace_path_to_local_path : (file root remote_root : Text) → Option Text
  unfolding normalize_workspace_path
  remote_workspace_path_to_local_path file root remote_root =
      let rel =
        path.posix_relative (normalize_workspace_path remote_root)
          (normalize_workspace_path file) in
      if starts_with rel (codes "..") then none else some (path.join_parts root rel)
