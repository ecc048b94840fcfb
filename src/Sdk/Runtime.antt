-- ===== src/Sdk/Runtime.antt =====
-- sdk-extensions/Cluster.ts and configuration/DatabricksWorkspace.ts: the version of the runtime of a
-- cluster, and what is decided by it. `"x"` is `none`. The texts are `spark_version`s; a line end, which
-- `.` does not match, is not looked for.
pub mod Versions
use databricks_vscode.Prelude.{
  ℕ, zero, suc, Bool, true, false, ◌&&◌, ◌||◌, Option, none, some, List, [], ◌∷◌, ◌++◌, Text, codes,
  ◌==◌, ltb, leb, drop_prefix, parse_decimal, if◌then◌else◌,
}
use databricks_vscode.BundleRun.Job.{leading_digits}

abbrev pub keep : ℕ → Option Text → Option Text
keep c none = none
keep c (some s) = some (c ∷ s)

-- `(.*?)-`
unfoldable pub before_dash : Text → Option Text
before_dash [] = none
before_dash (c ∷ s) = let later = keep c (before_dash s) in if c == b'-' then some [] else later

-- `.*?__`: what follows the first two underscores.
unfoldable pub behind_underscores : Text → Option Text
behind_underscores [] = none
behind_underscores (c ∷ s) = elim (drop_prefix (codes "__") (c ∷ s)) [
  | none ↦ behind_underscores s
  | some rest ↦ some rest
]

abbrev pub first_of : Option Text → Option Text → Option Text
first_of none later = later
first_of (some s) later = some s

abbrev pub behind_custom : Option Text → Option Text
behind_custom none = none
behind_custom (some s) = elim (behind_underscores s) [ none ↦ none | some rest ↦ before_dash rest ]

-- `/^(custom:.*?__)?(.*?)-/`: its second capture.
unfoldable pub match_version : Text → Option Text
unfolding before_dash behind_underscores
match_version s = first_of (behind_custom (drop_prefix (codes "custom:") s)) (before_dash s)

abbrev pub put_part : ℕ → List Text → List Text
put_part c [] = (c ∷ []) ∷ []
put_part c (part ∷ parts) = (c ∷ part) ∷ parts

-- `split(".")`
unfoldable pub split_dots : Text → List Text
split_dots [] = [] ∷ []
split_dots (c ∷ s) = let rest = split_dots s in if c == b'.' then [] ∷ rest else put_part c rest

abbrev pub nonzero : ℕ → Option ℕ
nonzero zero = none
nonzero (suc n) = some (suc n)

-- `parseInt(part, 10) || "x"`, for parts that do not start with a blank or a sign.
abbrev pub number_of : Text → Option ℕ
number_of [] = none
number_of (c ∷ s) = nonzero (parse_decimal (c ∷ s))

unfoldable pub part_number : Text → Option ℕ
unfolding leading_digits
part_number part = number_of (leading_digits part)

abbrev pub Version : Type 0
Version = Option ℕ × Option ℕ × Option ℕ

abbrev pub version_of : List Text → Version
unfolding part_number
version_of [] = (none, none, none)
version_of (a ∷ []) = (part_number a, none, none)
version_of (a ∷ b ∷ []) = (part_number a, part_number b, none)
version_of (a ∷ b ∷ c ∷ rest) = (part_number a, part_number b, part_number c)

abbrev pub version_of_match : Option Text → Version
unfolding version_of split_dots
version_of_match none = (none, none, none)
version_of_match (some s) = version_of (split_dots s)

unfoldable pub dbr_version : Text → Version
unfolding version_of_match match_version
dbr_version spark_version = version_of_match (match_version spark_version)

-- `workspaceConfigs.enableWorkspaceFilesystem`
pub data Setting : Type 0 where
  from_11_0 from_8_4 never always : Setting

abbrev pub at_least : ℕ → Option ℕ → Bool
at_least n none = true
at_least n (some m) = leb n m

abbrev pub from_major_8 : Option ℕ → Option ℕ → Bool
from_major_8 none minor = true
from_major_8 (some major) minor = (major == 8 && at_least 4 minor) || ltb 8 major

-- `supportFilesInReposForCluster`
unfoldable pub support_files_in_repos : (repos_enabled : Bool) → Setting → Version → Bool
support_files_in_repos false setting v = false
support_files_in_repos true never v = false
support_files_in_repos true from_11_0 (major, minor, patch) = at_least 11 major
support_files_in_repos true from_8_4 (major, minor, patch) = from_major_8 major minor
support_files_in_repos true always v = true
