-- ===== src/PythonSetup/Observations.antt =====
-- python-setup/utils: where the version of the serverless environment is looked for:
-- bundleServerlessVersions.ts, notebookServerlessVersions.ts, pyprojectServerlessVersion.ts, and
-- serverlessVersionObservations.ts and serverlessVersionResolver.ts, which put them together. JSON
-- numbers are natural, and the members of an object come in their order.
pub mod Walks
pub mod Decision
mod Tests
use databricks_vscode.Prelude.{
  ℕ, zero, suc, Bool, true, false, not, ◌&&◌, ◌||◌, Option, none, some, List, [], ◌∷◌, ◌++◌, Text,
  codes, same, starts_with, drop_prefix, decimal, map, any, ◌==◌, if◌then◌else◌,
}
use databricks_vscode.Sync.{is_space, is_line_terminator, trim_start}
use databricks_vscode.LmChat.Json.{
  Json, null, bool, num, str, arr, obj, Items, nil, cons, Fields, end, member, get,
}
use databricks_vscode.LmChat.Events.{split, lines_of}
use databricks_vscode.Environment.Vars.{env_line_end}
use databricks_vscode.Environment.Proxy.{trim, unique}
use databricks_vscode.PythonSetup.Scoring.{
  VersionObservation, VersionSource, bundle_yaml, notebook, pyproject, ScoredVersion,
  score_serverless_versions,
}

abbrev pub nonempty : Text → Option Text
nonempty [] = none
nonempty (c ∷ s) = some (c ∷ s)

-- `normalizeVersion` of the bundle and of a notebook.
unfoldable pub normalize_version : Json → Option Text
unfolding decimal trim
normalize_version (num n) = some (decimal n)
normalize_version (str s) = nonempty (trim s)
normalize_version _ = none

abbrev pub version_key : Text
version_key = codes "environment_version"

abbrev pub first_of : Option Text → Option Text → Option Text
first_of none later = later
first_of (some s) later = some s

-- `findEnvironmentVersion`
mutual
  unfolding normalize_version

  pub find_version : Json → Option Text
  find_version (arr items) = find_in_items items
  find_version (obj fields) = find_in_fields fields
  find_version _ = none

  pub find_in_items : Items → Option Text
  find_in_items nil = none
  find_in_items (cons j items) = first_of (find_version j) (find_in_items items)

  pub find_in_fields : Fields → Option Text
  find_in_fields end = none
  find_in_fields (member key j fields) =
      first_of (if same key version_key then normalize_version j else find_version j)
        (find_in_fields fields)

abbrev pub list_of : Option Text → List Text
list_of none = []
list_of (some s) = s ∷ []

-- `visit`, with the versions that it meets again.
mutual
  unfolding normalize_version

  pub visit : Json → List Text
  visit (arr items) = visit_items items
  visit (obj fields) = visit_fields fields
  visit _ = []

  pub visit_items : Items → List Text
  visit_items nil = []
  visit_items (cons j items) = visit j ++ visit_items items

  pub visit_fields : Fields → List Text
  visit_fields end = []
  visit_fields (member key j fields) =
      (if same key version_key then list_of (normalize_version j) else visit j)
      ++ visit_fields fields

abbrev pub observed : VersionSource → List Text → List VersionObservation
observed source versions = map (λ v. record { version = v; source = source }) versions

-- `collectBundleServerlessVersions`; a bundle that is not loaded is `none`.
unfoldable pub collect_bundle_versions : Option Json → List VersionObservation
unfolding visit unique
collect_bundle_versions none = []
collect_bundle_versions (some bundle) = observed bundle_yaml (unique (visit bundle))

abbrev pub metadata_key : Text
metadata_key = codes "application/vnd.databricks.v1+notebook"

abbrev pub then_get : Text → Option Json → Option Json
then_get key none = none
then_get key (some j) = get key j

-- `getDatabricksMetadata`
unfoldable pub databricks_metadata : Json → Option Json
databricks_metadata j = then_get metadata_key (get (codes "metadata") j)

abbrev pub version_in : Option Json → List Text
unfolding find_version
version_in none = []
version_in (some j) = list_of (find_version j)

abbrev pub versions_in : List Json → List Text
unfolding databricks_metadata version_in
versions_in [] = []
versions_in (j ∷ js) = version_in (databricks_metadata j) ++ versions_in js

-- `collectNotebookServerlessVersions`
unfoldable pub collect_notebook_versions : List Json → List VersionObservation
unfolding versions_in unique
collect_notebook_versions notebooks = observed notebook (unique (versions_in notebooks))

-- `rawLine.split("#", 1)[0]`
abbrev pub before_hash : Text → Text
before_hash [] = []
before_hash (c ∷ s) = let rest = c ∷ before_hash s in if c == b'#' then [] else rest

-- A word of a regular expression and `\s*` behind it.
abbrev pub word : Text → Option Text → Option Text
unfolding trim_start
word w none = none
word w (some s) = elim (drop_prefix w s) [ none ↦ none | some rest ↦ some (trim_start rest) ]

abbrev pub is_at_end : Option Text → Bool
is_at_end (some []) = true
is_at_end _ = false

-- `TABLE_HEADER`
unfoldable pub is_table_header : Text → Bool
unfolding word
is_table_header line =
    let start = word (codes "tool") (word (codes "[") (some line)) in
    let middle = word (codes "databricks") (word (codes ".") start) in
    let finish = word (codes "environment") (word (codes ".") middle) in
    elim finish [ none ↦ false | some rest ↦ same rest (codes "]") ]

-- `(.*)$`: the rest of the text, if `.` can take all of it.
abbrev pub dots_to_end : Option Text → Option Text
dots_to_end none = none
dots_to_end (some s) = if any is_line_terminator s then none else some s

-- `ENVIRONMENT_VERSION_KEY`; the capture starts at the first character that is no blank.
unfoldable pub key_value : Text → Option Text
unfolding word
key_value line = dots_to_end (word (codes "=") (word version_key (some line)))

abbrev pub without_last : Text → Text
without_last [] = []
without_last (c ∷ []) = []
without_last (c ∷ d ∷ s) = c ∷ without_last (d ∷ s)

abbrev pub ends_with : ℕ → Text → Bool
ends_with q [] = false
ends_with q (c ∷ []) = c == q
ends_with q (c ∷ d ∷ s) = ends_with q (d ∷ s)

abbrev pub unquote : Text → Text
unquote [] = []
unquote (q ∷ s) = if (q == b'"' || q == 39) && ends_with q (q ∷ s) then without_last s else q ∷ s

-- `normalizeVersion` of the pyproject file.
unfoldable pub pyproject_value : Text → Option Text
unfolding trim
pyproject_value value = nonempty (unquote (trim value))

-- The loop over the lines.
unfoldable pub scan_lines : (in_target_table : Bool) → List Text → List Text
unfolding trim is_table_header key_value pyproject_value
scan_lines inside [] = []
scan_lines inside (raw ∷ lines) =
    let line = trim (before_hash raw) in
    let skipped = scan_lines inside lines in
    let entered = scan_lines (is_table_header line) lines in
    let value = key_value line in
    if same line []
    then skipped
    else if starts_with line (codes "[")
    then entered
    else if not inside
    then skipped
    else elim value [ none ↦ skipped | some v ↦ list_of (pyproject_value v) ]

-- `collectPyprojectServerlessVersion`
unfoldable pub collect_pyproject_version : Option Text → List VersionObservation
unfolding split env_line_end scan_lines
collect_pyproject_version none = []
collect_pyproject_version (some contents) =
    observed pyproject (scan_lines false (lines_of (split env_line_end 0 contents)))

-- `collectServerlessVersionObservations`; a part that throws, or has no project, is empty.
unfoldable pub collect_observations :
    (contents : Option Text)
    → (bundle : Option Json) → (notebooks : List Json) → List VersionObservation
unfolding collect_pyproject_version collect_bundle_versions collect_notebook_versions
collect_observations contents bundle notebooks =
    collect_pyproject_version contents
    ++ (collect_bundle_versions bundle ++ collect_notebook_versions notebooks)

-- `resolveServerlessVersion`, with the picker as a parameter.
unfoldable pub resolve_serverless_version :
    (List ScoredVersion → Option Text) → List VersionObservation → Option Text
unfolding score_serverless_versions
resolve_serverless_version pick observations = pick (score_serverless_versions observations)
