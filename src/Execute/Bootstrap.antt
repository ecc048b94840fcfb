-- ===== src/Execute/Bootstrap.antt =====
-- `compileBootstrapCommand` of core.ts: the Python program that runs a file. `JSON.stringify` is a
-- parameter.
pub mod Arguments
pub mod Dollars
use databricks_vscode.Prelude.{
  ℕ, Bool, true, false, ◌&&◌, ◌||◌, Option, none, some, List, [], ◌∷◌, ◌++◌, Text, codes, same, leb,
  ◌==◌, split_lines, if◌then◌else◌,
}
use databricks_vscode.Shell.{replace_all, single_quote, double_quote, backslash}
use databricks_vscode.Execute.Output.{cut}

abbrev pub dollar : ℕ
dollar = 36

-- The replacement text of `String.replace`, whose patterns stand for the match, for what is in
-- front of it and for what is behind it. A search by text has no groups.
unfoldable pub expand : (matched before after : Text) → Text → Text
expand matched before after [] = []
expand matched before after (c ∷ []) = c ∷ []
expand matched before after (c ∷ d ∷ s) =
    let rest = expand matched before after s in
    let other = c ∷ expand matched before after (d ∷ s) in
    if c == dollar
    then (if d == dollar
        then dollar ∷ rest
        else if d == b'&'
        then matched ++ rest
        else if d == 96
        then before ++ rest
        else if d == single_quote
        then after ++ rest
        else other)
    else other

abbrev pub spliced : Text → Text → Text → Option (Text × Text) → Text
unfolding expand
spliced pattern replacement s none = s
spliced pattern replacement s (some (before, after)) =
    before ++ (expand pattern before after replacement ++ after)

-- `s.replace(pattern, replacement)` for a text `pattern`: the first occurrence.
unfoldable pub replace_first : Text → Text → Text → Text
unfolding spliced cut
replace_first pattern replacement s = spliced pattern replacement s (cut pattern s)

unfoldable pub escape_python_string : Text → Text
unfolding replace_all
escape_python_string s =
    replace_all single_quote (backslash ∷ single_quote ∷ [])
      (replace_all backslash (backslash ∷ backslash ∷ []) s)

-- `argv.map(escapePythonString).join("', '")`
unfoldable pub joined : List Text → Text
unfolding escape_python_string
joined [] = []
joined (a ∷ []) = escape_python_string a
joined (a ∷ b ∷ argv) = escape_python_string a ++ (codes "', '" ++ joined (b ∷ argv))

-- The list of the arguments, and the semicolon behind it.
unfoldable pub argv_literal : List Text → Text
unfolding joined
argv_literal argv = codes "['" ++ (joined argv ++ codes "'];")

abbrev pub args_pattern : Text
args_pattern = codes "args = []"

unfoldable pub insert_args : List Text → Text → Text
unfolding replace_first argv_literal
insert_args argv template =
    replace_first args_pattern (codes "args = " ++ argv_literal argv) template

abbrev pub is_letter : ℕ → Bool
is_letter c = (leb b'a' c && leb c b'z') || (leb b'A' c && leb c b'Z') || c == b'_'

abbrev pub is_name_rest : Text → Bool
is_name_rest [] = true
is_name_rest (c ∷ s) = (is_letter c || (leb b'0' c && leb c b'9')) && is_name_rest s

abbrev pub is_env_name : Text → Bool
is_env_name [] = false
is_env_name (c ∷ s) = is_letter c && is_name_rest s

-- The first key that `ensureValidEnvVars` refuses.
unfoldable pub invalid_key : List (Text × Text) → Option Text
invalid_key [] = none
invalid_key ((k, v) ∷ env) = if is_env_name k then invalid_key env else some k

abbrev pub in_quotes : Text → Text
in_quotes s = double_quote ∷ (s ++ double_quote ∷ [])

abbrev is_blank : ℕ → Bool
is_blank c = c == b' ' || c == 9

abbrev pub indent_of : Text → Text
indent_of [] = []
indent_of (c ∷ s) = let more = c ∷ indent_of s in if is_blank c then more else []

abbrev pub unindented : Text → Text
unindented [] = []
unindented (c ∷ s) = let rest = unindented s in if is_blank c then rest else c ∷ s

abbrev pub join_lines : List Text → Text
join_lines [] = []
join_lines (line ∷ []) = line
join_lines (line ∷ other ∷ lines) = line ++ (10 ∷ join_lines (other ∷ lines))

abbrev pub run_line : Text
run_line = codes "runpy.run_path(python_file, run_name=\"__main__\", init_globals=user_ns)"

abbrev pub persistent_lines : List Text
persistent_lines =
    codes "_globals = globals().get(\"_databricks_execute_globals\")"
    ∷ codes "if _globals is None:"
    ∷ codes "    _globals = {}"
    ∷ codes "    globals()[\"_databricks_execute_globals\"] = _globals"
    ∷ codes "_globals.update(user_ns)"
    ∷ codes "_globals[\"__name__\"] = \"__main__\""
    ∷ codes "_globals[\"__file__\"] = python_file"
    ∷ codes "_globals[\"__package__\"] = None"
    ∷ codes "_globals[\"__cached__\"] = None"
    ∷ codes "with open(python_file, \"rb\") as f:"
    ∷ codes "    exec(compile(f.read(), python_file, \"exec\"), _globals, _globals)"
    ∷ []

abbrev pub indented : Text → List Text → List Text
indented indent [] = []
indented indent (line ∷ lines) = (indent ++ line) ∷ indented indent lines

-- The first line that is the run call gives way to the persistent lines, at its indentation.
unfoldable pub persist_lines : List Text → List Text
persist_lines [] = []
persist_lines (line ∷ lines) =
    let later = line ∷ persist_lines lines in
    if same (unindented line) run_line
    then join_lines (indented (indent_of line) persistent_lines) ∷ lines
    else later

unfoldable pub persist_context_state : Text → Text
unfolding persist_lines split_lines
persist_context_state template = join_lines (persist_lines (split_lines template))

pub record Options : Type 0 where
  pub remote_python_file : Text
  pub remote_repo_root : Text
  pub argv : List Text
  pub env_vars : List (Text × Text)
  pub stdout_error_boundary : Text
  pub persist : Bool

-- `refused` is the error about a key.
pub data Compiled : Type 0 where
  compiled : Text → Compiled
  refused : (key : Text) → Compiled

module _ (stringify : List (Text × Text) → Text) where
  unfoldable pub fill_in : Options → Text → Text
  unfolding replace_first insert_args persist_context_state
  fill_in o template =
      let with_file =
        replace_first (in_quotes (codes "PYTHON_FILE")) (in_quotes o.remote_python_file) template in
      let with_root =
        replace_first (in_quotes (codes "REPO_PATH")) (in_quotes o.remote_repo_root) with_file in
      let with_args = insert_args o.argv with_root in
      let with_env =
        replace_first (codes "env = {}") (codes "env = " ++ stringify o.env_vars) with_args in
      let with_boundary =
        replace_first (in_quotes (codes "STDOUT_ERROR_BOUNDARY"))
          (in_quotes o.stdout_error_boundary) with_env in
      if o.persist then persist_context_state with_boundary else with_boundary

  unfoldable pub compile_bootstrap_command : Text → Options → Compiled
  unfolding fill_in invalid_key
  compile_bootstrap_command template o = elim (invalid_key o.env_vars) [
    | some key ↦ refused key
    | none ↦ compiled (fill_in o template)
  ]
