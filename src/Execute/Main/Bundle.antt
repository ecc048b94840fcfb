-- ===== src/Execute/Main/Bundle.antt =====
-- `main` of cli.ts from the call of `databricks --version` to the token: what it asks the
-- Databricks CLI. Also `findBundleRoot`.
use databricks_vscode.Prelude.{
  Bool, false, not, ◌||◌, Option, none, some, List, [], ◌∷◌, ◌++◌, Text, codes, same, ◌==◌,
  if◌then◌else◌,
}
use databricks_vscode.Execute.Output.{coalesce}
use databricks_vscode.Execute.Paths.{normalize_host}
use databricks_vscode.Execute.Main.Call.{
  Members, Failure, Finished, Command, version, validate, sync, auth_env, spawned, Cli, Done, pure,
  throw, ◌>>=◌, ◌>>◌, catch, fail, fail_if, or_fail, settle, finished_reply,
}
use databricks_vscode.Execute.Main.World.{Config, World}

abbrev pub bundle_files : List Text
bundle_files =
    codes "databricks.yml" ∷ codes "databricks.yaml" ∷ codes "bundle.yml" ∷ codes "bundle.yaml" ∷ []

abbrev pub any_accessible : (Text → Bool) → List Text → Bool
any_accessible accessible [] = false
any_accessible accessible (f ∷ files) = accessible f || any_accessible accessible files

-- `findBundleRoot` over the directories from the first up to the root.
unfoldable pub find_bundle_root : (accessible : Text → Text → Bool) → List Text → Option Text
find_bundle_root accessible [] = none
find_bundle_root accessible (dir ∷ parents) =
    let rest = find_bundle_root accessible parents in
    if any_accessible (accessible dir) bundle_files then some dir else rest

-- The text from the first `{` to the last `}`.
unfoldable pub to_brace : Text → Option Text
to_brace [] = none
to_brace (c ∷ s) = elim (to_brace s) [
  | some r ↦ some (c ∷ r)
  | none ↦ if c == b'}' then some (c ∷ []) else none
]

unfoldable pub braces : Text → Option Text
unfolding to_brace
braces [] = none
braces (c ∷ s) = let rest = braces s in if c == b'{' then to_brace (c ∷ s) else rest

-- The members that are passed to a child process.
abbrev pub member_if : Text → Option Text → Members
member_if key none = []
member_if key (some v) = (key, v) ∷ []

unfoldable pub overrides : Option Text → Option Text → Members
unfolding normalize_host
overrides none token = member_if (codes "DATABRICKS_TOKEN") token
overrides (some host) token =
    (codes "DATABRICKS_HOST", normalize_host host) ∷ member_if (codes "DATABRICKS_TOKEN") token

-- The arguments of a call.
unfoldable pub target_arguments : Option Text → List Text
target_arguments none = []
target_arguments (some target) = codes "--target" ∷ target ∷ []

unfoldable pub arguments : Command → List Text
unfolding target_arguments
arguments version = codes "--version" ∷ []
arguments (validate target) =
    codes "bundle"
    ∷ codes "validate"
    ∷ (target_arguments target ++ (codes "--output" ∷ codes "json" ∷ []))
arguments (sync target) =
    codes "bundle"
    ∷ codes "sync"
    ∷ (target_arguments target ++ (codes "--output" ∷ codes "text" ∷ []))
arguments (auth_env host) =
    codes "auth" ∷ codes "env" ∷ codes "--host" ∷ host ∷ codes "-o" ∷ codes "json" ∷ []

-- `a || b` of texts
abbrev pub or_other : Text → Text → Text
or_other [] other = other
or_other s other = s

-- A mode that is there and is not `development`.
abbrev pub refused_mode : Option Text → Option Text
refused_mode none = none
refused_mode (some []) = none
refused_mode (some (c ∷ s)) = if same (c ∷ s) (codes "development") then none else some (c ∷ s)

abbrev pub mode_message : Text → Text
mode_message mode =
    codes "Bundle target mode is '"
    ++ (mode ++ codes "'. This tool only supports 'development' (mirrors VS Code run behavior).")

abbrev pub check_mode : Config → Option Text → Cli Config
check_mode c none = pure c
check_mode c (some mode) = fail (mode_message mode)

-- What the later parts use of the configuration.
pub record Bundle : Type 0 where
  pub config : Config
  pub env : Members
  pub host : Text
  pub remote_root : Text

module _ (w : World) where
  -- `runDatabricksCli`
  unfoldable pub run_databricks_cli : Command → Members → Cli Finished
  run_databricks_cli command env s =
      let reply = w.spawn command env s.history in
      settle (finished_reply reply) (record s { history = spawned command env reply ∷ s.history })

  -- Any other error goes on as it is.
  unfoldable pub no_cli : Failure → Cli Finished
  no_cli e =
      if same e.code (codes "ENOENT")
      then fail (
          codes
            "Databricks CLI not found on PATH. Install it first (the VS Code extension bundles it, this CLI does not).")
      else throw e

  unfoldable pub check_version : Members → Cli Done
  unfolding run_databricks_cli no_cli
  check_version env = do
    r ← catch (run_databricks_cli version env) no_cli
    fail_if (not (r.code == 0))
        (codes "Databricks CLI check failed. stderr:\n" ++ or_other r.stderr r.stdout)

  -- The JSON of the output, or of its part in braces.
  unfoldable pub parse_part : Option Text → Option Config
  parse_part none = none
  parse_part (some part) = w.parse_config part

  unfoldable pub parse_output : Text → Option Config
  unfolding parse_part braces
  parse_output s = elim (w.parse_config s) [ some c ↦ some c | none ↦ parse_part (braces s) ]

  unfoldable pub read_config : Option Text → Members → Cli Config
  unfolding run_databricks_cli parse_output
  read_config target env = do
    r ← run_databricks_cli (validate target) env
    fail_if (not (r.code == 0)) (codes "bundle validate failed:\n" ++ or_other r.stderr r.stdout)
    c ←
        or_fail (parse_output r.stdout) (
          codes "Failed to parse 'databricks bundle validate' output as JSON. Output:\n"
          ++ r.stdout)
    check_mode c (refused_mode c.mode)

  -- `host` is the host that the options or the environment name, normalized.
  unfoldable pub locate : Option Text → Members → Config → Cli Bundle
  unfolding coalesce
  locate host env c = do
    found_host ← or_fail (coalesce (host ∷ coalesce (c.host ∷ c.workspace_host ∷ []) ∷ [])) (
        codes
          "Missing Databricks host. Provide --host, set DATABRICKS_HOST, or set workspace.host in the bundle target.")
    root ← or_fail (coalesce (c.file_path ∷ [])) (
        codes
          "Could not determine workspace file path from bundle validate output (expected workspace.file_path).")
    pure (record {
      config = c;
      env =
          env
          ++ member_if (codes "DATABRICKS_WORKSPACE_ID")
              (coalesce (c.workspace_id ∷ c.other_workspace_id ∷ []));
      host = found_host;
      remote_root = root;
    })

  unfoldable pub upload : Option Text → Members → Cli Done
  unfolding run_databricks_cli
  upload target env = do
    r ← run_databricks_cli (sync target) env
    fail_if (not (r.code == 0)) (codes "bundle sync failed.")

  -- The token of the CLI's own login; any error means that there is none.
  unfoldable pub token_of : Finished → Option Text
  unfolding coalesce
  token_of r =
      if r.code == 0
      then elim (w.parse_token r.stdout) [ none ↦ none | some token ↦ coalesce (token ∷ []) ]
      else none

  unfoldable pub cli_token : Text → Members → Cli (Option Text)
  unfolding run_databricks_cli token_of
  cli_token host env =
      catch (do r ← run_databricks_cli (auth_env host) env; pure (token_of r)) (λ e. pure none)

  -- `given` is the token of the options or of the environment.
  unfoldable pub resolve_token : Option Text → Bundle → Cli (Option Text)
  unfolding cli_token
  resolve_token none b = cli_token b.host b.env
  resolve_token (some token) b = pure (some token)
