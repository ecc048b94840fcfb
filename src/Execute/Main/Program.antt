-- ===== src/Execute/Main/Program.antt =====
-- `main` of cli.ts, from the arguments to the exit code.
use databricks_vscode.Prelude.{
  Bool, true, false, not, ◌&&◌, ◌||◌, Option, none, some, List, [], ◌∷◌, ◌++◌, Text, codes, same,
  is_some, if◌then◌else◌, ℕ, zero, suc, lower_all,
}
use databricks_vscode.Execute.Args.{Parsed, Parse, parsed, help, failed, parse_args}
use databricks_vscode.Execute.Output.{coalesce, NotebookType, detect_notebook_type, without_dot}
use databricks_vscode.Execute.Paths.{
  normalize_host, local_path_to_remote_workspace_path, workspace_prefixed_path,
}
use databricks_vscode.Execute.Main.Call.{
  Members, answers, throws, Compute, serverless_compute, existing_cluster, Act, wrote_error, State,
  Outcome, done, threw, exited, pending, Cli, Done, pure, throw, exit, ◌>>=◌, ◌>>◌, catch,
  plain_failure, fail, fail_if, or_fail, settle, ask,
}
use databricks_vscode.Execute.Main.World.{World}
use databricks_vscode.Execute.Main.Bundle.{
  Bundle, find_bundle_root, overrides, check_version, read_config, locate, upload, resolve_token,
}
use databricks_vscode.Execute.Main.Cluster.{prepare_compute, or_else}
use databricks_vscode.Execute.Main.Notebook.{notebook_mode}
use databricks_vscode.Execute.Main.Python.{Job, run_python}

-- The file to run.
pub record Source : Type 0 where
  pub file : Text
  pub notebook_type : Option NotebookType
  pub is_plain_python : Bool

abbrev pub is_given : Option Text → Bool
is_given none = false
is_given (some []) = false
is_given (some (c ∷ s)) = true

abbrev pub is_empty : Members → Bool
is_empty [] = true
is_empty (m ∷ ms) = false

abbrev pub has_source_extension : Text → Bool
has_source_extension ext =
    same (lower_all ext) (codes "py")
    || same (lower_all ext) (codes "scala")
    || same (lower_all ext) (codes "sql")
    || same (lower_all ext) (codes "r")

abbrev pub source_of : (file ext : Text) → Option NotebookType → Source
source_of file ext type = record {
  file = file;
  notebook_type = type;
  is_plain_python = not (is_some type) && same (lower_all ext) (codes "py");
}

-- The combinations of options that are refused for a file.
unfoldable pub check_options : Parsed → Source → Cli Done
check_options p f = do
  fail_if (not (is_some f.notebook_type) && not (is_empty p.widget_params)) (
      codes
        "--widget is only supported for notebooks (.ipynb or 'Databricks notebook source' files).")
  fail_if (is_given p.context_id && p.keep_context)
      (codes "--context-id and --keep-context cannot be used together.")
  fail_if (is_given p.context_id && not f.is_plain_python)
      (codes "--context-id is only supported for plain .py files.")
  fail_if (p.keep_context && not f.is_plain_python)
      (codes "--keep-context is only supported for plain .py files.")

-- `shouldKeepExecutionContext`
abbrev pub should_keep : Parsed → Bool
should_keep p = is_given p.context_id || p.keep_context

abbrev pub outside_root : (file root : Text) → Text
outside_root file root =
    codes "File is not within bundle root. File: " ++ (file ++ (codes ", bundle root: " ++ root))

abbrev pub no_serverless : Text
no_serverless =
    codes
      "Serverless compute is not supported for plain .py files (the Command Execution API requires a cluster).\nUse --serverless with notebooks (.ipynb or 'Databricks notebook source' files), or remove --serverless and provide a cluster."

module _ (w : World) where
  -- A failure inside of the `try`, the one on a directory too, becomes the last one.
  unfoldable pub check_file : Text → Cli Done
  check_file file =
      catch
        (do is_file ← settle (w.stat file); fail_if (not is_file) (codes "Not a file: " ++ file))
        (λ e. fail (codes "File not found: " ++ file))

  abbrev pub line_if : Bool → Text → Cli (Option Text)
  line_if wanted file = if wanted then settle (w.first_line file) else pure none

  unfoldable pub read_source : Text → Cli Source
  unfolding check_file detect_notebook_type
  read_source file = do
    check_file file
    let ext = without_dot (w.extension file)
    line ← line_if (has_source_extension ext) file
    pure (source_of file ext (detect_notebook_type ext line))

  unfoldable pub bundle_root : Text → Option Text
  unfolding find_bundle_root
  bundle_root file =
      or_else (find_bundle_root w.accessible (w.ancestors (w.dirname file)))
        (find_bundle_root w.accessible (w.ancestors w.current_dir))

  abbrev pub target_of : Parsed → Option Text
  unfolding coalesce
  target_of p = coalesce (p.target ∷ w.bundle_target ∷ [])

  abbrev pub host_of : Parsed → Option Text
  unfolding coalesce
  host_of p = coalesce (p.host ∷ w.env_host ∷ [])

  abbrev pub token_of : Parsed → Option Text
  unfolding coalesce
  token_of p = coalesce (p.token ∷ w.env_token ∷ [])

  abbrev pub normalized : Option Text → Option Text
  unfolding normalize_host
  normalized none = none
  normalized (some host) = some (normalize_host host)

  -- From the call of the CLI's version to the upload and the token.
  unfoldable pub prepare_bundle : Parsed → Cli Bundle
  unfolding target_of host_of token_of normalized overrides check_version read_config locate upload
      resolve_token
  prepare_bundle p = do
    let env = overrides (host_of p) (token_of p)
    check_version w env
    config ← read_config w (target_of p) env
    b ← locate w (normalized (host_of p)) env config
    upload w (target_of p) b.env
    token ← resolve_token w (token_of p) b
    pure b

  unfoldable pub run_file : Parsed → Job → Compute → Cli Done
  unfolding run_python
  run_file p j serverless_compute = fail no_serverless
  run_file p j (existing_cluster id) = run_python w j p.context_id id

  abbrev pub job_of : Parsed → (root remote_root remote_file : Text) → Job
  unfolding workspace_prefixed_path
  job_of p root remote_root remote_file = record {
    remote_file = remote_file;
    bundle_root = root;
    remote_root = remote_root;
    repo_root = workspace_prefixed_path w.path remote_root;
    script_args = p.script_args;
    env_vars = p.env;
    keep = should_keep p;
  }

  unfoldable pub run_source : Parsed → Option NotebookType → Job → Compute → Cli Done
  unfolding run_file notebook_mode
  run_source p none j compute = run_file p j compute
  run_source p (some type) j compute =
      notebook_mode w j.remote_file p.script_args p.env p.widget_params compute

  unfoldable pub run_in_bundle : Parsed → Source → (root : Text) → Cli Done
  unfolding prepare_bundle prepare_compute local_path_to_remote_workspace_path job_of run_source
  run_in_bundle p f root = do
    fail_if (p.serverless && is_given p.cluster)
        (codes "--serverless and --cluster are mutually exclusive.")
    b ← prepare_bundle p
    compute ← prepare_compute w p.serverless p.start_cluster p.cluster b.config
    remote_file ←
        settle (elim (local_path_to_remote_workspace_path w.path f.file root b.remote_root) [
          | none ↦ throws (plain_failure (outside_root f.file root))
          | some remote_file ↦ answers remote_file
        ])
    run_source p f.notebook_type (job_of p root b.remote_root remote_file) compute

  unfoldable pub run_path : Parsed → Text → Cli Done
  unfolding read_source check_options bundle_root run_in_bundle
  run_path p path = do
    f ← read_source (w.resolve path)
    check_options p f
    root ← or_fail (bundle_root f.file) (
        codes
          "Could not find bundle root (expected databricks.yml/bundle.yml in a parent directory).")
    run_in_bundle p f root

  -- Without a file the help is printed, which is not modelled.
  unfoldable pub run_parsed : Parsed → Option Text → Cli Done
  unfolding run_path
  run_parsed p (some (c ∷ s)) = run_path p (c ∷ s)
  run_parsed p _ = exit 1

  unfoldable pub run_parse : Parse → Cli Done
  unfolding run_parsed
  run_parse (parsed p) = run_parsed p p.file_path
  run_parse help = exit 0
  run_parse (failed m) = throw (plain_failure m)

  unfoldable pub main : List Text → Cli Done
  unfolding run_parse parse_args
  main [] = run_parse (parse_args [])
  main (a ∷ argv) =
      if same a (codes "init") then ask (w.run_init argv) else run_parse (parse_args (a ∷ argv))

  -- The exit code, if the program ends, and all that it has done.
  abbrev pub or_code : Option ℕ → ℕ → ℕ
  or_code none n = n
  or_code (some n) _ = n

  abbrev pub conclude : Outcome Done × State → Option ℕ × List Act
  conclude (done d, s) = (some (or_code s.exit_code 0), s.history)
  conclude (threw e, s) =
      (some (or_code s.exit_code 1), wrote_error (e.message ++ 10 ∷ []) ∷ s.history)
  conclude (exited n, s) = (some n, s.history)
  conclude (pending, s) = (none, s.history)

  unfoldable pub program : List Text → Option ℕ × List Act
  unfolding main
  program argv = conclude (main argv (record { history = []; exit_code = none }))

  -- The acts but for the newest.
  abbrev pub earlier : ℕ → List Act → List Act
  earlier zero h = h
  earlier (suc n) [] = []
  earlier (suc n) (a ∷ h) = earlier n h

  -- The handler of SIGINT: a second interrupt, or the timer of five seconds behind the first, calls
  -- `process.exit(130)`, and the newest acts of the run never happen. `none` is no such exit.
  abbrev pub force_exit : Option ℕ → Option ℕ × List Act → Option ℕ × List Act
  force_exit none run = run
  force_exit (some unmade) (code, h) = (some 130, earlier unmade h)

  unfoldable pub interrupted_program : Option ℕ → List Text → Option ℕ × List Act
  unfolding program
  interrupted_program forced argv = force_exit forced (program argv)
