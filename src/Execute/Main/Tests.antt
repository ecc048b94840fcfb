-- ===== src/Execute/Main/Tests.antt =====
-- A run of a Python file on a running cluster, and a notebook run that is cancelled.
use databricks_vscode.Prelude.{true, false, none, some, List, [], ◌∷◌, ◌++◌, ◌≡◌, refl, Text, codes}
use databricks_vscode.Execute.Paths.{PathLibrary}
use databricks_vscode.Execute.Bootstrap.{compile_bootstrap_command}
use databricks_vscode.Execute.Output.{split_stdout_error_envelope}
use databricks_vscode.Execute.Main.Call.{
  ◌>>=◌, catch, fail_if, or_fail, ask, finally, Details, answers, State,
}
use databricks_vscode.Execute.Main.World.{World, Config, text_result, NotebookOutput}
use databricks_vscode.Execute.Main.Program.{program}

abbrev paths : PathLibrary
paths = record {
  normalize = λ p. p;
  join = λ p q. p ++ (codes "/" ++ q);
  posix_relative = λ p q. q;
  relative = λ p q. codes "a.py";
  is_absolute = λ p. false;
  to_posix = λ p. p;
  join_parts = λ p q. q;
}

abbrev config : Config
config = record {
  mode = some (codes "development");
  host = some (codes "https://h");
  workspace_host = none;
  workspace_id = none;
  other_workspace_id = none;
  file_path = some (codes "/w");
  compute_id = none;
  cluster_id = some (codes "c1");
}

abbrev output : NotebookOutput
output = record { result = none; truncated = false; error = none; error_trace = none }

abbrev details : Text → Details
details state = record { life_cycle_state = some state; result_state = none; has_tasks = true }

abbrev world : World
world = record {
  bundle_target = none;
  env_host = none;
  env_token = none;
  current_dir = codes "/r";
  resolve = λ p. p;
  extension = λ p. codes ".py";
  dirname = λ p. codes "/r";
  ancestors = λ p. p ∷ [];
  path = paths;
  stat = λ p. answers true;
  first_line = λ p. answers none;
  accessible = λ dir name. true;
  spawn = λ c env h. answers (record { stdout = []; stderr = []; code = some 0 });
  parse_config = λ s. some config;
  parse_token = λ s. none;
  cluster_by_id = λ id h. answers id;
  cluster_by_name = λ name h. answers none;
  cluster_state = λ id h. answers (codes "RUNNING");
  start = λ id h. answers tt;
  create_context = λ id h. answers (codes "x1");
  execute = λ context command h. (false, answers (text_result (codes "hi")));
  destroy = λ context h. answers tt;
  submit_run = λ r h. answers (details (codes "RUNNING"));
  polls = λ h. [];
  cancel_run = λ h. answers tt;
  export_run = λ h. answers [];
  run_output = λ h. answers output;
  is_cancelled = λ h. false;
  run_init = λ argv h. answers tt;
  to_upper_case = λ s. s;
  extract = λ s. none;
  html_to_plain_text = λ s. s;
  parse_envelope = λ s. none;
  trim = λ s. s;
  parse_error_result = λ cause summary. [];
  stringify = λ env. codes "{}";
  template = codes "args = []";
}

abbrev argv : List Text
argv = codes "a.py" ∷ []

abbrev start : State
start = record { history = []; exit_code = none }

exit_code_now : (program world argv).0 ≡ some 0
unfolding program ◌>>=◌ catch fail_if or_fail ask finally compile_bootstrap_command
    split_stdout_error_envelope
exit_code_now = refl
