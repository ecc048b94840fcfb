-- ===== src/Execute/Main/Python.antt =====
-- `main` of cli.ts, a plain Python file: its execution context, the command, what is printed of
-- the result, and the exit code.
use databricks_vscode.Prelude.{
  Bool, not, ◌&&◌, Option, none, some, List, [], ◌∷◌, ◌++◌, Text, codes, if◌then◌else◌, ℕ,
}
use databricks_vscode.Execute.Output.{split_stdout_error_envelope}
use databricks_vscode.Execute.Bootstrap.{
  Options, Compiled, compiled, refused, compile_bootstrap_command,
}
use databricks_vscode.Execute.Frames.{Frame, render_error_envelope, traceback_line}
use databricks_vscode.Execute.Paths.{remote_workspace_path_to_local_path}
use databricks_vscode.Execute.Main.Call.{
  Members, Reply, created, executed, destroyed, wrote, Cli, Done, pure, throw, act, set_exit_code,
  ◌>>=◌, ◌>>◌, catch, finally, plain_failure, settle, ask, ends_line,
}
use databricks_vscode.Execute.Main.World.{World, Results, text_result, error_result, other_result}

abbrev pub stdout_error_boundary : Text
stdout_error_boundary = codes "__DATABRICKS_VSCODE_STDOUT_ERROR_BOUNDARY__"

-- The output, with the line end that the API strips.
abbrev pub print_stdout : Text → Cli Done
print_stdout [] = act (wrote [])
print_stdout (c ∷ s) = do
  act (wrote (c ∷ s))
  if ends_line (c ∷ s) then pure tt else act (wrote (10 ∷ []))

abbrev pub invalid_variable : Text → Text
invalid_variable key =
    codes "Invalid environment variable "
    ++ (key ++ codes ": Only letters, digits and '_' are allowed.")

-- What a run of a file needs to know.
pub record Job : Type 0 where
  pub remote_file : Text
  pub bundle_root : Text
  pub remote_root : Text
  pub repo_root : Text
  pub script_args : List Text
  pub env_vars : Members
  -- `shouldKeepExecutionContext`
  pub keep : Bool

abbrev pub options_of : Job → Options
options_of j = record {
  remote_python_file = j.remote_file;
  remote_repo_root = j.repo_root;
  argv = j.remote_file ∷ j.script_args;
  env_vars = j.env_vars;
  stdout_error_boundary = stdout_error_boundary;
  persist = j.keep;
}

module _ (w : World) where
  unfoldable pub print_frames : Job → List Frame → Cli Done
  print_frames j [] = pure tt
  print_frames j (f ∷ fs) = do
    act (
        wrote (
          traceback_line
            (λ file. remote_workspace_path_to_local_path w.path file j.bundle_root j.remote_root) f
          ++ 10 ∷ []))
    print_frames j fs

  unfoldable pub print_payload : Job → Option Text → Cli ℕ
  unfolding print_frames
  print_payload j none = pure 0
  print_payload j (some payload) = do
    print_frames j (render_error_envelope w.parse_envelope w.trim payload)
    pure 1

  -- Prints the result and returns the exit code.
  unfoldable pub print_results : Job → Results → Cli ℕ
  unfolding print_frames print_payload
  print_results j (text_result data_text) = do
    let envelope = split_stdout_error_envelope data_text stdout_error_boundary
    print_stdout envelope.stdout
    print_payload j envelope.error_payload
  print_results j (error_result cause summary) = do
    print_frames j (w.parse_error_result cause summary)
    pure 1
  print_results j (other_result printed) = do act (wrote (printed ++ 10 ∷ [])); pure 0

  abbrev pub compile : Compiled → Cli Text
  compile (compiled command) = pure command
  compile (refused key) = throw (plain_failure (invalid_variable key))

  -- `destroy` of a context
  unfoldable pub destroy : Text → Cli Done
  destroy context s =
      settle (w.destroy context s.history) (record s { history = destroyed context ∷ s.history })

  -- The listener that a cancellation calls while the command runs: any error of it is dropped.
  unfoldable pub on_cancelled : (interrupted keep : Bool) → Text → Cli Done
  unfolding destroy
  on_cancelled interrupted keep context =
      if interrupted && not keep then catch (destroy context) (λ e. pure tt) else pure tt

  unfoldable pub after_execution : (keep : Bool) → Text → Bool × Reply Results → Cli Results
  unfolding on_cancelled
  after_execution keep context (interrupted, reply) = do
    on_cancelled interrupted keep context
    settle reply

  unfoldable pub execute : (keep : Bool) (cluster context command : Text) → Cli Results
  unfolding after_execution
  execute keep cluster context command s =
      after_execution keep context (w.execute context command s.history)
        (record s { history = executed cluster context command ∷ s.history })

  unfoldable pub run_command : Job → (cluster context : Text) → Cli Done
  unfolding execute print_results
  run_command j cluster context = do
    command ← compile (compile_bootstrap_command w.stringify w.template (options_of j))
    results ← execute j.keep cluster context command
    exit_code ← print_results j results
    set_exit_code exit_code

  -- The context of `--context-id`, or a new one. The two parts of `ExecutionContext.create`, its call
  -- and its wait, are one question of the surroundings; a context is made when both were answered.
  unfoldable pub get_context : Option Text → (cluster : Text) → Cli Text
  get_context (some (c ∷ s)) cluster = pure (c ∷ s)
  get_context _ cluster = do
    context ← ask (w.create_context cluster)
    act (created cluster context)
    pure context

  unfoldable pub run_python : Job → Option Text → (cluster : Text) → Cli Done
  unfolding get_context run_command destroy
  run_python j context_id cluster = do
    context ← get_context context_id cluster
    finally (run_command j cluster context) (if j.keep then pure tt else destroy context)
