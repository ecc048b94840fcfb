-- ===== src/Execute/Main/Notebook.antt =====
-- `main` of cli.ts, a notebook: the job that runs it, what is printed of it, and the exit code.
use databricks_vscode.Prelude.{
  lower_all, Bool, true, false, ◌&&◌, ◌||◌, Option, none, some, List, [], ◌∷◌, ◌++◌, Text, codes,
  same, if◌then◌else◌, ℕ,
}
use databricks_vscode.Execute.Main.Call.{
  Members, Reply, Details, Compute, Submission, Act, wrote, wrote_error, done, Cli, Done, pure,
  throw, act, set_exit_code, ◌>>=◌, ◌>>◌, catch, fail, with_line_end, when_present,
  print_api_error_details,
}
use databricks_vscode.Execute.Main.World.{World, Extracted, NotebookOutput}
use databricks_vscode.Execute.Main.WorkflowRun.{submit_run, wait, export_run, run_output}
use databricks_vscode.Execute.Paths.{normalize_workspace_path}

-- `printedOutput` and `printedError`
pub record Printed : Type 0 where
  pub output : Bool
  pub error : Bool

abbrev pub nothing_printed : Printed
nothing_printed = record { output = false; error = false }

-- The first view with content.
unfoldable pub first_content : List (Option Text) → Option Text
first_content [] = none
first_content (some (c ∷ s) ∷ views) = some (c ∷ s)
first_content (_ ∷ views) = first_content views

abbrev pub print_stream : (Text → Act) → Printed → Text → Printed → Cli Printed
print_stream write after [] p = pure p
print_stream write after (c ∷ s) p = do
  act (write (with_line_end (c ∷ s)))
  pure (record { output = p.output || after.output; error = p.error || after.error })

unfoldable pub print_extracted : Extracted → Cli Printed
print_extracted x = do
  p ← print_stream wrote (record { output = true; error = false }) x.stdout nothing_printed
  q ← print_stream wrote_error (record { output = true; error = true }) x.stderr p
  print_stream wrote_error (record { output = true; error = true }) x.error q

-- A page without a notebook model is printed as plain text.
abbrev pub print_plain : Text → Cli Printed
print_plain [] = pure nothing_printed
print_plain (c ∷ s) = do
  act (wrote ((c ∷ s) ++ 10 ∷ []))
  pure (record { output = true; error = false })

abbrev pub truncated_note : Bool → Text
truncated_note true = codes "\n\n[Notebook output truncated]\n"
truncated_note false = codes "\n"

abbrev pub print_result : NotebookOutput → Printed → Cli Done
print_result o p =
    if p.output
    then pure tt
    else when_present (λ r. act (wrote (r ++ truncated_note o.truncated))) o.result

-- The trace is printed only if there is no error text.
abbrev pub print_error_text : (error trace : Option Text) → Cli Done
print_error_text (some (c ∷ s)) trace = act (wrote_error ((c ∷ s) ++ 10 ∷ []))
print_error_text _ trace = when_present (λ t. act (wrote_error (t ++ 10 ∷ []))) trace

abbrev pub print_errors : NotebookOutput → Printed → Cli Done
print_errors o p = if p.error then pure tt else print_error_text o.error o.error_trace

-- An extension that a notebook in the workspace does not have, at the end of the path.
abbrev pub is_notebook_extension : Text → Bool
is_notebook_extension s =
    same (lower_all s) (codes ".py")
    || same (lower_all s) (codes ".ipynb")
    || same (lower_all s) (codes ".scala")
    || same (lower_all s) (codes ".r")
    || same (lower_all s) (codes ".sql")

unfoldable pub without_notebook_extension : Text → Text
without_notebook_extension [] = []
without_notebook_extension (c ∷ s) =
    let rest = c ∷ without_notebook_extension s in
    if is_notebook_extension (c ∷ s) then [] else rest

module _ (w : World) where
  unfoldable pub print_page : Text → Option Extracted → Cli Printed
  unfolding print_extracted
  print_page content (some x) = print_extracted x
  print_page content none = print_plain (w.html_to_plain_text content)

  unfoldable pub print_view : Option Text → Cli Printed
  unfolding print_page
  print_view none = pure nothing_printed
  print_view (some content) = print_page content (w.extract content)

  -- A failure before the first output leaves nothing printed; printing does not fail.
  unfoldable pub print_exported : Details → Cli Printed
  unfolding export_run print_view first_content print_api_error_details
  print_exported d =
      catch (do views ← export_run w d; print_view (first_content views))
        (λ e. do print_api_error_details e; pure nothing_printed)

  unfoldable pub print_output : Details → Printed → Cli Done
  unfolding run_output print_api_error_details
  print_output d p =
      catch (do o ← run_output w d; print_result o p; print_errors o p)
        (λ e. print_api_error_details e)

  -- `resultState?.toUpperCase()` is `CANCELED` or `CANCELLED`.
  unfoldable pub is_canceled : Option Text → Bool
  is_canceled none = false
  is_canceled (some r) =
      same (w.to_upper_case r) (codes "CANCELED") || same (w.to_upper_case r) (codes "CANCELLED")

  abbrev pub is_success : Option Text → Bool
  is_success none = false
  is_success (some r) = same r (codes "SUCCESS")

  unfoldable pub notebook_exit_code : (cancelled : Bool) → Option Text → ℕ
  unfolding is_canceled
  notebook_exit_code cancelled result =
      if cancelled && is_canceled result then 130 else if is_success result then 0 else 1

  abbrev pub polls_now : Cli (List (Bool × Reply Details))
  polls_now s = (done (w.polls s.history), s)

  abbrev pub cancelled_now : Cli Bool
  cancelled_now s = (done (w.is_cancelled s.history), s)

  -- The request has an environment for serverless compute, and the cluster's id otherwise.
  unfoldable pub submission : (remote_file : Text) → Members → Compute → Submission
  unfolding normalize_workspace_path without_notebook_extension
  submission remote_file params compute = record {
    notebook_path = without_notebook_extension (normalize_workspace_path w.path remote_file);
    base_parameters = params;
    compute = compute;
  }

  unfoldable pub start_run : Submission → Cli Details
  unfolding submit_run print_api_error_details
  start_run request = catch (submit_run w request) (λ e. do print_api_error_details e; throw e)

  unfoldable pub run_notebook : Submission → Cli Done
  unfolding start_run wait print_exported print_output notebook_exit_code
  run_notebook request = do
    begun ← start_run request
    polls ← polls_now
    d ← wait w polls begun
    printed ← print_exported d
    print_output d printed
    cancelled ← cancelled_now
    set_exit_code (notebook_exit_code cancelled d.result_state)

  -- What a notebook refuses.
  unfoldable pub notebook_mode :
      (remote_file : Text) (script_args : List Text) (env widget_params : Members)
      → Compute
      → Cli Done
  unfolding run_notebook submission
  notebook_mode remote_file (a ∷ script_args) env params compute = fail (
      codes
        "Notebook mode does not support positional args. Use --widget KEY=VALUE to set notebook widget/base parameters instead.")
  notebook_mode remote_file [] (v ∷ env) params compute = fail (
      codes
        "Notebook mode does not support --env. Use cluster init scripts or set env vars within the notebook instead.")
  notebook_mode remote_file [] [] params compute =
      run_notebook (submission remote_file params compute)
