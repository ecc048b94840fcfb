-- ===== src/Execute/Main/Protocol/Notebooks.antt =====
-- The run of a notebook keeps the protocol.
use databricks_vscode.Prelude.{Bool, false, List, [], ◌∷◌, Text, ◌≡◌, refl}
use databricks_vscode.Execute.Main.Call.{Members, Reply, Details, Compute, Submission, Act}
use databricks_vscode.Execute.Main.Holds.{
  Fact, Any, Holds, >>=-Holds, catch-Holds, pure-Holds, throw-Holds, fail-Holds, wait_on-Holds,
  set_exit_code-Holds, settle-Holds, ask-Holds, if-Holds,
}
use databricks_vscode.Execute.Main.World.{World}
use databricks_vscode.Execute.Main.WorkflowRun
use databricks_vscode.Execute.Main.Notebook
use databricks_vscode.Execute.Main.Protocol.{is_created}
use databricks_vscode.Execute.Main.Protocol.Printing.{
  print_api_error_details-Holds, print_exported-Holds, print_output-Holds,
}
use databricks_vscode.Execute.Main.Protocol.Choice.{Since, Ready, calm_act-Holds}

-- `F` is a fact that only the creation of a context can end, `E` what holds of a run that does
-- not go on.
module _ (w : World) (F E : Fact)
    (calm : (a : Act) (h : List Act) → is_created a ≡ false → F h → F (a ∷ h))
    (stop : (h : List Act) → Since w F h → E h) where
  abbrev I : Fact
  I = Since w F

  wait-Holds :
      (polls : List (Bool × Reply Details)) (d : Details)
      → Holds I E Any (WorkflowRun.wait w polls d) (λ d'. Any)
  unfolding WorkflowRun.wait WorkflowRun.cancel_run
  wait-Holds [] d =
      if-Holds I E (WorkflowRun.is_over d) (λ e. pure-Holds I E) (λ e. wait_on-Holds I E stop)
  wait-Holds ((cancelled, reply) ∷ polls) d =
      let rest = >>=-Holds I E {P = Any} (settle-Holds I E reply) (wait-Holds polls) in
      if-Holds I E (WorkflowRun.is_over d) (λ e. pure-Holds I E)
        (λ e.
          if-Holds I E cancelled
            (λ e'. >>=-Holds I E (ask-Holds I E _) (λ d'.
              >>=-Holds I E (calm_act-Holds w F E calm refl (λ h u p. (refl, tt)))
                (λ d''. pure-Holds I E)))
            (λ e'. rest))

  polls_now-Holds : Holds I E Any (Notebook.polls_now w) (λ polls. Any)
  polls_now-Holds = record { at = λ s i p. (i, tt) }

  cancelled_now-Holds : Holds I E Any (Notebook.cancelled_now w) (λ c. Any)
  cancelled_now-Holds = record { at = λ s i p. (i, tt) }

  start_run-Holds :
      (request : Submission)
      → Holds I E (Ready request.compute) (Notebook.start_run w request) (λ d. Any)
  unfolding Notebook.start_run WorkflowRun.submit_run
  start_run-Holds request =
      catch-Holds I E
        (>>=-Holds I E (ask-Holds I E _) (λ d.
          >>=-Holds I E (calm_act-Holds w F E calm {Q = Any} refl (λ h u p. (rw (u, p) refl, tt)))
            (λ d'. pure-Holds I E)))
        (λ e. >>=-Holds I E (print_api_error_details-Holds w F E calm e) (λ d. throw-Holds I E))

  run_notebook-Holds :
      (request : Submission)
      → Holds I E (Ready request.compute) (Notebook.run_notebook w request) (λ d. Any)
  unfolding Notebook.run_notebook
  run_notebook-Holds request = >>=-Holds I E (start_run-Holds request) (λ begun.
      >>=-Holds I E polls_now-Holds (λ polls. >>=-Holds I E (wait-Holds polls begun) (λ d.
        >>=-Holds I E (print_exported-Holds w F E calm d) (λ printed.
          >>=-Holds I E (print_output-Holds w F E calm d printed)
            (λ d'. >>=-Holds I E cancelled_now-Holds (λ cancelled. set_exit_code-Holds I E))))))

  pub notebook_mode-Holds :
      (file : Text) (args : List Text) (env params : Members) (compute : Compute)
      → Holds I E (Ready compute) (Notebook.notebook_mode w file args env params compute) (λ d. Any)
  unfolding Notebook.notebook_mode Notebook.submission
  notebook_mode-Holds file (a ∷ args) env params compute = fail-Holds I E _
  notebook_mode-Holds file [] (v ∷ env) params compute = fail-Holds I E _
  notebook_mode-Holds file [] [] params compute =
      run_notebook-Holds (Notebook.submission w file params compute)
