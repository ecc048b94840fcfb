-- ===== src/Execute/Main/Protocol/Printing.antt =====
-- What is printed keeps the protocol.
use databricks_vscode.Prelude.{false, not, Option, none, some, List, [], ◌∷◌, ◌++◌, Text, ◌≡◌, refl}
use databricks_vscode.Execute.Main.Call.{
  Failure, Details, Act, wrote, wrote_error, Cli, Done, act, with_line_end, when_present,
  print_trace, print_api_error_details,
}
use databricks_vscode.Execute.Main.Holds.{
  Fact, Any, Holds, >>=-Holds, catch-Holds, pure-Holds, throw-Holds, ask-Holds, if-Holds,
}
use databricks_vscode.Execute.Main.World.{World, Extracted}
use databricks_vscode.Execute.Main.WorkflowRun
use databricks_vscode.Execute.Main.Notebook
use databricks_vscode.Execute.Main.Protocol.{is_created}
use databricks_vscode.Execute.Main.Protocol.Choice.{Since, calm_act-Holds}

-- `F` is a fact that only the creation of a context can end, `E` what holds of a run that does
-- not go on.
module _ (w : World) (F E : Fact)
    (calm : (a : Act) (h : List Act) → is_created a ≡ false → F h → F (a ∷ h)) where
  abbrev I : Fact
  I = Since w F

  pub print-Holds : (t : Text) → Holds I E Any (act (wrote t)) (λ d. Any)
  print-Holds t = calm_act-Holds w F E calm refl (λ h u p. (refl, tt))

  print_error-Holds : (t : Text) → Holds I E Any (act (wrote_error t)) (λ d. Any)
  print_error-Holds t = calm_act-Holds w F E calm refl (λ h u p. (refl, tt))

  when_present-Holds :
      (f : Text → Cli Done) (t : Option Text)
      → ((t : Text) → Holds I E Any (f t) (λ d. Any))
      → Holds I E Any (when_present f t) (λ d. Any)
  when_present-Holds f none k = pure-Holds I E
  when_present-Holds f (some []) k = pure-Holds I E
  when_present-Holds f (some (c ∷ s)) k = k (c ∷ s)

  print_trace-Holds : (t : Option Text) → Holds I E Any (print_trace t) (λ d. Any)
  print_trace-Holds none = pure-Holds I E
  print_trace-Holds (some t) = print_error-Holds _

  pub print_api_error_details-Holds :
      (e : Failure) → Holds I E Any (print_api_error_details e) (λ d. Any)
  unfolding print_api_error_details
  print_api_error_details-Holds e =
      >>=-Holds I E (when_present-Holds _ e.logs (λ t. print-Holds (with_line_end t))) (λ d.
        >>=-Holds I E (when_present-Holds _ e.error (λ t. print_error-Holds (t ++ 10 ∷ [])))
          (λ d. print_trace-Holds e.error_trace))

  print_stream-Holds :
      (write : Text → Act) (after : Notebook.Printed) (t : Text) (p : Notebook.Printed)
      → ((t : Text) → Holds I E Any (act (write t)) (λ d. Any))
      → Holds I E Any (Notebook.print_stream write after t p) (λ q. Any)
  print_stream-Holds write after [] p k = pure-Holds I E
  print_stream-Holds write after (c ∷ s) p k = >>=-Holds I E (k _) (λ d. pure-Holds I E)

  print_plain-Holds : (t : Text) → Holds I E Any (Notebook.print_plain t) (λ q. Any)
  print_plain-Holds [] = pure-Holds I E
  print_plain-Holds (c ∷ s) = >>=-Holds I E (print-Holds _) (λ d. pure-Holds I E)

  print_extracted-Holds : (x : Extracted) → Holds I E Any (Notebook.print_extracted x) (λ q. Any)
  unfolding Notebook.print_extracted
  print_extracted-Holds x = >>=-Holds I E (print_stream-Holds _ _ _ _ print-Holds) (λ p.
      >>=-Holds I E (print_stream-Holds _ _ _ p print_error-Holds)
        (λ q. print_stream-Holds _ _ _ q print_error-Holds))

  print_page-Holds :
      (content : Text) (x : Option Extracted)
      → Holds I E Any (Notebook.print_page w content x) (λ q. Any)
  unfolding Notebook.print_page
  print_page-Holds content none = print_plain-Holds _
  print_page-Holds content (some x) = print_extracted-Holds x

  print_view-Holds : (v : Option Text) → Holds I E Any (Notebook.print_view w v) (λ q. Any)
  unfolding Notebook.print_view
  print_view-Holds none = pure-Holds I E
  print_view-Holds (some content) = print_page-Holds content (w.extract content)

  export_run-Holds : (d : Details) → Holds I E Any (WorkflowRun.export_run w d) (λ v. Any)
  unfolding WorkflowRun.export_run
  export_run-Holds d =
      if-Holds I E (not (WorkflowRun.is_over d)) (λ e. throw-Holds I E)
        (λ e. if-Holds I E (not d.has_tasks) (λ e'. throw-Holds I E) (λ e'. ask-Holds I E _))

  pub print_exported-Holds : (d : Details) → Holds I E Any (Notebook.print_exported w d) (λ q. Any)
  unfolding Notebook.print_exported
  print_exported-Holds d =
      catch-Holds I E (>>=-Holds I E (export_run-Holds d) (λ v. print_view-Holds _))
        (λ e. >>=-Holds I E (print_api_error_details-Holds e) (λ d'. pure-Holds I E))

  run_output-Holds : (d : Details) → Holds I E Any (WorkflowRun.run_output w d) (λ o. Any)
  unfolding WorkflowRun.run_output
  run_output-Holds d = if-Holds I E d.has_tasks (λ e. ask-Holds I E _) (λ e. throw-Holds I E)

  print_error_text-Holds :
      (error trace : Option Text) → Holds I E Any (Notebook.print_error_text error trace) (λ d. Any)
  print_error_text-Holds none trace =
      when_present-Holds _ trace (λ t. print_error-Holds (t ++ 10 ∷ []))
  print_error_text-Holds (some []) trace =
      when_present-Holds _ trace (λ t. print_error-Holds (t ++ 10 ∷ []))
  print_error_text-Holds (some (c ∷ s)) trace = print_error-Holds ((c ∷ s) ++ 10 ∷ [])

  pub print_output-Holds :
      (d : Details) (p : Notebook.Printed) → Holds I E Any (Notebook.print_output w d p) (λ d'. Any)
  unfolding Notebook.print_output
  print_output-Holds d p =
      catch-Holds I E
        (>>=-Holds I E (run_output-Holds d) (λ o.
          >>=-Holds I E
            (if-Holds I E p.output (λ e. pure-Holds I E)
              (λ e.
                when_present-Holds _ o.result
                  (λ t. print-Holds (t ++ Notebook.truncated_note o.truncated))))
            (λ d'.
              if-Holds I E p.error (λ e. pure-Holds I E)
                (λ e. print_error_text-Holds o.error o.error_trace))))
        print_api_error_details-Holds
