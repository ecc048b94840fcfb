-- ===== src/Execute/Main/Protocol/Commands.antt =====
-- The run of a command keeps the protocol, and it does not stop in between.
use databricks_vscode.Prelude.{
  Bool, false, not, ◌&&◌, Option, none, some, List, [], ◌∷◌, Text, ◌≡◌, refl,
}
use databricks_vscode.Execute.Frames.{Frame}
use databricks_vscode.Execute.Bootstrap.{Compiled, compiled, refused}
use databricks_vscode.Execute.Main.Call.{
  Reply, existing_cluster, Act, executed, destroyed, wrote, act, ends_line,
}
use databricks_vscode.Execute.Main.Holds.{
  Fact, Any, Holds, >>=-Holds, catch-Holds, pure-Holds, throw-Holds, set_exit_code-Holds,
  settle-Holds, if-Holds,
}
use databricks_vscode.Execute.Main.World.{World, Results, text_result, error_result, other_result}
use databricks_vscode.Execute.Main.Python
use databricks_vscode.Execute.Main.Protocol.{is_created}
use databricks_vscode.Execute.Main.Protocol.Printing.{print-Holds}
use databricks_vscode.Execute.Main.Protocol.Choice.{calm_keeps, Since, Ready}

-- `F` is a fact that only the creation of a context can end, `E` what holds of a run that does
-- not go on.
module _ (w : World) (F E : Fact)
    (calm : (a : Act) (h : List Act) → is_created a ≡ false → F h → F (a ∷ h)) where
  abbrev I : Fact
  I = Since w F

  write-Holds : (t : Text) → Holds I E Any (act (wrote t)) (λ d. Any)
  write-Holds = print-Holds w F E calm

  print_stdout-Holds : (t : Text) → Holds I E Any (Python.print_stdout t) (λ d. Any)
  print_stdout-Holds [] = write-Holds []
  print_stdout-Holds (c ∷ s) =
      >>=-Holds I E (write-Holds (c ∷ s))
        (λ d. if-Holds I E (ends_line (c ∷ s)) (λ e. pure-Holds I E) (λ e. write-Holds (10 ∷ [])))

  print_frames-Holds :
      (j : Python.Job) (fs : List Frame) → Holds I E Any (Python.print_frames w j fs) (λ d. Any)
  unfolding Python.print_frames
  print_frames-Holds j [] = pure-Holds I E
  print_frames-Holds j (f ∷ fs) = >>=-Holds I E (write-Holds _) (λ d. print_frames-Holds j fs)

  print_payload-Holds :
      (j : Python.Job) (payload : Option Text)
      → Holds I E Any (Python.print_payload w j payload) (λ code. Any)
  unfolding Python.print_payload
  print_payload-Holds j none = pure-Holds I E
  print_payload-Holds j (some payload) =
      >>=-Holds I E (print_frames-Holds j _) (λ d. pure-Holds I E)

  print_results-Holds :
      (j : Python.Job) (r : Results) → Holds I E Any (Python.print_results w j r) (λ code. Any)
  unfolding Python.print_results
  print_results-Holds j (text_result s) =
      >>=-Holds I E (print_stdout-Holds _) (λ d. print_payload-Holds j _)
  print_results-Holds j (error_result cause summary) =
      >>=-Holds I E (print_frames-Holds j _) (λ d. pure-Holds I E)
  print_results-Holds j (other_result printed) = >>=-Holds I E (write-Holds _) (λ d. pure-Holds I E)

  compile-Holds : {P : Fact} (c : Compiled) → Holds I E P (Python.compile w c) (λ command. P)
  compile-Holds (compiled command) = pure-Holds I E
  compile-Holds (refused key) = throw-Holds I E

  pub destroy-Holds : (context : Text) → Holds I E Any (Python.destroy w context) (λ d. Any)
  unfolding Python.destroy
  destroy-Holds context = record {
    at = λ s i p.
        (settle-Holds I E {P = Any} (w.destroy context s.history)).at
          (record s { history = destroyed context ∷ s.history })
          (calm_keeps w F E calm (destroyed context) s.history refl refl i) tt;
  }

  after_execution-Holds :
      (keep : Bool) (context : Text) (answer : Bool × Reply Results)
      → Holds I E Any (Python.after_execution w keep context answer) (λ r. Any)
  unfolding Python.after_execution Python.on_cancelled
  after_execution-Holds keep context (interrupted, reply) =
      >>=-Holds I E
        (if-Holds I E (interrupted && not keep)
          (λ e. catch-Holds I E (destroy-Holds context) (λ e'. pure-Holds I E))
          (λ e. pure-Holds I E))
        (λ d. settle-Holds I E reply)

  execute-Holds :
      (keep : Bool) (cluster context command : Text)
      → Holds I E
          (Ready (existing_cluster cluster))
          (Python.execute w keep cluster context command)
          (λ r. Any)
  unfolding Python.execute
  execute-Holds keep cluster context command = record {
    at = λ s i p.
        (after_execution-Holds keep context (w.execute context command s.history)).at
          (record s { history = executed cluster context command ∷ s.history })
          (calm_keeps w F E calm (executed cluster context command) s.history refl
            (rw (i.1, p) refl) i)
          tt;
  }

  pub run_command-Holds :
      (j : Python.Job) (cluster context : Text)
      → Holds I E
          (Ready (existing_cluster cluster))
          (Python.run_command w j cluster context)
          (λ d. Any)
  unfolding Python.run_command
  run_command-Holds j cluster context = >>=-Holds I E (compile-Holds _) (λ command.
      >>=-Holds I E (execute-Holds j.keep cluster context command)
        (λ r. >>=-Holds I E (print_results-Holds j r) (λ code. set_exit_code-Holds I E)))
