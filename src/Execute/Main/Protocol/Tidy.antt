-- ===== src/Execute/Main/Protocol/Tidy.antt =====
-- A context that a run creates is destroyed in the end.
use databricks_vscode.Prelude.{Bool, true, false, [], Text, if◌then◌else◌, ◌≡◌}
use databricks_vscode.Execute.Args.{Parse, parsed}
use databricks_vscode.Execute.Main.Call.{Cli, Done, pure}
use databricks_vscode.Execute.Main.Holds.{Fact}
use databricks_vscode.Execute.Main.Leaves.{Leaves}
use databricks_vscode.Execute.Main.World.{World}
use databricks_vscode.Execute.Main.Python
use databricks_vscode.Execute.Main.Program
use databricks_vscode.Execute.Main.Protocol.Contexts.{all_destroyed}

-- The history after `destroy`, however that call ends.
module _ (w : World) where
  abbrev T : Fact
  T h = all_destroyed [] h ≡ true

  abbrev last_call : Python.Job → Text → Cli Done
  last_call j context = if j.keep then pure tt else Python.destroy w context

-- Whether the arguments say to keep the context: `--keep-context`, or `--context-id` with a value.
abbrev pub keeps_context : Parse → Bool
keeps_context (parsed p) = Program.should_keep p
keeps_context _ = false
