-- ===== src/Execute/Main/Protocol/Kept.antt =====
-- No act of a run comes before what it needs.
use databricks_vscode.Execute.Main.Holds.{Fact, Any, Holds}
use databricks_vscode.Execute.Main.World.{World}
use databricks_vscode.Execute.Main.Python
use databricks_vscode.Execute.Main.Program
use databricks_vscode.Execute.Main.Protocol.Choice.{Since}

module _ (w : World) where
  abbrev I : Fact
  I = Since w Any
