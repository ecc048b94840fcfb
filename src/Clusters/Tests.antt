-- ===== src/Clusters/Tests.antt =====
-- A loader that is stopped during its first load.
use databricks_vscode.Prelude.{true, false, List, [], ◌∷◌, ◌≡◌, refl, ℕ}
use databricks_vscode.Clusters.{
  Loader, Event, failed, start_called, stop_called, load_ended, restart_called, resumed_one, new,
  run,
}
use databricks_vscode.Clusters.Loops.{stop_ends}

abbrev events : List (Event ℕ)
events = start_called ∷ stop_called ∷ restart_called true ∷ load_ended failed ∷ []

stop_ends_example :
    ((run events new).stopped ≡ true)
    × ((run events new).sleeping ≡ 0)
    × ((run events new).waiting ≡ 0)
    × ((run events new).restarting ≡ [])
unfolding run
stop_ends_example = stop_ends events refl refl

abbrev stopping : Loader ℕ
stopping = record (new {C = ℕ}) { stopped = false; loading = 1; waiting = 1 }

restarted : (run (resumed_one ∷ []) (run events new)).running ≡ true
unfolding run
restarted = refl
