-- ===== src/Sync/Tests.antt =====
-- A chunk with a completed synchronization, and an error.
use databricks_vscode.Prelude.{◌≡◌, refl, Option, some, [], ◌∷◌, Text, split_lines, codes}
use databricks_vscode.Sync.{
  stopped, watching, state_is, Event, complete, Parser, trimmed, process_stdout,
}
use databricks_vscode.Sync.Reports.{first_error, last_state, report_or, stdout_reported}

abbrev completes : Text → Option Event
completes line = some complete

abbrev parser : Parser
parser = record { state = stopped; reported = []; written = [] }

completed : (process_stdout completes (codes " done") parser).reported ≡ state_is watching ∷ []
unfolding process_stdout
completed = refl

stdout_reported_example :
    (process_stdout completes (codes "Error: no") parser).reported
    ≡ report_or
        (first_error (trimmed (split_lines (codes "Error: no"))))
        (state_is (last_state completes (trimmed (split_lines (codes "Error: no"))) stopped))
      ∷ []
stdout_reported_example = stdout_reported completes (codes "Error: no") parser
