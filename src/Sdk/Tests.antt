-- ===== src/Sdk/Tests.antt =====
-- Starts of clusters, versions of runtimes, and commands.
use databricks_vscode.Prelude.{
  ◌≡◌, refl, inr, true, false, none, some, [], ◌∷◌, codes, decimal, digits_fuel, parse_decimal,
}
use databricks_vscode.Sdk.Cluster.{
  running, terminated, terminating, other_state, asked_to_start, told, got, returned, failed, Poll,
  wait_terminated, wait_running, then_running, start, has_execute_perms,
}
use databricks_vscode.Sdk.Cluster.Starting.{
  starts, start_returned, start_reaches, cancelled_start_goes_on,
}
use databricks_vscode.Sdk.Runtime.{
  dbr_version, match_version, split_dots, part_number, support_files_in_repos, from_8_4,
}
use databricks_vscode.Sdk.Runtime.Versions.{release, dbr_version-release, runtime_8_0_admitted}
use databricks_vscode.Sdk.Command
use databricks_vscode.Sdk.Command.{
  Response, finished, busy, response, execute, can_execute, created, executed, destroyed,
}
use databricks_vscode.Sdk.Command.Responses.{
  final_result, cancels, used, asks_to_cancel, answers, execute_final, execute_reports,
}
use databricks_vscode.Sdk.Command.Responses

abbrev pending : Poll
pending = record { cancelled = false; state = other_state }

abbrev up : Poll
up = record { cancelled = false; state = running }

abbrev stops : Poll
stops = record { cancelled = false; state = terminating }

abbrev down : Poll
down = record { cancelled = false; state = terminated }

start_returned_example :
    ((start terminating (stops ∷ down ∷ []) (pending ∷ up ∷ [])).state ≡ running)
    × (starts (start terminating (stops ∷ down ∷ []) (pending ∷ up ∷ [])).acts ≡ 1)
unfolding start wait_terminated then_running wait_running
start_returned_example =
    start_returned terminating (stops ∷ down ∷ []) (pending ∷ up ∷ []) refl refl

start_reaches_example : (start terminated [] (pending ∷ pending ∷ up ∷ down ∷ [])).ending ≡ returned
start_reaches_example =
    start_reaches terminated [] (pending ∷ pending ∷ []) (down ∷ []) refl
      ((refl, inr (inr refl)), ((refl, inr (inr refl)), tt))

cancelled_start_goes_on_example :
    start terminating
      (record { cancelled = true; state = terminating } ∷ [])
      (record { cancelled = true; state = terminating } ∷ [])
    ≡ record {
      state = terminating;
      acts = asked_to_start ∷ told terminating ∷ got terminating ∷ [];
      ending = returned;
    }
cancelled_start_goes_on_example =
    cancelled_start_goes_on (record { cancelled = true; state = terminating })
      (record { cancelled = true; state = terminating }) [] [] refl refl

-- A start that fails.
fails : (start terminated [] (pending ∷ down ∷ up ∷ [])).ending ≡ failed
unfolding start wait_running
fails = refl

dbr_version-release_example : dbr_version (codes "13.3.x-scala2.12") ≡ (some 13, some 3, none)
unfolding decimal digits_fuel
dbr_version-release_example = dbr_version-release 13 3 (codes "scala2.12")

custom :
    dbr_version (codes "custom:custom-local__11.3.x-snapshot-cpu__unknown")
    ≡ (some 11, some 3, none)
unfolding dbr_version match_version split_dots part_number parse_decimal
custom = refl

admitted :
    support_files_in_repos true from_8_4 (dbr_version (release 8 0 (codes "scala2.12"))) ≡ true
admitted = runtime_8_0_admitted (codes "scala2.12")

abbrev working : Command.Poll
working = record {
  answer = record { status = busy; cause = none };
  is_cancellation_requested = false;
  cancelling = [];
}

abbrev interrupted : Command.Poll
interrupted = record {
  answer = record { status = busy; cause = none };
  is_cancellation_requested = true;
  cancelling =
      record { status = busy; cause = none }
      ∷ record { status = finished; cause = some (codes "CommandCancelledException") }
      ∷ [];
}

execute_reports_example :
    (Responses.told (execute (working ∷ interrupted ∷ [])).acts
      ≡ record { status = busy; cause = none } ∷ record { status = busy; cause = none } ∷ [])
    × (cancels (execute (working ∷ interrupted ∷ [])).acts ≡ 1)
unfolding used asks_to_cancel
execute_reports_example = execute_reports (working ∷ interrupted ∷ [])

-- An interrupted command counts as one that cannot be executed; the context is destroyed.
tried : can_execute (some true) (interrupted ∷ []) ≡ (created ∷ executed ∷ destroyed ∷ [], false)
unfolding can_execute execute response Command.cancel Command.wait_cancelled
tried = refl

-- An entry of a group grants a user without a name.
nameless :
    has_execute_perms none none
      (record { user_name = none; group_name = some (codes "admins") } ∷ [])
      (some (record { user_name = none; groups = [] }))
    ≡ true
unfolding has_execute_perms
nameless = refl
