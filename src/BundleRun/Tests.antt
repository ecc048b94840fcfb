-- ===== src/BundleRun/Tests.antt =====
-- Monitors that have read an id, and one that has not.
use databricks_vscode.Prelude.{ℕ, ◌≡◌, refl, false, none, some, List, [], ◌∷◌, codes}
use databricks_vscode.BundleRun.RunState.{RunState}
use databricks_vscode.BundleRun.Job
use databricks_vscode.BundleRun.Job.{
  JobRunStatus, output, progress, timer, cancel_called, cancel_done, client_ready, finished,
  getting_client, waiting, match_run_id,
}
use databricks_vscode.BundleRun.Job.Laws.{
  job_idle_without_id, run_id_final, cancel_lost, cancel_races_finish,
}
use databricks_vscode.BundleRun.Job.Laws as JobLaws
use databricks_vscode.BundleRun.Pipeline
use databricks_vscode.BundleRun.Pipeline.{PipelineRunStatus, Update, UpdateState, failed_update}
use databricks_vscode.BundleRun.RunView.{terminated, success_with_failures, JobState}

abbrev no_url : List (Job.Event ℕ)
no_url = output (codes "starting") ∷ timer ∷ cancel_called ∷ []

job_idle_without_id_example : JobLaws.Inv (Job.run no_url Job.new)
job_idle_without_id_example = job_idle_without_id no_url

abbrev job : Job.Poller → RunState → JobRunStatus ℕ
job poller state = record {
  run_state = state;
  run_id = some (codes "12");
  details = none;
  poller = poller;
  cancels = 0;
}

abbrev no_update : List (Pipeline.Event ℕ ℕ)
no_update = Pipeline.output none ∷ Pipeline.cancel_called ∷ []

abbrev pipeline : Pipeline.Poller → RunState → PipelineRunStatus ℕ ℕ
pipeline poller state = record {
  run_state = state;
  run_id = some 4;
  update = none;
  events = [];
  poller = poller;
  canceller = Pipeline.none_waits;
}

abbrev failure : Update ℕ
failure = record { state = some failed_update; update_id = none }

abbrev succeeded : JobState
succeeded = record {
  life_cycle_state = terminated;
  result_state = some success_with_failures;
  user_cancelled_or_timedout = false;
}

still_no_id : (Job.run no_url Job.new).run_id ≡ none
unfolding Job.run Job.step Job.cancel Job.parse_id
still_no_id = refl
