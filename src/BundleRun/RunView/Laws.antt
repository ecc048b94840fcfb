-- ===== src/BundleRun/RunView/Laws.antt =====
-- When the explorer shows a success, and when it shows an item in place of a run's data.
use databricks_vscode.Prelude.{◌≡◌, ◌↔◌, ◌⊎◌, Bool, true, false, none, some, List, is_some, arith}
use databricks_vscode.BundleRun.Job.{JobRunStatus, Event, new, run}
use databricks_vscode.BundleRun.Job.Laws.{job_idle_without_id}
use databricks_vscode.BundleRun.RunView.{
  shown_success, terminated, success, success_with_failures, JobState, get_simplified_job_run_state,
  Monitor, item_of, get_tree_item_from_run_monitor_status,
}

-- A job run is shown as a success exactly if it terminated, was not cancelled or timed out, and
-- its result is a success, with or without failures.
pub success_iff :
    (s : JobState)
    → (get_simplified_job_run_state (some s) ≡ shown_success) ↔ (
        (s.life_cycle_state ≡ terminated)
        × (s.user_cancelled_or_timedout ≡ false)
        × ((s.result_state ≡ some success) ⊎ (s.result_state ≡ some success_with_failures)))
unfolding get_simplified_job_run_state
success_iff s = ground arith

-- What the explorer reads of a job monitor.
abbrev pub monitor_of : {D : Type 0} → JobRunStatus D → Monitor
monitor_of s = record { run_state = s.run_state; has_data = is_some s.details }

-- After any events, a job monitor that has read no run id has an item shown in place of its data.
pub no_id_shows_item :
    {D : Type 0} (url : Bool) (es : List (Event D))
    → (run es new).run_id ≡ none
    → is_some (get_tree_item_from_run_monitor_status url (some (monitor_of (run es new)))) ≡ true
unfolding get_tree_item_from_run_monitor_status item_of
no_id_shows_item url es h = let v = job_idle_without_id es in ground (arith, v.no_details, v.no_run)
