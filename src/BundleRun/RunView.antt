-- ===== src/BundleRun/RunView.antt =====
-- ui/bundle-resource-explorer/utils/RunStateUtils.ts: what the resource explorer shows of a run.
-- `other_…` stands for any name that the code does not mention.
pub mod Laws
use databricks_vscode.Prelude.{
  Bool, true, false, not, ◌&&◌, ◌||◌, Option, none, some, String, is_some, if◌then◌else◌,
}
use databricks_vscode.BundleRun.RunState.{
  RunState, unknown, running, completed, cancelling, cancelled, error, timeout,
}

pub data SimplifiedRunState : Type 0 where
  shown_terminated shown_failed shown_skipped shown_pending shown_running shown_terminating :
      SimplifiedRunState
  shown_cancelled shown_cancelling shown_success shown_unknown shown_timeout : SimplifiedRunState

pub data Icon : Type 0 where
  error_icon skipped_icon spinner sync_ignored slash check_all warning question : Icon

abbrev pub get_theme_icon_for_status : SimplifiedRunState → Icon
get_theme_icon_for_status shown_failed = error_icon
get_theme_icon_for_status shown_skipped = skipped_icon
get_theme_icon_for_status shown_pending = spinner
get_theme_icon_for_status shown_running = spinner
get_theme_icon_for_status shown_cancelling = sync_ignored
get_theme_icon_for_status shown_terminating = sync_ignored
get_theme_icon_for_status shown_terminated = slash
get_theme_icon_for_status shown_cancelled = slash
get_theme_icon_for_status shown_success = check_all
get_theme_icon_for_status shown_timeout = warning
get_theme_icon_for_status shown_unknown = question

pub data PipelineState : Type 0 where
  resetting created queued initializing setting_up_tables waiting_for_resources : PipelineState
  running_update completed_update failed_update canceled_update stopping other_state : PipelineState

-- The state of the update, if there are both.
unfoldable pub get_simplified_pipeline_update_state : Option PipelineState → SimplifiedRunState
get_simplified_pipeline_update_state none = shown_unknown
get_simplified_pipeline_update_state (some resetting) = shown_pending
get_simplified_pipeline_update_state (some created) = shown_pending
get_simplified_pipeline_update_state (some queued) = shown_pending
get_simplified_pipeline_update_state (some initializing) = shown_pending
get_simplified_pipeline_update_state (some setting_up_tables) = shown_pending
get_simplified_pipeline_update_state (some waiting_for_resources) = shown_pending
get_simplified_pipeline_update_state (some running_update) = shown_running
get_simplified_pipeline_update_state (some completed_update) = shown_success
get_simplified_pipeline_update_state (some failed_update) = shown_failed
get_simplified_pipeline_update_state (some canceled_update) = shown_cancelled
get_simplified_pipeline_update_state (some stopping) = shown_terminating
get_simplified_pipeline_update_state (some other_state) = shown_unknown

pub data LifeCycleState : Type 0 where
  internal_error skipped waiting_for_retry blocked pending running_job : LifeCycleState
  terminating terminated other_life_cycle : LifeCycleState

pub data ResultState : Type 0 where
  success success_with_failures maximum_concurrent_runs_reached failed timedout : ResultState
  upstream_canceled upstream_failed excluded canceled other_result : ResultState

-- The state of a run, if it has a life cycle.
pub record JobState : Type 0 where
  pub life_cycle_state : LifeCycleState
  pub result_state : Option ResultState
  pub user_cancelled_or_timedout : Bool

abbrev pub of_result : Option ResultState → SimplifiedRunState
of_result none = shown_terminated
of_result (some success) = shown_success
of_result (some success_with_failures) = shown_success
of_result (some maximum_concurrent_runs_reached) = shown_failed
of_result (some failed) = shown_failed
of_result (some timedout) = shown_failed
of_result (some upstream_canceled) = shown_skipped
of_result (some upstream_failed) = shown_skipped
of_result (some excluded) = shown_skipped
of_result (some canceled) = shown_cancelled
of_result (some other_result) = shown_terminated

abbrev pub of_life_cycle : LifeCycleState → Option ResultState → Bool → SimplifiedRunState
of_life_cycle internal_error result stopped_early = shown_failed
of_life_cycle skipped result stopped_early = shown_skipped
of_life_cycle waiting_for_retry result stopped_early = shown_pending
of_life_cycle blocked result stopped_early = shown_pending
of_life_cycle pending result stopped_early = shown_pending
of_life_cycle running_job result stopped_early =
    if stopped_early then shown_terminating else shown_running
of_life_cycle terminating result stopped_early = shown_terminating
of_life_cycle terminated result stopped_early =
    if stopped_early then shown_cancelled else of_result result
of_life_cycle other_life_cycle result stopped_early = shown_unknown

unfoldable pub get_simplified_job_run_state : Option JobState → SimplifiedRunState
get_simplified_job_run_state none = shown_unknown
get_simplified_job_run_state (some s) =
    of_life_cycle s.life_cycle_state s.result_state s.user_cancelled_or_timedout

-- What is read of a monitor: its state, and whether it has data.
pub record Monitor : Type 0 where
  pub run_state : RunState
  pub has_data : Bool

abbrev pub first_load : RunState → Bool
first_load running = true
first_load unknown = true
first_load _ = false

unfoldable pub is_in_first_load_state : Option Monitor → Bool
is_in_first_load_state none = false
is_in_first_load_state (some m) = first_load m.run_state && not m.has_data

abbrev pub is_active : Option SimplifiedRunState → Bool
is_active (some shown_running) = true
is_active (some shown_pending) = true
is_active _ = false

unfoldable pub is_in_loading_state : Option Monitor → Option SimplifiedRunState → Bool
unfolding is_in_first_load_state
is_in_loading_state monitor state = is_in_first_load_state monitor || is_active state

-- The item in place of a run's data. The node's type, which every item's context holds, is left
-- out; `has_url` is none where the context has no such field.
pub record StatusItem : Type 0 where
  pub icon : Icon
  pub description : Option String
  pub has_url : Option Bool

unfoldable pub item_of : RunState → Bool → Bool → Option StatusItem
item_of timeout loaded url = some (record {
  icon = warning;
  description = some "Timeout while fetching run status";
  has_url = none;
})
item_of cancelled false url =
    some (record { icon = slash; description = some "Cancelled"; has_url = some url })
item_of error false url =
    some (record {
      icon = error_icon;
      description = some "Failed to fetch run status";
      has_url = none;
    })
item_of running false url = some (record { icon = spinner; description = none; has_url = none })
item_of unknown false url = some (record { icon = spinner; description = none; has_url = none })
item_of _ _ url = none

unfoldable pub get_tree_item_from_run_monitor_status : Bool → Option Monitor → Option StatusItem
unfolding item_of
get_tree_item_from_run_monitor_status url none = none
get_tree_item_from_run_monitor_status url (some m) = item_of m.run_state m.has_data url
