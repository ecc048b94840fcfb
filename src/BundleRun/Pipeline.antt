-- ===== src/BundleRun/Pipeline.antt =====
-- bundle/run/PipelineRunStatus.ts. Each event runs the monitor from one `await` to the next. The
-- retry loop of the SDK is its calls of `fn`, and the end that it makes when its time is over.
pub mod Laws
use databricks_vscode.Prelude.{
  ℕ, zero, suc, ◌+◌, Bool, true, false, Option, none, some, List, [], ◌∷◌, ◌++◌, is_some, not,
  if◌then◌else◌,
}
use databricks_vscode.BundleRun.RunState.{
  RunState, unknown, running, completed, cancelling, cancelled, error, is_unknown, is_running,
  time_out,
}

-- The state of an update, `other` for any name that is not final.
pub data UpdateState : Type 0 where
  completed_update failed_update canceled_update other : UpdateState

-- `isRunning`
abbrev pub update_running : Option UpdateState → Bool
update_running none = false
update_running (some other) = true
update_running (some _) = false

-- An answer of `getUpdate`: the fields of `update` that are read, if there is one. `I` are the ids.
pub record Update (I : Type 0) : Type 0 where
  pub state : Option UpdateState
  pub update_id : Option I

-- Where `startPolling` is: not started or over, between two calls of `fn`, in `updateRunData` of
-- one (before and behind the events' request), or over.
pub data Poller : Type 0 where
  idle between fetching fetching_events : Poller

-- Where a call of `cancel` waits: for the update, for the pipeline to stop, in `updateRunData`.
pub data Canceller : Type 0 where
  none_waits asking stopping refreshing refreshing_events : Canceller

-- `E` are the pipeline's events.
pub record PipelineRunStatus (I E : Type 0) : Type 0 where
  pub run_state : RunState
  pub run_id : Option I
  pub update : Option (Update I)
  pub events : List E
  pub poller : Poller
  pub canceller : Canceller

pub data Event (I E : Type 0) : Type 0 where
  -- The update id that the expression of `parseId` captures in the output, if it matches.
  output : Option I → Event I E
  timer : Event I E
  -- The retry loop calls `fn`, or gives up.
  attempt retry_over : Event I E
  -- The answer that the poller waits for, or an error of it.
  polled : Option (Update I) → Event I E
  polled_events : List E → Event I E
  poll_failed : Event I E
  cancel_called : Event I E
  -- The answer that the cancellation waits for, or an error of it.
  asked : Option (Update I) → Event I E
  stopped : Event I E
  refreshed : Option (Update I) → Event I E
  refreshed_events : List E → Event I E
  cancel_failed : Event I E

abbrev pub state_of : {I : Type 0} → Option (Update I) → Option UpdateState
state_of none = none
state_of (some u) = u.state

-- `this.data?.update_id !== undefined`
abbrev pub has_update_id : {I : Type 0} → Option (Update I) → Bool
has_update_id none = false
has_update_id (some u) = is_some u.update_id

module _ {I E : Type 0} where
  start_polling : Option I → PipelineRunStatus I E → PipelineRunStatus I E
  start_polling none s = s
  start_polling (some id) s = record s { run_id = some id; run_state = running; poller = between }

  unfoldable pub parse_id : Option I → PipelineRunStatus I E → PipelineRunStatus I E
  unfolding start_polling
  parse_id found s =
      if is_some s.run_id then s else if is_unknown s.run_state then start_polling found s else s

  -- The end of `fn`: another round, or the run is over.
  unfoldable pub settle : PipelineRunStatus I E → PipelineRunStatus I E
  settle s =
      if update_running (state_of s.update)
      then record s { poller = between }
      else record s { run_state = completed; poller = idle }

  -- The first part of `updateRunData` in `fn`
  unfoldable pub poll_answer : Option (Update I) → PipelineRunStatus I E → PipelineRunStatus I E
  unfolding settle
  poll_answer u s =
      let t = record s { update = u } in
      if has_update_id u then record t { poller = fetching_events } else settle t

  at_poller : Poller → Event I E → PipelineRunStatus I E → PipelineRunStatus I E
  unfolding settle poll_answer
  at_poller between attempt s =
      if is_running s.run_state then record s { poller = fetching } else record s { poller = idle }
  at_poller between retry_over s = record s { run_state = error; poller = idle }
  at_poller fetching (polled u) s = poll_answer u s
  at_poller fetching poll_failed s = record s { poller = between }
  at_poller fetching_events (polled_events es) s = settle (record s { events = s.events ++ es })
  at_poller fetching_events poll_failed s = record s { poller = between }
  at_poller _ _ s = s

  unfoldable pub cancel : PipelineRunStatus I E → PipelineRunStatus I E
  cancel s =
      if is_some s.run_id
      then (if is_running s.run_state
          then record s { run_state = cancelling; canceller = asking }
          else record s { run_state = cancelled })
      else record s { run_state = cancelled }

  at_canceller : Canceller → Event I E → PipelineRunStatus I E → PipelineRunStatus I E
  at_canceller asking (asked u) s = record s {
    canceller = if update_running (state_of u) then stopping else refreshing;
  }
  at_canceller stopping stopped s = record s { canceller = refreshing }
  at_canceller refreshing (refreshed u) s =
      let t = record s { update = u } in
      if has_update_id u
      then record t { canceller = refreshing_events }
      else record t { run_state = cancelled; canceller = none_waits }
  at_canceller refreshing_events (refreshed_events es) s = record s {
    events = s.events ++ es;
    run_state = cancelled;
    canceller = none_waits;
  }
  at_canceller none_waits cancel_failed s = s
  at_canceller _ cancel_failed s = record s { run_state = error; canceller = none_waits }
  at_canceller _ _ s = s

  unfoldable pub step : Event I E → PipelineRunStatus I E → PipelineRunStatus I E
  unfolding parse_id at_poller cancel at_canceller
  step (output found) s = parse_id found s
  step timer s = record s { run_state = time_out s.run_state }
  step cancel_called s = cancel s
  step attempt s = at_poller s.poller attempt s
  step retry_over s = at_poller s.poller retry_over s
  step (polled u) s = at_poller s.poller (polled u) s
  step (polled_events es) s = at_poller s.poller (polled_events es) s
  step poll_failed s = at_poller s.poller poll_failed s
  step (asked u) s = at_canceller s.canceller (asked u) s
  step stopped s = at_canceller s.canceller stopped s
  step (refreshed u) s = at_canceller s.canceller (refreshed u) s
  step (refreshed_events es) s = at_canceller s.canceller (refreshed_events es) s
  step cancel_failed s = at_canceller s.canceller cancel_failed s

  unfoldable pub run : List (Event I E) → PipelineRunStatus I E → PipelineRunStatus I E
  run [] s = s
  run (e ∷ es) s = run es (step e s)

abbrev pub new : {I E : Type 0} → PipelineRunStatus I E
new = record {
  run_state = unknown;
  run_id = none;
  update = none;
  events = [];
  poller = idle;
  canceller = none_waits;
}
