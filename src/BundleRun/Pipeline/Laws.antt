-- ===== src/BundleRun/Pipeline/Laws.antt =====
-- What holds of a pipeline monitor after any events.
use databricks_vscode.Prelude.{◌≡◌, ◌≢◌, false, none, some, List, [], ◌∷◌, arith, ◌⊎◌}
use databricks_vscode.BundleRun.RunState.{running, completed, cancelled}
use databricks_vscode.BundleRun.Pipeline.{
  update_running, Update, idle, fetching, none_waits, PipelineRunStatus, Event, output, timer,
  attempt, retry_over, polled, polled_events, poll_failed, cancel_called, asked, stopped, refreshed,
  refreshed_events, cancel_failed, step, run, new,
}

module _ {I E : Type 0} where
  -- Everything that the monitor does follows from a known update id.
  pub record Inv (s : PipelineRunStatus I E) : Type 0 where
    pub no_poller : (s.run_id ≢ none) ⊎ (s.poller ≡ idle)
    pub no_canceller : (s.run_id ≢ none) ⊎ (s.canceller ≡ none_waits)
    pub no_run : (s.run_id ≢ none) ⊎ (s.run_state ≢ running) × (s.run_state ≢ completed)
    pub never_polled : (s.run_id ≢ none) ⊎ (s.update ≡ none) × (s.events ≡ [])

  step-Inv : (e : Event I E) (s : PipelineRunStatus I E) → Inv s → Inv (step e s)
  unfolding step
  step-Inv (output found) s v = ground arith
  step-Inv timer s v = ground arith
  step-Inv attempt s v = ground arith
  step-Inv retry_over s v = ground arith
  step-Inv (polled u) s v = ground arith
  step-Inv (polled_events es) s v = ground arith
  step-Inv poll_failed s v = ground arith
  step-Inv cancel_called s v = ground arith
  step-Inv (asked u) s v = ground arith
  step-Inv stopped s v = ground arith
  step-Inv (refreshed u) s v = ground arith
  step-Inv (refreshed_events es) s v = ground arith
  step-Inv cancel_failed s v = ground arith

  run-Inv : (es : List (Event I E)) (s : PipelineRunStatus I E) → Inv s → Inv (run es s)
  unfolding run
  run-Inv [] s v = v
  run-Inv (e ∷ es) s v = run-Inv es (step e s) (step-Inv e s v)

  new-Inv : Inv (new {I = I} {E = E})
  new-Inv = ground arith

  -- However the events come: without an update id the monitor does not poll, nothing is being
  -- cancelled, it has no data, and it is neither running nor completed.
  pub pipeline_idle_without_id : (es : List (Event I E)) → Inv (run es new)
  pipeline_idle_without_id es = run-Inv es new new-Inv

  -- A cancellation is over while an answer to the poller is still to come: if that shows the update
  -- in a final state, the cancelled monitor becomes completed.
  pub cancel_overwritten :
      (s : PipelineRunStatus I E) (u : Update I)
      → s.run_state ≡ cancelled
      → s.poller ≡ fetching
      → u.update_id ≡ none
      → update_running u.state ≡ false
      → (step (polled (some u)) s).run_state ≡ completed
  unfolding step
  cancel_overwritten s u c f i r = ground arith
