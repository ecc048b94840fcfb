-- ===== src/BundleRun/Job/Laws.antt =====
-- What holds of a job monitor after any events.
use databricks_vscode.Prelude.{◌≡◌, ◌≢◌, none, some, List, [], ◌∷◌, Text, arith, ◌⊎◌}
use databricks_vscode.BundleRun.RunState.{unknown, running, completed, cancelling, cancelled}
use databricks_vscode.BundleRun.Job.{
  idle, getting_client, waiting, JobRunStatus, new, Event, output, client_ready, client_failed,
  progress, finished, wait_failed, cancel_called, cancel_done, cancel_failed, timer, parse_id,
  cancel, step, run,
}

module _ {D : Type 0} where
  -- The poller has run for an id, and what is known of the run comes from it.
  pub record Inv (s : JobRunStatus D) : Type 0 where
    pub no_poller : (s.run_id ≢ none) ⊎ (s.poller ≡ idle)
    pub no_details : (s.run_id ≢ none) ⊎ (s.details ≡ none)
    pub no_run :
        (s.run_id ≢ none)
        ⊎ (s.run_state ≢ running) × (s.run_state ≢ completed) × (s.run_state ≢ cancelling)

  step-Inv : (e : Event D) (s : JobRunStatus D) → Inv s → Inv (step e s)
  unfolding step cancel parse_id
  step-Inv (output out) s v = ground arith
  step-Inv cancel_called s v = ground arith
  step-Inv cancel_done s v = ground arith
  step-Inv cancel_failed s v = ground arith
  step-Inv timer s v = ground arith
  step-Inv client_ready s v = ground arith
  step-Inv client_failed s v = ground arith
  step-Inv (progress d) s v = ground arith
  step-Inv finished s v = ground arith
  step-Inv wait_failed s v = ground arith

  step-run_id :
      (e : Event D) (s : JobRunStatus D) (id : Text)
      → s.run_id ≡ some id
      → (step e s).run_id ≡ some id
  unfolding step cancel parse_id
  step-run_id (output out) s id h = ground arith
  step-run_id cancel_called s id h = ground arith
  step-run_id cancel_done s id h = ground arith
  step-run_id cancel_failed s id h = ground arith
  step-run_id timer s id h = ground arith
  step-run_id client_ready s id h = ground arith
  step-run_id client_failed s id h = ground arith
  step-run_id (progress d) s id h = ground arith
  step-run_id finished s id h = ground arith
  step-run_id wait_failed s id h = ground arith

  run-Inv : (es : List (Event D)) (s : JobRunStatus D) → Inv s → Inv (run es s)
  unfolding run
  run-Inv [] s v = v
  run-Inv (e ∷ es) s v = run-Inv es (step e s) (step-Inv e s v)

  new-Inv : Inv (new {D = D})
  new-Inv = ground arith

  -- However the events come: without a run id the monitor polls nothing, has no details, and is
  -- neither running, nor completed, nor cancelling.
  pub job_idle_without_id : (es : List (Event D)) → Inv (run es new)
  job_idle_without_id es = run-Inv es new new-Inv

  -- Once the monitor has read a run id, it keeps that id through all events.
  pub run_id_final :
      (es : List (Event D)) (s : JobRunStatus D) (id : Text)
      → s.run_id ≡ some id
      → (run es s).run_id ≡ some id
  unfolding run
  run_id_final [] s id h = h
  run_id_final (e ∷ es) s id h = run_id_final es (step e s) id (step-run_id e s id h)

  -- A cancellation while the monitor still waits for its client is lost: the monitor is cancelled,
  -- and running again as soon as the client is there, whatever other output comes in between.
  pub cancel_lost :
      (s : JobRunStatus D) (id out : Text)
      → s.run_id ≡ some id
      → s.poller ≡ getting_client
      → s.run_state ≡ unknown
      → ((step cancel_called s).run_state ≡ cancelled)
        × ((run (cancel_called ∷ output out ∷ client_ready ∷ []) s).run_state ≡ running)
  unfolding run step cancel parse_id
  cancel_lost s id out h p u = (ground arith, ground arith)

  -- A run that ends while a cancellation waits for the workspace: the state that is left is that
  -- of the later of the two.
  pub cancel_races_finish :
      (s : JobRunStatus D) (id : Text)
      → s.run_id ≡ some id
      → s.poller ≡ waiting
      → s.run_state ≡ running
      → ((run (cancel_called ∷ finished ∷ cancel_done ∷ []) s).run_state ≡ cancelled)
        × ((run (cancel_called ∷ cancel_done ∷ finished ∷ []) s).run_state ≡ completed)
  unfolding run step cancel parse_id
  cancel_races_finish s id h p r = (ground arith, ground arith)
