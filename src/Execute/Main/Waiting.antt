-- ===== src/Execute/Main/Waiting.antt =====
-- A notebook run that is cancelled while `wait` of WorkflowRun.ts waits for it.
use databricks_vscode.Prelude.{Bool, true, false, none, List, [], ◌∷◌, ◌++◌, ◌≡◌, refl}
use databricks_vscode.Execute.Main.Call.{
  Details, Reply, answers, State, done, run_cancelled, Done, ◌>>=◌, ask,
}
use databricks_vscode.Execute.Main.World.{World}
use databricks_vscode.Execute.Main.WorkflowRun.{is_over, wait, cancel_run}
use databricks_vscode.Execute.Main.Notebook.{notebook_exit_code}

-- The run goes on, and has no result.
abbrev pub IsUnfinished : Details → Type 0
IsUnfinished d = (is_over d ≡ false) × (d.result_state ≡ none)

abbrev pub AllUnfinished : List Details → Type 0
AllUnfinished [] = Done
AllUnfinished (d ∷ ds) = IsUnfinished d × AllUnfinished ds

-- Polls without a cancellation.
abbrev pub quiet : List Details → List (Bool × Reply Details)
quiet [] = []
quiet (d ∷ ds) = (false, answers d) ∷ quiet ds

cancel_run_lem :
    (w : World) (d : Details) (s : State)
    → w.cancel_run s.history ≡ answers tt
    → cancel_run w d s ≡ (done d, record s { history = run_cancelled ∷ s.history })
unfolding cancel_run ask ◌>>=◌
cancel_run_lem w d s e = rw e refl

no_result :
    (w : World) (d : Details) → d.result_state ≡ none → notebook_exit_code w true d.result_state ≡ 1
unfolding notebook_exit_code
no_result w d e = rw e refl

-- If the token is cancelled while the run has neither ended nor a result, after any number of
-- updates, and the run accepts its cancellation, then `wait` returns the details from before the
-- cancellation, for which the exit code is 1 and not 130.
pub cancelled_exit_code :
    (w : World) (updates : List Details) (begun : Details) (late : Reply Details)
    (later : List (Bool × Reply Details)) (s : State)
    → IsUnfinished begun
    → AllUnfinished updates
    → w.cancel_run s.history ≡ answers tt
    → (d : Details) × (wait w (quiet updates ++ (true, late) ∷ later) begun s
        ≡ (done d, record s { history = run_cancelled ∷ s.history }))
      × (notebook_exit_code w true d.result_state ≡ 1)
unfolding wait ◌>>=◌
cancelled_exit_code w [] begun late later s u all e =
    (begun, rw (u.0) (cancel_run_lem w begun s e), no_result w begun u.1)
cancelled_exit_code w (d ∷ updates) begun late later s u all e =
    let (d', more, code) = cancelled_exit_code w updates d late later s all.0 all.1 e in
    (d', rw (u.0) more, code)
