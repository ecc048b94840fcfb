-- ===== src/Execute/Main/WorkflowRun.antt =====
-- packages/databricks-vscode/src/sdk-extensions/WorkflowRun.ts: `submitRun`, `wait`, `export` and
-- `getOutput`. The details of a run are those of its last update.
use databricks_vscode.Prelude.{
  Bool, not, ◌||◌, Option, none, some, List, [], ◌∷◌, Text, codes, same, if◌then◌else◌,
}
use databricks_vscode.Execute.Main.Call.{
  Reply, Details, Submission, submitted, run_cancelled, Cli, pure, throw, wait_on, act, ◌>>=◌, ◌>>◌,
  plain_failure, settle, ask,
}
use databricks_vscode.Execute.Main.World.{World, NotebookOutput}

-- `lifeCycleState`
unfoldable pub life_cycle_state : Details → Text
life_cycle_state d = elim d.life_cycle_state [
  | none ↦ codes "INTERNAL_ERROR"
  | some [] ↦ codes "INTERNAL_ERROR"
  | some (c ∷ s) ↦ c ∷ s
]

unfoldable pub is_over : Details → Bool
unfolding life_cycle_state
is_over d =
    same (life_cycle_state d) (codes "INTERNAL_ERROR")
    || same (life_cycle_state d) (codes "TERMINATED")

module _ (w : World) where
  unfoldable pub submit_run : Submission → Cli Details
  submit_run request = do d ← ask (w.submit_run request); act (submitted request); pure d

  -- `cancel`, with the details as they were.
  unfoldable pub cancel_run : Details → Cli Details
  cancel_run d = do ask w.cancel_run; act run_cancelled; pure d

  -- One turn of the loop takes one poll: whether the token is cancelled after the pause, and the
  -- answer to the update. Without a further poll the promise has not settled.
  unfoldable pub wait : List (Bool × Reply Details) → Details → Cli Details
  unfolding cancel_run is_over
  wait [] d = if is_over d then pure d else wait_on
  wait ((cancelled, reply) ∷ polls) d =
      let rest = settle reply >>= wait polls in
      if is_over d then pure d else if cancelled then cancel_run d else rest

  unfoldable pub export_run : Details → Cli (List (Option Text))
  unfolding is_over
  export_run d =
      if not (is_over d)
      then throw (plain_failure (codes "Run is not terminated"))
      else if not d.has_tasks
      then throw (plain_failure (codes "Run has no tasks"))
      else ask w.export_run

  unfoldable pub run_output : Details → Cli NotebookOutput
  run_output d =
      if d.has_tasks then ask w.run_output else throw (plain_failure (codes "Run has no tasks"))
