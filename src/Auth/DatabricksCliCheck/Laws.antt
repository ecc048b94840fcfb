-- ===== src/Auth/DatabricksCliCheck/Laws.antt =====
-- When the Databricks CLI check succeeds, and that it gives up.
use databricks_vscode.Prelude.{
  ℕ, ◌≡◌, refl, Bool, true, false, none, some, codes, arith, ap, ◌∙◌, suc,
}
use databricks_vscode.Auth.Orchestrate.{
  success, resolved, Outcome, done, failed, loop_error, orchestrate,
}
use databricks_vscode.Auth.Orchestrate.Runs.{orchestrate_done}
use databricks_vscode.Auth.DatabricksCliCheck.{
  Provider, Env, StepName, try_login, login, login_arguments, State, cli_steps, verdict, check,
}

module _ {W : Type 0} (env : Env W) (p : Provider) where
  abbrev pub stopped : State W → Bool
  stopped s = env.cancelled s.world

  cli_steps-success :
      (k : StepName) (s t : State W)
      → cli_steps env p k s ≡ (resolved (success true), t)
      → ((env.me s.world).0 ≡ resolved true) × (t.world ≡ (env.me s.world).1)
  unfolding cli_steps
  cli_steps-success try_login s t h = ground arith
  cli_steps-success login s t h = absurd (ground arith)

  verdict-true :
      (o : Outcome Bool × State W)
      → (verdict env p o).0 ≡ true
      → (s : State W) × (o ≡ (done true, s)) × ((verdict env p o).2 ≡ s.world)
  verdict-true (done true, s) h = (s, refl, refl)
  verdict-true (done false, s) h = cc
  verdict-true (failed e, s) h = cc
  verdict-true (loop_error, s) h = cc

  -- If the check returns true, its last act was a call of `me` that the workspace answered.
  pub databricks_check_sound :
      (w : W)
      → (check env p w).0 ≡ true
      → (v : W) × ((env.me v).0 ≡ resolved true) × ((check env p w).2 ≡ (env.me v).1)
  unfolding check
  databricks_check_sound w h =
      let start : State W = record { shown = none; world = w } in
      let (t, ended, same_world) =
        verdict-true (orchestrate stopped (cli_steps env p) 6 try_login start) h in
      let e = orchestrate_done stopped (cli_steps env p) 6 try_login start true t ended in
      let (answered, same_state) = cli_steps-success e.last e.before t e.final in
      (e.before.world, answered, same_world ∙ same_state)

  -- One refused call of `me` and one login.
  abbrev pub round : W → W
  round w = (env.exec_file (login_arguments p) (env.me w).1).1

  module _ (alive : (w : W) → env.cancelled w ≡ false)
      (refuses : (w : W) → (env.me w).0 ≡ resolved false)
      (logs_in : (w : W) → (env.exec_file (login_arguments p) w).0 ≡ none) where
    one_round :
        (left : ℕ) (s : State W)
        → orchestrate stopped (cli_steps env p) (suc (suc left)) try_login s
          ≡ orchestrate stopped
              (cli_steps env p)
              left
              try_login
              (record s { world = round s.world })
    unfolding orchestrate cli_steps
    one_round left s = ground (
      arith,
      alive s.world,
      refuses s.world,
      alive (env.me s.world).1,
      logs_in (env.me s.world).1,
      alive (round s.world),
    )

    -- If the workspace keeps refusing while every login succeeds, and nothing is cancelled, the
    -- check gives up after three rounds and says so.
    pub check_gives_up :
        (w : W)
        → check env p w
          ≡ (false, some (codes "Can't login using Databricks CLI"), round (round (round w)))
    unfolding check
    check_gives_up w =
        let at = λ (v : W). let s : State W = record { shown = none; world = v } in s in
        ap (verdict env p)
          (one_round 4 (at w) ∙ one_round 2 (at (round w)) ∙ one_round 0 (at (round (round w))))
