-- ===== src/Auth/AzureCliCheck/Laws.antt =====
-- When the Azure CLI check succeeds, and what it sends to the terminal.
use databricks_vscode.Prelude.{
  ℕ, ◌+◌, ◌<◌, ◌≡◌, refl, Bool, true, false, Option, none, some, String, ◌∷◌, ◌++◌, Text, codes,
  if◌then◌else◌, arith, ap, ◌≢◌, eq_iff,
}
use mathlib.Core.Path.{subst}
use databricks_vscode.Shell.{posix, escape_path_argument, command_separator}
use databricks_vscode.Shell.Readers.{plain, read_posix}
use databricks_vscode.Shell.Quoting.{EndsWord, read_posix-escape_path_argument}
use databricks_vscode.Auth.Orchestrate.{
  StepResult, success, next, Settled, resolved, rejected, Outcome, done, failed, loop_error,
  orchestrate,
}
use databricks_vscode.Auth.Orchestrate.Runs.{
  Leads, here, onward, orchestrate_done, orchestrate_reaches,
}
use databricks_vscode.Auth.AzureCliCheck.{
  Reply, welcome, refused, Env, AzureStep, try_login, find_cli, install_cli, is_logged_in,
  login_azure_cli, State, Login, explain, login_result, decide_login, login_command, login_flags,
  wait_and_exit, logged_in, after_login, azure_steps, verdict, check,
}

module _ {W : Type 0} (env : Env W) where
  abbrev pub stopped : State W → Bool
  stopped s = env.cancelled s.world

  abbrev pub begin : Option Text → Option Text → W → State W
  begin tenant app w = record {
    tenant_id = tenant;
    azure_login_app_id = app;
    login_attempts = 0;
    world = w;
  }

  explain-can_login : (m : String) → (explain env m).can_login ≡ false
  unfolding explain
  explain-can_login m = ground arith

  decide_login-success :
      (r : Login) (s t : State W)
      → decide_login env r s ≡ (success true, t)
      → (r.can_login ≡ true) × (t ≡ s)
  unfolding decide_login
  decide_login-success r s t h = ground arith

  login_result-can_login :
      (reply : Reply) → (login_result env reply).can_login ≡ true → reply ≡ welcome
  unfolding login_result
  login_result-can_login welcome h = refl
  login_result-can_login (refused m) h = absurd (ground arith)

  resolved-success :
      (p : StepResult AzureStep Bool × State W) (t : State W)
      → ◌≡◌ {A = Settled (StepResult AzureStep Bool) × State W}
          (resolved p.0, p.1)
          (resolved (success true), t)
      → p ≡ (success true, t)
  resolved-success p t h = ground arith

  after_login-success :
      (reply : Settled Reply) (s t : State W)
      → after_login env reply s ≡ (resolved (success true), t)
      → (reply ≡ resolved welcome) × (t ≡ s)
  unfolding after_login
  after_login-success (rejected m) s t h = absurd (ground arith)
  after_login-success (resolved reply) s t h =
      let (can, same_state) =
        decide_login-success (login_result env reply) s t
          (resolved-success (decide_login env (login_result env reply) s) t h) in
      (ap resolved (login_result-can_login reply can), same_state)

  -- The only step that ends the check with `true` is a login that the workspace answered.
  azure_steps-success :
      (k : AzureStep) (s t : State W)
      → azure_steps env k s ≡ (resolved (success true), t)
      → (k ≡ try_login)
        × ((env.me s.azure_login_app_id s.world).0 ≡ resolved welcome)
        × (t.world ≡ (env.me s.azure_login_app_id s.world).1)
  unfolding azure_steps
  azure_steps-success try_login s t h =
      let reply = env.me s.azure_login_app_id s.world in
      let asked : State W = record s { login_attempts = s.login_attempts + 1; world = reply.1 } in
      let (answered, same_state) = after_login-success reply.0 asked t h in
      (refl, answered, ap (λ (u : State W). u.world) same_state)
  azure_steps-success find_cli s t h = absurd (ground arith)
  azure_steps-success install_cli s t h = absurd (ground arith)
  azure_steps-success is_logged_in s t h = absurd (ground arith)
  azure_steps-success login_azure_cli s t h = absurd (ground arith)

  verdict-true :
      (o : Outcome Bool × State W) → (verdict env o).0 ≡ true → o ≡ (done true, (verdict env o).2)
  verdict-true (done true, s) h = refl
  verdict-true (done false, s) h = cc
  verdict-true (failed e, s) h = cc
  verdict-true (loop_error, s) h = cc

  -- If the check returns true, its last act was a call of `me` that the workspace answered, at most
  -- 19 steps after the first.
  pub azure_check_sound :
      (tenant app : Option Text) (w : W)
      → (check env tenant app w).0 ≡ true
      → (s : State W) × (count : ℕ) × (count < 20)
        × Leads stopped (azure_steps env) count find_cli (begin tenant app w) try_login s
        × ((env.me s.azure_login_app_id s.world).0 ≡ resolved welcome)
        × ((check env tenant app w).2.world ≡ (env.me s.azure_login_app_id s.world).1)
  unfolding check
  azure_check_sound tenant app w h =
      let o = orchestrate stopped (azure_steps env) 20 find_cli (begin tenant app w) in
      let e =
        orchestrate_done stopped (azure_steps env) 20 find_cli (begin tenant app w) true
          (verdict env o).2 (verdict-true o h) in
      let (asks, answered, same_world) =
        azure_steps-success e.last e.before (verdict env o).2 e.final in
      (
        e.before,
        e.count,
        e.in_time,
        subst
            (λ k. Leads stopped (azure_steps env) e.count find_cli (begin tenant app w) k e.before)
            asks e.path,
        answered,
        same_world,
      )

  module _ (tenant app : Option Text) (w0 w1 w2 w3 w4 : W) (stdout : String) where
    abbrev pub at_world : W → ℕ → State W
    at_world w n = record (begin tenant app w) { login_attempts = n }

    healthy_find :
        env.version w0 ≡ (true, w1)
        → azure_steps env find_cli (at_world w0 0) ≡ (resolved (next is_logged_in), at_world w1 0)
    unfolding azure_steps
    healthy_find v = rw v

    healthy_accounts :
        env.set_cloud w1 ≡ (true, w2)
        → env.accounts w2 ≡ (some (stdout, false), w3)
        → stdout ≢ "[]"
        → logged_in env w1 ≡ (true, w3)
    unfolding logged_in
    healthy_accounts set listed ne = rw set (rw listed (ground (arith, eq_iff stdout "[]")))

    healthy_account :
        logged_in env w1 ≡ (true, w3)
        → azure_steps env is_logged_in (at_world w1 0) ≡ (resolved (next try_login), at_world w3 0)
    healthy_account h =
        unfold azure_steps in
        ap
          (λ (p : Bool × W). (
            resolved (next (if p.0 then try_login else login_azure_cli)),
            record (at_world w1 0) { world = p.1 },
          ))
          h

    healthy_login :
        env.me app w3 ≡ (resolved welcome, w4)
        → azure_steps env try_login (at_world w3 0) ≡ (resolved (success true), at_world w4 1)
    unfolding azure_steps
    healthy_login h = rw h

    -- With the CLI installed, an account in it and a workspace that answers, the check returns true
    -- after one login attempt and shows no message, if it is not cancelled meanwhile.
    pub check_healthy :
        env.version w0 ≡ (true, w1)
        → env.set_cloud w1 ≡ (true, w2)
        → env.accounts w2 ≡ (some (stdout, false), w3)
        → stdout ≢ "[]"
        → env.me app w3 ≡ (resolved welcome, w4)
        → env.cancelled w0 ≡ false
        → env.cancelled w1 ≡ false
        → env.cancelled w3 ≡ false
        → env.cancelled w4 ≡ false
        → check env tenant app w0 ≡ (true, none, at_world w4 1)
    unfolding check
    check_healthy v set listed ne answered c0 c1 c3 c4 = ap (verdict env) (
        orchestrate_reaches stopped (azure_steps env) 20 true (at_world w4 1) {n = find_cli}
          {k = try_login} {s = at_world w0 0} {t = at_world w3 0}
          (onward c0 (healthy_find v)
            (onward c1 (healthy_account (healthy_accounts set listed ne)) here))
          (omega arith) c3 (healthy_login answered) c4)

  wait_and_exit-EndsWord : env.shell ≡ posix → EndsWord (wait_and_exit env)
  unfolding wait_and_exit command_separator
  wait_and_exit-EndsWord h = rw h refl

  -- On a POSIX shell the command line is the command with its flags, ` -t `, and a text that the
  -- shell reads as the tenant as it is, whatever characters that has, with the rest of the line
  -- left to read.
  pub login_command-tenant :
      (c : ℕ) (t : Text)
      → env.shell ≡ posix
      → (word : Text) × (login_command env (some (c ∷ t))
          ≡ login_flags env ++ (codes " -t " ++ word))
        × (read_posix plain word ≡ some (c ∷ t, wait_and_exit env))
  unfolding login_command
  login_command-tenant c t h = (
    escape_path_argument (c ∷ t) env.shell ++ wait_and_exit env,
    refl,
    simp h (read_posix-escape_path_argument (c ∷ t) (wait_and_exit env) (wait_and_exit-EndsWord h)),
  )
