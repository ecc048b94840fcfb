-- ===== src/Execute/Main/Protocol.antt =====
-- What has to be done before each act of a run, and that `main` keeps to it.
pub mod Upload
pub mod Choice
pub mod Printing
pub mod Notebooks
pub mod Commands
pub mod Runs
pub mod Kept
pub mod Contexts
pub mod Tidy
use databricks_vscode.Prelude.{
  Bool, true, false, not, ◌&&◌, ◌||◌, Option, none, some, List, [], ◌∷◌, ◌++◌, Text, codes, same,
  same_iff, is_some, if◌then◌else◌, ℕ, ◌==◌, ◌≡◌, refl, arith, Bool-cases, inl, inr,
}
use databricks_vscode.Execute.Main.Call.{
  Members, Failure, Reply, answers, throws, Finished, Details, Command, version, validate, sync,
  auth_env, Compute, serverless_compute, existing_cluster, Submission, Act, spawned, found, started,
  created, executed, destroyed, submitted, run_cancelled, wrote, wrote_error, State, Outcome, done,
  threw, exited, pending, Cli, Done, pure, throw, exit, wait_on, act, set_exit_code, next, ◌>>=◌,
  ◌>>◌, handle, catch, ended, finally, plain_failure, fail, fail_if, or_fail, settle, ask,
  ends_line, with_line_end, when_present, print_api_error_details,
}
use databricks_vscode.Execute.Main.World.{World, Config}
use databricks_vscode.Execute.Main.Bundle.{parse_output, refused_mode}
use databricks_vscode.Execute.Main.Cluster.{is_running}

abbrev pub same_target : Option Text → Option Text → Bool
same_target none none = true
same_target (some s) (some t) = same s t
same_target _ _ = false

abbrev pub any_act : (Act → Bool) → List Act → Bool
any_act test [] = false
any_act test (a ∷ h) = test a || any_act test h

-- The CLI ended without an exit code other than 0. One that a signal ended has none.
abbrev pub ended_well : Option ℕ → Bool
ended_well none = true
ended_well (some n) = n == 0

-- The CLI answered to `--version` without an error.
abbrev pub is_checked : Act → Bool
is_checked (spawned version env (answers r)) = ended_well r.code
is_checked _ = false

-- The upload went through.
abbrev pub is_uploaded : Act → Bool
is_uploaded (spawned (sync target) env (answers r)) = ended_well r.code
is_uploaded _ = false

abbrev pub is_created : Act → Bool
is_created (created cluster context) = true
is_created _ = false

-- The cluster was found running or resizing, or was started.
abbrev pub is_ready : Text → Act → Bool
is_ready id (found cluster state) = same id cluster && is_running state
is_ready id (started cluster) = same id cluster
is_ready id _ = false

abbrev pub compute_ready : Compute → List Act → Bool
compute_ready serverless_compute h = true
compute_ready (existing_cluster id) h = any_act (is_ready id) h

abbrev pub allows : Option Config → Bool
allows none = false
allows (some c) = not (is_some (refused_mode c.mode))

module _ (w : World) where
  -- The bundle was found valid for this target, which is for development or has no mode.
  abbrev pub is_validated : Option Text → Act → Bool
  is_validated target (spawned (validate other) env (answers r)) =
      same_target target other && (ended_well r.code && allows (parse_output w r.stdout))
  is_validated target _ = false

  -- What an act needs to have been done before it.
  abbrev pub is_due : Act → List Act → Bool
  is_due (spawned (validate target) env reply) h = any_act is_checked h
  is_due (spawned (sync target) env reply) h = any_act (is_validated target) h
  is_due (spawned (auth_env host) env reply) h = any_act is_uploaded h
  is_due (started cluster) h = any_act is_uploaded h
  is_due (created cluster context) h = any_act is_uploaded h && any_act (is_ready cluster) h
  is_due (executed cluster context command) h =
      any_act is_uploaded h && any_act (is_ready cluster) h
  is_due (submitted request) h = any_act is_uploaded h && compute_ready request.compute h
  is_due _ h = true

  abbrev pub IsLawful : List Act → Type 0
  IsLawful [] = Done
  IsLawful (a ∷ h) = (is_due a h ≡ true) × IsLawful h
