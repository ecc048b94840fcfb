-- ===== src/Auth/Orchestrate/Tests.antt =====
-- A loop that counts down: step `n` names step `n - 1`, and step 0 succeeds.
use databricks_vscode.Prelude.{ℕ, zero, suc, ◌+◌, ◌≡◌, refl, Bool, false}
use databricks_vscode.Auth.Orchestrate.{
  StepResult, success, next, Settled, resolved, done, orchestrate,
}
use databricks_vscode.Auth.Orchestrate.Runs.{Leads, here, onward}

abbrev never : ℕ → Bool
never s = false

abbrev counts_down : ℕ → ℕ → Settled (StepResult ℕ ℕ) × ℕ
counts_down zero s = (resolved (success s), s + 1)
counts_down (suc n) s = (resolved (next n), s + 1)

two_done : orchestrate never counts_down 5 2 0 ≡ (done 2, 3)
unfolding orchestrate
two_done = refl

path : Leads never counts_down 2 2 0 0 2
path = onward refl refl (onward refl refl here)
