-- ===== src/Auth/DatabricksCliCheck/Tests.antt =====
-- A workspace that answers, and one that refuses every login.
use databricks_vscode.Prelude.{ℕ, ◌+◌, ◌≡◌, refl, Bool, true, false, none, some, codes}
use databricks_vscode.Auth.Orchestrate.{resolved}
use databricks_vscode.Auth.DatabricksCliCheck.{Provider, Env, check}
use databricks_vscode.Auth.DatabricksCliCheck.Laws.{check_gives_up}

abbrev provider : Provider
provider = record {
  host = codes "https://adb.example/";
  profile = some (codes "dev");
  workspace_id = none;
}

abbrev answers_with : Bool → Env ℕ
answers_with answer = record {
  cancelled = λ w. false;
  me = λ w. (resolved answer, w + 1);
  exec_file = λ arguments w. (none, w + 1);
}

returns_true : (check (answers_with true) provider 0).0 ≡ true
unfolding check
returns_true = refl

check_gives_up_example :
    check (answers_with false) provider 0
    ≡ (false, some (codes "Can't login using Databricks CLI"), 6)
check_gives_up_example =
    check_gives_up (answers_with false) provider (λ w. refl) (λ w. refl) (λ w. refl) 0
