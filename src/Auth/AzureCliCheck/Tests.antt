-- ===== src/Auth/AzureCliCheck/Tests.antt =====
-- A machine with the Azure CLI and one account, and a workspace that answers. The world counts what
-- was asked.
use databricks_vscode.Prelude.{
  ℕ, ◌+◌, ◌<◌, ◌≡◌, ◌≢◌, refl, arith, eq_iff, true, false, Option, none, some, String, Text, codes,
}
use databricks_vscode.Shell.{posix}
use databricks_vscode.Auth.Orchestrate.{resolved}
use databricks_vscode.Auth.Orchestrate.Runs.{Leads}
use databricks_vscode.Auth.AzureCliCheck.{
  welcome, Env, try_login, find_cli, State, azure_steps, check,
}
use databricks_vscode.Auth.AzureCliCheck.Laws.{stopped, begin, azure_check_sound}

abbrev healthy : Env ℕ
healthy = record {
  cancelled = λ w. false;
  me = λ app w. (resolved welcome, w + 1);
  wrong_issuer = λ m. none;
  needs_interaction = λ m. none;
  wrong_audience = λ m. none;
  version = λ w. (true, w + 1);
  set_cloud = λ w. (true, w + 1);
  accounts = λ w. (some ("[{}]", false), w + 1);
  show_instructions = λ w. w + 1;
  confirm = λ w. (true, w + 1);
  run_terminal = λ line w. (true, w + 1);
  shell = posix;
  az_bin_path = codes "az";
  is_code_spaces = false;
}

abbrev tenant : Option Text
tenant = some (codes "it's")

returns_true : (check healthy tenant none 0).0 ≡ true
unfolding check
returns_true = refl

azure_check_sound_example :
    (s : State ℕ) × (count : ℕ) × (count < 20)
    × Leads
        (stopped healthy)
        (azure_steps healthy)
        count
        find_cli
        (begin healthy tenant none 0)
        try_login
        s
    × ((healthy.me s.azure_login_app_id s.world).0 ≡ resolved welcome)
    × ((check healthy tenant none 0).2.world ≡ (healthy.me s.azure_login_app_id s.world).1)
azure_check_sound_example = azure_check_sound healthy tenant none 0 returns_true

has_account : ◌≢◌ {A = String} "[{}]" "[]"
has_account = ground (arith, eq_iff "[{}]" "[]")
