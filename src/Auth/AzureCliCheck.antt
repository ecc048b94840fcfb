-- ===== src/Auth/AzureCliCheck.antt =====
-- configuration/auth/AzureCliCheck.ts. The workspace, the Azure CLI and the user are the record `Env` of functions
-- of a state `W`, which is all that is not the extension's own.
pub mod Laws
mod Tests
use databricks_vscode.Prelude.{
  ℕ, zero, suc, ◌+◌, Bool, true, false, ◌||◌, Option, none, some, String, List, [], ◌∷◌, ◌++◌, leb,
  str_eq, is_some, Text, codes, if◌then◌else◌,
}
use databricks_vscode.Shell.{
  ShellKind, escape_path_argument, escape_executable_for_terminal, echo_line, read_cmd,
  command_separator,
}
use databricks_vscode.Auth.Orchestrate.{
  StepResult, success, next, error, Settled, resolved, rejected, Outcome, done, failed, loop_error,
  orchestrate,
}

-- `currentUser.me()` returned, or threw an error with a message.
pub data Reply : Type 0 where
  welcome : Reply
  refused : String → Reply

pub record Env (W : Type 0) : Type 0 where
  pub cancelled : W → Bool
  -- The client is made with this `azureLoginAppId`, and its `me` is called. The promise is rejected
  -- if the client cannot be made.
  pub me : Option Text → W → Settled Reply × W
  -- The capture of each of the three regular expressions of `tryLogin` in a message.
  pub wrong_issuer : String → Option Text
  pub needs_interaction : String → Option String
  pub wrong_audience : String → Option Text
  -- `az --version` ran, and its output names azure-cli.
  pub version : W → Bool × W
  -- `az cloud set` ran without an error.
  pub set_cloud : W → Bool × W
  -- The output and the messages of `az account list`; `none` if it failed.
  pub accounts : W → Option (String × Bool) × W
  -- The user asked for the installation instructions.
  pub show_instructions : W → W
  -- The user chose "Run command".
  pub confirm : W → Bool × W
  -- The command line was sent to a terminal; whether that was closed before a minute had passed,
  -- without a cancellation.
  pub run_terminal : Text → W → Bool × W
  pub shell : ShellKind
  pub az_bin_path : Text
  pub is_code_spaces : Bool

pub data AzureStep : Type 0 where
  try_login find_cli install_cli is_logged_in login_azure_cli : AzureStep

-- The fields of the object, the counter of `check`, and the surroundings.
pub record State (W : Type 0) : Type 0 where
  pub tenant_id : Option Text
  pub azure_login_app_id : Option Text
  pub login_attempts : ℕ
  pub world : W

-- The object that `tryLogin` returns. `iss` and `aud` are never empty: the captures are not.
pub record Login : Type 0 where
  pub iss : Option Text
  pub aud : Option Text
  pub can_login : Bool
  pub expired : Bool
  pub error : Option String

abbrev pub no_login : Login
no_login = record { iss = none; aud = none; can_login = false; expired = false; error = none }

module _ {W : Type 0} (env : Env W) where
  -- The `catch` block of `tryLogin`: the first expression that matches.
  unfoldable pub explain : String → Login
  explain m = elim (env.wrong_issuer m) [
    | some tenant ↦ record no_login { iss = some tenant }
    | none ↦ elim (env.needs_interaction m) [
      | some message ↦ record no_login { expired = true; error = some message }
      | none ↦ elim (env.wrong_audience m) [
        | some app ↦ record no_login { aud = some app }
        | none ↦ record no_login { error = some m }
      ]
    ]
  ]

  unfoldable pub login_result : Reply → Login
  unfolding explain
  login_result welcome = record no_login { can_login = true }
  login_result (refused m) = explain m

  -- What the step `tryLogin` of `check` makes of the result.
  unfoldable pub decide_login : Login → State W → StepResult AzureStep Bool × State W
  decide_login r s = elim r.iss [
    | some tenant ↦ (next login_azure_cli, record s { tenant_id = some tenant })
    | none ↦ if r.expired then (next login_azure_cli, s) else elim r.aud [
      | some app ↦ (next try_login, record s { azure_login_app_id = some app })
      | none ↦
          if r.can_login
          then (success true, s)
          else if leb 4 s.login_attempts
          then (error (elim r.error [ some e ↦ e | none ↦ "Can't login with Azure CLI" ]), s)
          else (next find_cli, s)
    ]
  ]

  -- An empty tenant counts as none.
  tenant_argument : Option Text → Text
  tenant_argument none = []
  tenant_argument (some []) = []
  tenant_argument (some (c ∷ t)) = codes " -t " ++ escape_path_argument (c ∷ t) env.shell

  -- The executable, `login`, its flags, and the tenant with its flag.
  unfoldable pub login_flags : Text
  login_flags =
      escape_executable_for_terminal env.az_bin_path env.shell
      ++ (codes " login --allow-no-subscriptions"
          ++ (if env.is_code_spaces then codes " --use-device-code" else []))

  -- The rest of the line: a message, the wait for a key, and `exit`.
  unfoldable pub wait_and_exit : Text
  wait_and_exit =
      let sep = command_separator env.shell in
      sep
      ++ (echo_line (codes "Press any key to close the terminal and continue ...") env.shell
          ++ (sep ++ (read_cmd env.shell ++ (sep ++ codes "exit"))))

  -- The command line, in the dialect of the terminal's shell.
  unfoldable pub login_command : Option Text → Text
  unfolding tenant_argument
  login_command tenant = login_flags ++ (tenant_argument tenant ++ wait_and_exit)

  -- `loginAzureCli`
  unfoldable pub login_azure : Option Text → W → Bool × W
  login_azure tenant w =
      let (run, w') = env.confirm w in
      if run then env.run_terminal (login_command tenant) w' else (false, w')

  -- `isAzureCliLoggedIn`: the output "[]" means no account, and so does a message about `az login`.
  unfoldable pub logged_in : W → Bool × W
  logged_in w =
      let (set, w') = env.set_cloud w in
      if set
      then (let (listed, w'') = env.accounts w' in
          elim listed [
            | none ↦ (false, w'')
            | some (stdout, asks_login) ↦
                (if str_eq stdout "[]" then false else if asks_login then false else true, w'')
          ])
      else (false, w')

  abbrev continue :
      StepResult AzureStep Bool × State W → Settled (StepResult AzureStep Bool) × State W
  continue (r, s) = (resolved r, s)

  -- `tryLogin` catches what `me` throws, and not what the making of the client does.
  unfoldable pub after_login :
      Settled Reply → State W → Settled (StepResult AzureStep Bool) × State W
  unfolding decide_login login_result
  after_login (rejected m) s = (rejected m, s)
  after_login (resolved reply) s = continue (decide_login (login_result reply) s)

  -- The record `steps` of `check`. The steps behind the first catch what their commands throw.
  unfoldable pub azure_steps : AzureStep → State W → Settled (StepResult AzureStep Bool) × State W
  unfolding after_login login_azure logged_in
  azure_steps try_login s =
      let (reply, w) = env.me s.azure_login_app_id s.world in
      after_login reply (record s { login_attempts = s.login_attempts + 1; world = w })
  azure_steps find_cli s =
      let (found, w) = env.version s.world in
      (resolved (next (if found then is_logged_in else install_cli)), record s { world = w })
  azure_steps install_cli s =
      (resolved (success false), record s { world = env.show_instructions s.world })
  azure_steps is_logged_in s =
      let (yes_in, w) = logged_in s.world in
      (resolved (next (if yes_in then try_login else login_azure_cli)), record s { world = w })
  azure_steps login_azure_cli s =
      let (ran, w) = login_azure s.tenant_id s.world in
      (resolved (if ran then next try_login else success false), record s { world = w })

  -- The result of `check`, with the message that it shows if it fails.
  abbrev verdict : Outcome Bool × State W → Bool × Option String × State W
  verdict (done r, s) = (r, none, s)
  verdict (failed e, s) = (false, some e, s)
  verdict (loop_error, s) = (false, some "Can't login using Azure CLI", s)

  -- `check`, for a provider with this tenant; the object may keep an application id from before.
  unfoldable pub check : Option Text → Option Text → W → Bool × Option String × State W
  unfolding azure_steps orchestrate
  check tenant app w = verdict (
      orchestrate (λ s. env.cancelled s.world) azure_steps 20 find_cli
        (record { tenant_id = tenant; azure_login_app_id = app; login_attempts = 0; world = w }))
